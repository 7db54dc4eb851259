-- ===== src/System/Guarded.antt =====
-- A reset that awaits its recovery: the driver has a saved config space to restore, and no sysmem is
-- offered (driver/reset.c, driver/sysmem.c).
use tt_wind.Base.{ℕ, Bool, true, false, ◌≡◌, ◌⊎◌, inl, inr, refl, ◌∙◌, not}
use tt_wind.Status.{Status}
use tt_wind.Kernel.{Env, Event}
use tt_wind.Context.{Context, World, Sysmem}
use tt_wind.Monad.{M, ◌>>=◌, ◌>>◌, and_then, get_ctx, require, steps, modify_ctx, branch}
use tt_wind.Monad.Keeps.{
  Keeps, Ignores, keeps_rules, Keeps-bind, Keeps-seq, Keeps-with_lock, Keeps-attempt, Keeps-branch,
  Keeps-pure, Keeps-require, Keeps-from_result,
}
use tt_wind.Request.{Request}
use tt_wind.Arc.Ring.{ArcMsg}
use tt_wind.Arc.Locate.{locate_queue}
use tt_wind.Arc.Ioctl.{smc_msg, arc_status}
use tt_wind.Arc.Exchange.{exchange, msg_send_sync, send_checked, power_up, power_down}
use tt_wind.Sysmem.Buffer.{modify_sysmem}
use tt_wind.Sysmem.Arm.{arm_attempt, sysmem_arm, sysmem_invalidate}
use tt_wind.Frame.Firmware.{exchange-Keeps, arm_attempt-Keeps, locate_queue-Keeps}
use tt_wind.Reset.Gate.{Lifted, Lifted-IsControl}
use tt_wind.System.Flags.{IsFlags, down_rule, event_rule}

-- Restricted, with a valid save and no verified sysmem.
pub record Shut (w : World) : Type 0 where
  pub needs : w.ctx.needs_hw_init ≡ true
  pub valid : w.ctx.saved_config_valid ≡ true
  pub down : w.ctx.sysmem.is_verified ≡ false

abbrev pub Guarded : World → Type 0
Guarded w = Lifted w ⊎ Shut w

pub same_flags :
    (w : World) (c : Context)
    → c.needs_hw_init ≡ w.ctx.needs_hw_init
    → c.saved_config_valid ≡ w.ctx.saved_config_valid
    → c.sysmem.is_verified ≡ w.ctx.sysmem.is_verified
    → Guarded w
    → Guarded (record w { ctx = c })
same_flags w c n v d p = elim p [
  | inl l ↦ inl (n ∙ l)
  | inr s ↦ inr (record { needs = n ∙ s.needs; valid = v ∙ s.valid; down = d ∙ s.down })
]

pub Guarded-IsFlags : IsFlags Guarded
Guarded-IsFlags = record {
  events = λ w e p. elim p [
    | inl l ↦ inl l
    | inr s ↦ inr (record { needs = s.needs; valid = s.valid; down = s.down })
  ];
  contexts = λ w c n v d g t p. same_flags w c n v d p;
  unverified = λ w c n v d g t p. elim p [
    | inl l ↦ inl (n ∙ l)
    | inr s ↦ inr (record { needs = n ∙ s.needs; valid = v ∙ s.valid; down = d })
  ];
}

module _ ⦃env : Env⦄ where
  refused :
      {B : Type 0} (b : Bool) (s : Status) (m : M B) (w : World)
      → b ≡ true
      → Guarded w
      → Guarded ((require (not b) s >> m) w).1
  unfolding steps
  refused true s m w e g = g
  refused false s m w e g = cc

  -- What the early return of `if (ctx->NeedsHwInit) return s;` guards runs only without a reset.
  gated-Guarded :
      {B : Type 0} (s : Status) (m : Context → M B)
      → ((c : Context) → Keeps Lifted (m c))
      → Keeps Guarded (get_ctx >>= λ c. require (not c.needs_hw_init) s >> m c)
  unfolding ◌>>=◌ and_then get_ctx
  gated-Guarded s m h = record {
    at = λ w p. elim p [
      | inl l ↦ inl ((Keeps-seq _ _ (Keeps-require (not w.ctx.needs_hw_init) s) (h w.ctx)).at w l)
      | inr q ↦ refused w.ctx.needs_hw_init s (m w.ctx) w q.needs (inr q)
    ];
  }

  Lifted-event : (e : Event) → Ignores Lifted e
  Lifted-event e = record { at = λ w p. p }

  locate_queue-Lifted : Keeps Lifted locate_queue
  locate_queue-Lifted = locate_queue-Keeps Lifted-IsControl

  exchange-Lifted : (m : ArcMsg) → Keeps Lifted (exchange m)
  exchange-Lifted = exchange-Keeps Lifted-IsControl

  attempt-Lifted : Keeps Lifted arm_attempt
  attempt-Lifted = arm_attempt-Keeps Lifted-IsControl

  sysmem-Lifted : (f : Sysmem → Sysmem) → Keeps Lifted (modify_sysmem f)
  unfolding modify_sysmem modify_ctx
  sysmem-Lifted f = record { at = λ w p. p }

  Guarded-event : (e : Event) → Ignores Guarded e
  Guarded-event = event_rule Guarded-IsFlags

  pub msg_send_sync-Guarded : (m : ArcMsg) → Keeps Guarded (msg_send_sync m)
  unfolding msg_send_sync
  msg_send_sync-Guarded m =
      Keeps-with_lock _ _ (Guarded-event _) (Guarded-event _)
        (gated-Guarded _ _ (λ c. Keeps-seq _ _ (Keeps-require _ _) (exchange-Lifted m)))

  send_checked-Guarded : (h : ℕ) → Keeps Guarded (send_checked h)
  unfolding send_checked
  send_checked-Guarded h = search (keeps_rules, msg_send_sync-Guarded) depth 10

  pub power_up-Guarded : Keeps Guarded power_up
  unfolding power_up
  power_up-Guarded = search (keeps_rules, send_checked-Guarded)

  pub power_down-Guarded : Keeps Guarded power_down
  unfolding power_down
  power_down-Guarded = search (keeps_rules, send_checked-Guarded)

  pub sysmem_arm-Guarded : Keeps Guarded sysmem_arm
  unfolding sysmem_arm
  sysmem_arm-Guarded = Keeps-with_lock _ _ (Guarded-event _) (Guarded-event _) (
      Keeps-seq _ _ (down_rule Guarded-IsFlags _ (λ s. refl)) (
        gated-Guarded _ _ (λ c.
          Keeps-bind _ _ (Keeps-attempt _ attempt-Lifted)
            (λ r. Keeps-seq _ _ (sysmem-Lifted _) (Keeps-from_result r)))))

  pub sysmem_invalidate-Guarded : Keeps Guarded sysmem_invalidate
  unfolding sysmem_invalidate
  sysmem_invalidate-Guarded =
      Keeps-with_lock _ _ (Guarded-event _) (Guarded-event _)
        (down_rule Guarded-IsFlags _ (λ s. refl))

  pub smc_msg-Guarded : (r : Request ArcMsg) → Keeps Guarded (smc_msg r)
  unfolding smc_msg
  smc_msg-Guarded r = search (keeps_rules, msg_send_sync-Guarded) depth 12

  branch-Guarded :
      {B : Type 0} (b : Bool) (m n : M B) (w : World)
      → w.ctx.needs_hw_init ≡ b
      → Guarded w
      → Keeps Guarded m
      → Keeps Lifted n
      → Guarded (branch b m n w).1
  unfolding branch
  branch-Guarded true m n w e g km kn = km.at w g
  branch-Guarded false m n w e g km kn = inl (kn.at w e)

  reported :
      {B : Type 0} (m : M B) (n : Context → M B)
      → Keeps Guarded m
      → ((c : Context) → Keeps Lifted (n c))
      → Keeps Guarded (get_ctx >>= λ c. branch c.needs_hw_init m (n c))
  unfolding ◌>>=◌ and_then get_ctx
  reported m n km kn = record {
    at = λ w p. branch-Guarded w.ctx.needs_hw_init m (n w.ctx) w refl p km (kn w.ctx);
  }

  pub arc_status-Guarded : (r : Request (Unit {0})) → Keeps Guarded (arc_status r)
  unfolding arc_status
  arc_status-Guarded r = Keeps-bind _ _ (Keeps-from_result _) (λ _.
      Keeps-with_lock _ _ (Guarded-event _) (Guarded-event _) (
        reported _ _ (Keeps-pure _) (λ c.
          Keeps-branch _ _ _ (Keeps-bind _ _ locate_queue-Lifted (λ l. Keeps-pure _))
            (Keeps-pure _))))
