-- ===== src/Reset/Gate.antt =====
-- The order of the phases of POST_RESET (driver/reset.c): nothing touches device memory before
-- the MMIO gate, and only its passing lifts the restriction.
use tt_wind.Base.{ℕ, zero, suc, Bool, true, false, ◌≡◌, ◌⊎◌, inl, inr, refl}
use tt_wind.Status.{Status, Result, ok, fail, io_device_error}
use tt_wind.Kernel.{Env, Log, arc_lock, release}
use tt_wind.Context.{World}
use tt_wind.Monad.{
  M, and_then, ◌>>=◌, ◌>>◌, pure, require, from_result, attempt, ignore, get_ctx, modify_ctx,
  with_lock, when, branch, delay, emit, steps,
}
use tt_wind.Monad.Keeps.{
  Keeps, Keeps-bind, Keeps-seq, Keeps-require, Keeps-get_ctx, Keeps-from_result, Keeps-modify_ctx,
}
use tt_wind.Monad.Outcome.{Outcome}
use tt_wind.Request.{Request, ResetIn}
use tt_wind.Tlb.Program.{kernel_tlb_sanity_check}
use tt_wind.Sysmem.Arm.{sysmem_arm}
use tt_wind.Reset.Config.{restore_loop, restore_config}
use tt_wind.Reset.Recover.{
  await_device, restore_saved, lift_restriction, recover, power_up_tries, reinitialize, post_reset,
  powerup_tries,
}
use tt_wind.Frame.Firmware.{
  IsControl, kernel_tlb_sanity_check-Keeps, power_up-Keeps, sysmem_arm-Keeps,
}
use tt_wind.Frame.Quiet.{
  IsDark, Dark, Dark-IsDark, Restricted, mmio_log, quiet_rules, saved_rule, cfg_read_into-Keeps,
  device_present-Keeps, read_command-Keeps,
}

-- How a recovery that began in the dark may end: restricted after a failure, with no access to
-- device memory unless the gate itself failed; not restricted after a success.
abbrev pub Gated : {A : Type 0} → Log → Result A × World → Type 0
Gated l (ok a, w) = w.ctx.needs_hw_init ≡ false
Gated l (fail s, w) = (w.ctx.needs_hw_init ≡ true) × ((s ≡ io_device_error) ⊎ (mmio_log w.log ≡ l))

module _ ⦃env : Env⦄ {P : World → Type 0} (k : IsDark P) where
  restore_loop-Keeps : (n i : ℕ) (saved : _) (done : Bool) → Keeps P (restore_loop n i saved done)
  unfolding restore_loop
  restore_loop-Keeps zero i saved done = search quiet_rules
  restore_loop-Keeps (suc n) i saved done = search (quiet_rules, restore_loop-Keeps n) depth 10

  restore_config-Keeps : (saved : _) → Keeps P (restore_config saved)
  unfolding restore_config
  restore_config-Keeps saved = search (quiet_rules, restore_loop-Keeps) depth 10

  await_device-Keeps : Keeps P await_device
  unfolding await_device
  await_device-Keeps =
      search
        (quiet_rules, saved_rule, cfg_read_into-Keeps, device_present-Keeps, read_command-Keeps)
        depth 12

  restore_saved-Keeps : Keeps P restore_saved
  unfolding restore_saved
  restore_saved-Keeps = Keeps-bind _ _ Keeps-get_ctx (λ c.
      Keeps-bind _ _ (restore_config-Keeps _) (λ b. Keeps-seq _ _ (Keeps-require b _) (
        Keeps-bind _ _ (cfg_read_into-Keeps k _ _ _)
          (λ r. Keeps-modify_ctx _ (saved_rule k r.buffer)))))

module _ {A B : Type 0} (l : Log) where
  and_then-Gated :
      (r : Result A × World) (f : A → M B)
      → Dark l r.1
      → ((a : A) (w : World) → Dark l w → Gated l (f a w))
      → Gated l (and_then r f)
  unfolding and_then
  and_then-Gated (ok a, w) f d h = h a w d
  and_then-Gated (fail s, w) f d h = (d.1, inr d.0)

  bind-Gated :
      (m : M A) (f : A → M B) (w : World)
      → Keeps (Dark l) m
      → Dark l w
      → ((a : A) (w' : World) → Dark l w' → Gated l (f a w'))
      → Gated l ((m >>= f) w)
  unfolding ◌>>=◌
  bind-Gated m f w km d h = and_then-Gated (m w) f (km.at w d) h

-- The gate: a failure of the sanity check becomes io_device_error.
module _ (l : Log) where
  gate-Gated :
      (r : Result (Unit {0}) × World)
      → Restricted r.1
      → Gated l (
          and_then
            (and_then
              (and_then
                (ok r.0, r.1)
                (λ x. from_result (elim x [ ok a ↦ ok a | fail _ ↦ fail io_device_error ])))
              (λ _. modify_ctx (λ c. record c { needs_hw_init = false })))
            (λ _. pure true))
  unfolding steps
  gate-Gated (ok a, w) d = refl
  gate-Gated (fail s, w) d = (d, inl refl)

Restricted-IsControl : IsControl Restricted
Restricted-IsControl = record {
  events = λ e n. record { at = λ w p. p };
  routes = λ r. record { at = λ w p. p };
  sysmems = λ f. record { at = λ w p. p };
}

abbrev pub Lifted : World → Type 0
Lifted w = w.ctx.needs_hw_init ≡ false

pub Lifted-IsControl : IsControl Lifted
Lifted-IsControl = record {
  events = λ e n. record { at = λ w p. p };
  routes = λ r. record { at = λ w p. p };
  sysmems = λ f. record { at = λ w p. p };
}

abbrev pub Done : {A : Type 0} → Result A × World → Type 0
Done r = Outcome (λ w. ⊥) (λ a. Lifted) r

module _ ⦃env : Env⦄ where
  lift-Gated : (l : Log) (w : World) → Restricted w → Gated l ((lift_restriction >> pure true) w)
  unfolding lift_restriction steps
  lift-Gated l w d =
      gate-Gated l (kernel_tlb_sanity_check w)
        ((kernel_tlb_sanity_check-Keeps Restricted-IsControl).at w d)

  attempt_recovery-Gated :
      (l : Log) (s : Status) (b : Bool) (w : World)
      → Dark l w
      → Gated l
          ((require b s >> (await_device >> (restore_saved >> (lift_restriction >> pure true)))) w)
  unfolding ◌>>◌
  attempt_recovery-Gated l s b w d = bind-Gated l _ _ w (Keeps-require b s) d (λ _ w1 d1.
      bind-Gated l _ _ w1 (await_device-Keeps (Dark-IsDark l)) d1 (λ _ w2 d2.
        bind-Gated l _ _ w2 (restore_saved-Keeps (Dark-IsDark l)) d2
          (λ _ w3 d3. lift-Gated l w3 d3.1)))

  branch-Gated :
      (l : Log) (b : Bool) (m n : M Bool) (w : World)
      → b ≡ true
      → Gated l (m w)
      → Gated l (branch b m n w)
  unfolding branch
  branch-Gated l true m n w h g = g
  branch-Gated l false m n w h g = cc

  recover-Gated : (l : Log) (w : World) → Dark l w → Gated l (recover w)
  unfolding recover ◌>>=◌ and_then get_ctx
  recover-Gated l w d = branch-Gated l _ _ _ w d.1 (attempt_recovery-Gated l _ _ w d)

  -- The steps after the gate: they report no failure and leave the restriction lifted.
  branch-Done :
      {A : Type 0} (b : Bool) (m n : M A) (w : World)
      → Done (m w)
      → Done (n w)
      → Done (branch b m n w)
  unfolding branch
  branch-Done true m n w h g = h
  branch-Done false m n w h g = g

  power_up_tries-Done : (n : ℕ) (w : World) → Lifted w → Done (power_up_tries n w)
  unfolding power_up_tries ◌>>=◌ ◌>>◌ and_then attempt pure delay emit
  power_up_tries-Done zero w d = d
  power_up_tries-Done (suc n) w d =
      let d' = (power_up-Keeps Lifted-IsControl).at w d in
      branch-Done _ _ _ _ d' (power_up_tries-Done n _ d')

  ignore-Done : {A : Type 0} (m : M A) (w : World) → Lifted (m w).1 → Done (ignore m w)
  unfolding steps
  ignore-Done m w d = d

  and_then-Done :
      (r : Result (Unit {0}) × World) (m : M (Unit {0}))
      → Done r
      → ((w : World) → Lifted w → Done (m w))
      → Done (and_then r (λ _. m))
  unfolding and_then
  and_then-Done (ok a, w) m d h = h w d
  and_then-Done (fail s, w) m d h = d

  pub reinitialize-Done : (w : World) → Lifted w → Done (reinitialize w)
  unfolding reinitialize ◌>>◌ ◌>>=◌
  reinitialize-Done w d =
      and_then-Done _ _ (power_up_tries-Done powerup_tries w d)
        (λ w' d'. ignore-Done sysmem_arm w' ((sysmem_arm-Keeps Lifted-IsControl).at w' d'))

  Done-Gated : (l : Log) (r : Result (Unit {0}) × World) → Done r → Gated l r
  Done-Gated l (ok a, w) d = d
  Done-Gated l (fail s, w) d = elim d [ ]

  -- The lock's events and the tail of the handler.
  locked-Gated :
      (l : Log) (r : Result Bool × World)
      → Gated l r
      → Gated l (
          and_then
            (and_then (ok r.0, r.1) (λ x. emit (release arc_lock) >> from_result x))
            (λ recovered. when recovered reinitialize))
  unfolding steps mmio_log
  locked-Gated l (ok true, w) d = Done-Gated l _ (reinitialize-Done _ d)
  locked-Gated l (ok false, w) d = d
  locked-Gated l (fail s, w) d = d

  recovery-Gated :
      (l : Log) (w : World)
      → Dark l w
      → Gated l ((with_lock arc_lock recover >>= λ recovered. when recovered reinitialize) w)
  unfolding with_lock ◌>>◌ ◌>>=◌ and_then emit attempt mmio_log
  recovery-Gated l w d = locked-Gated l _ (recover-Gated l _ d)

  post_reset-Gated :
      (req : Request ResetIn) (l : Log) (w : World) → Dark l w → Gated l (post_reset req w)
  unfolding post_reset ◌>>◌
  post_reset-Gated req l w d = bind-Gated l _ _ w (Keeps-from_result _) d (λ input w1 d1.
      bind-Gated l _ _ w1 (Keeps-require _ _) d1 (λ _ w2 d2.
        bind-Gated l _ _ w2 Keeps-get_ctx d2 (λ ctx w3 d3.
          bind-Gated l _ _ w3 (Keeps-require _ _) d3 (λ _ w4 d4. recovery-Gated l w4 d4))))

  -- POST_RESET on a restricted device: when it succeeds the restriction is lifted; when it fails
  -- the restriction is in force, and device memory was accessed only if the failure is that of
  -- the sanity check behind the kernel window, STATUS_IO_DEVICE_ERROR.
  pub post_reset-gate :
      (req : Request ResetIn) (w : World)
      → w.ctx.needs_hw_init ≡ true
      → Gated (mmio_log w.log) (post_reset req w)
  post_reset-gate req w needs = post_reset-Gated req (mmio_log w.log) w (refl, needs)
