-- ===== src/Reset/Fence.antt =====
-- What a RESET_DEVICE that succeeds has done (driver/reset.c).
use tt_wind.Base.{
  ℕ, ◌+◌, Bool, true, false, Option, none, some, List, ◌∷◌, ◌≡◌, refl, sym, ap, ap₂, u64, not,
  update,
}
use tt_wind.Status.{ok}
use tt_wind.Kernel.{Env, Event, state_lock, release, arc_lock, cfg_write}
use tt_wind.Context.{Context, World}
use tt_wind.Monad.{◌>>=◌, ◌>>◌, pure, get_ctx, steps, with_lock}
use tt_wind.Monad.Keeps.{Keeps, keeps_rules, Ignores, Overlooks}
use tt_wind.Monad.OnOk.{
  OnOk, bind-OnOk, frame-OnOk, require-OnOk, result-OnOk, get_ctx-OnOk, with_lock-OnOk,
  returned-OnOk,
}
use tt_wind.Request.{Request, ResetIn}
use tt_wind.Mapping.Table.{reclaim_windows}
use tt_wind.Reset.Config.{cfg_read_into, device_present, read_command}
use tt_wind.Reset.Arm.{
  has_mappings, save_config, prepare_reset, commit_reset, reset_device, ifc_timer_target_off,
  ifc_timer_control_off,
}
use tt_wind.Frame.Quiet.{mmio_log, Quiet-IsDark, reset_device-Keeps}

-- The table of the generations after the fence: only the resetting handle's entry is new.
abbrev pub carried : Option ℕ → ℕ → (ℕ → ℕ) → ℕ → ℕ
carried none g t = t
carried (some f) g t = update t f g

-- The end of the log: the two timer writes, the control write after the target, and the release.
abbrev pub Fires : World → Type 0
Fires w =
    (l : List Event) × (w.log
      ≡ release arc_lock
        ∷ cfg_write ifc_timer_control_off 0x11 4
        ∷ cfg_write ifc_timer_target_off 0x1 4
        ∷ l)

abbrev pub Armed : Option ℕ → Context → World → Type 0
Armed file old w =
    (w.ctx.needs_hw_init ≡ true)
    × ((w.ctx.sysmem.is_verified ≡ false)
        × ((w.ctx.reset_generation ≡ u64 (old.reset_generation + 1))
            × ((w.ctx.file_generation
                  ≡ carried file (u64 (old.reset_generation + 1)) old.file_generation)
                × ((w.ctx.shared ≡ reclaim_windows old.shared)
                    × ((has_mappings old.shared.mapping_list ≡ false) × Fires w)))))

-- The control state that the preparation leaves alone.
abbrev Prepared : Context → World → Type 0
Prepared old w =
    (w.ctx.reset_generation ≡ old.reset_generation)
    × ((w.ctx.file_generation ≡ old.file_generation) × (w.ctx.shared ≡ old.shared))

module _ ⦃env : Env⦄ (old : Context) where
  Prepared-event : (e : Event) → Ignores (Prepared old) e
  Prepared-event e = record { at = λ w p. p }

  Prepared-saved : (s : List ℕ) → Overlooks (Prepared old) (λ c. record c { saved_config = s })
  Prepared-saved s = record { at = λ w p. p }

  Prepared-valid : (b : Bool) → Overlooks (Prepared old) (λ c. record c { saved_config_valid = b })
  Prepared-valid b = record { at = λ w p. p }

  prepare_reset-Prepared : Keeps (Prepared old) prepare_reset
  unfolding prepare_reset save_config device_present read_command cfg_read_into
  prepare_reset-Prepared =
      search (keeps_rules, Prepared-event, Prepared-saved, Prepared-valid) depth 24

  commit_reset-Armed :
      (file : Option ℕ) (w : World)
      → has_mappings old.shared.mapping_list ≡ false
      → Prepared old w
      → OnOk
          (λ _ w'. Armed file old (record w' { log = release arc_lock ∷ w'.log }))
          (commit_reset file w)
  unfolding commit_reset steps
  commit_reset-Armed none w h p = returned-OnOk _ _ (
    refl,
    (refl, (ap (λ g. u64 (g + 1)) p.0, (p.1.0, (ap reclaim_windows p.1.1, (h, (_, refl)))))),
  )
  commit_reset-Armed (some f) w h p =
      let generation = ap (λ g. u64 (g + 1)) p.0 in
      let table = ap₂ (λ t g. update t f (u64 (g + 1))) p.1.0 p.0 in
      returned-OnOk _ _
        (refl, (refl, (generation, (table, (ap reclaim_windows p.1.1, (h, (_, refl)))))))

module _ ⦃env : Env⦄ where
  -- The test under StateLock.
  busy-OnOk :
      (w : World)
      → OnOk
          (λ b w'. (b ≡ has_mappings w.ctx.shared.mapping_list) × (w'.ctx ≡ w.ctx))
          (with_lock state_lock (get_ctx >>= λ c. pure (has_mappings c.shared.mapping_list)) w)
  unfolding steps
  busy-OnOk w = returned-OnOk _ _ (refl, refl)

  free_of : (b c : Bool) → b ≡ c → not b ≡ true → c ≡ false
  free_of true c e h = cc
  free_of false c e h = sym e

  reset_device-OnOk :
      (req : Request ResetIn) (w : World) → OnOk (λ _. Armed req.file w.ctx) (reset_device req w)
  unfolding reset_device ◌>>◌
  reset_device-OnOk req w = result-OnOk _ _ w (λ input _. require-OnOk _ _ _ w (λ _.
      get_ctx-OnOk _ w (
        require-OnOk _ _ _ w (λ _. bind-OnOk _ _ w (busy-OnOk w) (λ b w1 r.
          require-OnOk _ _ _ w1 (λ idle. with_lock-OnOk arc_lock _ w1 (
            frame-OnOk _ _ _ (prepare_reset-Prepared w.ctx)
              (
                ap (λ c. c.reset_generation) r.1,
                (ap (λ c. c.file_generation) r.1, ap (λ c. c.shared) r.1),
              )
              (λ _ w2 p. commit_reset-Armed w.ctx req.file w2 (free_of b _ r.0 idle) p))))))))

  -- A RESET_DEVICE that succeeds found no mapping, and it leaves: the restriction set, the sysmem
  -- not verified, the generation one higher (mod 2 ^ 64), of the handles' generations only that of
  -- the request's handle changed, to the new one, all TLB windows back in the allocator; and the
  -- last accesses of its log are the writes of the timer's target and of its control register.
  pub reset_device-arms :
      (req : Request ResetIn) (w : World)
      → (reset_device req w).0 ≡ ok tt
      → Armed req.file w.ctx (reset_device req w).1
  reset_device-arms req w = (reset_device-OnOk req w).at tt

  -- RESET_DEVICE accesses no device memory, with whatever status it ends.
  pub reset_device-dark :
      (req : Request ResetIn) (w : World) → mmio_log (reset_device req w).1.log ≡ mmio_log w.log
  reset_device-dark req w = (reset_device-Keeps (Quiet-IsDark (mmio_log w.log)) req).at w refl
