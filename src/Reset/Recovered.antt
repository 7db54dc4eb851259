-- ===== src/Reset/Recovered.antt =====
-- POST_RESET on a card that is back (driver/reset.c).
use tt_wind.Base.{ℕ, Bool, true, false, ◌∷◌, ◌≡◌, refl}
use tt_wind.Status.{Result, ok, fail, io_device_error}
use tt_wind.Kernel.{Env, acquire, Log, arc_lock}
use tt_wind.Context.{World}
use tt_wind.Monad.{
  M, branch, and_then, from_result, as_status, emit, modify_ctx, steps, ◌>>◌, pure, when,
}
use tt_wind.Monad.Outcome.{
  Outcome, tail-Outcome, get_ctx-Outcome, with_lock-Outcome, met-Outcome, given-Outcome,
  weaken-Outcome,
}
use tt_wind.Request.{Request, ResetIn}
use tt_wind.Tlb.Program.{kernel_tlb_sanity_check}
use tt_wind.Reset.Arm.{is_zero_input, is_started}
use tt_wind.Reset.Recover.{lift_restriction, recover, reinitialize, post_reset}
use tt_wind.Reset.Gate.{Lifted, Done, reinitialize-Done}
use tt_wind.Reset.Back.{
  Since, here, later, IsBack, await_device-Ran, restore_saved-Ran, sanity_check-passes,
}

module _ ⦃env : Env⦄ {vendor : ℕ} {old : Log} (back : IsBack env vendor old) where
  checked-Done :
      (r : Result (Unit {0}) × World)
      → r.0 ≡ ok tt
      → Outcome
          (λ v. ⊥)
          (λ b v. Lifted v)
          (and_then
            (and_then
              (and_then (ok r.0, r.1) (λ x. from_result (as_status io_device_error x)))
              (λ _. modify_ctx (λ c. record c { needs_hw_init = false })))
            (λ _. pure true))
  unfolding steps
  checked-Done (ok a, v) e = refl
  checked-Done (fail s, v) e = absurd cc

  lift-Done : (w : World) → Outcome (λ v. ⊥) (λ b v. Lifted v) ((lift_restriction >> pure true) w)
  unfolding lift_restriction steps
  lift-Done w = checked-Done (kernel_tlb_sanity_check w) (sanity_check-passes back w)

  needed-Done :
      (b : Bool) (m : M Bool) (w : World)
      → (b ≡ false → Lifted w)
      → Outcome (λ v. ⊥) (λ b v. Lifted v) (m w)
      → Outcome (λ v. ⊥) (λ b v. Lifted v) (branch b m (pure false) w)
  unfolding branch pure
  needed-Done true m w h o = o
  needed-Done false m w h o = h refl

  recover-Done :
      (w : World)
      → Since old w.log
      → w.ctx.identity.vendor_id ≡ vendor
      → w.ctx.mapped.tlb_regs ≡ true
      → w.ctx.mapped.kernel_tlb ≡ true
      → w.ctx.saved_config_valid ≡ true
      → Outcome (λ v. ⊥) (λ b v. Lifted v) (recover w)
  unfolding recover ◌>>◌
  recover-Done w s e t k c = get_ctx-Outcome _ _ _ w (
      needed-Done _ _ w (λ n. n)
        (met-Outcome _ _ _ _ _ w (rw (t, k, c) refl) (
          tail-Outcome _ _ (λ _ _. Unit {0}) _ _ w (await_device-Ran back w s e)
            (λ _ v _.
              tail-Outcome _ _ (λ _ _. Unit {0}) _ _ v (restore_saved-Ran back v)
                (λ _ u _. lift-Done u)))))

  recovery-Done : (b : Bool) (w : World) → Lifted w → Done (when b reinitialize w)
  unfolding when pure
  recovery-Done true w d = reinitialize-Done w d
  recovery-Done false w d = d

succeeds :
    (r : Result (Unit {0}) × World) → Done r → (r.0 ≡ ok tt) × (r.1.ctx.needs_hw_init ≡ false)
succeeds (ok a, w) d = (refl, d)
succeeds (fail s, w) d = absurd d

-- When the card is back, POST_RESET with an input of zeros on a started device whose registers are
-- mapped and whose saved config space is valid succeeds, and no reset awaits its recovery any more,
-- whatever the firmware answers.
pub post_reset-recovers :
    ⦃env : Env⦄ (req : Request ResetIn) (input : ResetIn) (w : World)
    → IsBack env (w.ctx.identity.vendor_id) w.log
    → req.input ≡ ok input
    → is_zero_input input ≡ true
    → is_started w.ctx ≡ true
    → w.ctx.mapped.tlb_regs ≡ true
    → w.ctx.mapped.kernel_tlb ≡ true
    → w.ctx.saved_config_valid ≡ true
    → ((post_reset req w).0 ≡ ok tt) × ((post_reset req w).1.ctx.needs_hw_init ≡ false)
unfolding post_reset emit
post_reset-recovers req input w back i z s t k c = succeeds _ (
    given-Outcome _ _ _ input _ w i (
      met-Outcome _ _ _ _ _ w z (
        get_ctx-Outcome _ _ _ w (
          met-Outcome _ _ _ _ _ w s (
            tail-Outcome _ _ (λ b v. Lifted v) _ _ w
              (with_lock-Outcome _ _ arc_lock _ w (
                weaken-Outcome {B = Bool} (λ v. ⊥) _ (λ b v. Lifted v)
                  (recover (record w { log = acquire arc_lock ∷ w.log }))
                  (recover-Done back _ (later (acquire arc_lock) w.log refl here) refl t k c)
                  (λ b v q. q)))
              (λ b v q. recovery-Done back b v q))))))
