-- ===== src/Reset/Recover.antt =====
-- IOCTL_TTWIND_POST_RESET (driver/reset.c).
use tt_wind.Base.{◌||◌, ℕ, zero, suc, ◌*◌, Bool, true, false, ◌==◌, ◌&&◌, bit_and}
use tt_wind.Status.{
  is_ok, invalid_parameter, device_not_ready, device_busy, device_does_not_exist, device_data_error,
  io_device_error,
}
use tt_wind.Kernel.{Env, arc_lock}
use tt_wind.Context.{pci_cfg_save_bytes}
use tt_wind.Monad.{
  branch, when, M, ◌>>=◌, ◌>>◌, pure, require, from_result, attempt, ignore, or_status, get_ctx,
  modify_ctx, with_lock, delay,
}
use tt_wind.Request.{Request, ResetIn}
use tt_wind.Tlb.Program.{kernel_tlb_sanity_check}
use tt_wind.Arc.Exchange.{power_up}
use tt_wind.Sysmem.Arm.{sysmem_arm}
use tt_wind.Reset.Config.{cmd_parity, cfg_read_into, device_present, read_command, restore_config}
use tt_wind.Reset.Arm.{is_zero_input, is_started}

abbrev pub powerup_tries : ℕ
powerup_tries = 5

abbrev pub powerup_retry_ms : ℕ
powerup_retry_ms = 1000

module _ ⦃env : Env⦄ where
  -- PROBE and MARKER: the device answers and its marker bit is clear.
  unfoldable pub await_device : M (Unit {0})
  await_device = do
    present ← device_present
    require present device_does_not_exist
    command ← read_command device_does_not_exist
    require (bit_and command cmd_parity == 0) device_busy

  -- RESTORE: the saved config space, and a fresh save; a short read of that is no failure.
  unfoldable pub restore_saved : M (Unit {0})
  restore_saved = do
    ctx ← get_ctx
    restored ← restore_config ctx.saved_config
    require restored device_data_error
    r ← cfg_read_into 0 ctx.saved_config pci_cfg_save_bytes
    modify_ctx (λ c. record c { saved_config = r.buffer })

  -- MMIO GATE and UNRESTRICT.
  unfoldable pub lift_restriction : M (Unit {0})
  lift_restriction = do
    or_status kernel_tlb_sanity_check io_device_error
    modify_ctx (λ c. record c { needs_hw_init = false })

  -- The part under ArcLock; whether a recovery took place.
  unfoldable pub recover : M Bool
  recover = do
    ctx ← get_ctx
    branch ctx.needs_hw_init
        (do
          require (ctx.mapped.tlb_regs && (ctx.mapped.kernel_tlb && ctx.saved_config_valid))
              device_not_ready
          await_device
          restore_saved
          lift_restriction
          pure true)
        (pure false)

  unfoldable pub power_up_tries : (left : ℕ) → M (Unit {0})
  power_up_tries zero = pure tt
  power_up_tries (suc left) = do
    r ← attempt power_up
    branch (is_ok r || (left == 0)) (pure tt)
        (delay (powerup_retry_ms * 1000) >> power_up_tries left)

  -- RE-INIT, without a failure.
  unfoldable pub reinitialize : M (Unit {0})
  reinitialize = power_up_tries powerup_tries >> ignore sysmem_arm

  unfoldable pub post_reset : Request ResetIn → M (Unit {0})
  post_reset req = do
    input ← from_result req.input
    require (is_zero_input input) invalid_parameter
    ctx ← get_ctx
    require (is_started ctx) device_not_ready
    recovered ← with_lock arc_lock recover
    when recovered reinitialize
