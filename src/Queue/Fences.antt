-- ===== src/Queue/Fences.antt =====
-- The generation fence and the restriction fence of TtWindEvtIoDeviceControl (driver/queue.c).
use tt_wind.Base.{true, false, ◌&&◌, not, ◌≡◌}
use tt_wind.Status.{fail, device_removed, reinitialization_needed}
use tt_wind.Kernel.{Env}
use tt_wind.Context.{World}
use tt_wind.Monad.{steps}
use tt_wind.Queue.{Ioctl, file_of, is_allowed_restricted, is_stale, dispatch, handle}

module _ ⦃env : Env⦄ where
  pub dispatch_stale :
      (code : Ioctl) (w : World)
      → is_stale w.ctx (file_of code) ≡ true
      → dispatch code w ≡ (fail device_removed, w)
  unfolding dispatch steps
  dispatch_stale code w stale = rw stale

  pub dispatch_restricted :
      (code : Ioctl) (w : World)
      → is_stale w.ctx (file_of code) ≡ false
      → w.ctx.needs_hw_init ≡ true
      → is_allowed_restricted code ≡ false
      → dispatch code w ≡ (fail reinitialization_needed, w)
  unfolding dispatch steps
  dispatch_restricted code w fresh needs refused = rw (fresh, needs, refused)

  pub dispatch_open :
      (code : Ioctl) (w : World)
      → is_stale w.ctx (file_of code) ≡ false
      → (w.ctx.needs_hw_init && not (is_allowed_restricted code)) ≡ false
      → dispatch code w ≡ handle code w
  unfolding dispatch steps
  dispatch_open code w fresh passes = rw (fresh, passes)
