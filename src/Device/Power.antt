-- ===== src/Device/Power.antt =====
-- The SelfManagedIo callbacks (driver/arc.c); all of them return success.
use tt_wind.Kernel.{Env}
use tt_wind.Monad.{M, ◌>>◌, ignore}
use tt_wind.Arc.Exchange.{power_up, power_down}
use tt_wind.Sysmem.Arm.{sysmem_arm, sysmem_invalidate}

module _ ⦃env : Env⦄ where
  unfoldable pub self_managed_io_init : M (Unit {0})
  self_managed_io_init = ignore power_up >> ignore sysmem_arm

  unfoldable pub self_managed_io_restart : M (Unit {0})
  self_managed_io_restart = self_managed_io_init

  unfoldable pub self_managed_io_suspend : M (Unit {0})
  self_managed_io_suspend = sysmem_invalidate >> power_down
