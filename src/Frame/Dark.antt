-- ===== src/Frame/Dark.antt =====
-- What runs while NeedsHwInit is set: the dispatcher (driver/queue.c), the firmware messages
-- (driver/arc.c), the sysmem bring-up (driver/sysmem.c) and the power callbacks.
use tt_wind.Base.{ℕ, Bool, true, false, not, ◌≡◌, refl}
use tt_wind.Status.{Status}
use tt_wind.Kernel.{Env}
use tt_wind.Context.{Context, World}
use tt_wind.Monad.{M, ◌>>=◌, ◌>>◌, get_ctx, require, steps, and_then}
use tt_wind.Monad.Keeps.{Keeps, Keeps-with_lock, keeps_rules}
use tt_wind.Request.{Request}
use tt_wind.Arc.Ring.{ArcMsg}
use tt_wind.Arc.Exchange.{msg_send_sync, send_checked, power_up, power_down}
use tt_wind.Sysmem.Arm.{sysmem_arm, sysmem_invalidate}
use tt_wind.Sysmem.Buffer.{modify_sysmem}
use tt_wind.Sysmem.Ioctl.{query_sysmem}
use tt_wind.Device.Power.{self_managed_io_init, self_managed_io_suspend}
use tt_wind.Queue.{get_device_info}
use tt_wind.Frame.Quiet.{IsDark, quiet_rules, acquire_rule, release_rule}

module _ ⦃env : Env⦄ {P : World → Type 0} (k : IsDark P) where
  refused-Keeps :
      {B : Type 0} (b : Bool) (s : Status) (m : M B) (w : World)
      → b ≡ true
      → P w
      → P ((require (not b) s >> m) w).1
  unfolding steps
  refused-Keeps true s m w h p = p
  refused-Keeps false s m w h p = cc

  -- The early return of `if (ctx->NeedsHwInit) return s;` cuts off what follows.
  gated-Keeps :
      {B : Type 0} (s : Status) (m : Context → M B)
      → ((w : World) → P w → w.ctx.needs_hw_init ≡ true)
      → Keeps P (get_ctx >>= λ c. require (not c.needs_hw_init) s >> m c)
  unfolding ◌>>=◌ and_then get_ctx
  gated-Keeps s m h = record {
    at = λ w p. refused-Keeps w.ctx.needs_hw_init s (m w.ctx) w (h w p) p;
  }

  modify_sysmem-quiet : (f : _) → Keeps P (modify_sysmem f)
  unfolding modify_sysmem steps
  modify_sysmem-quiet f = record { at = λ w p. k.contexts w _ refl p }

  module _ (dark : (w : World) → P w → w.ctx.needs_hw_init ≡ true) where
    pub msg_send_sync-quiet : (msg : ArcMsg) → Keeps P (msg_send_sync msg)
    unfolding msg_send_sync
    msg_send_sync-quiet msg =
        Keeps-with_lock _ _ (acquire_rule k _) (release_rule k _) (gated-Keeps _ _ dark)

    send_checked-quiet : (h : ℕ) → Keeps P (send_checked h)
    unfolding send_checked
    send_checked-quiet h = search (keeps_rules, msg_send_sync-quiet) depth 10

    power_up-quiet : Keeps P power_up
    unfolding power_up
    power_up-quiet = search (keeps_rules, send_checked-quiet)

    power_down-quiet : Keeps P power_down
    unfolding power_down
    power_down-quiet = search (keeps_rules, send_checked-quiet)

    pub sysmem_arm-quiet : Keeps P sysmem_arm
    unfolding sysmem_arm
    sysmem_arm-quiet =
        Keeps-with_lock _ _ (acquire_rule k _) (release_rule k _)
          (search (keeps_rules, modify_sysmem-quiet, gated-Keeps _ _ dark))

    pub self_managed_io_init-quiet : Keeps P self_managed_io_init
    unfolding self_managed_io_init
    self_managed_io_init-quiet = search (keeps_rules, power_up-quiet, sysmem_arm-quiet)

    sysmem_invalidate-quiet : Keeps P sysmem_invalidate
    unfolding sysmem_invalidate
    sysmem_invalidate-quiet = search (quiet_rules, modify_sysmem-quiet)

    pub self_managed_io_suspend-quiet : Keeps P self_managed_io_suspend
    unfolding self_managed_io_suspend
    self_managed_io_suspend-quiet = search (keeps_rules, power_down-quiet, sysmem_invalidate-quiet)

  pub query_sysmem-quiet : (r : Request (Unit {0})) → Keeps P (query_sysmem r)
  unfolding query_sysmem
  query_sysmem-quiet r = search quiet_rules depth 12

  pub get_device_info-quiet : (r : Request (Unit {0})) → Keeps P (get_device_info r)
  unfolding get_device_info
  get_device_info-quiet r = search quiet_rules depth 12
