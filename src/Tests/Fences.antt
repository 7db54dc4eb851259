-- ===== src/Tests/Fences.antt =====
-- The theorems on the dispatcher and the reset at concrete requests.
use tt_wind.Base.{◌*◌, ◌<◌, ap, List, ◌∷◌, false, some, [], ◌≡◌, refl, arith}
use tt_wind.Status.{ok, fail, device_removed}
use tt_wind.Monad.{steps}
use tt_wind.Request.{Request, ResetIn}
use tt_wind.Reset.Config.{cfg_read_into, device_present, read_command}
use tt_wind.Reset.Arm.{save_config, prepare_reset, commit_reset, reset_device}
use tt_wind.Reset.Recover.{post_reset}
use tt_wind.Reset.Gate.{Gated, post_reset-gate}
use tt_wind.Reset.Fence.{Armed, reset_device-arms, reset_device-dark}
use tt_wind.Context.{World}
use tt_wind.System.{Callback, suspend, restart, cleanup, create}
use tt_wind.System.Dark.{run_all}
use tt_wind.System.Fenced.Callbacks.{is_opened, run_all-stale}
use tt_wind.Reset.Stale.{reset_device-fences}
use tt_wind.Frame.Quiet.{mmio_log}
use tt_wind.Queue.{Ioctl, allocate_tlb_code, dispatch, is_stale}
use tt_wind.Tests.Sim.{
  sim, fresh, restricted, request, last_written, config_byte, config_bytes, clock,
}

abbrev reset_request : Request ResetIn
reset_request = request (record { flags = 0; reserved = 0 })

post_reset-gate_example : Gated (mmio_log []) (post_reset ⦃env = sim⦄ reset_request restricted)
post_reset-gate_example = post_reset-gate ⦃env = sim⦄ reset_request restricted refl

reset_succeeds : (reset_device ⦃env = sim⦄ reset_request fresh).0 ≡ ok tt
unfolding reset_device save_config prepare_reset commit_reset cfg_read_into device_present
    read_command steps last_written config_byte config_bytes clock
reset_succeeds = refl

reset_device-arms_example :
    Armed (some 7) (fresh.ctx) (reset_device ⦃env = sim⦄ reset_request fresh).1
reset_device-arms_example = reset_device-arms ⦃env = sim⦄ reset_request fresh reset_succeeds

reset_device-dark_example :
    mmio_log (reset_device ⦃env = sim⦄ reset_request fresh).1.log ≡ mmio_log []
reset_device-dark_example = reset_device-dark ⦃env = sim⦄ reset_request fresh

-- A request of handle 8.
abbrev other_code : Ioctl
other_code = allocate_tlb_code (record (request (2 * 1024 * 1024)) { file = some 8 })

reset_device-fences_example :
    (dispatch ⦃env = sim⦄ other_code (reset_device ⦃env = sim⦄ reset_request fresh).1
      ≡ (fail device_removed, (reset_device ⦃env = sim⦄ reset_request fresh).1))
    × (is_stale (reset_device ⦃env = sim⦄ reset_request fresh).1.ctx (some 7) ≡ false)
reset_device-fences_example =
    reset_device-fences ⦃env = sim⦄ reset_request fresh other_code 8 reset_succeeds (omega arith)
      (omega arith) refl refl

-- After the reset of handle 7, handle 8 is refused for good.
abbrev left_behind : World
left_behind = (reset_device ⦃env = sim⦄ reset_request fresh).1

left_behind-generation : left_behind.ctx.reset_generation ≡ 1
left_behind-generation = reset_device-arms_example.1.1.0

left_behind-older : left_behind.ctx.file_generation 8 < left_behind.ctx.reset_generation
left_behind-older =
    omega (arith, left_behind-generation, ap (λ t. t 8) reset_device-arms_example.1.1.1.0)

abbrev later_calls : List Callback
later_calls = suspend ∷ restart ∷ cleanup 7 ∷ create 7 ∷ []

later_calls-others : is_opened 8 later_calls ≡ false
unfolding is_opened
later_calls-others = refl

run_all-stale_example :
    dispatch ⦃env = sim⦄ other_code (run_all ⦃env = sim⦄ later_calls left_behind)
    ≡ (fail device_removed, run_all ⦃env = sim⦄ later_calls left_behind)
run_all-stale_example =
    run_all-stale ⦃env = sim⦄ 8 later_calls left_behind other_code left_behind-older
      (omega (arith, left_behind-generation)) later_calls-others refl
