-- ===== src/Arc/Ioctl.antt =====
-- IOCTL_TTWIND_SMC_MSG and IOCTL_TTWIND_ARC_STATUS (driver/arc.c).
use tt_wind.Base.{Bool, true, false, ◌&&◌}
use tt_wind.Status.{Status, Result, ok, fail, status_of, reinitialization_needed, device_not_ready}
use tt_wind.Kernel.{Env, arc_lock}
use tt_wind.Context.{ArcRoute, no_route}
use tt_wind.Monad.{branch, M, ◌>>=◌, pure, from_result, get_ctx, with_lock}
use tt_wind.Request.{Request}
use tt_wind.Arc.Locate.{ArcReport, Queue, empty_report, locate_queue}
use tt_wind.Arc.Ring.{ArcMsg}
use tt_wind.Arc.Exchange.{msg_send_sync}

-- TTWIND_ARC_STAGE_*.
pub data ArcStage : Type 0 where
  not_started no_boot_ready bad_queue queue_ok : ArcStage

-- TTWIND_ARC_STATUS_OUT.
pub record ArcStatusOut : Type 0 where
  pub stage : ArcStage
  pub last_status : Status
  pub report : ArcReport

abbrev pub has_route : ArcRoute → Bool
has_route no_route = false
has_route _ = true

abbrev pub located_stage : ArcReport × Result Queue → ArcStage
located_stage (report, ok q) = queue_ok
located_stage (report, fail s) = elim (has_route report.route) [
  | true ↦ bad_queue
  | false ↦ no_boot_ready
]

abbrev pub located_report : ArcReport × Result Queue → ArcStatusOut
located_report located = record {
  stage = located_stage located;
  last_status = status_of located.1;
  report = located.0;
}

-- A report that nothing was written to.
abbrev pub zero_report : ArcReport
zero_report = empty_report (record { low = 0; high = 0; via_axi = 0 })

abbrev pub not_started_report : Status → ArcStatusOut
not_started_report s = record { stage = not_started; last_status = s; report = zero_report }

module _ ⦃env : Env⦄ where
  -- The message words of input and output are the header and the payload of `ArcMsg`.
  unfoldable pub smc_msg : Request ArcMsg → M ArcMsg
  smc_msg req = do input ← from_result req.input; _ ← from_result req.output; msg_send_sync input

  unfoldable pub arc_status : Request (Unit {0}) → M ArcStatusOut
  arc_status req = do
    _ ← from_result req.output
    with_lock arc_lock (do
      ctx ← get_ctx
      branch ctx.needs_hw_init (pure (not_started_report reinitialization_needed)) (
          branch (ctx.mapped.kernel_tlb && ctx.mapped.tlb_regs)
            (locate_queue >>= λ located. pure (located_report located))
            (pure (not_started_report device_not_ready))))
