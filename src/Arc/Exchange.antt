-- ===== src/Arc/Exchange.antt =====
-- One synchronous exchange with the firmware and the power messages (driver/arc.c).
use tt_wind.Base.{ℕ, zero, suc, ◌+◌, ◌*◌, ◌==◌, ◌&&◌, not, ltb, bit_or, ◌<<<◌, replicate}
use tt_wind.Status.{
  status_of, is_busy, reinitialization_needed, device_not_ready, io_timeout, device_protocol_error,
  out_of_fuel,
}
use tt_wind.Kernel.{Env, arc_lock}
use tt_wind.Context.{ArcRoute, axi}
use tt_wind.Monad.{
  branch, case_result, M, ◌>>=◌, ◌>>◌, pure, return_status, require, from_result, attempt, ignore,
  get_ctx, with_lock, delay, query_time,
}
use tt_wind.Arc.Access.{apb_write32_via, msi_fifo_reg, misc_cntl_reg, misc_cntl_irq0}
use tt_wind.Arc.Locate.{Queue, locate_queue}
use tt_wind.Arc.Ring.{ArcMsg, try_push, try_pop}

abbrev pub msg_timeout : ℕ
msg_timeout = 1000 * 10000

abbrev pub msg_fuel : ℕ
msg_fuel = 5002

-- type | validity << 8 | flags << 16
abbrev pub power_setting : ℕ → ℕ
power_setting flags = bit_or (bit_or 0x21 (0x0F <<< 8)) (flags <<< 16)

module _ ⦃env : Env⦄ where
  -- Discard stale responses, at most a ring full.
  unfoldable pub drain : (count : ℕ) → Queue → M (Unit {0})
  drain zero q = pure tt
  drain (suc count) q = do
    r ← attempt (try_pop q)
    case_result r (λ _. drain count q) (λ _. pure tt)

  unfoldable pub ring_doorbell : ArcRoute → M (Unit {0})
  ring_doorbell axi = apb_write32_via axi misc_cntl_reg misc_cntl_irq0
  ring_doorbell route = apb_write32_via route msi_fifo_reg 0

  -- The loop that polls for the response, every 200 microseconds.
  unfoldable pub await_response : (fuel deadline : ℕ) → Queue → M ArcMsg
  await_response zero deadline q = return_status out_of_fuel
  await_response (suc fuel) deadline q = do
    r ← attempt (try_pop q)
    branch (is_busy (status_of r))
        (do
          now ← query_time
          branch (ltb deadline now) (return_status io_timeout)
              (delay 200 >> await_response fuel deadline q))
        (from_result r)

  -- The exchange after the two guards.
  unfoldable pub exchange : ArcMsg → M ArcMsg
  exchange msg = do
    located ← locate_queue
    q ← from_result located.1
    drain q.num_entries q
    try_push msg q
    ctx ← get_ctx
    ring_doorbell ctx.arc_route
    start ← query_time
    await_response msg_fuel (start + msg_timeout) q

  unfoldable pub msg_send_sync : ArcMsg → M ArcMsg
  msg_send_sync msg = with_lock arc_lock (do
    ctx ← get_ctx
    require (not ctx.needs_hw_init) reinitialization_needed
    require (ctx.mapped.kernel_tlb && ctx.mapped.tlb_regs) device_not_ready
    exchange msg)

  unfoldable pub send_checked : (header : ℕ) → M (Unit {0})
  send_checked header = do
    answer ← msg_send_sync (record { header = header; payload = replicate 7 0 })
    require (answer.header == 0) device_protocol_error

  unfoldable pub power_up : M (Unit {0})
  power_up = send_checked 0xA0 >> send_checked (power_setting 0x7FFE)

  unfoldable pub power_down : M (Unit {0})
  power_down = ignore (send_checked (power_setting 0x0000)) >> ignore (send_checked 0xA3)
