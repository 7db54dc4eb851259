-- ===== src/Arc/Locate.antt =====
-- TtWindArcLocateQueue (driver/arc.c): wait until a route answers ready, then read and check the
-- queue control block.
use tt_wind.Base.{
  ℕ, zero, suc, ◌+◌, ◌*◌, Bool, true, false, List, [], ◌∷◌, ◌==◌, ◌!=◌, ◌&&◌, ◌||◌, not, ltb,
  if◌then◌else◌, bit_and, u32, all_ones32,
}
use tt_wind.Status.{
  Result, ok, fail, device_does_not_exist, device_not_ready, not_supported, invalid_address,
  out_of_fuel,
}
use tt_wind.Kernel.{Env}
use tt_wind.Context.{Context, ArcRoute, no_route, noc_low, noc_high, axi}
use tt_wind.Monad.{
  branch, case_result, M, ◌>>=◌, ◌>>◌, pure, attempt, get_ctx, modify_ctx, delay, query_time,
}
use tt_wind.Arc.Access.{
  boot_status_reg, msg_qcb_ptr_reg, csm_base, csm_size, apb_read32_via, csm_read32,
}

-- The boot status per route; what was not probed reads all-1s.
pub record Boot : Type 0 where
  pub low : ℕ
  pub high : ℕ
  pub via_axi : ℕ

abbrev pub unprobed : Boot
unprobed = record { low = all_ones32; high = all_ones32; via_axi = all_ones32 }

abbrev pub set_boot : ArcRoute → ℕ → Boot → Boot
set_boot noc_low v b = record b { low = v }
set_boot noc_high v b = record b { high = v }
set_boot axi v b = record b { via_axi = v }
set_boot no_route v b = b

pub record Queue : Type 0 where
  pub base : ℕ
  pub num_entries : ℕ

-- The fields of TTWIND_ARC_STATUS_OUT that the discovery fills.
pub record ArcReport : Type 0 where
  pub boot : Boot
  pub route : ArcRoute
  pub qcb_ptr : ℕ
  pub queue_base : ℕ
  pub num_entries : ℕ

abbrev pub empty_report : Boot → ArcReport
empty_report boot = record {
  boot = boot;
  route = no_route;
  qcb_ptr = 0;
  queue_base = 0;
  num_entries = 0;
}

-- The locals of the probe loop.
pub record Round : Type 0 where
  pub boot : Boot
  pub found : Bool
  pub all_dead : Bool

abbrev pub route_order : List ArcRoute
route_order = noc_low ∷ noc_high ∷ axi ∷ []

abbrev pub is_live : ℕ → Bool
is_live v = v != all_ones32

abbrev pub is_ready : ℕ → Bool
is_ready v = is_live v && (bit_and v 1 != 0)

-- The AXI route without its mapping is not probed.
abbrev pub is_skipped : Context → ArcRoute → Bool
is_skipped ctx axi = not ctx.mapped.arc_apb_axi
is_skipped ctx _ = false

abbrev pub seen : ArcRoute → ℕ → Round → Round
seen route v r = record {
  boot = set_boot route v r.boot;
  found = is_ready v;
  all_dead = r.all_dead && not (is_live v);
}

abbrev pub ready_timeout : ℕ
ready_timeout = 500 * 10000

abbrev pub ready_fuel : ℕ
ready_fuel = 2502

-- A zero-length queue, or rings that leave the CSM, are refused.
unfoldable pub check_queue : (base num_entries : ℕ) → Result Queue
check_queue base n =
    if n == 0
    then fail not_supported
    else if ltb base csm_base || ltb (csm_base + csm_size) (base + 32 + 2 * n * 32)
    then fail invalid_address
    else ok (record { base = base; num_entries = n })

abbrev pub queue_read : ArcReport → (base num_entries : ℕ) → ArcReport × Result Queue
queue_read report base n =
    (record report { queue_base = base; num_entries = n }, check_queue base n)

module _ ⦃env : Env⦄ where
  unfoldable pub probe_routes : List ArcRoute → Round → M Round
  probe_routes [] r = pure r
  probe_routes (route ∷ rest) r = do
    ctx ← get_ctx
    branch (is_skipped ctx route) (probe_routes rest r) (do
      v ← apb_read32_via route boot_status_reg
      branch (is_ready v)
          (modify_ctx (λ c. record c { arc_route = route }) >> pure (seen route v r))
          (probe_routes rest (seen route v r)))

  -- The loop `for (;;)`: a probe of all routes, then a pause of 200 microseconds.
  unfoldable pub wait_ready : (fuel deadline : ℕ) → Boot → M (Boot × Result (Unit {0}))
  wait_ready zero deadline boot = pure (boot, fail out_of_fuel)
  wait_ready (suc fuel) deadline boot = do
    r ← probe_routes route_order (record { boot = boot; found = false; all_dead = true })
    branch r.found (pure (r.boot, ok tt)) (
        branch r.all_dead (pure (r.boot, fail device_does_not_exist)) (do
          now ← query_time
          branch (ltb deadline now) (pure (r.boot, fail device_not_ready))
              (delay 200 >> wait_ready fuel deadline r.boot)))

  unfoldable pub read_queue : Boot → M (ArcReport × Result Queue)
  read_queue boot = do
    ctx ← get_ctx
    qcb ← apb_read32_via ctx.arc_route msg_qcb_ptr_reg
    let report : ArcReport = record (empty_report boot) { route = ctx.arc_route; qcb_ptr = qcb }
    base ← attempt (csm_read32 qcb)
    case_result base
        (λ b. do
          info ← attempt (csm_read32 (u32 (qcb + 4)))
          case_result info (λ i. pure (queue_read report b (bit_and i 0xFF)))
              (λ s. pure (report, fail s)))
        (λ s. pure (report, fail s))

  -- The report for ARC_STATUS, and the queue or the status.
  unfoldable pub locate_queue : M (ArcReport × Result Queue)
  locate_queue = do
    start ← query_time
    probed ← wait_ready ready_fuel (start + ready_timeout) unprobed
    case_result probed.1 (λ _. read_queue probed.0) (λ s. pure (empty_report probed.0, fail s))
