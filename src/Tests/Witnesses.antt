-- ===== src/Tests/Witnesses.antt =====
-- The theorems at concrete inputs.
use tt_wind.Base.{◌+◌, ◌*◌, ◌^◌, ◌≤◌, ◌<◌, true, [], ◌∷◌, ◌≡◌, ◌≢◌, refl, arith, ◌%◌}
use tt_wind.Status.{ok, fail, out_of_fuel}
use tt_wind.Context.{NocTlbConfig, zero_config}
use tt_wind.Arc.Access.{is_csm_word}
use tt_wind.Arc.Locate.{Queue, check_queue}
use tt_wind.Arc.Ring.{ArcMsg, occupancy, advance}
use tt_wind.Arc.Ring.Bounds.{check_queue-slots, request_word, response_word}
use tt_wind.Arc.Ring.Counters.{occupancy_counts, occupancy_miscounts}
use tt_wind.Arc.Exchange.{msg_send_sync}
use tt_wind.Arc.Bounded.{msg_send_sync-returns}
use tt_wind.Tlb.Pack.{pack_tlb_2m}
use tt_wind.Tlb.Layout.{value, layout, InRange, pack-layout}
use tt_wind.Tests.Sim.{sim, fresh}
use tt_wind.Tests.Machine.{sim-IsClock}

abbrev two_slots : Queue
two_slots = record { base = 0x10001000; num_entries = 2 }

accepted : check_queue 0x10001000 2 ≡ ok two_slots
unfolding check_queue
accepted = refl

check_queue-slots_example :
    (is_csm_word (request_word two_slots 3 7) ≡ true)
    × ((is_csm_word (response_word two_slots 2 0) ≡ true)
        × ((request_word two_slots 3 7 + 4 ≤ response_word two_slots 2 0)
            × (0x10001020 ≤ request_word two_slots 3 7)))
check_queue-slots_example =
    check_queue-slots 0x10001000 2 two_slots 3 2 7 0 accepted refl (omega arith) (omega arith)

-- A ring of four from which six messages were taken, with three waiting: the pointers are 1 and 6.
occupancy_counts_example :
    (occupancy ((6 + 3) % (2 * 4)) (6 % (2 * 4)) 4 ≡ 3)
    × (advance (6 % (2 * 4)) 4 ≡ (6 + 1) % (2 * 4))
    × (6 % (2 * 4) % 4 ≡ 6 % 4)
occupancy_counts_example = occupancy_counts 4 (2 ^ 29) 6 3 refl (omega arith) (omega arith)

-- Six entries: the writer's pointer has gone round to 2, the reader's is 9, and the count is not 5.
occupancy_miscounts_example : occupancy 2 9 6 ≢ 5
occupancy_miscounts_example =
    occupancy_miscounts 6 2 9 odd (omega arith) (omega arith) (omega arith)
  where
    odd : 2 ^ 32 % 12 ≢ 0
    odd e = omega arith

abbrev arc_window : NocTlbConfig
arc_window = record zero_config { addr = 0x80000000; x_end = 8; ordering = 1 }

arc_window-InRange : InRange arc_window
arc_window-InRange = record {
  addr = omega arith;
  x_end = omega arith;
  y_end = omega arith;
  x_start = omega arith;
  y_start = omega arith;
  noc = omega arith;
  mcast = omega arith;
  ordering = omega arith;
  linked = omega arith;
  static_vc = omega arith;
}

pack-layout_example :
    (value (pack_tlb_2m arc_window) ≡ layout arc_window) × (layout arc_window < 2 ^ 74)
pack-layout_example = pack-layout arc_window arc_window-InRange

abbrev hello : ArcMsg
hello = record { header = 0x90; payload = 1 ∷ 2 ∷ 3 ∷ 4 ∷ 5 ∷ 6 ∷ 7 ∷ [] }

msg_send_sync-returns_example : (msg_send_sync ⦃env = sim⦄ hello fresh).0 ≢ fail out_of_fuel
msg_send_sync-returns_example = msg_send_sync-returns ⦃env = sim⦄ sim-IsClock hello fresh
