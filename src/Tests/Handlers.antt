-- ===== src/Tests/Handlers.antt =====
-- The theorems on the handlers and on the driver as a whole at concrete requests.
use tt_wind.Base.{
  ◌<◌, subst, ap, ◌^◌, ℕ, ◌==◌, true, false, none, some, [], ◌∷◌, ◌≡◌, refl, arith, keep_if, not,
  take, List,
}
use tt_wind.Status.{Result, ok, fail}
use tt_wind.Context.{zero_config, World, UserMapping, mdl_kind, max_bars, tlb_2m_size}
use tt_wind.Monad.{steps}
use tt_wind.Monad.Outcome.{Frozen, Outcome}
use tt_wind.Tlb.Configured.{Untouched, Configured, configure_tlb-writes}
use tt_wind.Request.{ConfigureTlbIn, MapSysmemIn, Request, MapBarIn, MapTlbIn, FreeTlbIn}
use tt_wind.Mapping.Table.{init_shared}
use tt_wind.Mapping.Sound.{Sound, claim-Sound}
use tt_wind.Mapping.Released.{init-Sound}
use tt_wind.Mapping.Teardown.{file_cleanup}
use tt_wind.Mapping.Cleanup.{window_of, without, file_cleanup-releases}
use tt_wind.Mapping.Ioctl.{map_bar}
use tt_wind.Mapping.Ranges.{MappedBar, map_bar-maps}
use tt_wind.Tlb.Windows.{configure_tlb, take_window, allocate_tlb, map_tlb, free_tlb, claim_window}
use tt_wind.Tlb.Mapped.{MappedWindow, map_tlb-maps}
use tt_wind.Tlb.Lease.{Leased, allocate_tlb-leases, allocate_tlb-free_tlb}
use tt_wind.Sysmem.Arm.{
  sysmem_arm, arm_attempt, detect_pcie_tile, iatu_program_outbound, loopback_verify, write_probes,
  check_probes, check_probe, clear_probes,
}
use tt_wind.Sysmem.Buffer.{modify_sysmem}
use tt_wind.Arc.Access.{noc_read32, noc_ptr}
use tt_wind.Tlb.Program.{program_tlb_2m}
use tt_wind.Tlb.Pack.{pack_tlb_2m, put_field}
use tt_wind.Sysmem.Verified.{Unverified, ProvenArmed, sysmem_arm-verifies}
use tt_wind.Device.Resources.{Descriptor, memory, memory_large, other_resource, record_bars}
use tt_wind.Device.Bars.{memory_ranges, record_bars-takes}
use tt_wind.Reset.Config.{restore_config}
use tt_wind.Reset.Restored.{Restored, restore_config-restores}
use tt_wind.Tests.Sim.{sim, echo, in_ram, last_written, fresh, started, request, first_clear}
use tt_wind.Tests.Machine.{sim-FindsClear}

fresh-Sound : Sound (fresh.ctx.shared)
unfolding init_shared
fresh-Sound = init-Sound

abbrev bar_request : Request MapBarIn
bar_request = request (record { bar_index = 0; cache_mode = 1; offset = 8192; len = 4096 })

map_bar-maps_example :
    Outcome
      (Frozen (fresh.ctx))
      (MappedBar ⦃env = sim⦄ bar_request (fresh.ctx))
      (map_bar ⦃env = sim⦄ bar_request fresh)
map_bar-maps_example = map_bar-maps ⦃env = sim⦄ bar_request fresh

abbrev window_request : Request ℕ
window_request = request tlb_2m_size

allocate_tlb-leases_example :
    Outcome
      (Frozen (fresh.ctx))
      (Leased (some 7) (fresh.ctx))
      (allocate_tlb ⦃env = sim⦄ window_request fresh)
allocate_tlb-leases_example =
    allocate_tlb-leases ⦃env = sim⦄ window_request fresh sim-FindsClear fresh-Sound

abbrev free_request : Request FreeTlbIn
free_request = request (record { tlb_id = 0; reserved = 0 })

first_window : (allocate_tlb ⦃env = sim⦄ window_request fresh).0 ≡ ok 0
unfolding allocate_tlb take_window first_clear steps
first_window = refl

allocate_tlb-free_tlb_example :
    ((free_tlb ⦃env = sim⦄ free_request (allocate_tlb ⦃env = sim⦄ window_request fresh).1).0
      ≡ ok tt)
    × ((free_tlb ⦃env = sim⦄ free_request (allocate_tlb ⦃env = sim⦄ window_request fresh).1).1.ctx
        ≡ fresh.ctx)
allocate_tlb-free_tlb_example =
    allocate_tlb-free_tlb ⦃env = sim⦄ window_request free_request fresh 0 sim-FindsClear fresh-Sound
      first_window refl refl

-- Handle 7 with window 3 and a mapping of it, and a mapping of handle 8.
abbrev mapping_of : (file va : ℕ) → UserMapping
mapping_of file va = record {
  file = file;
  process = 9;
  kind = mdl_kind 1;
  user_va = va;
  len = 4096;
  tlb_id = none;
}

abbrev busy : World
busy = record {
  ctx = record started {
    shared = record (claim_window 3 7 started.shared) {
      mapping_list = mapping_of 7 0x1000 ∷ mapping_of 8 0x2000 ∷ [];
    };
  };
  log = [];
}

file_cleanup-releases_example :
    ((file_cleanup ⦃env = sim⦄ 7 busy).1.ctx.shared.mapping_list
      ≡ keep_if (λ m. not (m.file == 7)) busy.ctx.shared.mapping_list)
    × (window_of (file_cleanup ⦃env = sim⦄ 7 busy).1.ctx.shared 3
        ≡ without 7 (window_of busy.ctx.shared 3))
file_cleanup-releases_example = file_cleanup-releases ⦃env = sim⦄ 7 busy 3 (omega arith)

abbrev map_window_request : Request MapTlbIn
map_window_request = request (record { tlb_id = 0; cache_mode = 0 })

abbrev leased : World
leased = record { ctx = record started { shared = claim_window 0 7 started.shared }; log = [] }

map_tlb-maps_example :
    Outcome
      (Frozen (leased.ctx))
      (MappedWindow ⦃env = sim⦄ map_window_request (leased.ctx))
      (map_tlb ⦃env = sim⦄ map_window_request leased)
map_tlb-maps_example =
    map_tlb-maps ⦃env = sim⦄ map_window_request leased
      (claim-Sound started.shared 0 7 (omega arith) refl fresh-Sound)

-- Where the NOC reads the buffer, the bring-up succeeds.
loops_back : (sysmem_arm ⦃env = echo⦄ fresh).0 ≡ ok tt
unfolding sysmem_arm arm_attempt detect_pcie_tile iatu_program_outbound loopback_verify write_probes
    check_probes check_probe clear_probes modify_sysmem noc_read32 noc_ptr program_tlb_2m
    last_written in_ram pack_tlb_2m put_field steps
loops_back = refl

sysmem_arm-verifies_example :
    Outcome Unverified (ProvenArmed ⦃env = echo⦄) (sysmem_arm ⦃env = echo⦄ fresh)
sysmem_arm-verifies_example = sysmem_arm-verifies ⦃env = echo⦄ fresh

abbrev resources : List Descriptor
resources =
    record { type = memory; start = 0x1000; len = 0x2000 }
    ∷ record { type = other_resource; start = 0x5; len = 0x6 }
    ∷ record { type = memory_large true false false; start = 0x9000; len = 0x20 }
    ∷ []

record_bars-takes_example : record_bars resources [] ≡ take max_bars (memory_ranges resources)
record_bars-takes_example = record_bars-takes resources

abbrev configure_request : Request ConfigureTlbIn
configure_request = request (record {
  tlb_id = 0;
  reserved = 0;
  config = record zero_config { addr = 0x80000000; x_end = 8; ordering = 1 };
})

configure_bound :
    (input : ConfigureTlbIn) → configure_request.input ≡ ok input → input.config.addr < 2 ^ 64
configure_bound input e = subst (λ a. a < 2 ^ 64) (ap address_of e) (omega arith)
  where
    address_of : Result ConfigureTlbIn → ℕ
    address_of (ok i) = i.config.addr
    address_of (fail s) = 0

configure_tlb-writes_example :
    Outcome
      (Untouched leased)
      (Configured configure_request leased)
      (configure_tlb ⦃env = sim⦄ configure_request leased)
configure_tlb-writes_example =
    configure_tlb-writes ⦃env = sim⦄ leased configure_request configure_bound

abbrev verified_world : World
verified_world = record {
  ctx = record started { sysmem = record (started.sysmem) { is_verified = true } };
  log = [];
}

abbrev sysmem_request : Request MapSysmemIn
sysmem_request = request (record { offset = 4096; len = 8192 })

-- The start of a config space; the bytes that are missing count as 0.
abbrev config_start : List ℕ
config_start = 0x52 ∷ 0x1E ∷ 0x40 ∷ 0xB1 ∷ 0x06 ∷ 0x04 ∷ 0x10 ∷ []

restore_config-restores_example :
    Restored ⦃env = sim⦄ config_start 1 fresh (restore_config ⦃env = sim⦄ config_start fresh)
restore_config-restores_example =
    restore_config-restores ⦃env = sim⦄ config_start fresh 1 (omega arith)
