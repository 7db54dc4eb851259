-- ===== src/Device/Stopped.antt =====
-- What EvtDeviceReleaseHardware leaves (driver/device.c).
use tt_wind.Base.{ℕ, ◌<◌, false, none, [], ◌≡◌}
use tt_wind.Status.{Result, ok}
use tt_wind.Context.{Context, World, no_route, tlb_2m_count}
use tt_wind.Monad.Outcome.{Outcome}
use tt_wind.Mapping.Table.{reserved_bitmap}
use tt_wind.Device.HandBack.{handed, hand_back}

-- No mapping, no window, no register, no buffer and no bus interface is left; the rest of the
-- context is as it was. Of MDLs, references of processes, mapped registers, the buffer and the bus
-- interface, what the context had is handed back to the system, and nothing else is.
pub record Stopped (start : World) (r : Result (Unit {0}) × World) : Type 0 where
  pub succeeds : r.0 ≡ ok tt
  pub mappings : r.1.ctx.shared.mapping_list ≡ []
  pub windows : r.1.ctx.shared.tlb_bitmap ≡ reserved_bitmap
  pub owners : (i : ℕ) → i < tlb_2m_count → r.1.ctx.shared.tlb_owner i ≡ none
  pub buffer : (r.1.ctx.sysmem.va ≡ none) × (r.1.ctx.sysmem.size ≡ 0)
  pub unverified : r.1.ctx.sysmem.is_verified ≡ false
  pub regions : r.1.ctx.mapped ≡ record {
    tlb_regs = false;
    kernel_tlb = false;
    arc_apb_axi = false;
    bar2_iatu = false;
    noc_id_regs = false;
  }
  pub others : r.1.ctx ≡ record (start.ctx) {
    shared = r.1.ctx.shared;
    sysmem = r.1.ctx.sysmem;
    mapped = r.1.ctx.mapped;
    arc_route = no_route;
    bus_if_valid = false;
    bars = [];
  }
  pub handed_back : handed r.1.log ≡ hand_back start.ctx (handed start.log)
