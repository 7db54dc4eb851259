-- ===== src/Device/HandBack.antt =====
-- What EvtDeviceReleaseHardware hands back to the system, and what is left of the context
-- (driver/device.c).
use tt_wind.Base.{ℕ, Bool, true, false, Option, none, some, List, [], ◌∷◌, if◌then◌else◌, ◌≡◌, ap}
use tt_wind.Kernel.{
  Event, Region, tlb_regs, kernel_tlb, arc_apb_axi, bar2_iatu, noc_id_regs,
  dereference_bus_interface, free_contiguous, unmap_io_space, dereference_process, free_mdl, OsCall,
  os, Log,
}
use tt_wind.Context.{
  World, UserMapping, MappingKind, mdl_kind, section_kind, Context, Mapped, no_route, tlb_2m_size,
  tlb_regs_len,
}
use tt_wind.Mapping.Table.{reclaim_windows}
use tt_wind.Device.Prepare.{set_mapped, arc_apb_len, iatu_regs_len, noc_id_page_len}

-- What gives something back to the system: the mapping of registers, the sysmem buffer, the bus
-- interface, and a mapping's MDL and its reference of its process.
abbrev pub is_handed : Event → Bool
is_handed (os (unmap_io_space r n)) = true
is_handed (os (free_contiguous va n)) = true
is_handed (os dereference_bus_interface) = true
is_handed (os (dereference_process q)) = true
is_handed (os (free_mdl mdl)) = true
is_handed _ = false

-- Those events of the log, the latest first.
unfoldable pub handed : Log → Log
handed [] = []
handed (e ∷ l) = let rest = handed l in if is_handed e then e ∷ rest else rest

abbrev pub add_if : Bool → OsCall → Log → Log
add_if true c l = os c ∷ l
add_if false c l = l

abbrev pub add_buffer : Option ℕ → (size : ℕ) → Log → Log
add_buffer none size l = l
add_buffer (some va) size l = os (free_contiguous va size) ∷ l

abbrev pub add_kind : MappingKind → Log → Log
add_kind (mdl_kind mdl) l = os (free_mdl mdl) ∷ l
add_kind (section_kind base) l = l

unfoldable pub add_mappings : List UserMapping → Log → Log
add_mappings [] l = l
add_mappings (m ∷ ms) l = add_mappings ms (os (dereference_process m.process) ∷ add_kind m.kind l)

-- What a release of the context hands back, on top of what was handed back before.
abbrev pub hand_back : Context → Log → Log
hand_back c l = add_if c.bus_if_valid dereference_bus_interface (
    add_if c.mapped.tlb_regs (unmap_io_space tlb_regs tlb_regs_len) (
      add_buffer c.sysmem.va c.sysmem.size (
        add_if c.mapped.noc_id_regs (unmap_io_space noc_id_regs noc_id_page_len) (
          add_if c.mapped.bar2_iatu (unmap_io_space bar2_iatu iatu_regs_len) (
            add_if c.mapped.arc_apb_axi (unmap_io_space arc_apb_axi arc_apb_len) (
              add_if c.mapped.kernel_tlb (unmap_io_space kernel_tlb tlb_2m_size)
                (add_mappings c.shared.mapping_list l)))))))

abbrev pub is_mapped : Region → Mapped → Bool
is_mapped tlb_regs m = m.tlb_regs
is_mapped kernel_tlb m = m.kernel_tlb
is_mapped arc_apb_axi m = m.arc_apb_axi
is_mapped bar2_iatu m = m.bar2_iatu
is_mapped noc_id_regs m = m.noc_id_regs

abbrev pub without : Region → Context → Context
without r c = record c { mapped = set_mapped r false c.mapped }

pub already : (r : Region) (c : Context) → is_mapped r c.mapped ≡ false → c ≡ without r c
already tlb_regs c e = ap (λ b. record c { mapped = record (c.mapped) { tlb_regs = b } }) e
already kernel_tlb c e = ap (λ b. record c { mapped = record (c.mapped) { kernel_tlb = b } }) e
already arc_apb_axi c e = ap (λ b. record c { mapped = record (c.mapped) { arc_apb_axi = b } }) e
already bar2_iatu c e = ap (λ b. record c { mapped = record (c.mapped) { bar2_iatu = b } }) e
already noc_id_regs c e = ap (λ b. record c { mapped = record (c.mapped) { noc_id_regs = b } }) e

abbrev pub without_buffer : Context → Context
without_buffer c = record c {
  sysmem = record (c.sysmem) {
    va = none;
    size = 0;
    phys = 0;
    is_verified = false;
    pcie_tile_x = 0;
  };
}

abbrev pub revoked : Context → Context
revoked c = record c { shared = reclaim_windows (record (c.shared) { mapping_list = [] }) }

abbrev pub shut : Context → Context
shut c = record c { arc_route = no_route; sysmem = record (c.sysmem) { is_verified = false } }

abbrev pub dark : Context → Context
dark c = shut (without noc_id_regs (without bar2_iatu (without arc_apb_axi (without kernel_tlb c))))

abbrev pub no_bus : Context → Context
no_bus c = record c { bus_if_valid = false }

abbrev pub no_bars : Context → Context
no_bars c = record c { bars = [] }

abbrev pub emptied : Context → Context
emptied c = no_bars (no_bus (without tlb_regs (without_buffer (dark c))))

-- The context, and what was handed back so far.
abbrev pub At : Context → Log → World → Type 0
At c l w = (w.ctx ≡ c) × (handed w.log ≡ l)
