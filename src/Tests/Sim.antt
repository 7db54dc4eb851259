-- ===== src/Tests/Sim.antt =====
-- A simulated machine: registers read back what was written to them last, the config space is a
-- byte table that the reset timer sets back, every kernel routine succeeds and the clock is the
-- sum of the delays. It stands for what is not under the repository, in the tests only.
use tt_wind.Base.{
  ℕ, zero, suc, ◌+◌, ◌-◌, ◌*◌, ◌/◌, ◌%◌, ◌^◌, Bool, true, false, Option, none, some, List, [], ◌∷◌,
  ◌==◌, ◌&&◌, leb, ltb, if◌then◌else◌, get_or,
}
use tt_wind.Status.{ok, success}
use tt_wind.Kernel.{
  Region, tlb_regs, kernel_tlb, arc_apb_axi, bar2_iatu, noc_id_regs, Log, mmio_write, cfg_write,
  ram_write, stall, Env,
}
use tt_wind.Context.{
  Context, World, Sysmem, no_route, not_run, not_tried, zero_probe, tlb_2m_count, noc_pcie_offset,
}
use tt_wind.Mapping.Table.{reserved_bitmap}
use tt_wind.Request.{Request}

abbrev same_region : Region → Region → Bool
same_region tlb_regs tlb_regs = true
same_region kernel_tlb kernel_tlb = true
same_region arc_apb_axi arc_apb_axi = true
same_region bar2_iatu bar2_iatu = true
same_region noc_id_regs noc_id_regs = true
same_region _ _ = false

-- The value last written to the register; the windows read all-1s, NOC_ID says tile 2.
unfoldable pub last_written : Log → Region → ℕ → ℕ
last_written [] noc_id_regs o = 2
last_written [] kernel_tlb o = 0xFFFFFFFF
last_written [] r o = 0
last_written (mmio_write s p v ∷ l) r o =
    let rest = last_written l r o in if same_region s r && (p == o) then v else rest
last_written (_ ∷ l) r o = last_written l r o

-- Vendor 0x1E52, device 0xB140, command 0x0006.
abbrev pub config_default : ℕ → ℕ
config_default i = get_or (0x52 ∷ 0x1E ∷ 0x40 ∷ 0xB1 ∷ 0x06 ∷ 0x00 ∷ 0x10 ∷ 0x00 ∷ []) i 0

-- The control register of the timer sets the config space back.
unfoldable pub config_byte : Log → ℕ → ℕ
config_byte [] i = config_default i
config_byte (cfg_write o v n ∷ l) i =
    let rest = config_byte l i in
    if o == 0x930
    then config_default i
    else if leb o i && ltb i (o + n)
    then v / 2 ^ (8 * (i - o)) % 2 ^ 8
    else rest
config_byte (_ ∷ l) i = config_byte l i

unfoldable pub config_bytes : Log → (offset len : ℕ) → List ℕ
config_bytes l offset zero = []
config_bytes l offset (suc n) = config_byte l offset ∷ config_bytes l (offset + 1) n

unfoldable pub clock : Log → ℕ
clock [] = 0
clock (stall us ∷ l) = clock l + 10 * us
clock (_ ∷ l) = clock l

-- The first window below the count that is not taken.
unfoldable pub first_clear : (left i : ℕ) → (ℕ → Bool) → Option ℕ
first_clear zero i b = none
first_clear (suc n) i b = let rest = first_clear n (i + 1) b in if b i then rest else some i

abbrev pub sim : Env
sim = record {
  mmio_value = last_written;
  bus_data = config_bytes;
  bus_accepts = λ l o v n. true;
  interrupt_time = clock;
  os_answer = λ l c. ok 0x1000;
  current_process = λ l. 4;
  is_running = λ l p. true;
  physical_of = λ va. va;
  find_clear = first_clear tlb_2m_count 0;
}

-- The word last written to the buffer.
unfoldable pub in_ram : Log → ℕ → ℕ
in_ram [] o = 0
in_ram (ram_write p v ∷ l) o = let rest = in_ram l o in if p == o then v else rest
in_ram (_ ∷ l) o = in_ram l o

-- The address of the block at which the kernel window is aimed.
abbrev aimed_at : Log → ℕ
aimed_at l =
    (last_written l tlb_regs 2412 + last_written l tlb_regs 2416 * 2 ^ 32) % 2 ^ 43 * 2 ^ 21

abbrev echoed : Log → Region → ℕ → ℕ
echoed l kernel_tlb o = in_ram l (aimed_at l + o - noc_pcie_offset)
echoed l tlb_regs o = last_written l tlb_regs o
echoed l arc_apb_axi o = last_written l arc_apb_axi o
echoed l bar2_iatu o = last_written l bar2_iatu o
echoed l noc_id_regs o = last_written l noc_id_regs o

-- The same machine, in which the buffer is read over the NOC.
abbrev pub echo : Env
echo = record sim { mmio_value = echoed }

abbrev sim_sysmem : Sysmem
sim_sysmem = record {
  va = some 0x40000000;
  phys = 0x100000000;
  size = 2 ^ 28;
  is_verified = false;
  pcie_tile_x = 0;
  stage = not_run;
  last_status = success;
  tier_result = not_tried ∷ not_tried ∷ not_tried ∷ [];
  noc_id_raw = 0;
  probes = zero_probe ∷ zero_probe ∷ zero_probe ∷ [];
  outbound = λ i. record { base = 0; limit = 0; target = 0; enabled = false };
}

-- A started device, without mappings; the handles 7 and 8 are of generation 0.
abbrev pub started : Context
started = record {
  identity = record {
    vendor_id = 0x1E52;
    device_id = 0xB140;
    subsystem_vendor_id = 0x1E52;
    subsystem_id = 0;
    bus = 1;
    device = 0;
    function = 0;
    pci_domain = 0;
  };
  bars =
      record { phys = 0x800000000; size = 2 ^ 29 }
      ∷ record { phys = 0x900000000; size = 2 ^ 20 }
      ∷ [];
  mapped = record {
    tlb_regs = true;
    kernel_tlb = true;
    arc_apb_axi = true;
    bar2_iatu = true;
    noc_id_regs = true;
  };
  arc_route = no_route;
  sysmem = sim_sysmem;
  needs_hw_init = false;
  reset_generation = 0;
  file_generation = λ f. 0;
  saved_config = [];
  saved_config_valid = false;
  bus_if_valid = true;
  shared = record { mapping_list = []; tlb_bitmap = reserved_bitmap; tlb_owner = λ i. none };
}

abbrev pub fresh : World
fresh = record { ctx = started; log = [] }

abbrev pub restricted : World
restricted = record {
  ctx = record started { needs_hw_init = true; saved_config_valid = true };
  log = [];
}

-- A request of handle 7 from process 9 with both buffers.
abbrev pub request : {In : Type 0} → In → Request In
request x = record { file = some 7; requestor = some 9; input = ok x; output = ok tt }
