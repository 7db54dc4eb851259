-- ===== src/Device/Prepare.antt =====
-- EvtDevicePrepareHardware (driver/device.c) and EvtDeviceFileCreate (driver/driver.c).
use tt_wind.Base.{ℕ, ◌+◌, Bool, false, List, [], ◌&&◌, not, ltb, leb, get_or, update, u64}
use tt_wind.Status.{is_ok, device_configuration_error, insufficient_resources}
use tt_wind.Kernel.{
  Env, Region, tlb_regs, kernel_tlb, arc_apb_axi, bar2_iatu, noc_id_regs, map_io_space,
  unmap_io_space,
}
use tt_wind.Context.{
  Context, Mapped, BarDesc, tlb_regs_start, tlb_regs_len, kernel_tlb_start, tlb_2m_size, bar_count,
}
use tt_wind.Monad.{
  branch, M, ◌>>=◌, ◌>>◌, pure, return_status, require, attempt, when, get_ctx, modify_ctx, tell,
  call,
}
use tt_wind.Sysmem.Buffer.{sysmem_allocate}
use tt_wind.Device.Resources.{Descriptor, record_bars, read_pci_identity}

abbrev pub arc_apb_start : ℕ
arc_apb_start = 0x1FF00000

abbrev pub arc_apb_len : ℕ
arc_apb_len = 0x00100000

-- The page of NOC_ID: 0x1FD00000 + (0x4044 & ~0xFFF).
abbrev pub noc_id_page_start : ℕ
noc_id_page_start = 0x1FD04000

abbrev pub noc_id_page_len : ℕ
noc_id_page_len = 0x1000

abbrev pub iatu_regs_len : ℕ
iatu_regs_len = 0x3000

abbrev pub set_mapped : Region → Bool → Mapped → Mapped
set_mapped tlb_regs b m = record m { tlb_regs = b }
set_mapped kernel_tlb b m = record m { kernel_tlb = b }
set_mapped arc_apb_axi b m = record m { arc_apb_axi = b }
set_mapped bar2_iatu b m = record m { bar2_iatu = b }
set_mapped noc_id_regs b m = record m { noc_id_regs = b }

abbrev pub modify_mapped : Region → Bool → M (Unit {0})
modify_mapped region b = modify_ctx (λ c. record c { mapped = set_mapped region b c.mapped })

-- An entry of Bars[]; what is not recorded is zero.
abbrev pub bar_at : Context → ℕ → BarDesc
bar_at c i = get_or c.bars i (record { phys = 0; size = 0 })

module _ ⦃env : Env⦄ where
  -- MmMapIoSpaceEx into the region's pointer; whether it is not NULL.
  unfoldable pub map_region : Region → (phys len : ℕ) → M Bool
  map_region region phys len = do
    r ← attempt (call (map_io_space region phys len))
    modify_mapped region (is_ok r)
    pure (is_ok r)

  -- The mappings without which the device does not start.
  unfoldable pub map_required : M (Unit {0})
  map_required = do
    ctx ← get_ctx
    let bar0 = (bar_at ctx 0).phys
    require (not (ltb (bar_at ctx 0).size (tlb_regs_start + tlb_regs_len)))
        device_configuration_error
    regs ← map_region tlb_regs (u64 (bar0 + tlb_regs_start)) tlb_regs_len
    require regs insufficient_resources
    win ← map_region kernel_tlb (u64 (bar0 + kernel_tlb_start)) tlb_2m_size
    branch win (pure tt) (do
      tell (unmap_io_space tlb_regs tlb_regs_len)
      modify_mapped tlb_regs false
      return_status insufficient_resources)

  -- One of the mappings that the device can do without.
  unfoldable pub map_optional : (test : Bool) → Region → (phys len : ℕ) → M (Unit {0})
  map_optional test region phys len = when test (map_region region phys len >>= λ _. pure tt)

  unfoldable pub prepare_hardware : List Descriptor → M (Unit {0})
  prepare_hardware resources = do
    read_pci_identity
    modify_ctx (λ c. record c { bars = record_bars resources [] })
    map_required
    ctx ← get_ctx
    let bar0 = bar_at ctx 0
    let bar2 = bar_at ctx 1
    map_optional (leb (arc_apb_start + arc_apb_len) bar0.size) arc_apb_axi
        (u64 (bar0.phys + arc_apb_start)) arc_apb_len
    map_optional (leb (noc_id_page_start + noc_id_page_len) bar0.size) noc_id_regs
        (u64 (bar0.phys + noc_id_page_start)) noc_id_page_len
    map_optional (ltb 1 (bar_count ctx) && leb iatu_regs_len bar2.size) bar2_iatu bar2.phys
        iatu_regs_len
    sysmem_allocate

  -- EvtDeviceFileCreate: the handle takes the current generation.
  unfoldable pub file_create : (file : ℕ) → M (Unit {0})
  file_create file =
      modify_ctx
        (λ c. record c { file_generation = update c.file_generation file c.reset_generation })
