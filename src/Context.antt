-- ===== src/Context.antt =====
-- The device context, the records that it holds and the constants of driver/ttwind.h and
-- driver/ttwind_ioctl.h.
use tt_wind.Base.{ℕ, ◌+◌, ◌-◌, ◌*◌, ◌^◌, Bool, Option, List, length}
use tt_wind.Status.{Status}
use tt_wind.Kernel.{Log}

abbrev pub max_bars : ℕ
max_bars = 6

abbrev pub page_size : ℕ
page_size = 4096

abbrev pub max_map_bytes : ℕ
max_map_bytes = 8 * 1024 * 1024

abbrev pub tlb_2m_count : ℕ
tlb_2m_count = 202

abbrev pub tlb_2m_size : ℕ
tlb_2m_size = 2 * 1024 * 1024

abbrev pub tlb_4g_count : ℕ
tlb_4g_count = 8

abbrev pub tlb_reg_size : ℕ
tlb_reg_size = 12

abbrev pub tlb_regs_start : ℕ
tlb_regs_start = 0x1FC00000

abbrev pub tlb_regs_len : ℕ
tlb_regs_len = 0x1000

abbrev pub tlb_strided_count : ℕ
tlb_strided_count = 32

abbrev pub tlb_strided_reg_size : ℕ
tlb_strided_reg_size = 4

abbrev pub tlb_strided_regs_offset : ℕ
tlb_strided_regs_offset = (tlb_2m_count + tlb_4g_count) * tlb_reg_size

abbrev pub kernel_tlb_index : ℕ
kernel_tlb_index = tlb_2m_count - 1

abbrev pub kernel_tlb_start : ℕ
kernel_tlb_start = kernel_tlb_index * tlb_2m_size

abbrev pub pci_cfg_save_bytes : ℕ
pci_cfg_save_bytes = 256

abbrev pub noc_pcie_offset : ℕ
noc_pcie_offset = 4 * 2 ^ 58

-- TTWIND_NOC_TLB_CONFIG.
pub record NocTlbConfig : Type 0 where
  pub addr : ℕ
  pub x_end : ℕ
  pub y_end : ℕ
  pub x_start : ℕ
  pub y_start : ℕ
  pub noc : ℕ
  pub mcast : ℕ
  pub ordering : ℕ
  pub linked : ℕ
  pub static_vc : ℕ
  pub reserved0 : ℕ × ℕ × ℕ
  pub reserved1 : ℕ × ℕ

-- RtlZeroMemory(&cfg, sizeof(cfg)).
abbrev pub zero_config : NocTlbConfig
zero_config = record {
  addr = 0;
  x_end = 0;
  y_end = 0;
  x_start = 0;
  y_start = 0;
  noc = 0;
  mcast = 0;
  ordering = 0;
  linked = 0;
  static_vc = 0;
  reserved0 = (0, 0, 0);
  reserved1 = (0, 0);
}

-- TTWIND_MAPPING_KIND_MDL with its MDL, TTWIND_MAPPING_KIND_SECTION with its view base.
pub data MappingKind : Type 0 where
  mdl_kind : (mdl : ℕ) → MappingKind
  section_kind : (base : ℕ) → MappingKind

-- TTWIND_USER_MAPPING; `tlb_id` is `none` for the -1 of the source.
pub record UserMapping : Type 0 where
  pub file : ℕ
  pub process : ℕ
  pub kind : MappingKind
  pub user_va : ℕ
  pub len : ℕ
  pub tlb_id : Option ℕ

-- The mapping and TLB state under StateLock: MappingList, TlbBitmap and TlbOwner.
pub record Shared : Type 0 where
  pub mapping_list : List UserMapping
  pub tlb_bitmap : ℕ → Bool
  pub tlb_owner : ℕ → Option ℕ

pub record BarDesc : Type 0 where
  pub phys : ℕ
  pub size : ℕ

-- TTWIND_ARC_ROUTE_*.
pub data ArcRoute : Type 0 where
  no_route noc_low noc_high axi : ArcRoute

-- TTWIND_SYSMEM_STAGE_*.
pub data SysmemStage : Type 0 where
  not_run no_alloc no_regs tile_detect iatu loopback verified : SysmemStage

-- TTWIND_SYSMEM_TIER_*.
pub data TierResult : Type 0 where
  not_tried tier_failed tier_ok : TierResult

-- TTWIND_SYSMEM_PROBE.
pub record SysmemProbe : Type 0 where
  pub offset : ℕ
  pub wrote0 : ℕ
  pub read0 : ℕ
  pub wrote1 : ℕ
  pub read1 : ℕ

abbrev pub zero_probe : SysmemProbe
zero_probe = record { offset = 0; wrote0 = 0; read0 = 0; wrote1 = 0; read1 = 0 }

-- An entry of OutboundIatu.
pub record OutboundIatu : Type 0 where
  pub base : ℕ
  pub limit : ℕ
  pub target : ℕ
  pub enabled : Bool

-- The Sysmem* fields; `va` is `none` for NULL.
pub record Sysmem : Type 0 where
  pub va : Option ℕ
  pub phys : ℕ
  pub size : ℕ
  pub is_verified : Bool
  pub pcie_tile_x : ℕ
  pub stage : SysmemStage
  pub last_status : Status
  pub tier_result : List TierResult
  pub noc_id_raw : ℕ
  pub probes : List SysmemProbe
  pub outbound : ℕ → OutboundIatu

-- Which of the kernel mappings of device memory are there: a pointer that is not NULL.
pub record Mapped : Type 0 where
  pub tlb_regs : Bool
  pub kernel_tlb : Bool
  pub arc_apb_axi : Bool
  pub bar2_iatu : Bool
  pub noc_id_regs : Bool

-- The identity and location fields.
pub record Identity : Type 0 where
  pub vendor_id : ℕ
  pub device_id : ℕ
  pub subsystem_vendor_id : ℕ
  pub subsystem_id : ℕ
  pub bus : ℕ
  pub device : ℕ
  pub function : ℕ
  pub pci_domain : ℕ

-- TTWIND_DEVICE_CONTEXT. `bars` is Bars[0 .. BarCount), so that BarCount is its length;
-- `saved_config` is SavedConfig as bytes; `file_generation` is the ResetGeneration of the
-- handles' TTWIND_FILE_CONTEXT.
pub record Context : Type 0 where
  pub identity : Identity
  pub bars : List BarDesc
  pub mapped : Mapped
  pub arc_route : ArcRoute
  pub sysmem : Sysmem
  pub needs_hw_init : Bool
  pub reset_generation : ℕ
  pub file_generation : ℕ → ℕ
  pub saved_config : List ℕ
  pub saved_config_valid : Bool
  pub bus_if_valid : Bool
  pub shared : Shared

abbrev pub bar_count : Context → ℕ
bar_count c = length c.bars

-- The driver's state and everything that it has asked for.
pub record World : Type 0 where
  pub ctx : Context
  pub log : Log
