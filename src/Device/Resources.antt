-- ===== src/Device/Resources.antt =====
-- The resource list of PrepareHardware and the PCI identity (driver/device.c).
use tt_wind.Base.{
  not, ℕ, Bool, true, false, List, [], ◌∷◌, ◌++◌, ◌==◌, leb, if◌then◌else◌, length, word16, u8, u16,
  get_or, bit_and, ◌<<<◌, ◌>>>◌,
}
use tt_wind.Status.{device_data_error}
use tt_wind.Kernel.{Env, query_bus_interface, query_bus_number, query_address}
use tt_wind.Context.{Identity, BarDesc, max_bars}
use tt_wind.Monad.{when, M, ◌>>=◌, ◌>>◌, require, get_ctx, modify_ctx, get_bus_data, call}

-- CmResourceTypeMemory, CmResourceTypeMemoryLarge with its 40, 48 or 64-bit flag or none of
-- them, and the types that are skipped.
pub data ResourceType : Type 0 where
  memory : ResourceType
  memory_large : (large_40 large_48 large_64 : Bool) → ResourceType
  other_resource : ResourceType

-- CM_PARTIAL_RESOURCE_DESCRIPTOR; the four length fields are one 32-bit word.
pub record Descriptor : Type 0 where
  pub type : ResourceType
  pub start : ℕ
  pub len : ℕ

unfoldable pub descriptor_length : ResourceType → ℕ → ℕ
descriptor_length memory len = len
descriptor_length (memory_large large_40 large_48 large_64) len =
    if large_40
    then len <<< 8
    else if large_48
    then len <<< 16
    else if large_64
    then len <<< 32
    else 0
descriptor_length other_resource len = 0

abbrev pub is_memory : ResourceType → Bool
is_memory other_resource = false
is_memory _ = true

-- The walk over the descriptors; it stops at the first that finds the table full.
unfoldable pub record_bars : List Descriptor → List BarDesc → List BarDesc
record_bars [] bars = bars
record_bars (d ∷ ds) bars = elim (is_memory d.type) [
  | false ↦ record_bars ds bars
  | true ↦ elim (leb max_bars (length bars)) [
    | true ↦ bars
    | false ↦
        record_bars ds
          (bars ++ record { phys = d.start; size = descriptor_length d.type d.len } ∷ [])
  ]
]

-- PCI_COMMON_HEADER: 64 bytes, the header type at 0x0E, the subsystem words at 0x2C and 0x2E.
abbrev pub common_header_size : ℕ
common_header_size = 64

abbrev pub identify : List ℕ → Identity → Identity
identify header i =
    if bit_and (u8 (get_or header 0x0E 0)) 0x7F == 0
    then record i {
      vendor_id = word16 header 0;
      device_id = word16 header 2;
      subsystem_vendor_id = word16 header 0x2C;
      subsystem_id = word16 header 0x2E;
    }
    else record i { vendor_id = word16 header 0; device_id = word16 header 2 }

abbrev pub locate : (bus_number address : ℕ) → Identity → Identity
locate bus_number address i = record i {
  bus = u8 bus_number;
  device = u8 (u16 (address >>> 16));
  function = u8 (u16 address);
  pci_domain = 0;
}

module _ ⦃env : Env⦄ where
  unfoldable pub query_interface : M (Unit {0})
  query_interface = do
    ctx ← get_ctx
    when (not ctx.bus_if_valid)
        (do _ ← call query_bus_interface; modify_ctx (λ c. record c { bus_if_valid = true }))

  unfoldable pub read_pci_identity : M (Unit {0})
  read_pci_identity = do
    query_interface
    header ← get_bus_data 0 common_header_size
    require (length header == common_header_size) device_data_error
    modify_ctx (λ c. record c { identity = identify header c.identity })
    bus_number ← call query_bus_number
    address ← call query_address
    modify_ctx (λ c. record c { identity = locate bus_number address c.identity })
