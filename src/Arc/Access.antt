-- ===== src/Arc/Access.antt =====
-- Accesses over the kernel TLB window, over the APB routes and to the CSM SRAM (driver/arc.c).
use tt_wind.Base.{ℕ, ◌+◌, ◌-◌, ◌^◌, Bool, ◌==◌, ◌&&◌, leb, bit_and, ◌<<<◌, ◌>>>◌, all_ones32}
use tt_wind.Status.{invalid_address}
use tt_wind.Kernel.{Env, kernel_tlb, arc_apb_axi}
use tt_wind.Context.{ArcRoute, no_route, noc_low, noc_high, axi, tlb_2m_size, kernel_tlb_index}
use tt_wind.Monad.{M, ◌>>=◌, ◌>>◌, pure, require, read_reg, write_reg}
use tt_wind.Tlb.Program.{program_tlb_2m, kernel_window_config}

abbrev pub arc_x : ℕ
arc_x = 8

-- Scratch registers 2 and 11, and the doorbells.
abbrev pub boot_status_reg : ℕ
boot_status_reg = 0x30408

abbrev pub msg_qcb_ptr_reg : ℕ
msg_qcb_ptr_reg = 0x3042C

abbrev pub msi_fifo_reg : ℕ
msi_fifo_reg = 0xB0000

abbrev pub misc_cntl_reg : ℕ
misc_cntl_reg = 0x30100

abbrev pub misc_cntl_irq0 : ℕ
misc_cntl_irq0 = 2 ^ 16

abbrev pub csm_base : ℕ
csm_base = 0x10000000

abbrev pub csm_size : ℕ
csm_size = 2 ^ 19

abbrev pub apb_noc_low_base : ℕ
apb_noc_low_base = 0x80000000

abbrev pub apb_noc_high_base : ℕ
apb_noc_high_base = 0x880000000

-- `Addr & ~(2 MiB - 1)`
abbrev pub window_base : ℕ → ℕ
window_base addr = addr >>> 21 <<< 21

-- The range and alignment test of TtWindArcCsmRead32 and TtWindArcCsmWrite32.
abbrev pub is_csm_word : ℕ → Bool
is_csm_word addr =
    leb csm_base addr && (leb addr (csm_base + csm_size - 4) && (bit_and addr 3 == 0))

module _ ⦃env : Env⦄ where
  -- Aim the kernel window at the block of `addr` on tile (x, 0); the offset of `addr` in it.
  unfoldable pub noc_ptr : (x addr : ℕ) → M ℕ
  noc_ptr x addr = do
    program_tlb_2m kernel_tlb_index (kernel_window_config x (window_base addr))
    pure (bit_and addr (tlb_2m_size - 1))

  unfoldable pub noc_read32 : (x addr : ℕ) → M ℕ
  noc_read32 x addr = do offset ← noc_ptr x addr; read_reg kernel_tlb offset

  unfoldable pub noc_write32 : (x addr value : ℕ) → M (Unit {0})
  noc_write32 x addr value = do offset ← noc_ptr x addr; write_reg kernel_tlb offset value

  unfoldable pub apb_read32_via : ArcRoute → ℕ → M ℕ
  apb_read32_via noc_low offset = noc_read32 arc_x (apb_noc_low_base + offset)
  apb_read32_via noc_high offset = noc_read32 arc_x (apb_noc_high_base + offset)
  apb_read32_via axi offset = read_reg arc_apb_axi offset
  apb_read32_via no_route offset = pure all_ones32

  unfoldable pub apb_write32_via : ArcRoute → (offset value : ℕ) → M (Unit {0})
  apb_write32_via noc_low offset value = noc_write32 arc_x (apb_noc_low_base + offset) value
  apb_write32_via noc_high offset value = noc_write32 arc_x (apb_noc_high_base + offset) value
  apb_write32_via axi offset value = write_reg arc_apb_axi offset value
  apb_write32_via no_route offset value = pure tt

  unfoldable pub csm_read32 : ℕ → M ℕ
  csm_read32 addr = require (is_csm_word addr) invalid_address >> noc_read32 arc_x addr

  unfoldable pub csm_write32 : (addr value : ℕ) → M (Unit {0})
  csm_write32 addr value =
      require (is_csm_word addr) invalid_address >> noc_write32 arc_x addr value
