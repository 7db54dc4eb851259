-- ===== src/Tlb/Program.antt =====
-- Writing the configuration registers of a window, and the readback check that gates the
-- recovery from a reset (driver/tlb.c).
use tt_wind.Base.{ℕ, ◌+◌, ◌*◌, ◌==◌, ◌&&◌, ltb, u32, ◌>>>◌}
use tt_wind.Status.{io_device_error}
use tt_wind.Kernel.{Env, tlb_regs}
use tt_wind.Context.{
  NocTlbConfig, zero_config, tlb_reg_size, tlb_strided_count, tlb_strided_reg_size,
  tlb_strided_regs_offset, kernel_tlb_index,
}
use tt_wind.Monad.{M, ◌>>=◌, ◌>>◌, when, require, read_reg, write_reg}
use tt_wind.Tlb.Pack.{pack_tlb_2m}

module _ ⦃env : Env⦄ where
  unfoldable pub program_tlb_2m : ℕ → NocTlbConfig → M (Unit {0})
  program_tlb_2m tlb_id cfg = do
    let img = pack_tlb_2m cfg
    let regs = tlb_id * tlb_reg_size
    write_reg tlb_regs (regs + 0) (u32 img.lo)
    write_reg tlb_regs (regs + 4) (u32 (img.lo >>> 32))
    write_reg tlb_regs (regs + 8) img.hi
    when (ltb tlb_id tlb_strided_count)
        (write_reg tlb_regs (tlb_strided_regs_offset + tlb_id * tlb_strided_reg_size) 0)

  -- The configuration that aims the kernel window at the tile (x, 0), strictly ordered.
  abbrev pub kernel_window_config : ℕ → ℕ → NocTlbConfig
  kernel_window_config x addr = record zero_config { addr = addr; x_end = x; ordering = 1 }

  unfoldable pub kernel_tlb_sanity_check : M (Unit {0})
  kernel_tlb_sanity_check = do
    let cfg = kernel_window_config 8 0
    let img = pack_tlb_2m cfg
    program_tlb_2m kernel_tlb_index cfg
    let regs = kernel_tlb_index * tlb_reg_size
    rb0 ← read_reg tlb_regs (regs + 0)
    rb1 ← read_reg tlb_regs (regs + 4)
    rb2 ← read_reg tlb_regs (regs + 8)
    require ((rb0 == u32 img.lo) && ((rb1 == u32 (img.lo >>> 32)) && (rb2 == img.hi)))
        io_device_error
