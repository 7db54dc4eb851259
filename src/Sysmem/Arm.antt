-- ===== src/Sysmem/Arm.antt =====
-- TtWindSysmemArm: programming the outbound iATU region and proving it by a loopback
-- (driver/sysmem.c).
use tt_wind.Base.{
  ℕ, ◌+◌, ◌*◌, ◌/◌, ◌^◌, true, false, List, [], ◌∷◌, ◌==◌, ◌!=◌, ◌&&◌, ◌||◌, not, ltb, leb,
  if◌then◌else◌, update, set, replicate, bit_and, u32, u64, sub64, not32, ◌>>>◌, all_ones32,
}
use tt_wind.Status.{
  status_of, invalid_parameter, device_not_ready, device_does_not_exist, device_configuration_error,
  io_device_error, reinitialization_needed, insufficient_resources,
}
use tt_wind.Kernel.{Env, bar2_iatu, noc_id_regs, arc_lock, ram_write}
use tt_wind.Context.{
  SysmemStage, SysmemProbe, zero_probe, OutboundIatu, no_alloc, no_regs, tile_detect, iatu,
  loopback, verified, noc_pcie_offset,
}
use tt_wind.Monad.{
  branch, case_option, M, ◌>>=◌, ◌>>◌, pure, return_status, require, from_result, attempt, get_ctx,
  emit, with_lock, read_reg, write_reg,
}
use tt_wind.Arc.Access.{noc_read32}
use tt_wind.Sysmem.Buffer.{modify_sysmem}

abbrev pub iatu_base : ℕ
iatu_base = 0x1000

abbrev pub iatu_region_stride : ℕ
iatu_region_stride = 0x200

abbrev pub iatu_outbound_regions : ℕ
iatu_outbound_regions = 16

abbrev pub iatu_max_region_size : ℕ
iatu_max_region_size = 2 ^ 40

-- The registers of a region, in the order in which they are written.
abbrev pub iatu_reg_order : List ℕ
iatu_reg_order = 0x08 ∷ 0x0C ∷ 0x14 ∷ 0x18 ∷ 0x10 ∷ 0x20 ∷ 0x00 ∷ 0x04 ∷ 0x1C ∷ []

abbrev pub set_stage : SysmemStage → M (Unit {0})
set_stage stage = modify_sysmem (λ s. record s { stage = stage })

abbrev pub magic : ℕ → ℕ
magic i = u32 (0x74744D30 + i)

module _ ⦃env : Env⦄ where
  unfoldable pub iatu_program_outbound : (region base limit target : ℕ) → M (Unit {0})
  iatu_program_outbound region base limit target = do
    let size = u64 (sub64 limit base + 1)
    let ctrl2 : ℕ = if limit == 0 then 0 else 2 ^ 31
    require (leb size iatu_max_region_size) invalid_parameter
    require (ltb region iatu_outbound_regions) invalid_parameter
    let regs = iatu_base + region * iatu_region_stride
    write_reg bar2_iatu (regs + 0x08) (u32 base)
    write_reg bar2_iatu (regs + 0x0C) (u32 (base >>> 32))
    write_reg bar2_iatu (regs + 0x14) (u32 target)
    write_reg bar2_iatu (regs + 0x18) (u32 (target >>> 32))
    write_reg bar2_iatu (regs + 0x10) (u32 limit)
    write_reg bar2_iatu (regs + 0x20) (u32 (limit >>> 32))
    write_reg bar2_iatu (regs + 0x00) (2 ^ 13)
    write_reg bar2_iatu (regs + 0x04) ctrl2
    write_reg bar2_iatu (regs + 0x1C) 0
    let entry : OutboundIatu = record {
      base = base;
      limit = limit;
      target = target;
      enabled = ctrl2 != 0;
    }
    modify_sysmem (λ s. record s { outbound = update s.outbound region entry })

  unfoldable pub detect_pcie_tile : M (Unit {0})
  detect_pcie_tile = do
    ctx ← get_ctx
    require ctx.mapped.noc_id_regs device_not_ready
    noc_id ← read_reg noc_id_regs 0x44
    modify_sysmem (λ s. record s { noc_id_raw = noc_id })
    require (noc_id != all_ones32) device_does_not_exist
    let x = bit_and noc_id 0x3F
    require ((x == 2) || (x == 11)) device_configuration_error
    modify_sysmem (λ s. record s { pcie_tile_x = x })

  abbrev pub write_pair : (offset v0 v1 : ℕ) → M (Unit {0})
  write_pair offset v0 v1 = emit (ram_write offset v0) >> emit (ram_write (offset + 4) v1)

  unfoldable pub write_probes : List ℕ → (i : ℕ) → M (Unit {0})
  write_probes [] i = pure tt
  write_probes (offset ∷ rest) i =
      write_pair offset (magic i) (not32 (magic i)) >> write_probes rest (i + 1)

  unfoldable pub clear_probes : List ℕ → M (Unit {0})
  clear_probes [] = pure tt
  clear_probes (offset ∷ rest) = write_pair offset 0 0 >> clear_probes rest

  abbrev pub record_probe : ℕ → SysmemProbe → M (Unit {0})
  record_probe i p = modify_sysmem (λ s. record s { probes = set s.probes i p })

  -- SysmemNocRead32 aims the kernel window like the accesses to the ARC tile.
  unfoldable pub check_probe : (i offset : ℕ) → M (Unit {0})
  check_probe i offset = do
    ctx ← get_ctx
    let noc = u64 (noc_pcie_offset + offset)
    v0 ← noc_read32 ctx.sysmem.pcie_tile_x noc
    let p : SysmemProbe = record {
      offset = offset;
      wrote0 = magic i;
      read0 = v0;
      wrote1 = not32 (magic i);
      read1 = 0;
    }
    record_probe i p
    require (v0 != all_ones32) device_does_not_exist
    v1 ← noc_read32 ctx.sysmem.pcie_tile_x (u64 (noc + 4))
    record_probe i (record p { read1 = v1 })
    require ((v0 == magic i) && (v1 == not32 (magic i))) io_device_error

  unfoldable pub check_probes : List ℕ → (i : ℕ) → M (Unit {0})
  check_probes [] i = pure tt
  check_probes (offset ∷ rest) i = check_probe i offset >> check_probes rest (i + 1)

  -- The first, the middle and the last page.
  abbrev pub probe_offsets : ℕ → List ℕ
  probe_offsets size = 0 ∷ size / 2 ∷ sub64 size 4096 ∷ []

  unfoldable pub loopback_verify : M (Unit {0})
  loopback_verify = do
    ctx ← get_ctx
    let offsets = probe_offsets ctx.sysmem.size
    modify_sysmem (λ s. record s { probes = replicate 3 zero_probe })
    write_probes offsets 0
    r ← attempt (check_probes offsets 0)
    clear_probes offsets
    from_result r

  -- From the label-free part of the source: everything whose status is recorded.
  unfoldable pub arm_attempt : M (Unit {0})
  arm_attempt = do
    ctx ← get_ctx
    case_option ctx.sysmem.va (set_stage no_alloc >> return_status insufficient_resources) (λ va.
        branch (ctx.mapped.bar2_iatu && (ctx.mapped.kernel_tlb && ctx.mapped.tlb_regs))
          (do
            set_stage tile_detect
            detect_pcie_tile
            set_stage iatu
            iatu_program_outbound 0 0 (sub64 ctx.sysmem.size 1) ctx.sysmem.phys
            set_stage loopback
            loopback_verify
            modify_sysmem (λ s. record s { stage = verified; is_verified = true }))
          (set_stage no_regs >> return_status device_not_ready))

  unfoldable pub sysmem_arm : M (Unit {0})
  sysmem_arm = with_lock arc_lock (do
    modify_sysmem (λ s. record s { is_verified = false })
    ctx ← get_ctx
    require (not ctx.needs_hw_init) reinitialization_needed
    r ← attempt arm_attempt
    modify_sysmem (λ s. record s { last_status = status_of r })
    from_result r)

  unfoldable pub sysmem_invalidate : M (Unit {0})
  sysmem_invalidate = with_lock arc_lock (modify_sysmem (λ s. record s { is_verified = false }))
