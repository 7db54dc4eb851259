-- ===== src/Device/Release.antt =====
-- EvtDeviceReleaseHardware (driver/device.c).
use tt_wind.Base.{ℕ, Bool, false, []}
use tt_wind.Kernel.{
  Env, Region, tlb_regs, kernel_tlb, arc_apb_axi, bar2_iatu, noc_id_regs, state_lock, arc_lock,
  unmap_io_space, dereference_bus_interface,
}
use tt_wind.Context.{Mapped, no_route, tlb_2m_size, tlb_regs_len}
use tt_wind.Monad.{M, ◌>>=◌, ◌>>◌, when, get_ctx, modify_ctx, tell, with_lock}
use tt_wind.Mapping.Teardown.{revoke_all_mappings}
use tt_wind.Sysmem.Buffer.{sysmem_free}
use tt_wind.Device.Prepare.{modify_mapped, arc_apb_len, iatu_regs_len, noc_id_page_len}

module _ ⦃env : Env⦄ where
  -- `if (p != NULL) { MmUnmapIoSpace(p, len); p = NULL; }`
  unfoldable pub unmap_region : Bool → Region → (len : ℕ) → M (Unit {0})
  unmap_region present region len =
      when present (tell (unmap_io_space region len) >> modify_mapped region false)

  unfoldable pub release_hardware : M (Unit {0})
  release_hardware = do
    revoke_all_mappings
    ctx ← get_ctx
    let m : Mapped = ctx.mapped
    with_lock arc_lock (do
      unmap_region m.kernel_tlb kernel_tlb tlb_2m_size
      unmap_region m.arc_apb_axi arc_apb_axi arc_apb_len
      unmap_region m.bar2_iatu bar2_iatu iatu_regs_len
      unmap_region m.noc_id_regs noc_id_regs noc_id_page_len
      modify_ctx (λ c. record c {
        arc_route = no_route;
        sysmem = record (c.sysmem) { is_verified = false };
      }))
    sysmem_free
    with_lock state_lock (unmap_region m.tlb_regs tlb_regs tlb_regs_len)
    when ctx.bus_if_valid
        (tell dereference_bus_interface >> modify_ctx (λ c. record c { bus_if_valid = false }))
    modify_ctx (λ c. record c { bars = [] })
