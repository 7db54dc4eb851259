-- ===== src/Sysmem/Ioctl.antt =====
-- QUERY_SYSMEM, SYSMEM_STATUS and MAP_SYSMEM (driver/sysmem.c).
use tt_wind.Base.{
  ℕ, ◌+◌, ◌-◌, Bool, Option, none, some, List, [], ◌∷◌, ◌==◌, ◌!=◌, ◌&&◌, not, leb, if◌then◌else◌,
  u32, u64, ◌<<<◌, ◌>>>◌,
}
use mathlib.Core.Option
use tt_wind.Status.{
  Status, invalid_handle, invalid_parameter, device_not_ready, insufficient_resources,
}
use tt_wind.Kernel.{
  Env, bar2_iatu, state_lock, arc_lock, allocate_pool, free_pool, reference_process,
  dereference_process, attach_process, detach_process, open_physical_memory, close_section,
  map_view,
}
use tt_wind.Context.{
  Sysmem, SysmemStage, SysmemProbe, TierResult, UserMapping, section_kind, noc_pcie_offset,
}
use tt_wind.Monad.{
  branch, M, ◌>>=◌, ◌>>◌, pure, require, from_option, from_result, attempt, or_status, on_failure,
  when, get_ctx, modify_shared, tell, with_lock, read_reg, call, get_process,
}
use tt_wind.Request.{Request, MapSysmemIn, MapOut}
use tt_wind.Mapping.Table.{append_mapping}
use tt_wind.Mapping.Ioctl.{is_page_aligned}
use tt_wind.Sysmem.Buffer.{sysmem_tiers}
use tt_wind.Sysmem.Arm.{iatu_base, iatu_reg_order}

-- TTWIND_QUERY_SYSMEM_OUT.
pub record QuerySysmemOut : Type 0 where
  pub total_size : ℕ
  pub noc_address : ℕ
  pub device_io_addr : ℕ
  pub channel_size : ℕ
  pub channel_count : ℕ
  pub max_map_bytes : ℕ
  pub pcie_tile_x : ℕ

abbrev pub unavailable : QuerySysmemOut
unavailable = record {
  total_size = 0;
  noc_address = 0;
  device_io_addr = 0;
  channel_size = 0;
  channel_count = 0;
  max_map_bytes = 0;
  pcie_tile_x = 0;
}

abbrev pub available : Sysmem → QuerySysmemOut
available s = record {
  total_size = s.size;
  noc_address = noc_pcie_offset;
  device_io_addr = 0;
  channel_size = s.size;
  channel_count = 1;
  max_map_bytes = u32 s.size;
  pcie_tile_x = s.pcie_tile_x;
}

-- TTWIND_SYSMEM_STATUS_OUT; `iatu` is `none` for IatuValid == 0.
pub record SysmemStatusOut : Type 0 where
  pub stage : SysmemStage
  pub last_status : Status
  pub total_size : ℕ
  pub sysmem_phys : ℕ
  pub tier_bytes : List ℕ
  pub tier_result : List TierResult
  pub noc_id_raw : ℕ
  pub pcie_tile_x : ℕ
  pub is_verified : Bool
  pub iatu : Option (List ℕ)
  pub probes : List SysmemProbe

-- The view base, and the address of the first byte asked for.
pub record SectionView : Type 0 where
  pub base : ℕ
  pub va : ℕ

module _ ⦃env : Env⦄ where
  unfoldable pub query_sysmem : Request (Unit {0}) → M QuerySysmemOut
  query_sysmem req = do
    _ ← from_result req.output
    with_lock arc_lock (do
      ctx ← get_ctx
      pure (if ctx.sysmem.is_verified then available ctx.sysmem else unavailable))

  unfoldable pub read_iatu : List ℕ → M (List ℕ)
  read_iatu [] = pure []
  read_iatu (off ∷ rest) = do
    v ← read_reg bar2_iatu (iatu_base + off)
    vs ← read_iatu rest
    pure (v ∷ vs)

  abbrev pub status_out : Sysmem → Option (List ℕ) → SysmemStatusOut
  status_out s regs = record {
    stage = s.stage;
    last_status = s.last_status;
    total_size = s.size;
    sysmem_phys = s.phys;
    tier_bytes = sysmem_tiers;
    tier_result = s.tier_result;
    noc_id_raw = s.noc_id_raw;
    pcie_tile_x = s.pcie_tile_x;
    is_verified = s.is_verified;
    iatu = regs;
    probes = s.probes;
  }

  unfoldable pub sysmem_status : Request (Unit {0}) → M SysmemStatusOut
  sysmem_status req = do
    _ ← from_result req.output
    with_lock arc_lock (do
      ctx ← get_ctx
      branch (not ctx.needs_hw_init && ctx.mapped.bar2_iatu)
          (read_iatu iatu_reg_order >>= λ regs. pure (status_out ctx.sysmem (some regs)))
          (pure (status_out ctx.sysmem none)))

  unfoldable pub map_sysmem_to_user : (phys len process : ℕ) → M SectionView
  map_sysmem_to_user phys len process = do
    _ ← call open_physical_memory
    let aligned = phys >>> 16 <<< 16
    let delta = phys - aligned
    current ← get_process
    when (process != current) (tell (attach_process process))
    mapped ← attempt (call (map_view aligned (len + delta)))
    when (process != current) (tell (detach_process process))
    tell close_section
    base ← from_result mapped
    pure (record { base = base; va = base + delta })

  unfoldable pub map_sysmem : Request MapSysmemIn → M MapOut
  map_sysmem req = do
    file ← from_option req.file invalid_handle
    input ← from_result req.input
    _ ← from_result req.output
    require (is_page_aligned input.offset && (is_page_aligned input.len && not (input.len == 0)))
        invalid_parameter
    usable ← with_lock arc_lock (get_ctx >>= λ c. pure c.sysmem.is_verified)
    require usable device_not_ready
    ctx ← get_ctx
    let s = ctx.sysmem
    require (leb input.len s.size && leb input.offset (s.size - input.len)) invalid_parameter
    current ← get_process
    let process = Option.get_or req.requestor current
    _ ← or_status (call allocate_pool) insufficient_resources
    tell (reference_process process)
    view ←
        on_failure (map_sysmem_to_user (u64 (s.phys + input.offset)) input.len process)
          (tell (dereference_process process) >> tell free_pool)
    let m : UserMapping = record {
      file = file;
      process = process;
      kind = section_kind view.base;
      user_va = view.va;
      len = input.len;
      tlb_id = none;
    }
    with_lock state_lock (modify_shared (append_mapping m))
    pure (record { user_va = view.va; len = input.len })
