-- ===== src/Tlb/Windows.antt =====
-- The ioctl handlers of driver/tlb.c: ALLOCATE_TLB, FREE_TLB, CONFIGURE_TLB and MAP_TLB.
use tt_wind.Base.{
  ℕ, ◌+◌, ◌-◌, ◌*◌, Bool, true, false, none, some, ◌==◌, ◌&&◌, not, ltb, leb, is_some_of, update,
  u64, bit_and, get_elem?,
}
use tt_wind.Status.{
  invalid_handle, invalid_parameter, insufficient_resources, access_denied, invalid_device_state,
  device_not_ready,
}
use tt_wind.Kernel.{Env, state_lock}
use tt_wind.Context.{Shared, NocTlbConfig, tlb_2m_size, tlb_2m_count}
use tt_wind.Monad.{
  M, ◌>>=◌, ◌>>◌, pure, require, from_option, from_result, get_ctx, modify_shared, with_lock,
}
use tt_wind.Request.{Request, FreeTlbIn, ConfigureTlbIn, MapTlbIn}
use tt_wind.Mapping.Table.{tlb_has_mappings}
use tt_wind.Mapping.View.{create_user_mapping}
use tt_wind.Mapping.Ioctl.{is_cache_mode}
use tt_wind.Tlb.Program.{program_tlb_2m}

-- RtlFindClearBitsAndSet and the owner's entry.
abbrev pub claim_window : (id file : ℕ) → Shared → Shared
claim_window id file s = record s {
  tlb_bitmap = update s.tlb_bitmap id true;
  tlb_owner = update s.tlb_owner id (some file);
}

abbrev pub free_window : (id : ℕ) → Shared → Shared
free_window id s = record s {
  tlb_owner = update s.tlb_owner id none;
  tlb_bitmap = update s.tlb_bitmap id false;
}

-- The range checks of CONFIGURE_TLB.
abbrev pub reserved_is_zero : NocTlbConfig → Bool
reserved_is_zero cfg =
    (cfg.reserved0.0 == 0)
    && ((cfg.reserved0.1 == 0)
        && ((cfg.reserved0.2 == 0) && ((cfg.reserved1.0 == 0) && (cfg.reserved1.1 == 0))))

abbrev pub fields_in_range : NocTlbConfig → Bool
fields_in_range cfg =
    leb cfg.x_end 0x3F
    && (leb cfg.y_end 0x3F
        && (leb cfg.x_start 0x3F
            && (leb cfg.y_start 0x3F
                && (leb cfg.noc 1
                    && (leb cfg.mcast 1
                        && (leb cfg.ordering 3 && (leb cfg.linked 1 && leb cfg.static_vc 1)))))))

module _ ⦃env : Env⦄ where
  -- The section under StateLock that takes a clear bit.
  unfoldable pub take_window : (file : ℕ) → M ℕ
  take_window file = do
    ctx ← get_ctx
    id ← from_option (env.find_clear ctx.shared.tlb_bitmap) insufficient_resources
    modify_shared (claim_window id file)
    pure id

  unfoldable pub allocate_tlb : Request ℕ → M ℕ
  allocate_tlb req = do
    file ← from_option req.file invalid_handle
    size ← from_result req.input
    _ ← from_result req.output
    require (size == tlb_2m_size) invalid_parameter
    with_lock state_lock (take_window file)

  unfoldable pub check_tlb_owner : (file tlb_id : ℕ) → M (Unit {0})
  check_tlb_owner file tlb_id = do
    ctx ← get_ctx
    require (ltb tlb_id tlb_2m_count) invalid_parameter
    require (is_some_of file (ctx.shared.tlb_owner tlb_id)) access_denied

  unfoldable pub free_tlb : Request FreeTlbIn → M (Unit {0})
  free_tlb req = do
    file ← from_option req.file invalid_handle
    input ← from_result req.input
    require (input.reserved == 0) invalid_parameter
    with_lock state_lock (do
      check_tlb_owner file input.tlb_id
      ctx ← get_ctx
      require (not (tlb_has_mappings ctx.shared input.tlb_id)) invalid_device_state
      modify_shared (free_window input.tlb_id))

  unfoldable pub configure_tlb : Request ConfigureTlbIn → M (Unit {0})
  configure_tlb req = do
    file ← from_option req.file invalid_handle
    input ← from_result req.input
    let cfg = input.config
    require ((input.reserved == 0) && reserved_is_zero cfg) invalid_parameter
    require (bit_and cfg.addr (tlb_2m_size - 1) == 0) invalid_parameter
    require (fields_in_range cfg) invalid_parameter
    with_lock state_lock (do
      check_tlb_owner file input.tlb_id
      ctx ← get_ctx
      require ctx.mapped.tlb_regs device_not_ready
      program_tlb_2m input.tlb_id cfg)

  -- `from_option` fails for BarCount == 0, with the status of the bounds check.
  unfoldable pub map_tlb : Request MapTlbIn → M ℕ
  map_tlb req = do
    file ← from_option req.file invalid_handle
    input ← from_result req.input
    _ ← from_result req.output
    require (is_cache_mode input.cache_mode) invalid_parameter
    with_lock state_lock (check_tlb_owner file input.tlb_id)
    ctx ← get_ctx
    let offset = input.tlb_id * tlb_2m_size
    bar0 ← from_option (get_elem? ctx.bars 0) device_not_ready
    require (leb (offset + tlb_2m_size) bar0.size) device_not_ready
    create_user_mapping req.file req.requestor (u64 (bar0.phys + offset)) tlb_2m_size
        input.cache_mode (some input.tlb_id)
