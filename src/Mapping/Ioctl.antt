-- ===== src/Mapping/Ioctl.antt =====
-- IOCTL_TTWIND_MAP_BAR and IOCTL_TTWIND_UNMAP_BAR (driver/mapping.c).
use tt_wind.Base.{
  ℕ, ◌+◌, ◌-◌, Bool, Option, none, ◌==◌, ◌&&◌, ◌||◌, not, ltb, leb, get_elem?, u64, bit_and,
}
use tt_wind.Status.{invalid_parameter, invalid_handle, not_found}
use tt_wind.Kernel.{Env, state_lock}
use tt_wind.Context.{UserMapping, bar_count, max_bars, page_size, max_map_bytes}
use tt_wind.Monad.{
  M, ◌>>=◌, ◌>>◌, pure, require, from_option, from_result, get_ctx, modify_shared, with_lock,
}
use tt_wind.Request.{Request, MapBarIn, MapOut, cache_uc, cache_wc}
use tt_wind.Mapping.Table.{find_mapping, remove_mapping}
use tt_wind.Mapping.View.{create_user_mapping, destroy_mapping}

abbrev pub is_cache_mode : ℕ → Bool
is_cache_mode c = (c == cache_uc) || (c == cache_wc)

-- `x & (PAGE_SIZE - 1)` is zero.
abbrev pub is_page_aligned : ℕ → Bool
is_page_aligned x = bit_and x (page_size - 1) == 0

module _ ⦃env : Env⦄ where
  -- An index below the count is an entry of `bars`, so `from_option` is never a failure here.
  unfoldable pub map_bar : Request MapBarIn → M MapOut
  map_bar req = do
    input ← from_result req.input
    _ ← from_result req.output
    ctx ← get_ctx
    require (ltb input.bar_index (bar_count ctx) && ltb input.bar_index max_bars) invalid_parameter
    require (is_cache_mode input.cache_mode) invalid_parameter
    require (is_page_aligned input.offset && is_page_aligned input.len) invalid_parameter
    require (not (input.len == 0) && leb input.len max_map_bytes) invalid_parameter
    bar ← from_option (get_elem? ctx.bars input.bar_index) invalid_parameter
    require (leb input.len bar.size && leb input.offset (bar.size - input.len)) invalid_parameter
    va ←
        create_user_mapping req.file req.requestor (u64 (bar.phys + input.offset)) input.len
          input.cache_mode none
    pure (record { user_va = va; len = input.len })

  -- The section under StateLock: find the mapping and take it off the list.
  unfoldable pub take_mapping : (file va : ℕ) → M (Option UserMapping)
  take_mapping file va = do
    ctx ← get_ctx
    let found = find_mapping file va ctx.shared.mapping_list
    modify_shared (λ s. record s { mapping_list = remove_mapping file va s.mapping_list })
    pure found

  unfoldable pub unmap_bar : Request ℕ → M (Unit {0})
  unmap_bar req = do
    file ← from_option req.file invalid_handle
    user_va ← from_result req.input
    found ← with_lock state_lock (take_mapping file user_va)
    m ← from_option found not_found
    destroy_mapping m
