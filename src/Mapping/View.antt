-- ===== src/Mapping/View.antt =====
-- Mapping device pages into a process, and tearing a mapping down (driver/mapping.c).
use tt_wind.Base.{
  ℕ, zero, suc, ◌+◌, Bool, Option, List, [], ◌∷◌, ◌==◌, ◌!=◌, if◌then◌else◌, u32, ◌>>>◌,
}
use mathlib.Core.Option
use tt_wind.Status.{invalid_handle, insufficient_resources, access_denied}
use tt_wind.Kernel.{
  Env, CacheType, non_cached, write_combined, state_lock, allocate_pool, free_pool,
  reference_process, dereference_process, attach_process, detach_process, allocate_mdl, fill_mdl,
  free_mdl, map_locked_pages, unmap_locked_pages, unmap_view,
}
use tt_wind.Context.{MappingKind, UserMapping, mdl_kind, section_kind}
use tt_wind.Monad.{
  branch, case_result, M, ◌>>=◌, ◌>>◌, pure, return_status, require, from_option, attempt,
  or_status, on_failure, when, get_ctx, modify_shared, tell, with_lock, call, get_process,
  process_runs,
}
use tt_wind.Mapping.Table.{may_insert, append_mapping}

-- pfns[i] = basePfn + i, for `count` pages.
unfoldable pub page_frames : (count base : ℕ) → List ℕ
page_frames zero base = []
page_frames (suc count) base = base ∷ page_frames count (base + 1)

-- The MDL and the address in the process.
pub record IoView : Type 0 where
  pub mdl : ℕ
  pub va : ℕ

module _ ⦃env : Env⦄ where
  -- A failure of `map_locked_pages` is the exception's code, or insufficient resources for NULL.
  unfoldable pub map_io_to_user : (phys len : ℕ) → CacheType → (process : ℕ) → M IoView
  map_io_to_user phys len cache process = do
    mdl ← or_status (call (allocate_mdl phys (u32 len))) insufficient_resources
    tell (fill_mdl mdl (page_frames (u32 (len >>> 12)) (phys >>> 12)))
    current ← get_process
    when (process != current) (tell (attach_process process))
    mapped ← attempt (call (map_locked_pages mdl cache))
    when (process != current) (tell (detach_process process))
    case_result mapped (λ va. pure (record { mdl = mdl; va = va }))
        (λ s. tell (free_mdl mdl) >> return_status s)

  unfoldable pub unmap_kind : MappingKind → (va : ℕ) → M (Unit {0})
  unmap_kind (section_kind base) va = tell (unmap_view base)
  unmap_kind (mdl_kind mdl) va = tell (unmap_locked_pages va mdl)

  unfoldable pub free_kind : MappingKind → M (Unit {0})
  free_kind (section_kind base) = pure tt
  free_kind (mdl_kind mdl) = tell (free_mdl mdl)

  unfoldable pub unmap_user_view : UserMapping → M (Unit {0})
  unmap_user_view m = unmap_kind m.kind m.user_va

  -- In the owning process, attached to it, or not at all when it is gone.
  unfoldable pub unmap_in_owner : (current : ℕ) (alive : Bool) → UserMapping → M (Unit {0})
  unmap_in_owner current alive m = branch (m.process == current) (unmap_user_view m) (
      when alive
        (do tell (attach_process m.process); unmap_user_view m; tell (detach_process m.process)))

  unfoldable pub destroy_mapping : UserMapping → M (Unit {0})
  destroy_mapping m = do
    current ← get_process
    alive ← process_runs m.process
    unmap_in_owner current alive m
    free_kind m.kind
    tell (dereference_process m.process)
    tell free_pool

  unfoldable pub destroy_all : List UserMapping → M (Unit {0})
  destroy_all [] = pure tt
  destroy_all (m ∷ ms) = destroy_mapping m >> destroy_all ms

  -- The section under StateLock that inserts a mapping, or refuses it.
  unfoldable pub insert_mapping : UserMapping → M (Unit {0})
  insert_mapping m = do
    ctx ← get_ctx
    require (may_insert ctx.shared m.file m.tlb_id) access_denied
    modify_shared (append_mapping m)

  unfoldable pub create_user_mapping :
      (file requestor : Option ℕ) (phys len cache_mode : ℕ) (tlb_id : Option ℕ) → M ℕ
  create_user_mapping file requestor phys len cache_mode tlb_id = do
    owner ← from_option file invalid_handle
    let cache = if cache_mode == 1 then write_combined else non_cached
    current ← get_process
    let process = Option.get_or requestor current
    _ ← or_status (call allocate_pool) insufficient_resources
    tell (reference_process process)
    view ←
        on_failure (map_io_to_user phys len cache process)
          (tell (dereference_process process) >> tell free_pool)
    let m : UserMapping = record {
      file = owner;
      process = process;
      kind = mdl_kind view.mdl;
      user_va = view.va;
      len = len;
      tlb_id = tlb_id;
    }
    on_failure (with_lock state_lock (insert_mapping m)) (destroy_mapping m)
    pure view.va
