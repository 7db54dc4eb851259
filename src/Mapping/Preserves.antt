-- ===== src/Mapping/Preserves.antt =====
-- The mapping routines (driver/mapping.c) and MAP_SYSMEM (driver/sysmem.c) keep the state under
-- StateLock sound.
use tt_wind.Base.{ℕ, Bool, Option, none, List, [], ◌∷◌, refl}
use tt_wind.Kernel.{Env, Event, CacheType}
use tt_wind.Context.{World, UserMapping, MappingKind, mdl_kind, section_kind}
use tt_wind.Monad.{and_then, ◌>>=◌, ◌>>◌, get_ctx, modify_ctx, modify_shared, pure, steps}
use tt_wind.Monad.Keeps.{
  Keeps, Ignores, Overlooks, keeps_rules, require-at, option-at, Keeps-with_lock, Keeps-bind,
  Keeps-seq,
}
use tt_wind.Request.{Request, MapBarIn, MapSysmemIn}
use tt_wind.Mapping.Table.{
  may_insert, owned_mappings, append_mapping, release_handle, reclaim_windows,
}
use tt_wind.Mapping.View.{
  map_io_to_user, unmap_kind, free_kind, unmap_user_view, unmap_in_owner, destroy_mapping,
  destroy_all, insert_mapping, create_user_mapping,
}
use tt_wind.Mapping.Ioctl.{map_bar, take_mapping, unmap_bar}
use tt_wind.Mapping.Teardown.{file_cleanup, revoke_all_mappings}
use tt_wind.Mapping.Sound.{Sound, append-Sound, remove-Sound}
use tt_wind.Mapping.Released.{release-Sound, reclaim-Sound}
use tt_wind.Sysmem.Ioctl.{map_sysmem, map_sysmem_to_user}

abbrev pub SoundWorld : World → Type 0
SoundWorld w = Sound w.ctx.shared

module _ ⦃env : Env⦄ where
  pub sound_event : (e : Event) → Ignores SoundWorld e
  sound_event e = record { at = λ w p. p }

  pub insert_mapping-Sound : (m : UserMapping) → Keeps SoundWorld (insert_mapping m)
  unfolding insert_mapping ◌>>=◌ ◌>>◌ and_then get_ctx modify_shared modify_ctx append_mapping
  insert_mapping-Sound m = record {
    at = λ w p. require-at SoundWorld w p _ _ _ (λ h. append-Sound w.ctx.shared m h p);
  }

  pub ruleset sound_rules = (keeps_rules, sound_event, insert_mapping-Sound)

  pub unmap_kind-Sound : (k : MappingKind) (va : ℕ) → Keeps SoundWorld (unmap_kind k va)
  unfolding unmap_kind
  unmap_kind-Sound (mdl_kind mdl) va = search sound_rules
  unmap_kind-Sound (section_kind base) va = search sound_rules

  pub free_kind-Sound : (k : MappingKind) → Keeps SoundWorld (free_kind k)
  unfolding free_kind
  free_kind-Sound (mdl_kind mdl) = search sound_rules
  free_kind-Sound (section_kind base) = search sound_rules

  pub unmap_in_owner-Sound :
      (p : ℕ) (b : Bool) (m : UserMapping) → Keeps SoundWorld (unmap_in_owner p b m)
  unfolding unmap_in_owner unmap_user_view
  unmap_in_owner-Sound p b m = search (sound_rules, unmap_kind-Sound) depth 12

  pub destroy_mapping-Sound : (m : UserMapping) → Keeps SoundWorld (destroy_mapping m)
  unfolding destroy_mapping
  destroy_mapping-Sound m = search (sound_rules, unmap_in_owner-Sound, free_kind-Sound) depth 12

  pub destroy_all-Sound : (ms : List UserMapping) → Keeps SoundWorld (destroy_all ms)
  unfolding destroy_all
  destroy_all-Sound [] = search sound_rules
  destroy_all-Sound (m ∷ ms) = Keeps-seq _ _ (destroy_mapping-Sound m) (destroy_all-Sound ms)

  pub map_io_to_user-Sound :
      (a n : ℕ) (c : CacheType) (p : ℕ) → Keeps SoundWorld (map_io_to_user a n c p)
  unfolding map_io_to_user
  map_io_to_user-Sound a n c p = search sound_rules depth 20

  pub create_user_mapping-Sound :
      (file requestor : Option ℕ) (phys len mode : ℕ) (t : Option ℕ)
      → Keeps SoundWorld (create_user_mapping file requestor phys len mode t)
  unfolding create_user_mapping
  create_user_mapping-Sound file requestor phys len mode t =
      search (sound_rules, map_io_to_user-Sound, destroy_mapping-Sound) depth 24

  pub map_bar-Sound : (r : Request MapBarIn) → Keeps SoundWorld (map_bar r)
  unfolding map_bar
  map_bar-Sound r = search (sound_rules, create_user_mapping-Sound) depth 24

  pub take_mapping-Sound : (file va : ℕ) → Keeps SoundWorld (take_mapping file va)
  unfolding take_mapping steps
  take_mapping-Sound file va = record { at = λ w p. remove-Sound w.ctx.shared file va p }

  pub unmap_bar-Sound : (r : Request ℕ) → Keeps SoundWorld (unmap_bar r)
  unfolding unmap_bar
  unmap_bar-Sound r = search (sound_rules, take_mapping-Sound, destroy_mapping-Sound) depth 16

  pub release_section-Sound :
      (file : ℕ)
      → Keeps SoundWorld (
          get_ctx >>= λ ctx.
          modify_shared (release_handle file) >> pure (owned_mappings file ctx.shared))
  unfolding steps
  release_section-Sound file = record { at = λ w p. release-Sound file w.ctx.shared p }

  pub file_cleanup-Sound : (file : ℕ) → Keeps SoundWorld (file_cleanup file)
  unfolding file_cleanup
  file_cleanup-Sound file =
      Keeps-bind _ _
        (Keeps-with_lock _ _ (sound_event _) (sound_event _) (release_section-Sound file))
        destroy_all-Sound

  pub revoke_section-Sound : Keeps SoundWorld (
      get_ctx >>= λ ctx.
      modify_shared (λ s. reclaim_windows (record s { mapping_list = [] }))
      >> pure ctx.shared.mapping_list)
  unfolding steps
  revoke_section-Sound = record {
    at = λ w p. reclaim-Sound _ (record { entries = p.entries; backed = tt }) refl;
  }

  pub revoke_all_mappings-Sound : Keeps SoundWorld revoke_all_mappings
  unfolding revoke_all_mappings
  revoke_all_mappings-Sound =
      Keeps-bind _ _ (Keeps-with_lock _ _ (sound_event _) (sound_event _) revoke_section-Sound)
        destroy_all-Sound

  pub append_unwindowed-Sound :
      (file process va len : ℕ) (k : MappingKind)
      → Keeps SoundWorld (
          modify_shared (
            append_mapping (record {
              file = file;
              process = process;
              kind = k;
              user_va = va;
              len = len;
              tlb_id = none;
            })))
  unfolding steps may_insert
  append_unwindowed-Sound file process va len k = record {
    at = λ w p. append-Sound w.ctx.shared _ refl p;
  }

  pub map_sysmem-Sound : (r : Request MapSysmemIn) → Keeps SoundWorld (map_sysmem r)
  unfolding map_sysmem map_sysmem_to_user
  map_sysmem-Sound r = search (sound_rules, append_unwindowed-Sound) depth 40
