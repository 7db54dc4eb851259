-- ===== src/Mapping/Table.antt =====
-- The sections of driver/mapping.c, tlb.c and reset.c that run under StateLock, as functions on
-- the mapping list, the allocator bitmap and the owner table.
use tt_wind.Base.{
  ℕ, zero, suc, ◌+◌, Bool, true, false, Option, none, some, List, [], ◌∷◌, ◌++◌, ◌&&◌, ◌||◌, ◌==◌,
  not, if◌then◌else◌, is_some_of, update, keep_if,
}
use tt_wind.Context.{Shared, UserMapping, tlb_2m_count, kernel_tlb_index}

-- The bitmap with the kernel's window reserved: RtlClearAllBits, RtlSetBit.
abbrev pub reserved_bitmap : ℕ → Bool
reserved_bitmap = update (λ _. false) kernel_tlb_index true

-- TtWindMappingInitDevice, on the zeroed context.
unfoldable pub init_shared : Shared
init_shared = record { mapping_list = []; tlb_bitmap = reserved_bitmap; tlb_owner = λ _. none }

-- `ctx->TlbOwner[i] = NULL` for `left` windows from `i` on.
unfoldable pub clear_owners : (left i : ℕ) → (ℕ → Option ℕ) → ℕ → Option ℕ
clear_owners zero i owner = owner
clear_owners (suc left) i owner = clear_owners left (i + 1) (update owner i none)

-- All windows go back to the allocator (RESET_DEVICE and TtWindRevokeAllMappings).
unfoldable pub reclaim_windows : Shared → Shared
reclaim_windows s = record s {
  tlb_owner = clear_owners tlb_2m_count 0 s.tlb_owner;
  tlb_bitmap = reserved_bitmap;
}

-- The owner test of TtWindCreateUserMapping: only for a window, `TlbId >= 0`.
unfoldable pub may_insert : Shared → ℕ → Option ℕ → Bool
may_insert s file none = true
may_insert s file (some t) = is_some_of file (s.tlb_owner t)

unfoldable pub append_mapping : UserMapping → Shared → Shared
append_mapping m s = record s { mapping_list = s.mapping_list ++ m ∷ [] }

unfoldable pub has_window : ℕ → List UserMapping → Bool
has_window t [] = false
has_window t (m ∷ ms) = is_some_of t m.tlb_id || has_window t ms

unfoldable pub tlb_has_mappings : Shared → ℕ → Bool
tlb_has_mappings s t = has_window t s.mapping_list

-- The search loop of TtWindIoctlUnmapBar: the first mapping of the handle at the address.
abbrev pub is_at : ℕ → ℕ → UserMapping → Bool
is_at file va m = (m.file == file) && (m.user_va == va)

unfoldable pub find_mapping : ℕ → ℕ → List UserMapping → Option UserMapping
find_mapping file va [] = none
find_mapping file va (m ∷ ms) = if is_at file va m then some m else find_mapping file va ms

unfoldable pub remove_mapping : ℕ → ℕ → List UserMapping → List UserMapping
remove_mapping file va [] = []
remove_mapping file va (m ∷ ms) = if is_at file va m then ms else m ∷ remove_mapping file va ms

-- The two loops of TtWindEvtFileCleanup.
abbrev pub belongs_to : ℕ → UserMapping → Bool
belongs_to file m = m.file == file

abbrev pub owned_mappings : ℕ → Shared → List UserMapping
owned_mappings file s = keep_if (belongs_to file) s.mapping_list

abbrev pub drop_window : ℕ → ℕ → Shared → Shared
drop_window file i s =
    if is_some_of file (s.tlb_owner i)
    then record s {
      tlb_owner = update s.tlb_owner i none;
      tlb_bitmap = update s.tlb_bitmap i false;
    }
    else s

unfoldable pub drop_windows : (left i file : ℕ) → Shared → Shared
drop_windows zero i file s = s
drop_windows (suc left) i file s = drop_windows left (i + 1) file (drop_window file i s)

unfoldable pub release_handle : ℕ → Shared → Shared
release_handle file s =
    drop_windows tlb_2m_count 0 file
      (record s { mapping_list = keep_if (λ m. not (belongs_to file m)) s.mapping_list })
