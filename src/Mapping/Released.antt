-- ===== src/Mapping/Released.antt =====
-- The sections under StateLock that release in bulk: TtWindEvtFileCleanup (driver/mapping.c) and
-- the reclaiming of all windows (driver/reset.c, mapping.c).
use tt_wind.Base.{
  ℕ, zero, suc, ◌+◌, ◌≤◌, ◌<◌, true, false, Option, none, some, List, [], ◌∷◌, ◌≡◌, inl, inr, refl,
  sym, ap, subst, ◌∙◌, ◌==◌, not, if◌then◌else◌, is_some_of, update, keep_if, All, Bool-cases,
  ==_iff, arith,
}
use tt_wind.Context.{Shared, UserMapping, tlb_2m_count, kernel_tlb_index}
use tt_wind.Mapping.Table.{
  reserved_bitmap, init_shared, clear_owners, reclaim_windows, belongs_to, drop_window,
  drop_windows, release_handle,
}
use tt_wind.Mapping.Sound.{
  Sound, Entry, Backed, BackedBy, update-Entry, free-Entry, below_kernel, some-none, place,
}

-- A mapping of another handle.
abbrev pub IsOther : ℕ → UserMapping → Type 0
IsOther file m = belongs_to file m ≡ false

record Others (file : ℕ) (s : Shared) : Type 0 where
  sound : Sound s
  others : All (IsOther file) s.mapping_list

pub owned_by : (f : ℕ) (o : Option ℕ) → is_some_of f o ≡ true → o ≡ some f
owned_by f none e = cc
owned_by f (some g) e = ap some ((==_iff g f).0 e)

-- Taking a window from a handle leaves the mappings of the others backed.
drop-Others :
    (file i : ℕ) (s : Shared)
    → s.tlb_owner i ≡ some file
    → Others file s
    → Others file (record s {
      tlb_owner = update s.tlb_owner i none;
      tlb_bitmap = update s.tlb_bitmap i false;
    })
drop-Others file i s o k = record {
  sound = record {
    entries =
        update-Entry s.tlb_bitmap s.tlb_owner i false none k.sound.entries
          (free-Entry i (below_kernel i _ _ (k.sound.entries i) (λ n. some-none file (sym o ∙ n))));
    backed = still s.mapping_list k.sound.backed k.others;
  };
  others = k.others;
}
  where
    some_same : (f g : ℕ) → some f ≡ some g → f ≡ g
    some_same f g e = cc

    backed_by :
        (f : ℕ) (t : Option ℕ)
        → (f == file) ≡ false
        → BackedBy s.tlb_owner f t
        → BackedBy (update s.tlb_owner i none) f t
    backed_by f none n b = tt
    backed_by f (some t) n b = elim (Bool-cases (t == i)) [
      | inr e ↦ rw e b
      | inl e ↦
          elim (clash f n (some_same f file (sym b ∙ ap s.tlb_owner ((==_iff t i).0 e) ∙ o))) [ ]
    ]
      where
        clash : (x : ℕ) → (x == file) ≡ false → x ≡ file → ⊥
        clash x u v = ground arith

    still :
        (ms : List UserMapping)
        → All (Backed s.tlb_owner) ms
        → All (IsOther file) ms
        → All (Backed (update s.tlb_owner i none)) ms
    still [] a c = tt
    still (m ∷ ms) a c = (backed_by m.file m.tlb_id c.0 a.0, still ms a.1 c.1)

drop_window-Others : (file i : ℕ) (s : Shared) → Others file s → Others file (drop_window file i s)
drop_window-Others file i s k = elim (Bool-cases (is_some_of file (s.tlb_owner i))) [
  | inl e ↦ rw e (drop-Others file i s (owned_by file _ e) k)
  | inr e ↦ rw e k
]

drop_windows-Others :
    (n i file : ℕ) (s : Shared) → Others file s → Others file (drop_windows n i file s)
unfolding drop_windows
drop_windows-Others zero i file s k = k
drop_windows-Others (suc n) i file s k =
    drop_windows-Others n (i + 1) file _ (drop_window-Others file i s k)

kept :
    (o : ℕ → Option ℕ) (file : ℕ) (ms : List UserMapping)
    → All (Backed o) ms
    → All (Backed o) (keep_if (λ m. not (belongs_to file m)) ms)
      × All (IsOther file) (keep_if (λ m. not (belongs_to file m)) ms)
kept o file [] a = (tt, tt)
kept o file (m ∷ ms) a = elim (Bool-cases (belongs_to file m)) [
  | inl e ↦ rw e (kept o file ms a.1)
  | inr e ↦ let rest = kept o file ms a.1 in rw e ((a.0, rest.0), (e, rest.1))
]

pub release-Sound : (file : ℕ) (s : Shared) → Sound s → Sound (release_handle file s)
unfolding release_handle
release-Sound file s k =
    let ks = kept s.tlb_owner file s.mapping_list k.backed in
    (drop_windows-Others tlb_2m_count 0 file _
      (record { sound = record { entries = k.entries; backed = ks.0 }; others = ks.1 })).sound

-- The owner table after all windows are reclaimed.
cleared_stays : (n a : ℕ) (o : ℕ → Option ℕ) (j : ℕ) → o j ≡ none → clear_owners n a o j ≡ none
unfolding clear_owners
cleared_stays zero a o j h = h
cleared_stays (suc n) a o j h =
    cleared_stays n (a + 1) (update o a none) j
      (elim (Bool-cases (j == a)) [ inl e ↦ rw e refl | inr e ↦ rw e h ])

pub cleared : (n a : ℕ) (o : ℕ → Option ℕ) (j : ℕ) → a ≤ j → j < a + n → clear_owners n a o j ≡ none
unfolding clear_owners
cleared zero a o j l u = elim (no l u) [ ]
  where
    no : a ≤ j → j < a + 0 → ⊥
    no x y = omega arith
cleared (suc n) a o j l u = elim (Bool-cases (j == a)) [
  | inl e ↦ cleared_stays n (a + 1) (update o a none) j (rw e refl)
  | inr e ↦ cleared n (a + 1) (update o a none) j (next e) (omega arith)
]
  where
    next : (j == a) ≡ false → a + 1 ≤ j
    next e = ground arith

reserved-Entry : (i : ℕ) → Entry i (reserved_bitmap i) none
reserved-Entry i = record {
  kernel = λ e. (ap reserved_bitmap e, refl);
  window = λ l. is_clear l;
  beyond = λ g. refl;
}
  where
    is_clear : i < kernel_tlb_index → (if i == kernel_tlb_index then true else false) ≡ false
    is_clear l = ground arith

unowned_after : (s : Shared) (i : ℕ) → Sound s → clear_owners tlb_2m_count 0 s.tlb_owner i ≡ none
unowned_after s i k = elim (place i tlb_2m_count) [
  | inl l ↦ cleared tlb_2m_count 0 s.tlb_owner i (omega arith) (omega arith)
  | inr (inl q) ↦ cleared_stays tlb_2m_count 0 s.tlb_owner i ((k.entries i).beyond (omega arith))
  | inr (inr g) ↦ cleared_stays tlb_2m_count 0 s.tlb_owner i ((k.entries i).beyond (omega arith))
]

pub reclaim-Sound : (s : Shared) → Sound s → s.mapping_list ≡ [] → Sound (reclaim_windows s)
unfolding reclaim_windows
reclaim-Sound s k e = record {
  entries = λ i. subst (Entry i (reserved_bitmap i)) (sym (unowned_after s i k)) (reserved-Entry i);
  backed = subst (All (Backed _)) (sym e) tt;
}

pub init-Sound : Sound init_shared
unfolding init_shared
init-Sound = record { entries = reserved-Entry; backed = tt }
