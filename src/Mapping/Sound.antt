-- ===== src/Mapping/Sound.antt =====
-- The state under StateLock (driver/ttwind.h: MappingList, TlbBitmap, TlbOwner): what keeps the
-- allocator, the owner table and the mapping list together, and the sections that change them.
use tt_wind.Base.{
  ℕ, ◌<◌, Bool, true, false, Option, none, some, List, [], ◌∷◌, ◌≡◌, ◌≢◌, ◌⊎◌, inl, inr, refl, sym,
  ap, subst, ◌∙◌, ◌==◌, ◌||◌, if◌then◌else◌, is_some_of, update, All, All-append, Bool-cases,
  ==_iff, arith,
}
use tt_wind.Context.{Shared, UserMapping, tlb_2m_count, kernel_tlb_index}
use tt_wind.Mapping.Table.{
  may_insert, append_mapping, has_window, tlb_has_mappings, is_at, remove_mapping,
}
use tt_wind.Tlb.Windows.{claim_window, free_window}

abbrev pub has_owner : Option ℕ → Bool
has_owner none = false
has_owner (some f) = true

-- Bit and owner of a window: the kernel's is taken by nobody, the others are taken exactly when
-- they have an owner, and nothing owns a number beyond them.
pub record Entry (i : ℕ) (bit : Bool) (owner : Option ℕ) : Type 0 where
  pub kernel : i ≡ kernel_tlb_index → (bit ≡ true) × (owner ≡ none)
  pub window : i < kernel_tlb_index → bit ≡ has_owner owner
  pub beyond : kernel_tlb_index < i → owner ≡ none

-- A mapping of a window belongs to the handle that owns the window.
abbrev pub BackedBy : (ℕ → Option ℕ) → ℕ → Option ℕ → Type 0
BackedBy owner file none = Unit
BackedBy owner file (some t) = owner t ≡ some file

abbrev pub Backed : (ℕ → Option ℕ) → UserMapping → Type 0
Backed owner m = BackedBy owner m.file m.tlb_id

pub record Sound (s : Shared) : Type 0 where
  pub entries : (i : ℕ) → Entry i (s.tlb_bitmap i) (s.tlb_owner i)
  pub backed : All (Backed s.tlb_owner) s.mapping_list

-- Changes of the two tables at one window.
pub update-Entry :
    (b : ℕ → Bool) (o : ℕ → Option ℕ) (i : ℕ) (v : Bool) (w : Option ℕ)
    → ((j : ℕ) → Entry j (b j) (o j))
    → Entry i v w
    → (j : ℕ) → Entry j (update b i v j) (update o i w j)
update-Entry b o i v w h e j = elim (Bool-cases (j == i)) [
  | inl t ↦ rw t (subst (λ k. Entry k v w) (sym ((==_iff j i).0 t)) e)
  | inr f ↦ rw f (h j)
]

pub some-none : (f : ℕ) → ((some f) ≡ none) → ⊥
some-none f e = cc

taken-Entry : (i f : ℕ) → i < kernel_tlb_index → Entry i true (some f)
taken-Entry i f h = record {
  kernel = λ e. elim (impossible e) [ ];
  window = λ _. refl;
  beyond = λ g. elim (impossible' g) [ ];
}
  where
    impossible : i ≡ kernel_tlb_index → ⊥
    impossible e = omega arith

    impossible' : kernel_tlb_index < i → ⊥
    impossible' g = omega arith

pub free-Entry : (i : ℕ) → i < kernel_tlb_index → Entry i false none
free-Entry i h = record {
  kernel = λ e. elim (impossible e) [ ];
  window = λ _. refl;
  beyond = λ g. refl;
}
  where
    impossible : i ≡ kernel_tlb_index → ⊥
    impossible e = omega arith

pub place : (i k : ℕ) → (i < k) ⊎ ((i ≡ k) ⊎ (k < i))
place i k = ground arith

pub below_kernel : (i : ℕ) (b : Bool) (o : Option ℕ) → Entry i b o → o ≢ none → i < kernel_tlb_index
below_kernel i b o e h = elim (place i kernel_tlb_index) [
  | inl l ↦ l
  | inr (inl q) ↦ elim (h (e.kernel q).1) [ ]
  | inr (inr g) ↦ elim (h (e.beyond g)) [ ]
]

false-true : false ≡ true → ⊥
false-true e = cc

pub clear_below : (i : ℕ) (o : Option ℕ) → Entry i false o → i < tlb_2m_count → i < kernel_tlb_index
clear_below i o e l = elim (place i kernel_tlb_index) [
  | inl h ↦ h
  | inr (inl q) ↦ elim (false-true (e.kernel q).0) [ ]
  | inr (inr g) ↦ omega arith
]

pub unowned : (i : ℕ) (o : Option ℕ) → i < kernel_tlb_index → Entry i false o → o ≡ none
unowned i none l e = refl
unowned i (some f) l e = elim (false-true (e.window l)) [ ]

-- RtlFindClearBitsAndSet: the window that it picks is below the size and was clear.
pub claim-Sound :
    (s : Shared) (i file : ℕ)
    → i < tlb_2m_count
    → s.tlb_bitmap i ≡ false
    → Sound s
    → Sound (claim_window i file s)
claim-Sound s i file l c k = record {
  entries =
      update-Entry s.tlb_bitmap s.tlb_owner i true (some file) k.entries (taken-Entry i file low);
  backed = still s.mapping_list k.backed;
}
  where
    entry : Entry i false (s.tlb_owner i)
    entry = subst (λ b. Entry i b (s.tlb_owner i)) c (k.entries i)

    low : i < kernel_tlb_index
    low = clear_below i _ entry l

    free : s.tlb_owner i ≡ none
    free = unowned i _ low entry

    backed_by :
        (f : ℕ) (t : Option ℕ)
        → BackedBy s.tlb_owner f t
        → BackedBy (update s.tlb_owner i (some file)) f t
    backed_by f none b = tt
    backed_by f (some t) b = elim (Bool-cases (t == i)) [
      | inl e ↦ elim (some-none f (sym b ∙ ap s.tlb_owner ((==_iff t i).0 e) ∙ free)) [ ]
      | inr e ↦ rw e b
    ]

    still :
        (ms : List UserMapping)
        → All (Backed s.tlb_owner) ms
        → All (Backed (update s.tlb_owner i (some file))) ms
    still [] a = tt
    still (m ∷ ms) a = (backed_by m.file m.tlb_id a.0, still ms a.1)

-- FREE_TLB of an owned window without mappings.
pub free-Sound :
    (s : Shared) (i file : ℕ)
    → s.tlb_owner i ≡ some file
    → tlb_has_mappings s i ≡ false
    → Sound s
    → Sound (free_window i s)
unfolding tlb_has_mappings has_window
free-Sound s i file o h k = record {
  entries = update-Entry s.tlb_bitmap s.tlb_owner i false none k.entries (free-Entry i low);
  backed = still s.mapping_list h k.backed;
}
  where
    low : i < kernel_tlb_index
    low = below_kernel i _ _ (k.entries i) (λ n. some-none file (sym o ∙ n))

    backed_by :
        (f : ℕ) (t : Option ℕ)
        → is_some_of i t ≡ false
        → BackedBy s.tlb_owner f t
        → BackedBy (update s.tlb_owner i none) f t
    backed_by f none n b = tt
    backed_by f (some t) n b = rw n b

    or_false : (b c : Bool) → (b || c) ≡ false → (b ≡ false) × (c ≡ false)
    or_false false c e = (refl, e)
    or_false true c e = cc

    still :
        (ms : List UserMapping)
        → has_window i ms ≡ false
        → All (Backed s.tlb_owner) ms
        → All (Backed (update s.tlb_owner i none)) ms
    still [] n a = tt
    still (m ∷ ms) n a =
        let parts = or_false (is_some_of i m.tlb_id) _ n in
        (backed_by m.file m.tlb_id parts.0 a.0, still ms parts.1 a.1)

pub append-Sound :
    (s : Shared) (m : UserMapping)
    → may_insert s m.file m.tlb_id ≡ true
    → Sound s
    → Sound (append_mapping m s)
unfolding append_mapping may_insert
append-Sound s m h k = record {
  entries = k.entries;
  backed =
      All-append (Backed s.tlb_owner) s.mapping_list (m ∷ []) k.backed
        (admitted m.file m.tlb_id h, tt);
}
  where
    owned : (f : ℕ) (o : Option ℕ) → is_some_of f o ≡ true → o ≡ some f
    owned f none e = cc
    owned f (some g) e = ap some ((==_iff g f).0 e)

    admitted : (f : ℕ) (t : Option ℕ) → may_insert s f t ≡ true → BackedBy s.tlb_owner f t
    admitted f none e = tt
    admitted f (some t) e = owned f (s.tlb_owner t) e

-- UNMAP_BAR.
pub remove-Sound :
    (s : Shared) (file va : ℕ)
    → Sound s
    → Sound (record s { mapping_list = remove_mapping file va s.mapping_list })
unfolding remove_mapping
remove-Sound s file va k = record { entries = k.entries; backed = rest s.mapping_list k.backed }
  where
    pick :
        (b : Bool) (m : UserMapping) (ms ns : List UserMapping)
        → Backed s.tlb_owner m
        → All (Backed s.tlb_owner) ms
        → All (Backed s.tlb_owner) ns
        → All (Backed s.tlb_owner) (if b then ms else m ∷ ns)
    pick true m ms ns h a c = a
    pick false m ms ns h a c = (h, c)

    rest :
        (ms : List UserMapping)
        → All (Backed s.tlb_owner) ms
        → All (Backed s.tlb_owner) (remove_mapping file va ms)
    rest [] a = tt
    rest (m ∷ ms) a = pick (is_at file va m) m ms _ a.0 a.1 (rest ms a.1)
