-- ===== src/Mapping/Removal.antt =====
-- The search and the removal of UNMAP_BAR on the mapping list (driver/mapping.c).
use tt_wind.Base.{
  ℕ, Bool, true, false, Option, none, some, List, [], ◌∷◌, ◌++◌, ◌≡◌, refl, ap, sym, ◌∙◌,
  Bool-cases, inl, inr, arith, if◌then◌else◌,
}
use tt_wind.Context.{UserMapping}
use tt_wind.Mapping.Table.{find_mapping, remove_mapping, is_at}

-- The first mapping of the handle at the address, with what stands before and after it.
pub record Split (file va : ℕ) (ms : List UserMapping) : Type 0 where
  pub before : List UserMapping
  pub mapping : UserMapping
  pub after : List UserMapping
  pub whole : ms ≡ before ++ mapping ∷ after
  pub rest : remove_mapping file va ms ≡ before ++ after
  pub earlier : find_mapping file va before ≡ none
  pub here : is_at file va mapping ≡ true

pub split :
    (file va : ℕ) (ms : List UserMapping) (m : UserMapping)
    → find_mapping file va ms ≡ some m
    → Split file va ms
unfolding find_mapping remove_mapping
split file va [] m e = absurd cc
split file va (x ∷ ms) m e = elim (Bool-cases (is_at file va x)) [
  | inl h ↦ record {
    before = [];
    mapping = x;
    after = ms;
    whole = refl;
    rest = rw h refl;
    earlier = refl;
    here = h;
  }
  | inr h ↦ longer h (split file va ms m (sym (skip h) ∙ e))
]
  where
    skip : is_at file va x ≡ false → find_mapping file va (x ∷ ms) ≡ find_mapping file va ms
    skip h = rw h refl

    longer : is_at file va x ≡ false → Split file va ms → Split file va (x ∷ ms)
    longer h s = record {
      before = x ∷ s.before;
      mapping = s.mapping;
      after = s.after;
      whole = ap (λ l. x ∷ l) s.whole;
      rest = rw h (ap (λ l. x ∷ l) s.rest);
      earlier = rw h s.earlier;
      here = s.here;
    }

missing :
    (b : Bool) (m : UserMapping) (o : Option UserMapping)
    → (if b then some m else o) ≡ none
    → (b ≡ false) × (o ≡ none)
missing true m o e = absurd cc
missing false m o e = (refl, e)

absent :
    (file va : ℕ) (m : UserMapping) (ms : List UserMapping)
    → find_mapping file va (m ∷ ms) ≡ none
    → (is_at file va m ≡ false) × (find_mapping file va ms ≡ none)
unfolding find_mapping
absent file va m ms e = missing (is_at file va m) m _ e

pub kept :
    (file va : ℕ) (ms : List UserMapping)
    → find_mapping file va ms ≡ none
    → remove_mapping file va ms ≡ ms
unfolding remove_mapping
kept file va [] e = refl
kept file va (m ∷ ms) e =
    let a = absent file va m ms e in rw a.0 (ap (λ l. m ∷ l) (kept file va ms a.1))

module _ (file va : ℕ) (m : UserMapping) (h : is_at file va m ≡ true) where
  pub find-append :
      (ms : List UserMapping)
      → find_mapping file va ms ≡ none
      → find_mapping file va (ms ++ m ∷ []) ≡ some m
  unfolding find_mapping
  find-append [] e = rw h refl
  find-append (x ∷ ms) e = let a = absent file va x ms e in rw a.0 (find-append ms a.1)

  pub remove-append :
      (ms : List UserMapping)
      → find_mapping file va ms ≡ none
      → remove_mapping file va (ms ++ m ∷ []) ≡ ms
  unfolding remove_mapping
  remove-append [] e = rw h refl
  remove-append (x ∷ ms) e =
      let a = absent file va x ms e in rw a.0 (ap (λ l. x ∷ l) (remove-append ms a.1))

pub parts :
    (file va : ℕ) (m : UserMapping) → is_at file va m ≡ true → (m.file ≡ file) × (m.user_va ≡ va)
parts file va m h = ground arith

pub at : (m : UserMapping) (va : ℕ) → m.user_va ≡ va → is_at m.file va m ≡ true
at m va e = ground arith
