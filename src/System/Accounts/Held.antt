-- ===== src/System/Accounts/Held.antt =====
-- How the mapping list of driver/mapping.c counts the mappings into a process.
use tt_wind.Base.{
  ℕ, zero, suc, is_some_of, ◌+◌, Option, none, some, List, [], ◌∷◌, ◌++◌, ◌≡◌, refl, ◌∙◌, ◌==◌, not,
  arith, keep_if, Bool-cases, inl, inr,
}
use tt_wind.Context.{World, Shared, UserMapping}
use tt_wind.Mapping.Table.{
  find_mapping, remove_mapping, is_at, drop_windows, drop_window, belongs_to,
}
use tt_wind.System.Accounts.{one, held, Owes}

pub recount : (p : ℕ) (a b : ℕ) (w : World) → a ≡ b → Owes p a w → Owes p b w
recount p a b w e o = omega (arith, e)

pub held-append :
    (p : ℕ) (ms : List UserMapping) (m : UserMapping)
    → held p (ms ++ m ∷ []) ≡ held p ms + one p m.process
unfolding held
held-append p [] m = omega arith
held-append p (x ∷ ms) m = omega (arith, held-append p ms m)

pub held-keep_if :
    (p : ℕ) (file : ℕ) (ms : List UserMapping)
    → held p ms
      ≡ held p (keep_if (λ m. not (belongs_to file m)) ms) + held p (keep_if (belongs_to file) ms)
unfolding held
held-keep_if p file [] = omega arith
held-keep_if p file (m ∷ ms) = elim (Bool-cases (m.file == file)) [
  | inl e ↦ rw e (omega (arith, held-keep_if p file ms))
  | inr e ↦ rw e (omega (arith, held-keep_if p file ms))
]

abbrev pub found_one : ℕ → Option UserMapping → ℕ
found_one p none = 0
found_one p (some m) = one p m.process

pub held-remove :
    (p : ℕ) (file va : ℕ) (ms : List UserMapping)
    → held p ms ≡ held p (remove_mapping file va ms) + found_one p (find_mapping file va ms)
unfolding held remove_mapping find_mapping
held-remove p file va [] = omega arith
held-remove p file va (m ∷ ms) = elim (Bool-cases (is_at file va m)) [
  | inl e ↦ rw e (omega arith)
  | inr e ↦ rw e (omega (arith, held-remove p file va ms))
]

pub drop_windows-list :
    (n i file : ℕ) (s : Shared) → (drop_windows n i file s).mapping_list ≡ s.mapping_list
unfolding drop_windows
drop_windows-list zero i file s = refl
drop_windows-list (suc n) i file s = drop_windows-list n (i + 1) file _ ∙ kept
  where
    kept : (drop_window file i s).mapping_list ≡ s.mapping_list
    kept = elim (Bool-cases (is_some_of file (s.tlb_owner i))) [
      | inl e ↦ rw e refl
      | inr e ↦ rw e refl
    ]
