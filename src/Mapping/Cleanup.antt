-- ===== src/Mapping/Cleanup.antt =====
-- What EvtFileCleanup leaves of a handle (driver/mapping.c).
use tt_wind.Base.{
  ℕ, zero, suc, ◌+◌, ◌≤◌, ◌<◌, Bool, true, false, none, ◌≡◌, refl, ap, ◌∙◌, sym, not, if◌then◌else◌,
  is_some_of, keep_if, ◌==◌, ==_iff, Option, subst, Bool-cases, inl, inr, arith,
}
use tt_wind.Kernel.{Env}
use tt_wind.Context.{Shared, World, tlb_2m_count}
use tt_wind.Monad.{steps}
use tt_wind.Mapping.Table.{drop_window, drop_windows, release_handle, owned_mappings}
use tt_wind.Mapping.Teardown.{file_cleanup}
use tt_wind.Mapping.Frozen.{destroy_all-Frozen}

-- Owner and bit of a window, and the same without the handle.
abbrev pub window_of : Shared → ℕ → Option ℕ × Bool
window_of s i = (s.tlb_owner i, s.tlb_bitmap i)

abbrev pub without : ℕ → Option ℕ × Bool → Option ℕ × Bool
without file (o, b) = if is_some_of file o then (none, false) else (o, b)

dropped_here :
    (file i : ℕ) (s : Shared) → window_of (drop_window file i s) i ≡ without file (window_of s i)
dropped_here file i s = elim (Bool-cases (is_some_of file (s.tlb_owner i))) [
  | inl e ↦ rw e (rw (self i) refl)
  | inr e ↦ rw e refl
]
  where
    self : (k : ℕ) → (k == k) ≡ true
    self k = ground arith

dropped_elsewhere :
    (file i j : ℕ) (s : Shared)
    → (j == i) ≡ false
    → window_of (drop_window file i s) j ≡ window_of s j
dropped_elsewhere file i j s n = elim (Bool-cases (is_some_of file (s.tlb_owner i))) [
  | inl e ↦ rw e (rw n refl)
  | inr e ↦ rw e refl
]

-- A window below the first that the loop visits.
passed :
    (n i file j : ℕ) (s : Shared) → j < i → window_of (drop_windows n i file s) j ≡ window_of s j
unfolding drop_windows
passed zero i file j s l = refl
passed (suc n) i file j s l =
    passed n (i + 1) file j _ (omega arith) ∙ dropped_elsewhere file i j s (ground arith)

visited :
    (n i file j : ℕ) (s : Shared)
    → i ≤ j
    → j < i + n
    → window_of (drop_windows n i file s) j ≡ without file (window_of s j)
unfolding drop_windows
visited zero i file j s l u = absurd (omega arith)
visited (suc n) i file j s l u = elim (Bool-cases (j == i)) [
  | inl e ↦
      passed n (i + 1) file j _ (ground arith)
      ∙ subst (λ k. window_of (drop_window file i s) k ≡ without file (window_of s k))
          (sym ((==_iff j i).0 e)) (dropped_here file i s)
  | inr e ↦
      visited n (i + 1) file j _ (ground arith) (omega arith)
      ∙ ap (without file) (dropped_elsewhere file i j s e)
]

list_of : (n i file : ℕ) (s : Shared) → (drop_windows n i file s).mapping_list ≡ s.mapping_list
unfolding drop_windows
list_of zero i file s = refl
list_of (suc n) i file s = list_of n (i + 1) file _ ∙ same (is_some_of file (s.tlb_owner i)) refl
  where
    same :
        (b : Bool)
        → is_some_of file (s.tlb_owner i) ≡ b
        → (drop_window file i s).mapping_list ≡ s.mapping_list
    same true e = rw e refl
    same false e = rw e refl

module _ ⦃env : Env⦄ where
  cleanup_ctx :
      (file : ℕ) (w : World)
      → (file_cleanup file w).1.ctx ≡ record (w.ctx) { shared = release_handle file w.ctx.shared }
  unfolding file_cleanup steps
  cleanup_ctx file w =
      (destroy_all-Frozen (record (w.ctx) { shared = release_handle file w.ctx.shared })
          (owned_mappings file w.ctx.shared)).at
        _ refl

  -- The cleanup of a handle takes exactly the handle's mappings off the list, in the order that the
  -- others have; of the windows it frees those that the handle owns, owner and bit, and leaves
  -- every other window as it is.
  pub file_cleanup-releases :
      (file : ℕ) (w : World) (i : ℕ)
      → i < tlb_2m_count
      → ((file_cleanup file w).1.ctx.shared.mapping_list
          ≡ keep_if (λ m. not (m.file == file)) w.ctx.shared.mapping_list)
        × (window_of (file_cleanup file w).1.ctx.shared i ≡ without file (window_of w.ctx.shared i))
  unfolding release_handle
  file_cleanup-releases file w i l = (
    ap (λ c. c.shared.mapping_list) (cleanup_ctx file w) ∙ list_of tlb_2m_count 0 file _,
    ap (λ c. window_of c.shared i) (cleanup_ctx file w)
        ∙ visited tlb_2m_count 0 file i _ (omega arith) l,
  )
