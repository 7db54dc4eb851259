-- ===== src/Tlb/Lease.antt =====
-- ALLOCATE_TLB and FREE_TLB of one window (driver/tlb.c).
use tt_wind.Base.{
  ℕ, ◌<◌, true, false, Option, some, none, List, [], ◌∷◌, ◌≡◌, refl, sym, ap, ap₂, ◌∙◌, ◌==◌, subst,
  fun_ext, update, is_some_of, Bool-cases, inl, inr, ==_iff, All, ltb, arith, ◌||◌, if◌then◌else◌,
}
use tt_wind.Status.{ok, invalid_handle}
use tt_wind.Kernel.{Env, state_lock}
use tt_wind.Context.{Context, World, Shared, UserMapping, kernel_tlb_index, tlb_2m_count}
use tt_wind.Monad.{◌>>◌, with_lock, steps}
use tt_wind.Monad.Outcome.{
  outcome_at, Frozen, Outcome, result-Outcome, option-Outcome, require-Outcome, weaken-Outcome,
}
use tt_wind.Request.{Request, FreeTlbIn}
use tt_wind.Mapping.Table.{has_window, tlb_has_mappings}
use tt_wind.Mapping.Sound.{Sound, Backed, Entry, clear_below, unowned}
use tt_wind.Tlb.Preserves.{FindsClear}
use tt_wind.Tlb.Windows.{
  claim_window, free_window, take_window, allocate_tlb, check_tlb_owner, free_tlb,
}

-- A write that puts back what the write before it replaced.
update_undo {ℓ} :
    {A : Type ℓ} (t : ℕ → A) (i : ℕ) (v u : A) → t i ≡ u → update (update t i v) i u ≡ t
update_undo t i v u e = fun_ext (λ j. elim (Bool-cases (j == i)) [
  | inl h ↦ rw h (sym (ap t ((==_iff j i).0 h) ∙ e))
  | inr h ↦ rw h refl
])

claim-free :
    (i file : ℕ) (s : Shared)
    → s.tlb_bitmap i ≡ false
    → s.tlb_owner i ≡ none
    → free_window i (claim_window i file s) ≡ s
claim-free i file s b o =
    ap₂ (λ bitmap owner. record s { tlb_bitmap = bitmap; tlb_owner = owner })
      (update_undo s.tlb_bitmap i true false b) (update_undo s.tlb_owner i (some file) none o)

-- A window without an owner has no mappings.
unmapped :
    (o : ℕ → Option ℕ) (t : ℕ) (ms : List UserMapping)
    → o t ≡ none
    → All (Backed o) ms
    → has_window t ms ≡ false
unfolding has_window
unmapped o t [] e a = refl
unmapped o t (m ∷ ms) e a = ap₂ ◌||◌ (first m.tlb_id m.file a.0) (unmapped o t ms e a.1)
  where
    first :
        (w : Option ℕ) (f : ℕ)
        → Backed o (record m { tlb_id = w; file = f })
        → is_some_of t w ≡ false
    first none f b = refl
    first (some x) f b = elim (Bool-cases (x == t)) [
      | inl h ↦ absurd (clash (sym b ∙ ap o ((==_iff x t).0 h) ∙ e))
      | inr h ↦ h
    ]
      where
        clash : some f ≡ none → ⊥
        clash q = cc

-- The window that a handle was given.
pub record Leased (file : Option ℕ) (old : Context) (id : ℕ) (w : World) : Type 0 where
  pub holder : ℕ
  pub asked : file ≡ some holder
  pub usable : id < kernel_tlb_index
  pub clear : old.shared.tlb_bitmap id ≡ false
  pub unowned : old.shared.tlb_owner id ≡ none
  pub context : w.ctx ≡ record old { shared = claim_window id holder old.shared }

module _ ⦃env : Env⦄ where
  abbrev Taken : Context → ℕ → ℕ → World → Type 0
  Taken c file id w =
      (env.find_clear c.shared.tlb_bitmap ≡ some id)
      × (w.ctx ≡ record c { shared = claim_window id file c.shared })

  taken :
      (file : ℕ) (o : Option ℕ) (w : World)
      → env.find_clear w.ctx.shared.tlb_bitmap ≡ o
      → Outcome (Frozen (w.ctx)) (Taken (w.ctx) file) (with_lock state_lock (take_window file) w)
  unfolding take_window steps
  taken file none w e = rw e refl
  taken file (some i) w e = rw e (e, refl)

  leased :
      (c : Context) (file : Option ℕ) (f i : ℕ) (w : World)
      → FindsClear env
      → Sound c.shared
      → file ≡ some f
      → Taken c f i w
      → Leased file c i w
  leased c file f i w finds s e t =
      let (low, clear) = finds.picks c.shared.tlb_bitmap i t.0 in
      let entry = subst (λ b. Entry i b (c.shared.tlb_owner i)) clear (s.entries i) in
      let usable = clear_below i (c.shared.tlb_owner i) entry low in
      record {
        holder = f;
        asked = e;
        usable = usable;
        clear = clear;
        unowned = unowned i (c.shared.tlb_owner i) usable entry;
        context = t.1;
      }

  -- ALLOCATE_TLB on a sound state, with a bitmap routine that picks a clear bit: on success the
  -- window is not the kernel's, was clear and had no owner, and the context differs in its bit, now
  -- set, and its owner, now the requesting handle, alone; on every failure the context is as it was.
  pub allocate_tlb-leases :
      (req : Request ℕ) (w : World)
      → FindsClear env
      → Sound w.ctx.shared
      → Outcome (Frozen (w.ctx)) (Leased req.file (w.ctx)) (allocate_tlb req w)
  unfolding allocate_tlb ◌>>◌
  allocate_tlb-leases req w finds s =
      let c : Context = w.ctx in
      let Q : ℕ → World → Type 0 = Leased req.file c in
      option-Outcome (Frozen c) Q req.file invalid_handle _ w refl (λ file e.
        result-Outcome (Frozen c) Q req.input _ w refl (λ size _.
          result-Outcome (Frozen c) Q req.output _ w refl (λ _ _.
            require-Outcome (Frozen c) Q _ _ _ w refl (λ _.
              weaken-Outcome (Frozen c) Q (Taken c file) _ (taken file _ w refl)
                (λ i w' t. leased c req.file file i w' finds s e t)))))

  freed :
      (r : Request FreeTlbIn) (w : World) (f i : ℕ)
      → r.file ≡ some f
      → r.input ≡ ok (record { tlb_id = i; reserved = 0 })
      → ltb i tlb_2m_count ≡ true
      → is_some_of f (w.ctx.shared.tlb_owner i) ≡ true
      → has_window i w.ctx.shared.mapping_list ≡ false
      → ((free_tlb r w).0 ≡ ok tt)
        × ((free_tlb r w).1.ctx ≡ record (w.ctx) { shared = free_window i w.ctx.shared })
  unfolding free_tlb check_tlb_owner tlb_has_mappings steps
  freed r w f i a b l o h = rw a (rw b (rw l (rw o (rw h (refl, refl)))))

  -- A window of which the context tells that it was just given to `holder`.
  given_back :
      (file : Option ℕ) (r : Request FreeTlbIn) (old : Context) (i : ℕ) (w : World)
      → Sound old.shared
      → r.file ≡ file
      → r.input ≡ ok (record { tlb_id = i; reserved = 0 })
      → Leased file old i w
      → ((free_tlb r w).0 ≡ ok tt) × ((free_tlb r w).1.ctx ≡ old)
  given_back file r old i w s a b k =
      let held = ap (λ c. is_some_of k.holder (c.shared.tlb_owner i)) k.context ∙ own i k.holder in
      let idle =
        ap (λ c. has_window i c.shared.mapping_list) k.context
        ∙ unmapped old.shared.tlb_owner i old.shared.mapping_list k.unowned s.backed in
      let done = freed r w k.holder i (a ∙ k.asked) b (low k.usable) held idle in
      (
        done.0,
        done.1
            ∙ ap (λ (c : Context). record c { shared = free_window i c.shared }) k.context
            ∙ ap (λ (sh : Shared). record old { shared = sh })
                (claim-free i k.holder old.shared k.clear k.unowned),
      )
    where
      low : i < kernel_tlb_index → ltb i tlb_2m_count ≡ true
      low l = ground arith

      own : (j f : ℕ) → is_some_of f (if j == j then some f else old.shared.tlb_owner j) ≡ true
      own j f = ground arith

  -- FREE_TLB of the window that ALLOCATE_TLB has just given to the same handle succeeds, and the
  -- context is the one before both. The state was sound, and the bitmap routine picks a clear bit.
  pub allocate_tlb-free_tlb :
      (req : Request ℕ) (r : Request FreeTlbIn) (w : World) (id : ℕ)
      → FindsClear env
      → Sound w.ctx.shared
      → (allocate_tlb req w).0 ≡ ok id
      → r.file ≡ req.file
      → r.input ≡ ok (record { tlb_id = id; reserved = 0 })
      → ((free_tlb r (allocate_tlb req w).1).0 ≡ ok tt)
        × ((free_tlb r (allocate_tlb req w).1).1.ctx ≡ w.ctx)
  allocate_tlb-free_tlb req r w id finds s e a b = given_back req.file r (w.ctx) id _ s a b (
      outcome_at (Frozen (w.ctx)) (Leased req.file (w.ctx)) _ id (allocate_tlb-leases req w finds s)
        e)
