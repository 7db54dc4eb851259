-- ===== src/Mapping/Created.antt =====
-- What MAP_BAR and MAP_TLB do to the mapping list (driver/mapping.c, driver/tlb.c).
use tt_wind.Base.{
  ℕ, ◌==◌, ◌!=◌, ◌∷◌, u32, ◌>>>◌, arith, Bool, true, false, Option, some, ◌≡◌, refl, subst,
}
use tt_wind.Status.{Result, ok, fail, access_denied, invalid_handle}
use tt_wind.Kernel.{
  Env, Log, CacheType, os, fill_mdl, map_locked_pages, free_mdl, attach_process, detach_process,
}
use tt_wind.Context.{mdl_kind, Context, World, UserMapping}
use tt_wind.Monad.{
  ◌>>=◌, ◌>>◌, pure, on_failure, with_lock, and_then, emit, from_result, get_ctx, require,
  modify_shared, modify_ctx, undo_with, return_status, when, tell, call, get_process, case_result,
  attempt, steps,
}
use tt_wind.Kernel.{state_lock}
use tt_wind.Monad.Keeps.{Keeps-get_process}
use tt_wind.Monad.Outcome.{
  Frozen, Outcome, bind-Outcome, tail-Outcome, option-Outcome, undo-Outcome, on_failure-Outcome,
}
use tt_wind.Mapping.Table.{may_insert, append_mapping}
use mathlib.Core.Option
use tt_wind.Mapping.Shown.{frames_of, view_of, Shown}
use tt_wind.Mapping.View.{
  page_frames, map_io_to_user, IoView, insert_mapping, destroy_mapping, create_user_mapping,
}
use tt_wind.Mapping.Frozen.{frozen_rules, destroy_mapping-Frozen}

-- The context with one mapping more, at the end of the list.
pub record Appended (old : Context) (file : Option ℕ) (len : ℕ) (tlb_id : Option ℕ) (va : ℕ)
    (w : World) : Type 0 where
  pub mapping : UserMapping
  pub context : w.ctx ≡ record old { shared = append_mapping mapping old.shared }
  pub owner : file ≡ some mapping.file
  pub window : mapping.tlb_id ≡ tlb_id
  pub length : mapping.len ≡ len
  pub address : mapping.user_va ≡ va
  pub allowed : may_insert old.shared mapping.file tlb_id ≡ true

module _ ⦃env : Env⦄ where
  -- The MDL of the view has the pages of the range and is mapped at the view's address.
  abbrev Viewed : Context → (phys len : ℕ) → CacheType → IoView → World → Type 0
  Viewed c phys len cache v w =
      (w.ctx ≡ c)
      × ((frames_of w.log v.mdl ≡ some (page_frames (u32 (len >>> 12)) (phys >>> 12)))
          × (view_of w.log v.mdl ≡ some (v.va, cache)))

  self : (k : ℕ) → (k == k) ≡ true
  self k = ground arith

  -- From the answer of MmMapLockedPagesSpecifyCache on.
  answered :
      (c : Context) (phys len : ℕ) (cache : CacheType) (mdl p : ℕ) (b : Bool) (r : Result ℕ)
      (x : Context) (l : Log)
      → x ≡ c
      → frames_of l mdl ≡ some (page_frames (u32 (len >>> 12)) (phys >>> 12))
      → env.os_answer l (map_locked_pages mdl cache) ≡ r
      → Outcome (Frozen c) (Viewed c phys len cache) (
          (when b (tell (detach_process p))
              >> case_result r
                  (λ va. pure (record { mdl = mdl; va = va }))
                  (λ s. tell (free_mdl mdl) >> return_status s))
            (record { ctx = x; log = os (map_locked_pages mdl cache) ∷ l }))
  unfolding steps frames_of view_of
  answered c phys len cache mdl p true (ok va) x l e f a = (e, (f, rw (self mdl, a) refl))
  answered c phys len cache mdl p false (ok va) x l e f a = (e, (f, rw (self mdl, a) refl))
  answered c phys len cache mdl p true (fail s) x l e f a = e
  answered c phys len cache mdl p false (fail s) x l e f a = e

  -- From the attachment to the process on.
  attached :
      (c : Context) (phys len : ℕ) (cache : CacheType) (mdl p : ℕ) (b : Bool) (w : World)
      → w.ctx ≡ c
      → frames_of w.log mdl ≡ some (page_frames (u32 (len >>> 12)) (phys >>> 12))
      → Outcome (Frozen c) (Viewed c phys len cache) (
          (when b (tell (attach_process p))
              >> (attempt (call (map_locked_pages mdl cache)) >>= λ mapped.
                  when b (tell (detach_process p))
                  >> case_result mapped
                      (λ va. pure (record { mdl = mdl; va = va }))
                      (λ s. tell (free_mdl mdl) >> return_status s)))
            w)
  unfolding steps call frames_of
  attached c phys len cache mdl p true w e f =
      answered c phys len cache mdl p true _ w.ctx (os (attach_process p) ∷ w.log) e f refl
  attached c phys len cache mdl p false w e f =
      answered c phys len cache mdl p false _ w.ctx w.log e f refl

  viewed :
      (c : Context) (phys len : ℕ) (cache : CacheType) (process mdl : ℕ) (w : World)
      → w.ctx ≡ c
      → Outcome (Frozen c) (Viewed c phys len cache) (
          (tell (fill_mdl mdl (page_frames (u32 (len >>> 12)) (phys >>> 12)))
              >> (get_process >>= λ current.
                  when (process != current) (tell (attach_process process))
                  >> (attempt (call (map_locked_pages mdl cache)) >>= λ mapped.
                      when (process != current) (tell (detach_process process))
                      >> case_result mapped
                          (λ va. pure (record { mdl = mdl; va = va }))
                          (λ s. tell (free_mdl mdl) >> return_status s))))
            w)
  unfolding ◌>>◌ ◌>>=◌ and_then tell emit get_process frames_of
  viewed c phys len cache process mdl w e =
      attached c phys len cache mdl process _ _ e (rw (self mdl) refl)

  map_io_to_user-Viewed :
      (c : Context) (phys len : ℕ) (cache : CacheType) (process : ℕ) (w : World)
      → w.ctx ≡ c
      → Outcome (Frozen c) (Viewed c phys len cache) (map_io_to_user phys len cache process w)
  unfolding map_io_to_user
  map_io_to_user-Viewed c phys len cache process w p =
      bind-Outcome (Frozen c) _ _ _ w (search frozen_rules) p
        (λ mdl w1 p1. viewed c phys len cache process mdl w1 p1)

  -- The mapping is in the list, and shows the range.
  abbrev Inserted : Context → UserMapping → (phys len mode : ℕ) → Unit {0} → World → Type 0
  Inserted c m phys len mode u w =
      (w.ctx ≡ record c { shared = append_mapping m c.shared })
      × ((may_insert c.shared m.file m.tlb_id ≡ true) × Shown phys len mode m w)

  -- The section under StateLock with its way out.
  inserted :
      (m : UserMapping) (phys len mode : ℕ) (b : Bool) (w : World)
      → may_insert w.ctx.shared m.file m.tlb_id ≡ b
      → Shown phys len mode m w
      → Outcome
          (Frozen (w.ctx))
          (Inserted (w.ctx) m phys len mode)
          (on_failure (with_lock state_lock (insert_mapping m)) (destroy_mapping m) w)
  unfolding insert_mapping on_failure with_lock ◌>>=◌ ◌>>◌ and_then emit attempt from_result get_ctx
      require modify_shared modify_ctx undo_with return_status pure frames_of view_of
  inserted m phys len mode true w e h =
      rw e (refl, (e, record { mdl = h.mdl; kind = h.kind; filled = h.filled; placed = h.placed }))
  inserted m phys len mode false w e h = rw e (
      undo-Outcome (Frozen (w.ctx)) _ (destroy_mapping m) access_denied _
        (destroy_mapping-Frozen _ m) refl)

  insert_outcome :
      (c : Context) (m : UserMapping) (phys len mode : ℕ) (w : World)
      → w.ctx ≡ c
      → Shown phys len mode m w
      → Outcome
          (Frozen c)
          (Inserted c m phys len mode)
          (on_failure (with_lock state_lock (insert_mapping m)) (destroy_mapping m) w)
  insert_outcome c m phys len mode w p h =
      subst
        (λ d.
          Outcome (Frozen d) (Inserted d m phys len mode)
            (on_failure (with_lock state_lock (insert_mapping m)) (destroy_mapping m) w))
        p (inserted m phys len mode (may_insert w.ctx.shared m.file m.tlb_id) w refl h)

  abbrev entry : (owner process : ℕ) → IoView → (len : ℕ) → Option ℕ → UserMapping
  entry owner process view len tlb = record {
    file = owner;
    process = process;
    kind = mdl_kind view.mdl;
    user_va = view.va;
    len = len;
    tlb_id = tlb;
  }

  -- One mapping more, which shows the range.
  abbrev pub Created :
      Context → (file : Option ℕ) (phys len mode : ℕ) (tlb : Option ℕ) (va : ℕ) → World → Type 0
  Created c file phys len mode tlb va w =
      (a : Appended c file len tlb va w) × Shown phys len mode a.mapping w

  appended :
      (c : Context) (file : Option ℕ) (owner process : ℕ) (view : IoView) (phys len mode : ℕ)
      (tlb : Option ℕ) (w : World)
      → file ≡ some owner
      → Inserted c (entry owner process view len tlb) phys len mode tt w
      → Outcome (Frozen c) (Created c file phys len mode tlb) (pure view.va w)
  unfolding pure
  appended c file owner process view phys len mode tlb w e q = (
    record {
      mapping = entry owner process view len tlb;
      context = q.0;
      owner = e;
      window = refl;
      length = refl;
      address = refl;
      allowed = q.1.0;
    },
    q.1.1,
  )

  pub create_user_mapping-Outcome :
      (file requestor : Option ℕ) (phys len mode : ℕ) (tlb : Option ℕ) (c : Context) (w : World)
      → w.ctx ≡ c
      → Outcome
          (Frozen c)
          (Created c file phys len mode tlb)
          (create_user_mapping file requestor phys len mode tlb w)
  unfolding create_user_mapping ◌>>◌
  create_user_mapping-Outcome file requestor phys len mode tlb c w p =
      option-Outcome (Frozen c) _ file invalid_handle _ w p (λ owner e.
        bind-Outcome (Frozen c) _ _ _ w Keeps-get_process p (λ current w1 p1.
          bind-Outcome (Frozen c) _ _ _ w1 (search frozen_rules) p1 (λ _ w2 p2.
            bind-Outcome (Frozen c) _ _ _ w2 (search frozen_rules) p2 (λ _ w3 p3.
              tail-Outcome (Frozen c) _ (Viewed c phys len _) _ _ w3
                (on_failure-Outcome _ _ _ _ w3 (search frozen_rules)
                  (map_io_to_user-Viewed c phys len _ _ w3 p3))
                (λ view w4 v.
                  let m = entry owner (Option.get_or requestor current) view len tlb in
                  tail-Outcome (Frozen c) _ (Inserted c m phys len mode) _ _ w4
                    (insert_outcome c m phys len mode w4 v.0
                      (record { mdl = view.mdl; kind = refl; filled = v.1.0; placed = v.1.1 }))
                    (λ _ w5 q. appended c file owner _ view phys len mode tlb w5 e q))))))
