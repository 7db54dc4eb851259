-- ===== src/Mapping/Unmapped.antt =====
-- What UNMAP_BAR takes off the mapping list (driver/mapping.c).
use tt_wind.Base.{ℕ, true, Option, none, some, List, ◌∷◌, ◌++◌, ◌≡◌, refl, ap, sym, ◌∙◌}
use tt_wind.Status.{Result, ok, fail, invalid_handle, not_found}
use tt_wind.Kernel.{Env, state_lock}
use tt_wind.Context.{Context, World, UserMapping}
use tt_wind.Monad.{◌>>=◌, with_lock, from_option, steps}
use tt_wind.Monad.Outcome.{Frozen, Outcome, outcome_at, result-Outcome, option-Outcome}
use tt_wind.Request.{Request, MapBarIn, MapOut}
use tt_wind.Mapping.Table.{find_mapping, remove_mapping, is_at, append_mapping}
use tt_wind.Mapping.View.{destroy_mapping}
use tt_wind.Mapping.Ioctl.{map_bar, take_mapping, unmap_bar}
use tt_wind.Mapping.Frozen.{destroy_mapping-Runs}
use tt_wind.Mapping.Created.{Appended}
use tt_wind.Mapping.Ranges.{MappedBar, map_bar-maps}
use tt_wind.Mapping.Removal.{Split, split, kept, find-append, remove-append, parts, at}

-- The context with another mapping list.
abbrev pub with_list : Context → List UserMapping → Context
with_list c ms = record c { shared = record (c.shared) { mapping_list = ms } }

-- One mapping less: the first of the requesting handle at the address.
pub record Removed (req : Request ℕ) (old : Context) (u : Unit {0}) (w : World) : Type 0 where
  pub before : List UserMapping
  pub mapping : UserMapping
  pub after : List UserMapping
  pub listed : old.shared.mapping_list ≡ before ++ mapping ∷ after
  pub context : w.ctx ≡ with_list old (before ++ after)
  pub owner : req.file ≡ some mapping.file
  pub address : req.input ≡ ok mapping.user_va
  pub first : find_mapping mapping.file mapping.user_va before ≡ none

module _ ⦃env : Env⦄ where
  ran :
      (c : Context) (r : Result (Unit {0}) × World)
      → Outcome (λ v. ⊥) (λ u. Frozen c) r
      → (r.0 ≡ ok tt) × (r.1.ctx ≡ c)
  ran c (ok a, w) o = (refl, o)
  ran c (fail s, w) o = absurd o

  found :
      (r : Request ℕ) (w : World) (file va : ℕ) (m : UserMapping)
      → r.file ≡ some file
      → r.input ≡ ok va
      → find_mapping file va w.ctx.shared.mapping_list ≡ some m
      → ((unmap_bar r w).0 ≡ ok tt)
        × ((unmap_bar r w).1.ctx
            ≡ with_list (w.ctx) (remove_mapping file va w.ctx.shared.mapping_list))
  unfolding unmap_bar take_mapping steps
  found r w file va m a b f = rw a (rw b (rw f (ran _ _ ((destroy_mapping-Runs _ m).at _ refl))))

  -- The rest of the handler, on a list with a mapping at the address and on one without.
  taken_off :
      (req : Request ℕ) (c : Context) (r : Result (Unit {0}) × World) (ms : List UserMapping)
      → Outcome (λ v. ⊥) (λ u. Frozen (with_list c ms)) r
      → ((v : World) → v.ctx ≡ with_list c ms → Removed req c tt v)
      → Outcome (Frozen c) (Removed req c) r
  taken_off req c (ok u, w) ms o h = h w o
  taken_off req c (fail s, w) ms o h = absurd o

  removed :
      (req : Request ℕ) (c : Context) (file va : ℕ)
      → req.file ≡ some file
      → req.input ≡ ok va
      → Split file va c.shared.mapping_list
      → (v : World) → v.ctx ≡ with_list c (remove_mapping file va c.shared.mapping_list)
      → Removed req c tt v
  removed req c file va a b s v e =
      let h = parts file va s.mapping s.here in
      record {
        before = s.before;
        mapping = s.mapping;
        after = s.after;
        listed = s.whole;
        context = e ∙ ap (with_list c) s.rest;
        owner = a ∙ ap (λ n. some n) (sym h.0);
        address = b ∙ ap (λ n. ok n) (sym h.1);
        first = rw h.0 (rw h.1 s.earlier);
      }

  torn_down :
      (req : Request ℕ) (w : World) (file va : ℕ) (o : Option UserMapping)
      → req.file ≡ some file
      → req.input ≡ ok va
      → find_mapping file va w.ctx.shared.mapping_list ≡ o
      → Outcome (Frozen (w.ctx)) (Removed req (w.ctx)) (
          (with_lock state_lock (take_mapping file va) >>= λ found.
          from_option found not_found >>= destroy_mapping)
            w)
  unfolding take_mapping steps
  torn_down req w file va none a b f =
      rw f (ap (with_list (w.ctx)) (kept file va w.ctx.shared.mapping_list f))
  torn_down req w file va (some m) a b f = rw f (
      taken_off req (w.ctx) _ _ ((destroy_mapping-Runs _ m).at _ refl)
        (removed req (w.ctx) file va a b (split file va _ m f)))

  -- UNMAP_BAR: on success the context has one mapping less, the first one in the list of the
  -- requesting handle at the given address, and the others are in their order; on every failure the
  -- context is as it was.
  pub unmap_bar-unmaps :
      (req : Request ℕ) (w : World)
      → Outcome (Frozen (w.ctx)) (Removed req (w.ctx)) (unmap_bar req w)
  unfolding unmap_bar
  unmap_bar-unmaps req w =
      option-Outcome _ _ req.file invalid_handle _ w refl (λ file a.
        result-Outcome _ _ req.input _ w refl (λ va b. torn_down req w file va _ a b refl))

  given_back :
      (file : Option ℕ) (r : Request ℕ) (old : Context) (len va : ℕ) (w : World)
      → r.file ≡ file
      → r.input ≡ ok va
      → Appended old file len none va w
      → ((f : ℕ) → file ≡ some f → find_mapping f va old.shared.mapping_list ≡ none)
      → ((unmap_bar r w).0 ≡ ok tt) × ((unmap_bar r w).1.ctx ≡ old)
  unfolding append_mapping
  given_back file r old len va w a b k n =
      let h : is_at k.mapping.file va k.mapping ≡ true = at k.mapping va k.address in
      let e = n k.mapping.file k.owner in
      let list = ap (λ (c : Context). c.shared.mapping_list) k.context in
      let done =
        found r w k.mapping.file va k.mapping (a ∙ k.owner) b
          (ap (find_mapping k.mapping.file va) list ∙ find-append _ va k.mapping h _ e) in
      (
        done.0,
        done.1
            ∙ ap
                (λ (c : Context).
                  with_list c (remove_mapping k.mapping.file va c.shared.mapping_list))
                k.context
            ∙ ap (with_list old) (remove-append _ va k.mapping h _ e),
      )

  -- UNMAP_BAR of the address that MAP_BAR has just given to the same handle succeeds, and the
  -- context is the one before both. No mapping of the handle was at that address.
  pub map_bar-unmap_bar :
      (req : Request MapBarIn) (r : Request ℕ) (w : World) (out : MapOut)
      → (map_bar req w).0 ≡ ok out
      → r.file ≡ req.file
      → r.input ≡ ok out.user_va
      → ((f : ℕ) → req.file ≡ some f → find_mapping f out.user_va w.ctx.shared.mapping_list ≡ none)
      → ((unmap_bar r (map_bar req w).1).0 ≡ ok tt)
        × ((unmap_bar r (map_bar req w).1).1.ctx ≡ w.ctx)
  map_bar-unmap_bar req r w out e a b n =
      let k = outcome_at (Frozen (w.ctx)) (MappedBar req (w.ctx)) _ out (map_bar-maps req w) e in
      given_back req.file r (w.ctx) _ out.user_va _ a b k.appended n
