-- ===== src/Mapping/Frozen.antt =====
-- What driver/mapping.c does outside the sections under StateLock leaves the device context as it is.
use tt_wind.Base.{ℕ, List, [], ◌∷◌}
use tt_wind.Kernel.{Env, Event, CacheType}
use tt_wind.Context.{Context, UserMapping, MappingKind, mdl_kind, section_kind}
use tt_wind.Monad.Keeps.{Keeps, Ignores, keeps_rules, Keeps-seq}
use tt_wind.Monad.Outcome.{Frozen}
use tt_wind.Monad.Moves.{Runs, Runs-seq, runs_rules, Keeps-Moves, Moves-Runs}
use tt_wind.Mapping.View.{
  map_io_to_user, unmap_kind, free_kind, unmap_user_view, unmap_in_owner, destroy_mapping,
  destroy_all,
}

module _ ⦃env : Env⦄ (c : Context) where
  pub event-Frozen : (e : Event) → Ignores (Frozen c) e
  event-Frozen e = record { at = λ w p. p }

  pub ruleset frozen_rules = (keeps_rules, event-Frozen)

  ruleset unmap_rules = (runs_rules, event-Frozen)

  unmap_kind-Frozen : (k : MappingKind) (va : ℕ) → Runs (Frozen c) (Frozen c) (unmap_kind k va)
  unfolding unmap_kind
  unmap_kind-Frozen (mdl_kind mdl) va = search unmap_rules
  unmap_kind-Frozen (section_kind base) va = search unmap_rules

  free_kind-Frozen : (k : MappingKind) → Runs (Frozen c) (Frozen c) (free_kind k)
  unfolding free_kind
  free_kind-Frozen (mdl_kind mdl) = search unmap_rules
  free_kind-Frozen (section_kind base) = search unmap_rules

  pub destroy_mapping-Runs : (m : UserMapping) → Runs (Frozen c) (Frozen c) (destroy_mapping m)
  unfolding destroy_mapping unmap_in_owner unmap_user_view
  destroy_mapping-Runs m = search (unmap_rules, unmap_kind-Frozen, free_kind-Frozen) depth 20

  pub destroy_mapping-Frozen : (m : UserMapping) → Keeps (Frozen c) (destroy_mapping m)
  destroy_mapping-Frozen m = Keeps-Moves _ (Moves-Runs _ (destroy_mapping-Runs m))

  pub destroy_all-Runs : (ms : List UserMapping) → Runs (Frozen c) (Frozen c) (destroy_all ms)
  unfolding destroy_all
  destroy_all-Runs [] = search unmap_rules
  destroy_all-Runs (m ∷ ms) = Runs-seq _ _ (destroy_mapping-Runs m) (destroy_all-Runs ms)

  pub destroy_all-Frozen : (ms : List UserMapping) → Keeps (Frozen c) (destroy_all ms)
  destroy_all-Frozen ms = Keeps-Moves _ (Moves-Runs _ (destroy_all-Runs ms))

  pub map_io_to_user-Frozen :
      (phys len : ℕ) (cache : CacheType) (process : ℕ)
      → Keeps (Frozen c) (map_io_to_user phys len cache process)
  unfolding map_io_to_user
  map_io_to_user-Frozen phys len cache process = search frozen_rules depth 20
