-- ===== src/System/Accounts/Views.antt =====
-- The references along the making and the destruction of one view (driver/mapping.c, driver/sysmem.c).
use tt_wind.Base.{ℕ, ◌+◌, Bool}
use tt_wind.Kernel.{Env, CacheType, reference_process, dereference_process, free_pool}
use tt_wind.Context.{UserMapping, MappingKind, mdl_kind, section_kind}
use tt_wind.Monad.{◌>>◌, tell}
use tt_wind.Monad.Keeps.{Keeps, keeps_rules, Keeps-bind}
use tt_wind.Monad.Moves.{Shifts, Runs, runs_rules, Moves-bind, Moves-seq, Moves-tell}
use tt_wind.Mapping.View.{
  map_io_to_user, unmap_kind, free_kind, unmap_user_view, unmap_in_owner, destroy_mapping,
}
use tt_wind.Sysmem.Ioctl.{map_sysmem_to_user}
use tt_wind.System.Accounts.{
  one, taken, given, held, Owes, Accounted, neutral_event, tell-taken, tell-given,
}

module _ ⦃env : Env⦄ (p n : ℕ) where
  pub ruleset neutral_rules = (keeps_rules, neutral_event)

  pub map_io_to_user-Owes :
      (a l : ℕ) (c : CacheType) (q : ℕ) → Keeps (Owes p n) (map_io_to_user a l c q)
  unfolding map_io_to_user
  map_io_to_user-Owes a l c q = search neutral_rules depth 20

  pub map_sysmem_to_user-Owes : (a l q : ℕ) → Keeps (Owes p n) (map_sysmem_to_user a l q)
  unfolding map_sysmem_to_user
  map_sysmem_to_user-Owes a l q = search neutral_rules depth 24

  unmap_kind-Runs : (k : MappingKind) (va : ℕ) → Runs (Owes p n) (Owes p n) (unmap_kind k va)
  unfolding unmap_kind
  unmap_kind-Runs (mdl_kind mdl) va = search (runs_rules, neutral_event)
  unmap_kind-Runs (section_kind base) va = search (runs_rules, neutral_event)

  free_kind-Runs : (k : MappingKind) → Runs (Owes p n) (Owes p n) (free_kind k)
  unfolding free_kind
  free_kind-Runs (mdl_kind mdl) = search (runs_rules, neutral_event)
  free_kind-Runs (section_kind base) = search runs_rules

  unmap_in_owner-Runs :
      (q : ℕ) (b : Bool) (m : UserMapping) → Runs (Owes p n) (Owes p n) (unmap_in_owner q b m)
  unfolding unmap_in_owner unmap_user_view
  unmap_in_owner-Runs q b m = search (runs_rules, neutral_event, unmap_kind-Runs) depth 12

  pub taken-Shifts : (q : ℕ) → Shifts (Owes p n) (Owes p (n + one p q)) (tell (reference_process q))
  taken-Shifts q = record { at = tell-taken p n q }

  given-Shifts : (q : ℕ) → Shifts (Owes p (n + one p q)) (Owes p n) (tell (dereference_process q))
  given-Shifts q = record { at = tell-given p n q }

  -- `ObDereferenceObject(process); ExFreePool(m);`
  pub give_back-Runs :
      (q : ℕ)
      → Runs (Owes p (n + one p q)) (Owes p n) (tell (dereference_process q) >> tell free_pool)
  give_back-Runs q =
      Moves-seq (Owes p n) _ _ (Moves-tell _ (given-Shifts q)) (search (runs_rules, neutral_event))

module _ ⦃env : Env⦄ (p n : ℕ) where
  pub destroy_mapping-Runs :
      (m : UserMapping) → Runs (Owes p (n + one p m.process)) (Owes p n) (destroy_mapping m)
  unfolding destroy_mapping
  destroy_mapping-Runs m =
      Moves-bind (Owes p (n + one p m.process)) _ _ (search runs_rules) (λ current.
        Moves-bind (Owes p (n + one p m.process)) _ _ (search runs_rules) (λ alive.
          Moves-seq (Owes p (n + one p m.process)) _ _ (unmap_in_owner-Runs p _ current alive m) (
            Moves-seq (Owes p (n + one p m.process)) _ _ (free_kind-Runs p _ m.kind)
              (give_back-Runs p n m.process))))
