-- ===== src/System/Accounts/Mappings.antt =====
-- The references that the mapping routines take and give back (driver/mapping.c, driver/sysmem.c).
use tt_wind.Base.{ℕ, ◌+◌, Option, none, some, List, [], ◌∷◌, refl, ap, u64, not, arith, keep_if}
use mathlib.Core.Option
use tt_wind.Kernel.{
  Env, allocate_pool, state_lock, reference_process, dereference_process, free_pool,
}
use tt_wind.Context.{tlb_2m_count, Context, World, UserMapping, section_kind}
use tt_wind.Monad.{
  M, from_option, return_status, pure, call, or_status, get_process, ◌>>=◌, ◌>>◌, tell, and_then,
  get_ctx, modify_ctx, steps, modify_shared, with_lock, on_failure,
}
use tt_wind.Monad.Keeps.{Keeps}
use tt_wind.Monad.Outcome.{Outcome, require-Outcome, tail-Outcome}
use tt_wind.Status.{access_denied, not_found, insufficient_resources}
use tt_wind.Monad.Moves.{
  Moves, Runs, Moves-bind, Moves-seq, Moves-tell, Moves-Keeps, Keeps-Moves, Moves-on_failure,
  Moves-with_lock, Moves-Runs, Shifts-Runs, Runs-pure,
}
use tt_wind.Request.{Request, MapBarIn, MapOut, MapSysmemIn}
use tt_wind.Mapping.Table.{
  append_mapping, owned_mappings, release_handle, belongs_to, reclaim_windows,
}
use tt_wind.Mapping.View.{destroy_mapping, destroy_all, insert_mapping, create_user_mapping}
use tt_wind.Mapping.Ioctl.{map_bar, take_mapping, unmap_bar}
use tt_wind.Mapping.Teardown.{file_cleanup, revoke_all_mappings}
use tt_wind.Sysmem.Ioctl.{map_sysmem, map_sysmem_to_user}
use tt_wind.System.Accounts.{one, taken, given, held, Owes, Accounted, neutral_event}
use tt_wind.System.Accounts.Held.{
  recount, held-append, held-keep_if, found_one, held-remove, drop_windows-list,
}
use tt_wind.System.Accounts.Views.{
  neutral_rules, map_io_to_user-Owes, map_sysmem_to_user-Owes, taken-Shifts, give_back-Runs,
  destroy_mapping-Runs,
}

module _ ⦃env : Env⦄ (p : ℕ) where
  destroy_all-Runs :
      (ms : List UserMapping) → Runs (Owes p (held p ms)) (Accounted p) (destroy_all ms)
  unfolding destroy_all held
  destroy_all-Runs [] = Runs-pure tt
  destroy_all-Runs (m ∷ ms) = record {
    at = λ w o.
        (Moves-seq (Owes p (held p ms)) _ _ (destroy_mapping-Runs p (held p ms) m)
            (destroy_all-Runs ms)).at
          w (recount p _ _ w (omega arith) o);
  }

  insert-Moves :
      (m : UserMapping)
      → Moves
          (Owes p (0 + one p m.process))
          (Accounted p)
          (Owes p (0 + one p m.process))
          (insert_mapping m)
  unfolding insert_mapping ◌>>=◌ and_then get_ctx modify_shared modify_ctx append_mapping
  insert-Moves m = record {
    at = λ w o.
        require-Outcome (Owes p (0 + one p m.process)) (λ _. Accounted p) _ access_denied _ w o
          (λ h. omega (arith, o, held-append p w.ctx.shared.mapping_list m));
  }

  -- The insertion, or the destruction of what was not inserted.
  inserted-Moves :
      (m : UserMapping)
      → Moves
          (Owes p (0 + one p m.process))
          (Accounted p)
          (Accounted p)
          (on_failure (with_lock state_lock (insert_mapping m)) (destroy_mapping m))
  inserted-Moves m =
      Moves-on_failure (Owes p (0 + one p m.process)) _ _
        (Moves-with_lock _ _ (neutral_event p _ _ refl) (neutral_event p _ _ refl)
          (neutral_event p _ _ refl) (insert-Moves m))
        (Shifts-Runs _ (destroy_mapping-Runs p 0 m))

  pub create_user_mapping-Accounted :
      (file requestor : Option ℕ) (phys len mode : ℕ) (t : Option ℕ)
      → Keeps (Accounted p) (create_user_mapping file requestor phys len mode t)
  unfolding create_user_mapping
  create_user_mapping-Accounted file requestor phys len mode t = Keeps-Moves _ (
      Moves-bind (Accounted p) _ _ (Moves-Keeps _ (search neutral_rules)) (λ owner.
        Moves-bind (Accounted p) _ _ (Moves-Keeps _ (search neutral_rules)) (λ current.
          let q = Option.get_or requestor current in
          Moves-bind (Accounted p) _ _ (Moves-Keeps _ (search neutral_rules)) (λ _.
            Moves-seq (Owes p (0 + one p q)) _ _ (Moves-tell _ (taken-Shifts p 0 q)) (
              Moves-bind (Owes p (0 + one p q)) _ _
                (Moves-on_failure (Owes p (0 + one p q)) _ _
                  (Moves-Keeps _ (map_io_to_user-Owes p _ _ _ _ q))
                  (Shifts-Runs _ (give_back-Runs p 0 q)))
                (λ view.
                  Moves-seq (Accounted p) _ _ (inserted-Moves _)
                    (Moves-Keeps _ (search neutral_rules))))))))

  pub map_bar-Accounted : (r : Request MapBarIn) → Keeps (Accounted p) (map_bar r)
  unfolding map_bar
  map_bar-Accounted r = search (neutral_rules, create_user_mapping-Accounted) depth 24

  append-Moves :
      (m : UserMapping)
      → Moves
          (Owes p (0 + one p m.process))
          (Accounted p)
          (Accounted p)
          (with_lock state_lock (modify_shared (append_mapping m)))
  unfolding append_mapping modify_shared modify_ctx
  append-Moves m =
      Moves-with_lock _ _ (neutral_event p _ _ refl) (neutral_event p _ _ refl)
        (neutral_event p _ _ refl) (record { at = λ w o. appended w o })
    where
      appended :
          (w : World)
          → Owes p (0 + one p m.process) w
          → Outcome (Accounted p) (λ _. Accounted p) (modify_shared (append_mapping m) w)
      appended w o = omega (arith, o, held-append p w.ctx.shared.mapping_list m)

  -- From the reference to the insertion.
  abbrev map_into :
      (file : ℕ) (input : MapSysmemIn) (ctx : Context) (requestor : Option ℕ) → M MapOut
  map_into file input ctx requestor = do
    current ← get_process
    let process = Option.get_or requestor current
    _ ← or_status (call allocate_pool) insufficient_resources
    tell (reference_process process)
    view ←
        on_failure (map_sysmem_to_user (u64 (ctx.sysmem.phys + input.offset)) input.len process)
          (tell (dereference_process process) >> tell free_pool)
    with_lock state_lock (
        modify_shared (
          append_mapping (record {
            file = file;
            process = process;
            kind = section_kind view.base;
            user_va = view.va;
            len = input.len;
            tlb_id = none;
          })))
    pure (record { user_va = view.va; len = input.len })

  mapped_into :
      (file : ℕ) (input : MapSysmemIn) (ctx : Context) (requestor : Option ℕ)
      → Moves (Accounted p) (Accounted p) (Accounted p) (map_into file input ctx requestor)
  mapped_into file input ctx requestor =
      Moves-bind (Accounted p) _ _ (Moves-Keeps _ (search neutral_rules)) (λ current.
        let q = Option.get_or requestor current in
        Moves-bind (Accounted p) _ _ (Moves-Keeps _ (search neutral_rules)) (λ _.
          Moves-seq (Owes p (0 + one p q)) _ _ (Moves-tell _ (taken-Shifts p 0 q)) (
            Moves-bind (Owes p (0 + one p q)) _ _
              (Moves-on_failure (Owes p (0 + one p q)) _ _
                (Moves-Keeps _ (map_sysmem_to_user-Owes p _ _ _ q))
                (Shifts-Runs _ (give_back-Runs p 0 q)))
              (λ view.
                Moves-seq (Accounted p) _ _ (append-Moves _)
                  (Moves-Keeps _ (search neutral_rules))))))

  pub map_sysmem-Accounted : (r : Request MapSysmemIn) → Keeps (Accounted p) (map_sysmem r)
  unfolding map_sysmem
  map_sysmem-Accounted r = Keeps-Moves _ (
      Moves-bind (Accounted p) _ _ (Moves-Keeps _ (search neutral_rules)) (λ file.
        Moves-bind (Accounted p) _ _ (Moves-Keeps _ (search neutral_rules)) (λ input.
          Moves-bind (Accounted p) _ _ (Moves-Keeps _ (search neutral_rules)) (λ _.
            Moves-seq (Accounted p) _ _ (Moves-Keeps _ (search neutral_rules)) (
              Moves-bind (Accounted p) _ _ (Moves-Keeps _ (search neutral_rules)) (λ usable.
                Moves-seq (Accounted p) _ _ (Moves-Keeps _ (search neutral_rules)) (
                  Moves-bind (Accounted p) _ _ (Moves-Keeps _ (search neutral_rules)) (λ ctx.
                    Moves-seq (Accounted p) _ _ (Moves-Keeps _ (search neutral_rules))
                      (mapped_into file input ctx r.requestor)))))))))

  take_mapping-Moves :
      (file va : ℕ) (w : World)
      → Accounted p w
      → Outcome
          (Accounted p)
          (λ o. Owes p (found_one p o))
          (with_lock state_lock (take_mapping file va) w)
  unfolding take_mapping steps taken given
  take_mapping-Moves file va w o = omega (arith, o, held-remove p file va w.ctx.shared.mapping_list)

  unmap_found :
      (o : Option UserMapping) (w : World)
      → Owes p (found_one p o) w
      → Outcome (Accounted p) (λ _. Accounted p) ((from_option o not_found >>= destroy_mapping) w)
  unfolding from_option return_status pure ◌>>=◌ and_then
  unmap_found none w o = o
  unmap_found (some m) w o =
      (Moves-Runs _ (destroy_mapping-Runs p 0 m)).at w (recount p _ _ w (omega arith) o)

  pub unmap_bar-Accounted : (r : Request ℕ) → Keeps (Accounted p) (unmap_bar r)
  unfolding unmap_bar
  unmap_bar-Accounted r = Keeps-Moves _ (
      Moves-bind (Accounted p) _ _ (Moves-Keeps _ (search neutral_rules)) (λ file.
        Moves-bind (Accounted p) _ _ (Moves-Keeps _ (search neutral_rules)) (λ va. record {
          at = λ w o.
              tail-Outcome (Accounted p) (λ _. Accounted p) (λ f. Owes p (found_one p f)) _ _ w
                (take_mapping-Moves file va w o) (λ f v q. unmap_found f v q);
        })))

  pub file_cleanup-Accounted : (file : ℕ) → Keeps (Accounted p) (file_cleanup file)
  unfolding file_cleanup steps release_handle taken given
  file_cleanup-Accounted file = record {
    at = λ w o. (Shifts-Runs _ (destroy_all-Runs (owned_mappings file w.ctx.shared))).at _ (
        omega (
          arith,
          o,
          held-keep_if p file w.ctx.shared.mapping_list,
          ap (held p) (
              drop_windows-list tlb_2m_count 0 file (record (w.ctx.shared) {
                mapping_list = keep_if (λ m. not (belongs_to file m)) w.ctx.shared.mapping_list;
              })),
        ));
  }

  pub revoke_all_mappings-Accounted : Keeps (Accounted p) revoke_all_mappings
  unfolding revoke_all_mappings steps reclaim_windows taken given held
  revoke_all_mappings-Accounted = record {
    at =
        λ w o. (Shifts-Runs _ (destroy_all-Runs w.ctx.shared.mapping_list)).at _ (omega (arith, o));
  }
