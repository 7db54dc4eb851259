-- ===== src/Device/Stopping.antt =====
-- EvtDeviceReleaseHardware as steps from one context to another (driver/device.c).
use tt_wind.Base.{
  ℕ, Bool, true, false, Option, none, some, List, [], ◌∷◌, ◌≡◌, ◌∙◌, refl, ap, sym, subst,
}
use tt_wind.Kernel.{
  Env, Event, Region, tlb_regs, kernel_tlb, arc_apb_axi, bar2_iatu, noc_id_regs, state_lock,
  arc_lock, acquire, release, dereference_bus_interface, free_contiguous, unmap_io_space,
  dereference_process, OsCall, os, Log, Lock,
}
use tt_wind.Context.{
  UserMapping, MappingKind, mdl_kind, section_kind, Context, tlb_2m_size, tlb_regs_len,
}
use tt_wind.Monad.{M, pure, case_option, with_lock, ◌>>◌, modify_ctx, tell, emit, steps, when}
use tt_wind.Monad.Keeps.{Ignores}
use tt_wind.Monad.Outcome.{get_ctx-Outcome}
use tt_wind.Monad.Moves.{Runs, runs_rules, Moves-bind, Moves-seq, Moves-with_lock}
use tt_wind.Mapping.Teardown.{revoke_all_mappings}
use tt_wind.Mapping.View.{
  unmap_kind, free_kind, unmap_user_view, unmap_in_owner, destroy_mapping, destroy_all,
}
use tt_wind.Sysmem.Buffer.{modify_sysmem, sysmem_free}
use tt_wind.Device.Prepare.{arc_apb_len, iatu_regs_len, noc_id_page_len}
use tt_wind.Device.Release.{unmap_region, release_hardware}
use tt_wind.Device.HandBack.{
  is_handed, handed, add_if, add_buffer, add_kind, add_mappings, hand_back, is_mapped, without,
  already, without_buffer, revoked, shut, dark, no_bus, no_bars, emptied, At,
}

module _ ⦃env : Env⦄ where
  same : (c : Context) (l : Log) (e : Event) → is_handed e ≡ false → Ignores (At c l) e
  unfolding handed
  same c l e h = record { at = λ w p. (p.0, rw h p.1) }

  handed_over :
      (c : Context) (l : Log) (o : OsCall)
      → is_handed (os o) ≡ true
      → Runs (At c l) (At c (os o ∷ l)) (tell o)
  unfolding handed tell emit
  handed_over c l o h = record { at = λ w p. (p.0, rw h (ap (λ k. os o ∷ k) p.1)) }

  ruleset teardown_rules = (runs_rules, same)

  unmapped_kind :
      (c : Context) (l : Log) (k : MappingKind) (va : ℕ) → Runs (At c l) (At c l) (unmap_kind k va)
  unfolding unmap_kind
  unmapped_kind c l (mdl_kind mdl) va = search teardown_rules
  unmapped_kind c l (section_kind base) va = search teardown_rules

  freed_kind :
      (c : Context) (l : Log) (k : MappingKind) → Runs (At c l) (At c (add_kind k l)) (free_kind k)
  unfolding free_kind
  freed_kind c l (mdl_kind mdl) = handed_over c l _ refl
  freed_kind c l (section_kind base) = search runs_rules

  left_owner :
      (c : Context) (l : Log) (q : ℕ) (b : Bool) (m : UserMapping)
      → Runs (At c l) (At c l) (unmap_in_owner q b m)
  unfolding unmap_in_owner unmap_user_view
  left_owner c l q b m = search (teardown_rules, unmapped_kind) depth 12

  destroyed :
      (c : Context) (l : Log) (m : UserMapping)
      → Runs
          (At c l)
          (At c (os (dereference_process m.process) ∷ add_kind m.kind l))
          (destroy_mapping m)
  unfolding destroy_mapping
  destroyed c l m = Moves-bind (At c l) _ _ (search runs_rules) (λ current.
      Moves-bind (At c l) _ _ (search runs_rules) (λ alive.
        Moves-seq (At c l) _ _ (left_owner c l current alive m) (
          Moves-seq (At c (add_kind m.kind l)) _ _ (freed_kind c l m.kind) (
            Moves-seq (At c (os (dereference_process m.process) ∷ add_kind m.kind l)) _ _
              (handed_over c _ _ refl) (search teardown_rules)))))

  all_destroyed :
      (c : Context) (l : Log) (ms : List UserMapping)
      → Runs (At c l) (At c (add_mappings ms l)) (destroy_all ms)
  unfolding destroy_all add_mappings
  all_destroyed c l [] = search runs_rules
  all_destroyed c l (m ∷ ms) =
      Moves-seq (At c (os (dereference_process m.process) ∷ add_kind m.kind l)) _ _
        (destroyed c l m) (all_destroyed c _ ms)

  unmapped :
      (r : Region) (len : ℕ) (c : Context) (l : Log) (b : Bool)
      → is_mapped r c.mapped ≡ b
      → Runs (At c l) (At (without r c) (add_if b (unmap_io_space r len) l)) (unmap_region b r len)
  unfolding unmap_region steps handed
  unmapped r len c l true e = record {
    at = λ w p. (ap (without r) p.0, ap (λ k. os (unmap_io_space r len) ∷ k) p.1);
  }
  unmapped r len c l false e = record { at = λ w p. (p.0 ∙ already r c e, p.1) }

  modified :
      (f : Context → Context) (c : Context) (l : Log) → Runs (At c l) (At (f c) l) (modify_ctx f)
  unfolding modify_ctx
  modified f c l = record { at = λ w p. (ap f p.0, p.1) }

  -- What sysmem_free does, when the context holds this buffer of this size.
  abbrev free_steps : Option ℕ → ℕ → M (Unit {0})
  free_steps o n =
      case_option o (pure tt) (λ va. tell (free_contiguous va n))
      >> modify_sysmem
          (λ s. record s { va = none; size = 0; phys = 0; is_verified = false; pcie_tile_x = 0 })

  freed_now :
      (c : Context) (l : Log) (o : Option ℕ) (n : ℕ)
      → Runs (At c l) (At (without_buffer c) (add_buffer o n l)) (free_steps o n)
  unfolding modify_sysmem steps handed
  freed_now c l none n = record { at = λ w p. (ap without_buffer p.0, p.1) }
  freed_now c l (some va) n = record {
    at = λ w p. (ap without_buffer p.0, ap (λ k. os (free_contiguous va n) ∷ k) p.1);
  }

  freed :
      (c : Context) (l : Log)
      → Runs (At c l) (At (without_buffer c) (add_buffer c.sysmem.va c.sysmem.size l)) sysmem_free
  unfolding sysmem_free
  freed c l = record {
    at = λ w p. get_ctx-Outcome _ _ _ w (
        (subst
            (λ (d : Context).
              Runs (At c l) (At (without_buffer c) (add_buffer c.sysmem.va c.sysmem.size l))
                (free_steps d.sysmem.va d.sysmem.size))
            (sym p.0) (freed_now c l c.sysmem.va c.sysmem.size)).at
          w p);
  }

  bus_dropped :
      (c : Context) (l : Log) (b : Bool)
      → c.bus_if_valid ≡ b
      → Runs
          (At c l)
          (At (no_bus c) (add_if b dereference_bus_interface l))
          (when b (tell dereference_bus_interface >> modify_ctx no_bus))
  unfolding steps handed
  bus_dropped c l true e = record {
    at = λ w p. (ap no_bus p.0, ap (λ k. os dereference_bus_interface ∷ k) p.1);
  }
  bus_dropped c l false e = record {
    at = λ w p. (p.0 ∙ ap (λ b. record c { bus_if_valid = b }) e, p.1);
  }

  listed_destroyed :
      (c : Context) (l : Log) (d : Context)
      → d ≡ c
      → Runs
          (At (revoked c) l)
          (At (revoked c) (add_mappings c.shared.mapping_list l))
          (destroy_all d.shared.mapping_list)
  listed_destroyed c l d e =
      subst
        (λ (x : Context).
          Runs (At (revoked c) l) (At (revoked c) (add_mappings c.shared.mapping_list l))
            (destroy_all x.shared.mapping_list))
        (sym e) (all_destroyed (revoked c) l c.shared.mapping_list)

  revoke :
      (c : Context) (l : Log)
      → Runs (At c l) (At (revoked c) (add_mappings c.shared.mapping_list l)) revoke_all_mappings
  unfolding revoke_all_mappings steps handed
  revoke c l = record {
    at = λ w p.
        (listed_destroyed c l w.ctx p.0).at
          (record { ctx = revoked w.ctx; log = release state_lock ∷ acquire state_lock ∷ w.log })
          (ap revoked p.0, p.1);
  }

  abbrev dark_section : Context → M (Unit {0})
  dark_section c = with_lock arc_lock (do
    unmap_region c.mapped.kernel_tlb kernel_tlb tlb_2m_size
    unmap_region c.mapped.arc_apb_axi arc_apb_axi arc_apb_len
    unmap_region c.mapped.bar2_iatu bar2_iatu iatu_regs_len
    unmap_region c.mapped.noc_id_regs noc_id_regs noc_id_page_len
    modify_ctx shut)

  -- What the section under ArcLock hands back.
  abbrev dark_events : Context → Log → Log
  dark_events c l = add_if c.mapped.noc_id_regs (unmap_io_space noc_id_regs noc_id_page_len) (
      add_if c.mapped.bar2_iatu (unmap_io_space bar2_iatu iatu_regs_len) (
        add_if c.mapped.arc_apb_axi (unmap_io_space arc_apb_axi arc_apb_len)
          (add_if c.mapped.kernel_tlb (unmap_io_space kernel_tlb tlb_2m_size) l)))

  locked :
      {c d : Context} {l k : Log} (o : Lock) (m : M (Unit {0}))
      → Runs (At c l) (At d k) m
      → Runs (At c l) (At d k) (with_lock o m)
  locked {c} {d} {l} {k} o m h =
      Moves-with_lock _ _ (same c l _ refl) (same d k _ refl) (record { at = λ w p. absurd p }) h

  darkened :
      (c : Context) (l : Log) → Runs (At c l) (At (dark c) (dark_events c l)) (dark_section c)
  darkened c l = locked _ _ (
      Moves-seq _ _ _ (unmapped kernel_tlb tlb_2m_size c l _ refl) (
        Moves-seq _ _ _ (unmapped arc_apb_axi arc_apb_len (without kernel_tlb c) _ _ refl) (
          Moves-seq _ _ _
            (unmapped bar2_iatu iatu_regs_len (without arc_apb_axi (without kernel_tlb c)) _ _ refl)
            (Moves-seq _ _ _
              (unmapped noc_id_regs noc_id_page_len
                (without bar2_iatu (without arc_apb_axi (without kernel_tlb c))) _ _ refl)
              (modified shut _ _)))))

  -- After the revocation.
  abbrev rest : Context → M (Unit {0})
  rest c = do
    dark_section c
    sysmem_free
    with_lock state_lock (unmap_region c.mapped.tlb_regs tlb_regs tlb_regs_len)
    when c.bus_if_valid (tell dereference_bus_interface >> modify_ctx no_bus)
    modify_ctx no_bars

  abbrev rest_events : Context → Log → Log
  rest_events c l = add_if c.bus_if_valid dereference_bus_interface (
      add_if c.mapped.tlb_regs (unmap_io_space tlb_regs tlb_regs_len)
        (add_buffer c.sysmem.va c.sysmem.size (dark_events c l)))

  rest_empties : (c : Context) (l : Log) → Runs (At c l) (At (emptied c) (rest_events c l)) (rest c)
  rest_empties c l = Moves-seq _ _ _ (darkened c l) (
      Moves-seq _ _ _ (freed (dark c) _) (
        Moves-seq _ _ _
          (locked _ _ (unmapped tlb_regs tlb_regs_len (without_buffer (dark c)) _ _ refl))
          (Moves-seq _ _ _
            (bus_dropped (without tlb_regs (without_buffer (dark c))) _ c.bus_if_valid refl)
            (modified no_bars _ _))))

  pub released :
      (c : Context) (l : Log)
      → Runs (At c l) (At (emptied (revoked c)) (hand_back c l)) release_hardware
  unfolding release_hardware
  released c l = Moves-seq _ _ _ (revoke c l) (record {
    at = λ w p. get_ctx-Outcome _ _ _ w (
        (subst
            (λ d.
              Runs (At (revoked c) (add_mappings c.shared.mapping_list l))
                (At (emptied (revoked c)) (hand_back c l)) (rest d))
            (sym p.0) (rest_empties (revoked c) _)).at
          w p);
  })
