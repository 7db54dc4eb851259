-- ===== src/Tlb/Mapped.antt =====
-- The window that MAP_TLB maps (driver/tlb.c).
use tt_wind.Base.{
  ℕ, ◌+◌, ◌*◌, ◌%◌, ◌^◌, u64, ◌≤◌, ◌<◌, true, Option, some, none, ◌≡◌, ◌≢◌, refl, sym, ap, ◌∙◌, leb,
  arith, get_elem?,
}
use tt_wind.Status.{ok, invalid_handle, device_not_ready}
use tt_wind.Kernel.{Env, state_lock}
use tt_wind.Context.{Context, World, BarDesc, tlb_2m_size, kernel_tlb_index}
use tt_wind.Monad.{◌>>◌, with_lock}
use tt_wind.Monad.Keeps.{Keeps}
use tt_wind.Monad.Outcome.{
  Frozen, Outcome, bind-Outcome, result-Outcome, option-Outcome, require-Outcome, get_ctx-Outcome,
  weaken-Outcome,
}
use tt_wind.Request.{Request, MapTlbIn}
use tt_wind.Mapping.Table.{may_insert}
use tt_wind.Mapping.Sound.{Sound, below_kernel, some-none}
use tt_wind.Mapping.Released.{owned_by}
use tt_wind.Mapping.Frozen.{frozen_rules}
use tt_wind.Mapping.Shown.{ShowsRange, Shown-ShowsRange}
use tt_wind.Mapping.Created.{Appended, Created, create_user_mapping-Outcome}
use tt_wind.Tlb.Windows.{check_tlb_owner, map_tlb}

pub record MappedWindow ⦃env : Env⦄ (req : Request MapTlbIn) (old : Context) (va : ℕ) (w : World)
    : Type 0 where
  pub input : MapTlbIn
  pub given : req.input ≡ ok input
  pub owned : old.shared.tlb_owner input.tlb_id ≡ req.file
  pub usable : input.tlb_id < kernel_tlb_index
  pub bar : BarDesc
  pub listed : get_elem? old.bars 0 ≡ some bar
  pub inside : input.tlb_id * tlb_2m_size + tlb_2m_size ≤ bar.size
  pub appended : Appended old req.file tlb_2m_size (some input.tlb_id) va w
  pub shows :
      ShowsRange
        ((bar.phys + input.tlb_id * tlb_2m_size) % 2 ^ 64)
        tlb_2m_size
        input.cache_mode
        appended.mapping
        w

inside_bar : (x s : ℕ) → leb x s ≡ true → x ≤ s
inside_bar x s e = ground arith

held : (o : Option ℕ) (f : ℕ) → o ≡ some f → o ≢ none
held o f e n = some-none f (sym e ∙ n)

module _ ⦃env : Env⦄ where
  check-Frozen :
      (c : Context) (file t : ℕ) → Keeps (Frozen c) (with_lock state_lock (check_tlb_owner file t))
  unfolding check_tlb_owner
  check-Frozen c file t = search frozen_rules depth 16

  -- MAP_TLB with a sound state under StateLock: on success the context has one mapping more, of the
  -- requesting handle; the window that was asked for is this handle's, not the kernel's, and lies
  -- inside BAR 0; and the mapping's MDL has exactly the pages of this window, 2 MiB from the physical
  -- address of BAR 0 plus 2 MiB times the window's number (as a 64-bit sum), and is mapped at the
  -- returned address with the caching that was asked for. On every failure the context is as it was.
  pub map_tlb-maps :
      (req : Request MapTlbIn) (w : World)
      → Sound w.ctx.shared
      → Outcome (Frozen (w.ctx)) (MappedWindow req (w.ctx)) (map_tlb req w)
  unfolding map_tlb ◌>>◌ may_insert
  map_tlb-maps req w s =
      let c : Context = w.ctx in
      let Q : ℕ → World → Type 0 = MappedWindow req c in
      option-Outcome (Frozen c) Q req.file invalid_handle _ w refl (λ file e.
        result-Outcome (Frozen c) Q req.input _ w refl (λ input given.
          result-Outcome (Frozen c) Q req.output _ w refl (λ _ _.
            require-Outcome (Frozen c) Q _ _ _ w refl (λ _.
              bind-Outcome (Frozen c) Q _ _ w (check-Frozen c file input.tlb_id) refl (λ _ w1 p1.
                get_ctx-Outcome (Frozen c) Q _ w1 (
                  option-Outcome (Frozen c) Q (get_elem? w1.ctx.bars 0) device_not_ready _ w1 p1
                    (λ bar listed. require-Outcome (Frozen c) Q _ _ _ w1 p1 (λ inside.
                      weaken-Outcome (Frozen c) Q
                        (Created c req.file (u64 (bar.phys + input.tlb_id * tlb_2m_size))
                          tlb_2m_size input.cache_mode (some input.tlb_id))
                        _
                        (create_user_mapping-Outcome req.file req.requestor _ tlb_2m_size
                          input.cache_mode (some input.tlb_id) c w1 p1)
                        (λ va w2 a.
                          let owned =
                            owned_by a.0.mapping.file (c.shared.tlb_owner input.tlb_id)
                              a.0.allowed in
                          record {
                            input = input;
                            given = given;
                            owned = owned ∙ sym a.0.owner;
                            usable =
                                below_kernel input.tlb_id _ _ (s.entries input.tlb_id)
                                  (held _ _ owned);
                            bar = bar;
                            listed = sym (ap (λ d. get_elem? d.bars 0) p1) ∙ listed;
                            inside = inside_bar _ _ inside;
                            appended = a.0;
                            shows = Shown-ShowsRange _ tlb_2m_size _ _ w2 (omega arith) a.1;
                          })))))))))
