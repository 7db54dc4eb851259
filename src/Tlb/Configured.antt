-- ===== src/Tlb/Configured.antt =====
-- What CONFIGURE_TLB writes to the registers of a window (driver/tlb.c).
use tt_wind.Base.{
  ℕ, ◌+◌, ◌-◌, ◌*◌, ◌/◌, ◌%◌, ◌^◌, ◌<◌, true, some, ◌≡◌, refl, sym, ap, ◌∙◌, ◌==◌, ltb, bit_and,
  u32, if◌then◌else◌, ◌∷◌, arith, ◌>>>◌, Bool-cases, inl, inr,
}
use tt_wind.Base.Bits.{and_low}
use tt_wind.Status.{ok, invalid_handle, device_not_ready}
use tt_wind.Kernel.{Env, Log, tlb_regs, mmio_write, release, state_lock}
use tt_wind.Context.{
  World, NocTlbConfig, tlb_2m_size, tlb_2m_count, tlb_reg_size, tlb_strided_count,
  tlb_strided_reg_size, tlb_strided_regs_offset,
}
use tt_wind.Frame.Quiet.{mmio_log}
use tt_wind.Tlb.Pack.{pack_tlb_2m}
use tt_wind.Tlb.Program.{program_tlb_2m}
use tt_wind.Tlb.Windows.{fields_in_range, configure_tlb, check_tlb_owner}
use tt_wind.Tlb.Layout.{layout, InRange, pack-layout, pack-lo_bound}
use tt_wind.Monad.{steps, ◌>>=◌, ◌>>◌, get_ctx, require}
use tt_wind.Monad.Outcome.{
  Outcome, tail-Outcome, result-Outcome, option-Outcome, require-Outcome, required-Outcome,
  get_ctx-Outcome, ok-Outcome, weaken-Outcome, with_lock-Outcome,
}
use tt_wind.Request.{Request, ConfigureTlbIn}
use tt_wind.Mapping.Released.{owned_by}

-- The registers of window `i` with the number `v` in them, low word first, and its stride register.
abbrev pub written : (i v : ℕ) → Log → Log
written i v l =
    let base =
      mmio_write tlb_regs (i * tlb_reg_size + 8) (v / 2 ^ 64)
      ∷ mmio_write tlb_regs (i * tlb_reg_size + 4) (v / 2 ^ 32 % 2 ^ 32)
      ∷ mmio_write tlb_regs (i * tlb_reg_size + 0) (v % 2 ^ 32)
      ∷ l in
    if ltb i tlb_strided_count
    then mmio_write tlb_regs (tlb_strided_regs_offset + i * tlb_strided_reg_size) 0 ∷ base
    else base

in_range : (cfg : NocTlbConfig) → fields_in_range cfg ≡ true → cfg.addr < 2 ^ 64 → InRange cfg
in_range cfg e a = record {
  addr = a;
  x_end = ground arith;
  y_end = ground arith;
  x_start = ground arith;
  y_start = ground arith;
  noc = ground arith;
  mcast = ground arith;
  ordering = ground arith;
  linked = ground arith;
  static_vc = ground arith;
}

-- The three words of the image are those of its number.
record Words (cfg : NocTlbConfig) : Type 0 where
  low : u32 (pack_tlb_2m cfg).lo ≡ layout cfg % 2 ^ 32
  middle : u32 ((pack_tlb_2m cfg).lo >>> 32) ≡ layout cfg / 2 ^ 32 % 2 ^ 32
  high : (pack_tlb_2m cfg).hi ≡ layout cfg / 2 ^ 64

split_words :
    (lo hi v : ℕ)
    → lo < 2 ^ 64
    → lo + hi * 2 ^ 64 ≡ v
    → (lo % 2 ^ 32 ≡ v % 2 ^ 32)
      × ((lo / 2 ^ 32 % 2 ^ 32 ≡ v / 2 ^ 32 % 2 ^ 32) × (hi ≡ v / 2 ^ 64))
split_words lo hi v l e = (omega (arith, e), (omega (arith, e), omega (arith, e)))

pack-Words : (cfg : NocTlbConfig) → InRange cfg → Words cfg
pack-Words cfg r =
    let s =
      split_words (pack_tlb_2m cfg).lo (pack_tlb_2m cfg).hi (layout cfg) (pack-lo_bound cfg r)
        (pack-layout cfg r).0 in
    record { low = s.0; middle = s.1.0; high = s.1.1 }

module _ ⦃env : Env⦄ where
  program-writes :
      (i : ℕ) (cfg : NocTlbConfig) (w : World)
      → InRange cfg
      → (mmio_log (program_tlb_2m i cfg w).1.log ≡ written i (layout cfg) (mmio_log w.log))
        × (((program_tlb_2m i cfg w).1.ctx ≡ w.ctx) × ((program_tlb_2m i cfg w).0 ≡ ok tt))
  unfolding program_tlb_2m mmio_log steps
  program-writes i cfg w r =
      let k = pack-Words cfg r in
      elim (Bool-cases (ltb i tlb_strided_count)) [
        | inl e ↦ rw (e, k.low, k.middle, k.high) (refl, (refl, refl))
        | inr e ↦ rw (e, k.low, k.middle, k.high) (refl, (refl, refl))
      ]

-- No register was accessed and the context is the same.
abbrev pub Untouched : World → World → Type 0
Untouched old w = (mmio_log w.log ≡ mmio_log old.log) × (w.ctx ≡ old.ctx)

-- The registers of the window hold the layout of the configuration.
pub record Configured (req : Request ConfigureTlbIn) (old : World) (u : Unit {0}) (w : World)
    : Type 0 where
  pub input : ConfigureTlbIn
  pub given : req.input ≡ ok input
  pub owned : old.ctx.shared.tlb_owner input.tlb_id ≡ req.file
  pub below : input.tlb_id < tlb_2m_count
  pub aligned : input.config.addr % tlb_2m_size ≡ 0
  pub range : InRange input.config
  pub writes : mmio_log w.log ≡ written input.tlb_id (layout input.config) (mmio_log old.log)
  pub context : w.ctx ≡ old.ctx

is_below : (i : ℕ) → ltb i tlb_2m_count ≡ true → i < tlb_2m_count
is_below i e = ground arith

is_aligned : (a : ℕ) → (bit_and a (tlb_2m_size - 1) == 0) ≡ true → a % tlb_2m_size ≡ 0
is_aligned a e = ground (arith, and_low 21 a)

module _ ⦃env : Env⦄ (old : World) where
  abbrev Checked : (file i : ℕ) → Unit {0} → World → Type 0
  Checked file i u w =
      Untouched old w × ((i < tlb_2m_count) × (old.ctx.shared.tlb_owner i ≡ some file))

  check-Outcome :
      (file i : ℕ) (w : World)
      → Untouched old w
      → Outcome (Untouched old) (Checked file i) (check_tlb_owner file i w)
  unfolding check_tlb_owner
  check-Outcome file i w p = get_ctx-Outcome (Untouched old) (Checked file i) _ w (
      require-Outcome (Untouched old) (Checked file i) _ _ _ w p (λ low.
        required-Outcome (Untouched old) (Checked file i) _ _ w p (λ o.
          (p, (is_below i low, sym (ap (λ c. c.shared.tlb_owner i) p.1) ∙ owned_by file _ o)))))

  programmed :
      (req : Request ConfigureTlbIn) (f : ℕ) (input : ConfigureTlbIn) (w : World)
      → req.file ≡ some f
      → req.input ≡ ok input
      → InRange input.config
      → input.config.addr % tlb_2m_size ≡ 0
      → Checked f input.tlb_id tt w
      → Outcome (Untouched old) (Configured req old) (program_tlb_2m input.tlb_id input.config w)
  programmed req f input w file given r a k =
      let (logged, (kept, done)) = program-writes input.tlb_id input.config w r in
      ok-Outcome (Untouched old) (Configured req old) _ tt done (record {
        input = input;
        given = given;
        owned = k.1.1 ∙ sym file;
        below = k.1.0;
        aligned = a;
        range = r;
        writes = logged ∙ ap (written input.tlb_id (layout input.config)) k.0.0;
        context = kept ∙ k.0.1;
      })

  unlocked :
      (req : Request ConfigureTlbIn) (u : Unit {0}) (w : World)
      → Configured req old u w
      → Configured req old u (record w { log = release state_lock ∷ w.log })
  unfolding mmio_log
  unlocked req u w q = record {
    input = q.input;
    given = q.given;
    owned = q.owned;
    below = q.below;
    aligned = q.aligned;
    range = q.range;
    writes = q.writes;
    context = q.context;
  }

  -- The section under StateLock.
  section :
      (req : Request ConfigureTlbIn) (f : ℕ) (input : ConfigureTlbIn) (w : World)
      → req.file ≡ some f
      → req.input ≡ ok input
      → InRange input.config
      → input.config.addr % tlb_2m_size ≡ 0
      → Untouched old w
      → Outcome (Untouched old) (Configured req old) (
          (check_tlb_owner f input.tlb_id
              >> (get_ctx >>= λ ctx.
                  require ctx.mapped.tlb_regs device_not_ready
                  >> program_tlb_2m input.tlb_id input.config))
            w)
  unfolding ◌>>◌
  section req f input w file given r a p =
      tail-Outcome (Untouched old) (Configured req old) (Checked f input.tlb_id) _ _ w
        (check-Outcome f input.tlb_id w p)
        (λ _ w1 k. get_ctx-Outcome (Untouched old) (Configured req old) _ w1 (
          require-Outcome (Untouched old) (Configured req old) _ _ _ w1 k.0
            (λ _. programmed req f input w1 file given r a k)))

  -- CONFIGURE_TLB, with an address of 64 bits: on success the window is the handle's, the address is
  -- a multiple of 2 MiB, every field is in its range, and the accesses of device memory are the
  -- writes of the configuration's layout to the window's three registers, low word first, and of
  -- zero to its stride register where it has one; on every failure no device memory was accessed.
  -- The context is as it was.
  pub configure_tlb-writes :
      (req : Request ConfigureTlbIn)
      → ((input : ConfigureTlbIn) → req.input ≡ ok input → input.config.addr < 2 ^ 64)
      → Outcome (Untouched old) (Configured req old) (configure_tlb req old)
  unfolding configure_tlb ◌>>◌ mmio_log
  configure_tlb-writes req bound =
      let P : World → Type 0 = Untouched old in
      let Q : Unit {0} → World → Type 0 = Configured req old in
      option-Outcome P Q req.file invalid_handle _ old (refl, refl)
        (λ f file.
          result-Outcome P Q req.input _ old (refl, refl)
            (λ input given.
              require-Outcome P Q _ _ _ old (refl, refl)
                (λ _.
                  require-Outcome P Q _ _ _ old (refl, refl)
                    (λ aligned.
                      require-Outcome P Q _ _ _ old (refl, refl)
                        (λ fields. with_lock-Outcome P Q state_lock _ old (
                          weaken-Outcome P
                            (λ u v. Q u (record v { log = release state_lock ∷ v.log })) Q _
                            (section req f input _ file given
                              (in_range input.config fields (bound input given))
                              (is_aligned _ aligned) (refl, refl))
                            (λ u v q. unlocked req u v q)))))))
