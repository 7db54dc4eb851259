-- ===== src/Sysmem/Probe.antt =====
-- One probe of the loopback: what the NOC has read when its check succeeds
-- (TtWindSysmemLoopbackVerify, driver/sysmem.c).
use tt_wind.Base.{
  ℕ, ◌+◌, ◌-◌, ◌*◌, ◌/◌, true, some, List, [], ◌∷◌, ◌≡◌, refl, subst, ◌==◌, ◌&&◌, bit_and, u32, u64,
  sub64, not32, ◌>>>◌, arith,
}
use tt_wind.Kernel.{Env, Event, Log, kernel_tlb, mmio_read, ram_write}
use tt_wind.Context.{
  World, SysmemProbe, NocTlbConfig, noc_pcie_offset, kernel_tlb_index, tlb_reg_size, tlb_2m_size,
}
use tt_wind.Monad.{M, ◌>>◌, steps}
use tt_wind.Monad.Keeps.{Keeps, Ignores, keeps_rules, Keeps-seq}
use tt_wind.Monad.Outcome.{
  Outcome, tail-Outcome, require-Outcome, required-Outcome, get_ctx-Outcome,
}
use tt_wind.Monad.Moves.{Moves}
use tt_wind.Tlb.Pack.{pack_tlb_2m}
use tt_wind.Tlb.Program.{program_tlb_2m, kernel_window_config}
use tt_wind.Arc.Access.{noc_ptr, noc_read32, window_base}
use tt_wind.Reset.Back.{register}
use tt_wind.Sysmem.Buffer.{modify_sysmem}
use tt_wind.Sysmem.Arm.{clear_probes, check_probe, record_probe, magic}

-- The event is in the log.
pub data Happened (e : Event) : Log → Type 0 where
  latest : (l : Log) → Happened e (e ∷ l)
  earlier : (d : Event) (l : Log) → Happened e l → Happened e (d ∷ l)

-- Whether the registers of the kernel window hold the configuration.
pub record Aimed (cfg : NocTlbConfig) (l : Log) : Type 0 where
  pub low : register l (kernel_tlb_index * tlb_reg_size) ≡ some (u32 (pack_tlb_2m cfg).lo)
  pub middle :
      register l (kernel_tlb_index * tlb_reg_size + 4) ≡ some (u32 ((pack_tlb_2m cfg).lo >>> 32))
  pub high : register l (kernel_tlb_index * tlb_reg_size + 8) ≡ some (pack_tlb_2m cfg).hi

module _ ⦃env : Env⦄ where
  -- In the log is a read over the kernel window that is answered with `v`, made while the window
  -- is aimed at `a` on the tile (x, 0), after the word `v` was written to the buffer at `o`.
  pub data Echoed (x o a v : ℕ) : Log → Type 0 where
    now :
        (l : Log)
        → Happened (ram_write o v) l
        → Aimed (kernel_window_config x (window_base a)) l
        → u32 (env.mmio_value l kernel_tlb (bit_and a (tlb_2m_size - 1))) ≡ v
        → Echoed x o a v (mmio_read kernel_tlb (bit_and a (tlb_2m_size - 1)) ∷ l)
    before : (e : Event) (l : Log) → Echoed x o a v l → Echoed x o a v (e ∷ l)

  -- Both words of probe `i` at the offset `o`.
  abbrev pub Probed : (x i o : ℕ) → Log → Type 0
  Probed x i o l =
      Echoed x o (u64 (noc_pcie_offset + o)) (magic i) l
      × Echoed x (o + 4) (u64 (u64 (noc_pcie_offset + o) + 4)) (not32 (magic i)) l

  -- The first, the middle and the last page of a buffer of this size.
  abbrev pub Proven : (x size : ℕ) → Log → Type 0
  Proven x size l = Probed x 0 0 l × (Probed x 1 (size / 2) l × Probed x 2 (sub64 size 4096) l)

  -- The tile and the size are as they were, and `T` holds of the log.
  abbrev pub Sees : (x n : ℕ) (T : Log → Type 0) → World → Type 0
  Sees x n T w = (w.ctx.sysmem.pcie_tile_x ≡ x) × ((w.ctx.sysmem.size ≡ n) × T w.log)

  -- What stays true while the log grows.
  abbrev pub Grows : (Log → Type 0) → Type 0
  Grows T = (e : Event) (l : Log) → T l → T (e ∷ l)

  module _ (x n : ℕ) (T : Log → Type 0) (grow : Grows T) where
    event-Sees : (e : Event) → Ignores (Sees x n T) e
    event-Sees e = record { at = λ w p. (p.0, (p.1.0, grow e w.log p.1.1)) }

    pub clear_probes-Sees : (os : List ℕ) → Keeps (Sees x n T) (clear_probes os)
    unfolding clear_probes
    clear_probes-Sees [] = search keeps_rules
    clear_probes-Sees (o ∷ os) =
        Keeps-seq _ _ (search (keeps_rules, event-Sees)) (clear_probes-Sees os)

    -- A read over the NOC of what was written before.
    abbrev Read : (a : ℕ) → ℕ → World → Type 0
    Read a v w =
        Sees x n T w
        × ((o : ℕ) (u : ℕ)
            → ((l : Log) → T l → Happened (ram_write o u) l)
            → v ≡ u
            → Echoed x o a u w.log)

    noc-Read-Read :
        (y a : ℕ) (w : World)
        → y ≡ x
        → Sees x n T w
        → Outcome (λ v. Unit {0}) (Read a) (noc_read32 y a w)
    unfolding noc_read32 noc_ptr program_tlb_2m steps register
    noc-Read-Read y a w e p = (
      (p.0, (p.1.0, grow _ _ sent)),
      λ o u h q.
          subst (λ z. Echoed z o a u (noc_read32 y a w).1.log) e
            (now _ (h _ sent) (record { low = refl; middle = refl; high = refl }) q),
    )
      where
        sent : T (noc_ptr y a w).1.log
        sent = grow _ _ (grow _ _ (grow _ _ p.1.1))

  record_probe-Outcome :
      {A : Type 0} (x n : ℕ) (T : Log → Type 0) (P : World → Type 0) (Q : A → World → Type 0)
      (i : ℕ) (b : SysmemProbe) (m : M A) (w : World)
      → Sees x n T w
      → ((v : World) → Sees x n T v → Outcome P Q (m v))
      → Outcome P Q ((record_probe i b >> m) w)
  unfolding modify_sysmem steps
  record_probe-Outcome x n T P Q i b m w p h = h _ p

  both_equal : (a b c d : ℕ) → ((a == b) && (c == d)) ≡ true → (a ≡ b) × (c ≡ d)
  both_equal a b c d e = ground arith

  module _ (x n : ℕ) (T : Log → Type 0) (grow : Grows T) (i o : ℕ) where
    -- After the first read, and after the second.
    abbrev Once : ℕ → Log → Type 0
    Once v l = T l × (v ≡ magic i → Echoed x o (u64 (noc_pcie_offset + o)) (magic i) l)

    abbrev Twice : ℕ → ℕ → Log → Type 0
    Twice v u l =
        Once v l
        × (u ≡ not32 (magic i)
            → Echoed x (o + 4) (u64 (u64 (noc_pcie_offset + o) + 4)) (not32 (magic i)) l)

    Once-grows : (v : ℕ) → Grows (Once v)
    Once-grows v e l p = (grow e l p.0, λ q. before e l (p.1 q))

    -- A success of the check is that both words are read back.
    pub check_probe-Probed :
        ((l : Log) → T l → Happened (ram_write o (magic i)) l)
        → ((l : Log) → T l → Happened (ram_write (o + 4) (not32 (magic i))) l)
        → Moves
            (Sees x n T)
            (Sees x n (λ l. T l × Probed x i o l))
            (λ w. Unit {0})
            (check_probe i o)
    unfolding check_probe
    check_probe-Probed h0 h1 = record {
      at = λ w p. get_ctx-Outcome _ _ _ w (
          tail-Outcome _ _ _ _ _ w (noc-Read-Read x n T grow _ _ w p.0 p) (λ v0 w0 r0.
            record_probe-Outcome x n (Once v0) _ _ i _ _ w0
              (r0.0.0, (r0.0.1.0, (r0.0.1.1, r0.1 o (magic i) h0)))
              (λ w1 p1. require-Outcome _ _ _ _ _ w1 tt (λ _.
                tail-Outcome _ _ _ _ _ w1
                  (noc-Read-Read x n (Once v0) (Once-grows v0) _ _ w1 p.0 p1)
                  (λ v1 w2 r2.
                    record_probe-Outcome x n (Twice v0 v1) _ _ i _ _ w2
                      (r2.0.0, (r2.0.1.0, (r2.0.1.1, r2.1 (o + 4) _ (λ l q. h1 l q.0))))
                      (λ w3 p3.
                        required-Outcome _ _ _ _ w3 tt
                          (λ e. ended v0 v1 w3 p3 (both_equal _ _ _ _ e))))))));
    }
      where
        ended :
            (v u : ℕ) (w : World)
            → Sees x n (Twice v u) w
            → (v ≡ magic i) × (u ≡ not32 (magic i))
            → Sees x n (λ l. T l × Probed x i o l) w
        ended v u w p e = (p.0, (p.1.0, (p.1.1.0.0, (p.1.1.0.1 e.0, p.1.1.1 e.1))))
