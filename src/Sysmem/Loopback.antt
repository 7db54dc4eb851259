-- ===== src/Sysmem/Loopback.antt =====
-- The three probes of the loopback, written, checked and cleared (TtWindSysmemLoopbackVerify,
-- driver/sysmem.c).
use tt_wind.Base.{ℕ, ◌+◌, ◌/◌, List, refl, sym, subst, sub64, not32}
use tt_wind.Status.{Status, Result, ok, fail}
use tt_wind.Kernel.{Env, Log, ram_write}
use tt_wind.Context.{World, SysmemProbe}
use tt_wind.Monad.{M, ◌>>=◌, ◌>>◌, and_then, pure, modify_ctx, attempt, from_result, steps}
use tt_wind.Monad.Keeps.{Keeps}
use tt_wind.Monad.Outcome.{Outcome, get_ctx-Outcome}
use tt_wind.Monad.Moves.{Moves, Moves-seq}
use tt_wind.Sysmem.Buffer.{modify_sysmem}
use tt_wind.Sysmem.Arm.{write_probes, check_probes, loopback_verify, magic, probe_offsets}
use tt_wind.Sysmem.Probe.{
  Happened, latest, earlier, Probed, Proven, Sees, Grows, before, clear_probes-Sees,
  check_probe-Probed,
}

module _ ⦃env : Env⦄ where
  -- Both words of a probe were written to the buffer.
  abbrev Words : (i o : ℕ) → Log → Type 0
  Words i o l =
      Happened (ram_write o (magic i)) l × Happened (ram_write (o + 4) (not32 (magic i))) l

  abbrev Written : (n : ℕ) → Log → Type 0
  Written n l = Words 0 0 l × (Words 1 (n / 2) l × Words 2 (sub64 n 4096) l)

  Words-grow : (i o : ℕ) → Grows (Words i o)
  Words-grow i o e l p = (earlier e l p.0, earlier e l p.1)

  Written-grows : (n : ℕ) → Grows (Written n)
  Written-grows n e l p =
      (Words-grow 0 0 e l p.0, (Words-grow 1 _ e l p.1.0, Words-grow 2 _ e l p.1.1))

  Probed-grows : (x i o : ℕ) → Grows (Probed x i o)
  Probed-grows x i o e l p = (before e l p.0, before e l p.1)

  pub Proven-grows : (x n : ℕ) → Grows (Proven x n)
  Proven-grows x n e l p =
      (Probed-grows x 0 0 e l p.0, (Probed-grows x 1 _ e l p.1.0, Probed-grows x 2 _ e l p.1.1))

  abbrev Nothing : Log → Type 0
  Nothing l = Unit {0}

  write_probes-Written :
      (x n : ℕ)
      → Moves
          (Sees x n Nothing)
          (Sees x n (Written n))
          (λ w. Unit {0})
          (write_probes (probe_offsets n) 0)
  unfolding write_probes steps
  write_probes-Written x n = record {
    at = λ w p. (
      p.0,
      (
        p.1.0,
        (
          (
            earlier _ _ (earlier _ _ (earlier _ _ (earlier _ _ (earlier _ _ (latest _))))),
            earlier _ _ (earlier _ _ (earlier _ _ (earlier _ _ (latest _)))),
          ),
          (
            (
              earlier _ _ (earlier _ _ (earlier _ _ (latest _))),
              earlier _ _ (earlier _ _ (latest _)),
            ),
            (earlier _ _ (latest _), latest _),
          ),
        ),
      ),
    );
  }

  -- What is true after each of the checks.
  abbrev After1 : (x n : ℕ) → Log → Type 0
  After1 x n l = Written n l × Probed x 0 0 l

  abbrev After2 : (x n : ℕ) → Log → Type 0
  After2 x n l = After1 x n l × Probed x 1 (n / 2) l

  abbrev After3 : (x n : ℕ) → Log → Type 0
  After3 x n l = After2 x n l × Probed x 2 (sub64 n 4096) l

  After1-grows : (x n : ℕ) → Grows (After1 x n)
  After1-grows x n e l p = (Written-grows n e l p.0, Probed-grows x 0 0 e l p.1)

  After2-grows : (x n : ℕ) → Grows (After2 x n)
  After2-grows x n e l p = (After1-grows x n e l p.0, Probed-grows x 1 _ e l p.1)

  After3-grows : (x n : ℕ) → Grows (After3 x n)
  After3-grows x n e l p = (After2-grows x n e l p.0, Probed-grows x 2 _ e l p.1)

  check_probes-After3 :
      (x n : ℕ)
      → Moves
          (Sees x n (Written n))
          (Sees x n (After3 x n))
          (λ w. Unit {0})
          (check_probes (probe_offsets n) 0)
  unfolding check_probes pure
  check_probes-After3 x n =
      Moves-seq _ _ _
        (check_probe-Probed x n (Written n) (Written-grows n) 0 0 (λ l p. p.0.0) (λ l p. p.0.1))
        (Moves-seq _ _ _
          (check_probe-Probed x n (After1 x n) (After1-grows x n) 1 (n / 2) (λ l p. p.0.1.0.0)
            (λ l p. p.0.1.0.1))
          (Moves-seq _ _ _
            (check_probe-Probed x n (After2 x n) (After2-grows x n) 2 (sub64 n 4096)
              (λ l p. p.0.0.1.1.0) (λ l p. p.0.0.1.1.1))
            (record { at = λ w p. p })))

  module _ (Q : World → Type 0) where
    cleared :
        (r : Result (Unit {0}) × World) (s : Result (Unit {0}))
        → Q r.1
        → Outcome (λ w. Unit {0}) (λ u. Q) (and_then r (λ _. from_result s))
    unfolding and_then from_result steps
    cleared (ok u, w) (ok v) q = q
    cleared (ok u, w) (fail t) q = tt
    cleared (fail t, w) s q = tt

    failed :
        (r : Result (Unit {0}) × World) (s : Status)
        → Outcome {A = Unit {0}} (λ w. Unit {0}) (λ u. Q) (and_then r (λ _. from_result (fail s)))
    unfolding and_then steps
    failed (ok u, w) s = tt
    failed (fail t, w) s = tt

    clear_then :
        (r : Result (Unit {0}) × World) (clear : M (Unit {0}))
        → Keeps Q clear
        → Outcome (λ w. Unit {0}) (λ u. Q) r
        → Outcome (λ w. Unit {0}) (λ u. Q) ((clear >> from_result r.0) r.1)
    unfolding ◌>>◌ ◌>>=◌
    clear_then (ok u, w) clear k q = cleared (clear w) (ok u) (k.at w q)
    clear_then (fail s, w) clear k q = failed (clear w) s

    attempted :
        (P : World → Type 0) (m clear : M (Unit {0}))
        → Keeps Q clear
        → Moves P Q (λ w. Unit {0}) m
        → Moves P Q (λ w. Unit {0}) (attempt m >>= λ r. clear >> from_result r)
    unfolding attempt ◌>>=◌ and_then
    attempted P m clear k h = record { at = λ w p. clear_then (m w) clear k (h.at w p) }

  probes_reset :
      (x n : ℕ) (ps : List SysmemProbe)
      → Moves
          (Sees x n Nothing)
          (Sees x n Nothing)
          (λ w. Unit {0})
          (modify_sysmem (λ s. record s { probes = ps }))
  unfolding modify_sysmem modify_ctx
  probes_reset x n ps = record { at = λ w p. p }

  verified_at :
      (x n : ℕ) (r : Result (Unit {0}) × World)
      → Outcome (λ w. Unit {0}) (λ u. Sees x n (After3 x n)) r
      → Outcome (λ w. Unit {0}) (λ u v. Proven v.ctx.sysmem.pcie_tile_x v.ctx.sysmem.size v.log) r
  verified_at x n (ok u, w) p =
      subst (λ y. Proven y w.ctx.sysmem.size w.log) (sym p.0)
        (subst (λ m. Proven x m w.log) (sym p.1.0) (p.1.1.0.0.1, (p.1.1.0.1, p.1.1.1)))
  verified_at x n (fail s, w) p = tt

  -- A success of the loopback is that all six words are read back.
  pub loopback_verify-Proven :
      (w : World)
      → Outcome
          (λ w. Unit {0})
          (λ u v. Proven v.ctx.sysmem.pcie_tile_x v.ctx.sysmem.size v.log)
          (loopback_verify w)
  unfolding loopback_verify
  loopback_verify-Proven w = verified_at w.ctx.sysmem.pcie_tile_x w.ctx.sysmem.size _ (
      get_ctx-Outcome _ _ _ w (
        (Moves-seq _ _ _ (probes_reset w.ctx.sysmem.pcie_tile_x w.ctx.sysmem.size _) (
            Moves-seq _ _ _ (write_probes-Written w.ctx.sysmem.pcie_tile_x w.ctx.sysmem.size) (
              attempted _ _ _ _
                (clear_probes-Sees w.ctx.sysmem.pcie_tile_x w.ctx.sysmem.size
                  (After3 w.ctx.sysmem.pcie_tile_x w.ctx.sysmem.size)
                  (After3-grows w.ctx.sysmem.pcie_tile_x w.ctx.sysmem.size) _)
                (check_probes-After3 w.ctx.sysmem.pcie_tile_x w.ctx.sysmem.size)))).at
          w (refl, (refl, tt))))
