-- ===== src/Sysmem/Verified.antt =====
-- When the sysmem counts as verified (driver/sysmem.c).
use tt_wind.Base.{ℕ, ◌+◌, sub64, true, false, List, [], ◌∷◌, ◌≡◌, refl, ◌∙◌, not}
use tt_wind.Status.{Status, reinitialization_needed, Result, ok, fail, success, status_of}
use tt_wind.Kernel.{Env, Event, arc_lock, release}
use tt_wind.Context.{World, Sysmem, NocTlbConfig, verified, tile_detect, iatu, loopback}
use tt_wind.Monad.{
  ◌>>=◌, ◌>>◌, and_then, modify_ctx, steps, get_ctx, require, attempt, from_result, return_status,
}
use tt_wind.Monad.Keeps.{Keeps, Ignores, keeps_rules, Keeps-seq}
use tt_wind.Monad.Outcome.{
  Outcome, bind-Outcome, tail-Outcome, require-Outcome, get_ctx-Outcome, undo-Outcome,
  branch-Outcome, case_option-Outcome, with_lock-Outcome,
}
use tt_wind.Sysmem.Probe.{Proven}
use tt_wind.Sysmem.Loopback.{Proven-grows, loopback_verify-Proven}
use tt_wind.Sysmem.Buffer.{modify_sysmem}
use tt_wind.Sysmem.Arm.{
  iatu_program_outbound, detect_pcie_tile, write_probes, clear_probes, check_probe, check_probes,
  loopback_verify, arm_attempt, sysmem_arm, set_stage,
}
use tt_wind.Tlb.Program.{program_tlb_2m}
use tt_wind.Arc.Access.{noc_ptr, noc_read32}

abbrev pub Unverified : World → Type 0
Unverified w = w.ctx.sysmem.is_verified ≡ false

abbrev Verified : Unit {0} → World → Type 0
Verified u w = (w.ctx.sysmem.is_verified ≡ true) × (w.ctx.sysmem.stage ≡ verified)

-- Verified, with the success recorded.
abbrev Recorded : Unit {0} → World → Type 0
Recorded u w = Verified u w × (w.ctx.sysmem.last_status ≡ success)

module _ ⦃env : Env⦄ where
  -- The loopback of the log, on the tile that was detected and for the size of the buffer.
  abbrev Looped : World → Type 0
  Looped w = Proven w.ctx.sysmem.pcie_tile_x w.ctx.sysmem.size w.log

  abbrev Armed : Unit {0} → World → Type 0
  Armed u w = Verified u w × Looped w

  abbrev pub ProvenArmed : Unit {0} → World → Type 0
  ProvenArmed u w = Recorded u w × Looped w

  event-Unverified : (e : Event) → Ignores Unverified e
  event-Unverified e = record { at = λ w p. p }

  stays :
      (f : Sysmem → Sysmem)
      → ((s : Sysmem) → (f s).is_verified ≡ s.is_verified)
      → Keeps Unverified (modify_sysmem f)
  unfolding modify_sysmem modify_ctx
  stays f h = record { at = λ w p. h w.ctx.sysmem ∙ p }

  ruleset rules = (keeps_rules, event-Unverified)

  iatu-Unverified : (r b l t : ℕ) → Keeps Unverified (iatu_program_outbound r b l t)
  unfolding iatu_program_outbound
  iatu-Unverified r b l t = search (rules, stays) depth 24

  detect-Unverified : Keeps Unverified detect_pcie_tile
  unfolding detect_pcie_tile
  detect-Unverified = search (rules, stays) depth 24

  program-Unverified : (id : ℕ) (cfg : NocTlbConfig) → Keeps Unverified (program_tlb_2m id cfg)
  unfolding program_tlb_2m
  program-Unverified id cfg = search rules depth 12

  read-Unverified : (x a : ℕ) → Keeps Unverified (noc_read32 x a)
  unfolding noc_read32 noc_ptr
  read-Unverified x a = search (rules, program-Unverified) depth 12

  check_probe-Unverified : (i o : ℕ) → Keeps Unverified (check_probe i o)
  unfolding check_probe
  check_probe-Unverified i o = search (rules, stays, read-Unverified) depth 20

  check_probes-Unverified : (os : List ℕ) (i : ℕ) → Keeps Unverified (check_probes os i)
  unfolding check_probes
  check_probes-Unverified [] i = search rules
  check_probes-Unverified (o ∷ os) i =
      Keeps-seq _ _ (check_probe-Unverified i o) (check_probes-Unverified os (i + 1))

  write_probes-Unverified : (os : List ℕ) (i : ℕ) → Keeps Unverified (write_probes os i)
  unfolding write_probes
  write_probes-Unverified [] i = search rules
  write_probes-Unverified (o ∷ os) i =
      Keeps-seq _ _ (search rules) (write_probes-Unverified os (i + 1))

  clear_probes-Unverified : (os : List ℕ) → Keeps Unverified (clear_probes os)
  unfolding clear_probes
  clear_probes-Unverified [] = search rules
  clear_probes-Unverified (o ∷ os) = Keeps-seq _ _ (search rules) (clear_probes-Unverified os)

  loopback-Unverified : Keeps Unverified loopback_verify
  unfolding loopback_verify
  loopback-Unverified =
      search
        (rules, stays, check_probes-Unverified, write_probes-Unverified, clear_probes-Unverified)
        depth 20

  finished :
      (w : World)
      → Looped w
      → Outcome Unverified Armed
          (modify_sysmem (λ s. record s { stage = verified; is_verified = true }) w)
  unfolding modify_sysmem modify_ctx
  finished w p = ((refl, refl), p)

  both :
      (r : Result (Unit {0}) × World)
      → Unverified r.1
      → Outcome (λ v. Unit {0}) (λ u. Looped) r
      → Outcome Unverified (λ u. Looped) r
  both (ok u, w) p q = q
  both (fail s, w) p q = p

  Armed-steps :
      (size phys : ℕ) (w : World)
      → Unverified w
      → Outcome Unverified Armed (
          (set_stage tile_detect
              >> (detect_pcie_tile
                  >> (set_stage iatu
                      >> (iatu_program_outbound 0 0 (sub64 size 1) phys
                          >> (set_stage loopback
                              >> (loopback_verify
                                  >> modify_sysmem
                                      (λ s. record s { stage = verified; is_verified = true })))))))
            w)
  unfolding ◌>>◌
  Armed-steps size phys w p =
      bind-Outcome Unverified Armed _ _ w (stays _ (λ s. refl)) p (λ _ w1 p1.
        bind-Outcome Unverified Armed _ _ w1 detect-Unverified p1 (λ _ w2 p2.
          bind-Outcome Unverified Armed _ _ w2 (stays _ (λ s. refl)) p2 (λ _ w3 p3.
            bind-Outcome Unverified Armed _ _ w3 (iatu-Unverified _ _ _ _) p3 (λ _ w4 p4.
              bind-Outcome Unverified Armed _ _ w4 (stays _ (λ s. refl)) p4 (λ _ w5 p5.
                tail-Outcome Unverified Armed (λ u. Looped) _ _ w5
                  (both _ (loopback-Unverified.at w5 p5) (loopback_verify-Proven w5))
                  (λ _ w6 p6. finished w6 p6))))))

  refused :
      (f : Sysmem → Sysmem) (s : Status) (w : World)
      → ((x : Sysmem) → (f x).is_verified ≡ x.is_verified)
      → Unverified w
      → Outcome Unverified Armed ((modify_sysmem f >> return_status s) w)
  refused f s w h p = undo-Outcome Unverified Armed (modify_sysmem f) s w (stays f h) p

  arm_attempt-Outcome : (w : World) → Unverified w → Outcome Unverified Armed (arm_attempt w)
  unfolding arm_attempt
  arm_attempt-Outcome w p = get_ctx-Outcome Unverified Armed _ w (
      case_option-Outcome Unverified Armed w.ctx.sysmem.va _ _ w (refused _ _ w (λ s. refl) p)
        (λ va.
          branch-Outcome Unverified Armed _ _ _ w
            (Armed-steps w.ctx.sysmem.size w.ctx.sysmem.phys w p) (refused _ _ w (λ s. refl) p)))

  recorded :
      (r : Result (Unit {0}) × World)
      → Outcome Unverified Armed r
      → Outcome Unverified ProvenArmed
          ((modify_sysmem (λ s. record s { last_status = status_of r.0 }) >> from_result r.0) r.1)
  unfolding modify_sysmem steps
  recorded (ok a, w) h = ((h.0, refl), h.1)
  recorded (fail s, w) h = h

  -- The part under ArcLock.
  locked :
      (w : World)
      → Outcome Unverified ProvenArmed (
          (modify_sysmem (λ s. record s { is_verified = false })
              >> (get_ctx >>= λ ctx.
                  require (not ctx.needs_hw_init) reinitialization_needed
                  >> (attempt arm_attempt >>= λ r.
                      modify_sysmem (λ s. record s { last_status = status_of r })
                      >> from_result r)))
            w)
  unfolding ◌>>◌ ◌>>=◌ and_then attempt modify_sysmem modify_ctx get_ctx
  locked w =
      require-Outcome Unverified ProvenArmed _ _ _ _ refl
        (λ _. recorded _ (arm_attempt-Outcome _ refl))

  released :
      (r : Result (Unit {0}) × World)
      → Outcome Unverified ProvenArmed r
      → Outcome
          (λ v. Unverified (record v { log = release arc_lock ∷ v.log }))
          (λ b v. ProvenArmed b (record v { log = release arc_lock ∷ v.log }))
          r
  released (ok u, w) p = (p.0, Proven-grows _ _ _ _ p.1)
  released (fail s, w) p = p

  -- TtWindSysmemArm, from any state. When it succeeds the sysmem is verified, at the stage
  -- VERIFIED, with the success recorded, and the loopback has shown it: for the first, the middle and
  -- the last page of the buffer and for both words of the page's pattern, 0x74744D30 plus the number
  -- of the page and its complement, the word was written to the buffer at the offset, and after that
  -- a read over the kernel window, aimed at the PCIe tile that is recorded and at the NOC address of
  -- the offset, was answered with the word. When it fails the sysmem is not verified.
  pub sysmem_arm-verifies : (w : World) → Outcome Unverified ProvenArmed (sysmem_arm w)
  unfolding sysmem_arm
  sysmem_arm-verifies w =
      with_lock-Outcome Unverified ProvenArmed arc_lock _ w (released _ (locked _))
