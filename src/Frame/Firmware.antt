-- ===== src/Frame/Firmware.antt =====
-- The TLB, firmware and sysmem code (driver/tlb.c, arc.c, sysmem.c) changes the ARC route and the
-- Sysmem* fields, and nothing else of the device context.
use tt_wind.Base.{ℕ, zero, suc, Bool, true, false, List, [], ◌∷◌, ◌≡◌, refl}
use tt_wind.Kernel.{Event, os, Env}
use tt_wind.Context.{Sysmem, ArcRoute, no_route, noc_low, noc_high, axi, World, NocTlbConfig}
use tt_wind.Monad.Keeps.{
  Keeps, Ignores, Overlooks, Keeps-modify_ctx, Keeps-seq, Keeps-emit, keeps_rules,
}
use tt_wind.Sysmem.Buffer.{modify_sysmem}
use tt_wind.Tlb.Program.{program_tlb_2m, kernel_tlb_sanity_check}
use tt_wind.Arc.Access.{
  noc_ptr, noc_read32, noc_write32, apb_read32_via, apb_write32_via, csm_read32, csm_write32,
}
use tt_wind.Arc.Locate.{Round, Boot, Queue, probe_routes, wait_ready, read_queue, locate_queue}
use tt_wind.Arc.Ring.{ArcMsg, read_pointer, write_words, read_words, try_push, try_pop}
use tt_wind.Arc.Exchange.{
  drain, ring_doorbell, await_response, exchange, msg_send_sync, send_checked, power_up, power_down,
}
use tt_wind.Sysmem.Arm.{
  iatu_program_outbound, detect_pcie_tile, write_probes, clear_probes, check_probe, check_probes,
  loopback_verify, arm_attempt, sysmem_arm, sysmem_invalidate,
}

-- A call of a kernel routine; the code of this module makes none.
abbrev pub is_call : Event → Bool
is_call (os c) = true
is_call _ = false

-- A property of the world that depends neither on the route and the Sysmem* fields, nor on any
-- event of the log but the calls of kernel routines.
pub record IsControl {ℓ} (P : World → Type ℓ) : Type ℓ where
  pub events : (e : Event) → is_call e ≡ false → Ignores P e
  pub routes : (r : ArcRoute) → Overlooks P (λ c. record c { arc_route = r })
  pub sysmems : (f : Sysmem → Sysmem) → Overlooks P (λ c. record c { sysmem = f c.sysmem })

module _ ⦃env : Env⦄ {P : World → Type 0} (k : IsControl P) where
  event_rule : (e : Event) → is_call e ≡ false → Ignores P e
  event_rule = k.events

  route_rule : (r : ArcRoute) → Overlooks P (λ c. record c { arc_route = r })
  route_rule = k.routes

  sysmem_rule : (f : Sysmem → Sysmem) → Keeps P (modify_sysmem f)
  unfolding modify_sysmem
  sysmem_rule f = Keeps-modify_ctx _ (k.sysmems f)

  ruleset base_rules = (keeps_rules, event_rule, route_rule, sysmem_rule)

  pub program_tlb_2m-Keeps : (id : ℕ) (cfg : NocTlbConfig) → Keeps P (program_tlb_2m id cfg)
  unfolding program_tlb_2m
  program_tlb_2m-Keeps id cfg = search base_rules depth 12

  pub kernel_tlb_sanity_check-Keeps : Keeps P kernel_tlb_sanity_check
  unfolding kernel_tlb_sanity_check
  kernel_tlb_sanity_check-Keeps = search (base_rules, program_tlb_2m-Keeps) depth 12

  noc_read32-Keeps : (x addr : ℕ) → Keeps P (noc_read32 x addr)
  unfolding noc_read32 noc_ptr
  noc_read32-Keeps x addr = search (base_rules, program_tlb_2m-Keeps) depth 12

  noc_write32-Keeps : (x addr v : ℕ) → Keeps P (noc_write32 x addr v)
  unfolding noc_write32 noc_ptr
  noc_write32-Keeps x addr v = search (base_rules, program_tlb_2m-Keeps) depth 12

  apb_read32_via-Keeps : (r : ArcRoute) (o : ℕ) → Keeps P (apb_read32_via r o)
  unfolding apb_read32_via
  apb_read32_via-Keeps noc_low o = search (base_rules, noc_read32-Keeps)
  apb_read32_via-Keeps noc_high o = search (base_rules, noc_read32-Keeps)
  apb_read32_via-Keeps axi o = search base_rules
  apb_read32_via-Keeps no_route o = search base_rules

  apb_write32_via-Keeps : (r : ArcRoute) (o v : ℕ) → Keeps P (apb_write32_via r o v)
  unfolding apb_write32_via
  apb_write32_via-Keeps noc_low o v = search (base_rules, noc_write32-Keeps)
  apb_write32_via-Keeps noc_high o v = search (base_rules, noc_write32-Keeps)
  apb_write32_via-Keeps axi o v = search base_rules
  apb_write32_via-Keeps no_route o v = search base_rules

  csm_read32-Keeps : (addr : ℕ) → Keeps P (csm_read32 addr)
  unfolding csm_read32
  csm_read32-Keeps addr = search (base_rules, noc_read32-Keeps)

  csm_write32-Keeps : (addr v : ℕ) → Keeps P (csm_write32 addr v)
  unfolding csm_write32
  csm_write32-Keeps addr v = search (base_rules, noc_write32-Keeps)

  ruleset access_rules = (
    base_rules, noc_read32-Keeps, apb_read32_via-Keeps, apb_write32_via-Keeps, csm_read32-Keeps,
    csm_write32-Keeps,
  )

  pub probe_routes-Keeps : (rs : List ArcRoute) (r : Round) → Keeps P (probe_routes rs r)
  unfolding probe_routes
  probe_routes-Keeps [] r = search access_rules
  probe_routes-Keeps (x ∷ rs) r = search (access_rules, probe_routes-Keeps rs) depth 12

  pub wait_ready-Keeps : (n d : ℕ) (b : Boot) → Keeps P (wait_ready n d b)
  unfolding wait_ready
  wait_ready-Keeps zero d b = search access_rules
  wait_ready-Keeps (suc n) d b =
      search (access_rules, probe_routes-Keeps, wait_ready-Keeps n d) depth 12

  pub read_queue-Keeps : (b : Boot) → Keeps P (read_queue b)
  unfolding read_queue
  read_queue-Keeps b = search access_rules depth 14

  pub locate_queue-Keeps : Keeps P locate_queue
  unfolding locate_queue
  locate_queue-Keeps = search (access_rules, wait_ready-Keeps, read_queue-Keeps) depth 12

  read_pointer-Keeps : (addr : ℕ) → Keeps P (read_pointer addr)
  unfolding read_pointer
  read_pointer-Keeps addr = search access_rules depth 12

  write_words-Keeps : (vs : List ℕ) (addr : ℕ) → Keeps P (write_words vs addr)
  unfolding write_words
  write_words-Keeps [] addr = search access_rules
  write_words-Keeps (v ∷ vs) addr = search (access_rules, write_words-Keeps vs)

  read_words-Keeps : (n addr : ℕ) → Keeps P (read_words n addr)
  unfolding read_words
  read_words-Keeps zero addr = search access_rules
  read_words-Keeps (suc n) addr = search (access_rules, read_words-Keeps n) depth 8

  pub try_push-Keeps : (m : ArcMsg) (q : Queue) → Keeps P (try_push m q)
  unfolding try_push
  try_push-Keeps m q = search (access_rules, read_pointer-Keeps, write_words-Keeps) depth 14

  pub try_pop-Keeps : (q : Queue) → Keeps P (try_pop q)
  unfolding try_pop
  try_pop-Keeps q = search (access_rules, read_pointer-Keeps, read_words-Keeps) depth 14

  pub drain-Keeps : (n : ℕ) (q : Queue) → Keeps P (drain n q)
  unfolding drain
  drain-Keeps zero q = search access_rules
  drain-Keeps (suc n) q = search (access_rules, try_pop-Keeps, drain-Keeps n) depth 10

  pub ring_doorbell-Keeps : (r : ArcRoute) → Keeps P (ring_doorbell r)
  unfolding ring_doorbell
  ring_doorbell-Keeps axi = search access_rules
  ring_doorbell-Keeps _ = search access_rules

  pub await_response-Keeps : (n d : ℕ) (q : Queue) → Keeps P (await_response n d q)
  unfolding await_response
  await_response-Keeps zero d q = search access_rules
  await_response-Keeps (suc n) d q =
      search (access_rules, try_pop-Keeps, await_response-Keeps n d) depth 12

  pub exchange-Keeps : (m : ArcMsg) → Keeps P (exchange m)
  unfolding exchange
  exchange-Keeps m =
      search
        (
          access_rules, locate_queue-Keeps, drain-Keeps, try_push-Keeps, ring_doorbell-Keeps,
          await_response-Keeps,
        )
        depth 14

  pub msg_send_sync-Keeps : (m : ArcMsg) → Keeps P (msg_send_sync m)
  unfolding msg_send_sync
  msg_send_sync-Keeps m = search (access_rules, exchange-Keeps) depth 12

  send_checked-Keeps : (h : ℕ) → Keeps P (send_checked h)
  unfolding send_checked
  send_checked-Keeps h = search (access_rules, msg_send_sync-Keeps) depth 12

  pub power_up-Keeps : Keeps P power_up
  unfolding power_up
  power_up-Keeps = search (access_rules, send_checked-Keeps)

  pub power_down-Keeps : Keeps P power_down
  unfolding power_down
  power_down-Keeps = search (access_rules, send_checked-Keeps)

  write_probes-Keeps : (offs : List ℕ) (i : ℕ) → Keeps P (write_probes offs i)
  unfolding write_probes
  write_probes-Keeps [] i = search access_rules
  write_probes-Keeps (o ∷ offs) i = search (access_rules, write_probes-Keeps offs) depth 8

  clear_probes-Keeps : (offs : List ℕ) → Keeps P (clear_probes offs)
  unfolding clear_probes
  clear_probes-Keeps [] = search access_rules
  clear_probes-Keeps (o ∷ offs) =
      Keeps-seq _ _
        (Keeps-seq _ _ (Keeps-emit _ (event_rule _ refl)) (Keeps-emit _ (event_rule _ refl)))
        (clear_probes-Keeps offs)

  check_probe-Keeps : (i o : ℕ) → Keeps P (check_probe i o)
  unfolding check_probe
  check_probe-Keeps i o = search access_rules depth 16

  check_probes-Keeps : (offs : List ℕ) (i : ℕ) → Keeps P (check_probes offs i)
  unfolding check_probes
  check_probes-Keeps [] i = search access_rules
  check_probes-Keeps (o ∷ offs) i =
      search (access_rules, check_probe-Keeps, check_probes-Keeps offs)

  loopback_verify-Keeps : Keeps P loopback_verify
  unfolding loopback_verify
  loopback_verify-Keeps =
      search (access_rules, write_probes-Keeps, check_probes-Keeps, clear_probes-Keeps) depth 16

  detect_pcie_tile-Keeps : Keeps P detect_pcie_tile
  unfolding detect_pcie_tile
  detect_pcie_tile-Keeps = search access_rules depth 16

  iatu_program_outbound-Keeps : (r b l t : ℕ) → Keeps P (iatu_program_outbound r b l t)
  unfolding iatu_program_outbound
  iatu_program_outbound-Keeps r b l t = search access_rules depth 20

  pub arm_attempt-Keeps : Keeps P arm_attempt
  unfolding arm_attempt
  arm_attempt-Keeps =
      search
        (access_rules, detect_pcie_tile-Keeps, iatu_program_outbound-Keeps, loopback_verify-Keeps)
        depth 20

  pub sysmem_arm-Keeps : Keeps P sysmem_arm
  unfolding sysmem_arm
  sysmem_arm-Keeps = search (access_rules, arm_attempt-Keeps) depth 16

  pub sysmem_invalidate-Keeps : Keeps P sysmem_invalidate
  unfolding sysmem_invalidate
  sysmem_invalidate-Keeps = search access_rules depth 16
