-- ===== src/Arc/Settled.antt =====
-- The routines of driver/arc.c without a polling loop end by themselves.
use tt_wind.Base.{ℕ, zero, suc, List, [], ◌∷◌, arith}
use tt_wind.Kernel.{Env}
use tt_wind.Context.{ArcRoute, no_route, noc_low, noc_high, axi, NocTlbConfig}
use tt_wind.Monad.Settles.{Good, Any, Settles, settles_rules}
use tt_wind.Tlb.Program.{program_tlb_2m}
use tt_wind.Arc.Access.{
  noc_ptr, noc_read32, noc_write32, apb_read32_via, apb_write32_via, csm_read32, csm_write32,
}
use tt_wind.Arc.Locate.{Round, Queue, check_queue, probe_routes}
use tt_wind.Arc.Ring.{ArcMsg, read_pointer, write_words, read_words, try_push, try_pop}
use tt_wind.Arc.Exchange.{drain, ring_doorbell}

module _ ⦃env : Env⦄ where
  program_tlb_2m-Settles : (id : ℕ) (cfg : NocTlbConfig) → Settles (program_tlb_2m id cfg)
  unfolding program_tlb_2m
  program_tlb_2m-Settles id cfg = search settles_rules depth 12

  noc_read32-Settles : (x addr : ℕ) → Settles (noc_read32 x addr)
  unfolding noc_read32 noc_ptr
  noc_read32-Settles x addr = search (settles_rules, program_tlb_2m-Settles) depth 12

  noc_write32-Settles : (x addr v : ℕ) → Settles (noc_write32 x addr v)
  unfolding noc_write32 noc_ptr
  noc_write32-Settles x addr v = search (settles_rules, program_tlb_2m-Settles) depth 12

  pub apb_read32_via-Settles : (r : ArcRoute) (o : ℕ) → Settles (apb_read32_via r o)
  unfolding apb_read32_via
  apb_read32_via-Settles noc_low o = search (settles_rules, noc_read32-Settles)
  apb_read32_via-Settles noc_high o = search (settles_rules, noc_read32-Settles)
  apb_read32_via-Settles axi o = search settles_rules
  apb_read32_via-Settles no_route o = search settles_rules

  apb_write32_via-Settles : (r : ArcRoute) (o v : ℕ) → Settles (apb_write32_via r o v)
  unfolding apb_write32_via
  apb_write32_via-Settles noc_low o v = search (settles_rules, noc_write32-Settles)
  apb_write32_via-Settles noc_high o v = search (settles_rules, noc_write32-Settles)
  apb_write32_via-Settles axi o v = search settles_rules
  apb_write32_via-Settles no_route o v = search settles_rules

  pub csm_read32-Settles : (addr : ℕ) → Settles (csm_read32 addr)
  unfolding csm_read32
  csm_read32-Settles addr = search (settles_rules, noc_read32-Settles)

  csm_write32-Settles : (addr v : ℕ) → Settles (csm_write32 addr v)
  unfolding csm_write32
  csm_write32-Settles addr v = search (settles_rules, noc_write32-Settles)

  ruleset settled_rules = (
    settles_rules, apb_read32_via-Settles, apb_write32_via-Settles, csm_read32-Settles,
    csm_write32-Settles,
  )

  pub probe_routes-Settles : (rs : List ArcRoute) (r : Round) → Settles (probe_routes rs r)
  unfolding probe_routes
  probe_routes-Settles [] r = search settled_rules
  probe_routes-Settles (x ∷ rs) r = search (settled_rules, probe_routes-Settles rs) depth 12

  read_pointer-Settles : (addr : ℕ) → Settles (read_pointer addr)
  unfolding read_pointer
  read_pointer-Settles addr = search settled_rules depth 12

  write_words-Settles : (vs : List ℕ) (addr : ℕ) → Settles (write_words vs addr)
  unfolding write_words
  write_words-Settles [] addr = search settled_rules
  write_words-Settles (v ∷ vs) addr = search (settled_rules, write_words-Settles vs)

  read_words-Settles : (n addr : ℕ) → Settles (read_words n addr)
  unfolding read_words
  read_words-Settles zero addr = search settled_rules
  read_words-Settles (suc n) addr = search (settled_rules, read_words-Settles n) depth 8

  pub try_push-Settles : (m : ArcMsg) (q : Queue) → Settles (try_push m q)
  unfolding try_push
  try_push-Settles m q = search (settled_rules, read_pointer-Settles, write_words-Settles) depth 14

  pub try_pop-Settles : (q : Queue) → Settles (try_pop q)
  unfolding try_pop
  try_pop-Settles q = search (settled_rules, read_pointer-Settles, read_words-Settles) depth 14

  pub drain-Settles : (n : ℕ) (q : Queue) → Settles (drain n q)
  unfolding drain
  drain-Settles zero q = search settled_rules
  drain-Settles (suc n) q = search (settled_rules, drain-Settles n) depth 10

  pub ring_doorbell-Settles : (r : ArcRoute) → Settles (ring_doorbell r)
  unfolding ring_doorbell
  ring_doorbell-Settles axi = search settled_rules
  ring_doorbell-Settles _ = search settled_rules

  pub check_queue-Good : (b n : ℕ) → Good Any (check_queue b n)
  unfolding check_queue
  check_queue-Good b n = ground arith
