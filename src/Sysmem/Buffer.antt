-- ===== src/Sysmem/Buffer.antt =====
-- TtWindSysmemAllocate and TtWindSysmemFree (driver/sysmem.c).
use tt_wind.Base.{ℕ, ◌+◌, ◌*◌, false, Option, none, some, List, [], ◌∷◌, set}
use tt_wind.Status.{Result, ok, fail}
use tt_wind.Kernel.{Env, numa_node, allocate_contiguous, free_contiguous, zero_buffer}
use tt_wind.Context.{Sysmem, tier_failed, tier_ok}
use tt_wind.Monad.{
  case_option, case_result, M, ◌>>=◌, ◌>>◌, pure, attempt, get_ctx, modify_ctx, tell, call,
}

abbrev pub sysmem_tiers : List ℕ
sysmem_tiers = 1024 * 1024 * 1024 ∷ 512 * 1024 * 1024 ∷ 256 * 1024 * 1024 ∷ []

unfoldable pub modify_sysmem : (Sysmem → Sysmem) → M (Unit {0})
modify_sysmem f = modify_ctx (λ c. record c { sysmem = f c.sysmem })

abbrev pub node_of : Result ℕ → Option ℕ
node_of (ok n) = some n
node_of (fail s) = none

abbrev pub tier_got : (i va size : ℕ) → Sysmem → Sysmem
tier_got i va size s = record s {
  va = some va;
  size = size;
  tier_result = set s.tier_result i tier_ok;
}

abbrev pub tier_missed : (i : ℕ) → Sysmem → Sysmem
tier_missed i s = record s { va = none; tier_result = set s.tier_result i tier_failed }

module _ ⦃env : Env⦄ where
  -- The loop over the tiers, largest first; it stops at the first that is granted.
  unfoldable pub try_tiers : List ℕ → (i : ℕ) (numa : Option ℕ) → M (Unit {0})
  try_tiers [] i numa = pure tt
  try_tiers (size ∷ rest) i numa = do
    r ← attempt (call (allocate_contiguous size numa))
    case_result r (λ va. modify_sysmem (tier_got i va size))
        (λ s. modify_sysmem (tier_missed i) >> try_tiers rest (i + 1) numa)

  unfoldable pub sysmem_allocate : M (Unit {0})
  sysmem_allocate = do
    node ← attempt (call numa_node)
    try_tiers sysmem_tiers 0 (node_of node)
    ctx ← get_ctx
    case_option ctx.sysmem.va (modify_sysmem (λ s. record s { size = 0 })) (λ va. do
      modify_sysmem (λ s. record s { phys = env.physical_of va })
      tell (zero_buffer va ctx.sysmem.size))

  unfoldable pub sysmem_free : M (Unit {0})
  sysmem_free = do
    ctx ← get_ctx
    case_option ctx.sysmem.va (pure tt) (λ va. tell (free_contiguous va ctx.sysmem.size))
    modify_sysmem
        (λ s. record s { va = none; size = 0; phys = 0; is_verified = false; pcie_tile_x = 0 })
