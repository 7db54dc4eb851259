-- ===== src/Tool/Accepted.antt =====
-- What the tool sends against what the driver accepts: the arguments of tlbread and tlbreadx
-- (tools/ttwind-info/ttwind-info.c) and the checks of CONFIGURE_TLB (driver/tlb.c).
use tt_wind.Base.{
  ℕ, ◌≤◌, ◌-◌, ◌%◌, Bool, true, false, Option, none, some, List, ◌≡◌, refl, sym, subst, ◌==◌, ◌&&◌,
  ltb, bit_and, arith, Bool-cases, inl, inr, if◌then◌else◌, is_some_of,
}
use tt_wind.Base.Bits.{and_low}
use tt_wind.Status.{ok}
use tt_wind.Kernel.{Env}
use tt_wind.Context.{zero_config, World, NocTlbConfig, tlb_2m_count, tlb_2m_size, tlb_strided_count}
use tt_wind.Monad.{steps}
use tt_wind.Request.{Request, ConfigureTlbIn}
use tt_wind.Tlb.Program.{program_tlb_2m}
use tt_wind.Tlb.Windows.{configure_tlb, check_tlb_owner, reserved_is_zero, fields_in_range}
use tt_wind.Tool.Calls.{Text, Host}
use tt_wind.Tool.Args.{
  Fields, in_range, checked_fields, readx_fields, fields_config, block_of, parse_pairs, defaults,
}

block_aligned : (a : ℕ) → (bit_and (block_of a) (tlb_2m_size - 1) == 0) ≡ true
block_aligned a = ground (arith, and_low 21 a, and_low 21 (block_of a))

abbrev pub config_request : (file id : ℕ) → NocTlbConfig → Request ConfigureTlbIn
config_request file id cfg = record {
  file = some file;
  requestor = none;
  input = ok (record { tlb_id = id; reserved = 0; config = cfg });
  output = ok tt;
}

-- The checks of the tool, one number each.
record Small (f : Fields) : Type 0 where
  xend : f.xend ≤ 63
  yend : f.yend ≤ 63
  xstart : f.xstart ≤ 63
  ystart : f.ystart ≤ 63
  noc : f.noc ≤ 1
  mcast : f.mcast ≤ 1
  ordering : f.ordering ≤ 3
  linked : f.linked ≤ 1
  staticvc : f.staticvc ≤ 1

in_range-Small : (f : Fields) → in_range f ≡ true → Small f
in_range-Small f h = record {
  xend = ground arith;
  yend = ground arith;
  xstart = ground arith;
  ystart = ground arith;
  noc = ground arith;
  mcast = ground arith;
  ordering = ground arith;
  linked = ground arith;
  staticvc = ground arith;
}

-- The casts cut nothing off.
abbrev pub exact_config : Fields → NocTlbConfig
exact_config f = record zero_config {
  addr = block_of f.addr;
  x_end = f.xend;
  y_end = f.yend;
  x_start = f.xstart;
  y_start = f.ystart;
  noc = f.noc;
  mcast = f.mcast;
  ordering = f.ordering;
  linked = f.linked;
  static_vc = f.staticvc;
}

fields_config-exact : (f : Fields) → Small f → fields_config f ≡ exact_config f
fields_config-exact f s = ground arith

exact-in_range : (f : Fields) → Small f → fields_in_range (exact_config f) ≡ true
exact-in_range f s = ground arith

module _ ⦃env : Env⦄ where
  accepted :
      (file id : ℕ) (cfg : NocTlbConfig) (w : World)
      → reserved_is_zero cfg ≡ true
      → (bit_and cfg.addr (tlb_2m_size - 1) == 0) ≡ true
      → fields_in_range cfg ≡ true
      → ltb id tlb_2m_count ≡ true
      → is_some_of file (w.ctx.shared.tlb_owner id) ≡ true
      → w.ctx.mapped.tlb_regs ≡ true
      → (configure_tlb (config_request file id cfg) w).0 ≡ ok tt
  unfolding configure_tlb check_tlb_owner program_tlb_2m steps
  accepted file id cfg w z a r i o m =
      rw (z, a, r, steps, i, o, m)
        (elim (Bool-cases (ltb id tlb_strided_count)) [ inl e ↦ rw e refl | inr e ↦ rw e refl ])

-- Three tests that were passed, and the value that was let through.
let_through {ℓ} :
    {A : Type ℓ} (a b c : Bool) (x y : A)
    → (if a && (b && c) then some x else none) ≡ some y
    → (a ≡ true) × (b ≡ true) × (c ≡ true) × (x ≡ y)
let_through true true true x y e = (refl, refl, refl, cc)
let_through true true false x y e = absurd (cc)
let_through true false c x y e = absurd (cc)
let_through false b c x y e = absurd (cc)

checked-in_range : (o : Option Fields) (f : Fields) → checked_fields o ≡ some f → in_range f ≡ true
unfolding checked_fields
checked-in_range none f e = absurd (cc)
checked-in_range (some g) f e =
    let q = let_through g.have_addr (g.addr % 4 == 0) (in_range g) g f e in
    subst (λ x. in_range x ≡ true) q.3 q.2

module _ ⦃host : Host⦄ ⦃env : Env⦄ where
  -- Whatever arguments tlbreadx takes, the driver accepts its CONFIGURE_TLB for any window that the
  -- handle owns while the registers are mapped, and the configuration has the numbers of the
  -- arguments: the casts cut nothing off.
  pub tlbreadx-accepted :
      (argv : List Text) (f : Fields) (file id : ℕ) (w : World)
      → readx_fields argv ≡ some f
      → ltb id tlb_2m_count ≡ true
      → is_some_of file (w.ctx.shared.tlb_owner id) ≡ true
      → w.ctx.mapped.tlb_regs ≡ true
      → ((configure_tlb (config_request file id (fields_config f)) w).0 ≡ ok tt)
        × (fields_config f ≡ exact_config f)
  unfolding readx_fields
  tlbreadx-accepted argv f file id w e i o m =
      let s = in_range-Small f (checked-in_range (parse_pairs argv defaults) f e) in
      let x = fields_config-exact f s in
      (
        accepted file id (fields_config f) w refl (block_aligned f.addr)
            (subst (λ c. fields_in_range c ≡ true) (sym x) (exact-in_range f s)) i o m,
        x,
      )
