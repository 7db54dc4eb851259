-- ===== src/Tlb/Layout.antt =====
-- The layout of the window register image (driver/tlb.c, TtWindPackTlb2M): the fields stand one
-- behind the other and none reaches into another.
use tt_wind.Base.{
  ℕ, ◌+◌, ◌-◌, ◌*◌, ◌/◌, ◌%◌, ◌^◌, ◌≤◌, ◌<◌, true, false, ◌≡◌, refl, sym, ap, ap₂, ◌∙◌, subst,
  bit_and, bit_or, leb, ltb, arith, u32, u64, ◌<<<◌, ◌>>>◌,
}
use tt_wind.Base.Bits.{or_above, and_low}
use tt_wind.Context.{NocTlbConfig}
use tt_wind.Tlb.Pack.{Image, empty_image, put_field, pack_tlb_2m}

-- The image as one number.
abbrev pub value : Image → ℕ
value img = img.lo + img.hi * 2 ^ 64

-- An image that holds the number `n`, below bit `pos`.
record Packs (pos : ℕ) (img : Image) (n : ℕ) : Type 0 where
  lo_bound : img.lo < 2 ^ 64
  total : value img ≡ n
  bound : n < 2 ^ pos

masked_value : (width v : ℕ) → v < 2 ^ width → bit_and v (2 ^ width - 1) ≡ v
masked_value width v h = and_low width v ∙ grind arith

mod_small : (x m : ℕ) → x < m → x % m ≡ x
mod_small x m h = grind arith

low_field :
    (pos width v : ℕ) (img : Image)
    → ltb pos 64 ≡ true
    → leb 64 width ≡ false
    → ltb 64 (pos + width) ≡ false
    → v < 2 ^ width
    → img.lo < 2 ^ pos
    → v * 2 ^ pos < 2 ^ 64
    → put_field pos width v img ≡ record { lo = img.lo + v * 2 ^ pos; hi = img.hi }
unfolding put_field
low_field pos width v img p w e h l f =
    rw (p, w, e, masked_value width v h)
      (ap (λ x. record { lo = x; hi = img.hi })
        (ap (bit_or img.lo) (mod_small _ (2 ^ 64) f) ∙ or_above pos img.lo v l))

high_field :
    (pos width v : ℕ) (img : Image)
    → ltb pos 64 ≡ false
    → leb 64 width ≡ false
    → v < 2 ^ width
    → img.hi < 2 ^ (pos - 64)
    → v * 2 ^ (pos - 64) < 2 ^ 32
    → put_field pos width v img ≡ record { lo = img.lo; hi = img.hi + v * 2 ^ (pos - 64) }
unfolding put_field
high_field pos width v img p w h l f =
    rw (p, w, masked_value width v h)
      (ap (λ x. record { lo = img.lo; hi = x })
        (ap (bit_or img.hi) (mod_small _ (2 ^ 32) f) ∙ or_above (pos - 64) img.hi v l))

-- The field at bits 61 to 66 lies across the two registers.
straddling_field :
    (v : ℕ) (img : Image)
    → v < 2 ^ 6
    → img.lo < 2 ^ 61
    → img.hi ≡ 0
    → put_field 61 6 v img ≡ record { lo = img.lo + v % 8 * 2 ^ 61; hi = v / 8 }
unfolding put_field
straddling_field v img h l z = rw (masked_value 6 v h) (
    ap₂ (λ x y. record { lo = x; hi = y })
      (ap (bit_or img.lo) low_part ∙ or_above 61 img.lo (v % 8) l) high_part)
  where
    low_part : u64 (v <<< 61) ≡ v % 8 * 2 ^ 61
    low_part = omega arith

    high_part : bit_or img.hi (u32 (v >>> 3)) ≡ v / 8
    high_part =
        rw z (ap (bit_or 0) (omega arith) ∙ or_above 0 0 (v / 8) (omega arith) ∙ omega arith)

-- The images after each field.
low-Packs :
    (pos width v n : ℕ) (img : Image)
    → ltb pos 64 ≡ true
    → leb 64 width ≡ false
    → ltb 64 (pos + width) ≡ false
    → v < 2 ^ width
    → Packs pos img n
    → n + v * 2 ^ pos < 2 ^ (pos + width)
    → 2 ^ (pos + width) ≤ 2 ^ 64
    → 2 ^ pos ≤ 2 ^ 64
    → Packs (pos + width) (put_field pos width v img) (n + v * 2 ^ pos)
low-Packs pos width v n img p w e h k b c c' =
    subst (λ i. Packs (pos + width) i (n + v * 2 ^ pos))
      (sym (low_field pos width v img p w e h (small k.total k.bound) (wide k.total)))
      (record { lo_bound = wide' k.total; total = goal k.total; bound = b })
  where
    small : img.lo + img.hi * 2 ^ 64 ≡ n → n < 2 ^ pos → img.lo < 2 ^ pos
    small t u = omega arith

    wide : img.lo + img.hi * 2 ^ 64 ≡ n → v * 2 ^ pos < 2 ^ 64
    wide t = omega arith

    wide' : img.lo + img.hi * 2 ^ 64 ≡ n → img.lo + v * 2 ^ pos < 2 ^ 64
    wide' t = omega arith

    goal : img.lo + img.hi * 2 ^ 64 ≡ n → img.lo + v * 2 ^ pos + img.hi * 2 ^ 64 ≡ n + v * 2 ^ pos
    goal t = omega arith

straddling-Packs :
    (v n : ℕ) (img : Image)
    → v < 2 ^ 6
    → Packs 61 img n
    → Packs 67 (put_field 61 6 v img) (n + v * 2 ^ 61)
straddling-Packs v n img h k =
    subst (λ i. Packs 67 i (n + v * 2 ^ 61))
      (sym (straddling_field v img h (small k.total k.bound) (empty k.total k.bound)))
      (record {
        lo_bound = bound (small k.total k.bound);
        total = goal k.total k.bound;
        bound = next k.bound;
      })
  where
    small : img.lo + img.hi * 2 ^ 64 ≡ n → n < 2 ^ 61 → img.lo < 2 ^ 61
    small t u = omega arith

    empty : img.lo + img.hi * 2 ^ 64 ≡ n → n < 2 ^ 61 → img.hi ≡ 0
    empty t u = omega arith

    bound : img.lo < 2 ^ 61 → img.lo + v % 8 * 2 ^ 61 < 2 ^ 64
    bound u = omega arith

    goal :
        img.lo + img.hi * 2 ^ 64 ≡ n
        → n < 2 ^ 61
        → img.lo + v % 8 * 2 ^ 61 + v / 8 * 2 ^ 64 ≡ n + v * 2 ^ 61
    goal t u = omega arith

    next : n < 2 ^ 61 → n + v * 2 ^ 61 < 2 ^ 67
    next u = omega arith

high-Packs :
    (pos width v n : ℕ) (img : Image)
    → ltb pos 64 ≡ false
    → leb 64 width ≡ false
    → v < 2 ^ width
    → 2 ^ pos ≡ 2 ^ (pos - 64) * 2 ^ 64
    → v * 2 ^ (pos - 64) < 2 ^ 32
    → Packs pos img n
    → n + v * 2 ^ pos < 2 ^ (pos + width)
    → Packs (pos + width) (put_field pos width v img) (n + v * 2 ^ pos)
high-Packs pos width v n img p w h e c k b =
    subst (λ i. Packs (pos + width) i (n + v * 2 ^ pos))
      (sym (high_field pos width v img p w h (small k.total k.bound) c))
      (record { lo_bound = k.lo_bound; total = goal k.total; bound = b })
  where
    small : img.lo + img.hi * 2 ^ 64 ≡ n → n < 2 ^ pos → img.hi < 2 ^ (pos - 64)
    small t u = omega arith

    goal :
        img.lo + img.hi * 2 ^ 64 ≡ n
        → img.lo + (img.hi + v * 2 ^ (pos - 64)) * 2 ^ 64 ≡ n + v * 2 ^ pos
    goal t = rw e (omega arith)

-- The fields in the range that CONFIGURE_TLB asks for.
pub record InRange (cfg : NocTlbConfig) : Type 0 where
  pub addr : cfg.addr < 2 ^ 64
  pub x_end : cfg.x_end ≤ 63
  pub y_end : cfg.y_end ≤ 63
  pub x_start : cfg.x_start ≤ 63
  pub y_start : cfg.y_start ≤ 63
  pub noc : cfg.noc ≤ 1
  pub mcast : cfg.mcast ≤ 1
  pub ordering : cfg.ordering ≤ 3
  pub linked : cfg.linked ≤ 1
  pub static_vc : cfg.static_vc ≤ 1

abbrev pub layout : NocTlbConfig → ℕ
layout cfg =
    cfg.addr / 2 ^ 21
    + cfg.x_end * 2 ^ 43
    + cfg.y_end * 2 ^ 49
    + cfg.x_start * 2 ^ 55
    + cfg.y_start * 2 ^ 61
    + cfg.noc * 2 ^ 67
    + cfg.mcast * 2 ^ 69
    + cfg.ordering * 2 ^ 70
    + cfg.linked * 2 ^ 72
    + cfg.static_vc * 2 ^ 73

module _ (a x_end y_end x_start y_start noc mcast ordering linked static_vc : ℕ) where
  packed :
      a < 2 ^ 43
      → x_end ≤ 63
      → y_end ≤ 63
      → x_start ≤ 63
      → y_start ≤ 63
      → noc ≤ 1
      → mcast ≤ 1
      → ordering ≤ 3
      → linked ≤ 1
      → static_vc ≤ 1
      → Packs 74
          (put_field 73 1 static_vc (
            put_field 72 1 linked (
              put_field 70 2 ordering (
                put_field 69 1 mcast (
                  put_field 67 2 noc (
                    put_field 61 6 y_start (
                      put_field 55 6 x_start (
                        put_field 49 6 y_end
                          (put_field 43 6 x_end (put_field 0 43 a empty_image))))))))))
          (a
            + x_end * 2 ^ 43
            + y_end * 2 ^ 49
            + x_start * 2 ^ 55
            + y_start * 2 ^ 61
            + noc * 2 ^ 67
            + mcast * 2 ^ 69
            + ordering * 2 ^ 70
            + linked * 2 ^ 72
            + static_vc * 2 ^ 73)
  packed h0 h1 h2 h3 h4 h5 h6 h7 h8 h9 =
      high-Packs 73 1 _ _ _ refl refl (omega arith) refl (omega arith)
        (high-Packs 72 1 _ _ _ refl refl (omega arith) refl (omega arith)
          (high-Packs 70 2 _ _ _ refl refl (omega arith) refl (omega arith)
            (high-Packs 69 1 _ _ _ refl refl (omega arith) refl (omega arith)
              (high-Packs 67 2 _ _ _ refl refl (omega arith) refl (omega arith)
                (straddling-Packs _ _ _ (omega arith) (
                  low-Packs 55 6 _ _ _ refl refl refl (omega arith)
                    (low-Packs 49 6 _ _ _ refl refl refl (omega arith)
                      (low-Packs 43 6 _ _ _ refl refl refl (omega arith) (first h0) (omega arith)
                        (omega arith) (omega arith))
                      (omega arith) (omega arith) (omega arith))
                    (omega arith) (omega arith) (omega arith)))
                (omega arith))
              (omega arith))
            (omega arith))
          (omega arith))
        (omega arith)
    where
      first : a < 2 ^ 43 → Packs 43 (put_field 0 43 a empty_image) a
      first h =
          subst (λ n. Packs 43 (put_field 0 43 a empty_image) n) (omega arith)
            (low-Packs 0 43 a 0 empty_image refl refl refl h
              (record { lo_bound = omega arith; total = refl; bound = omega arith }) (omega arith)
              (omega arith) (omega arith))

pack-Packs : (cfg : NocTlbConfig) → InRange cfg → Packs 74 (pack_tlb_2m cfg) (layout cfg)
unfolding pack_tlb_2m
pack-Packs cfg r =
    packed _ _ _ _ _ _ _ _ _ _ (omega (arith, r.addr)) r.x_end r.y_end r.x_start r.y_start r.noc
      r.mcast r.ordering r.linked r.static_vc

-- The register image of a configuration in range is its layout as a number of 74 bits: 43 bits of
-- the address, without its 21 low bits, then the other fields, none of them cut off and none
-- reaching into another.
pub pack-layout :
    (cfg : NocTlbConfig)
    → InRange cfg
    → (value (pack_tlb_2m cfg) ≡ layout cfg) × (layout cfg < 2 ^ 74)
pack-layout cfg r = let k = pack-Packs cfg r in (k.total, k.bound)

pub pack-lo_bound : (cfg : NocTlbConfig) → InRange cfg → (pack_tlb_2m cfg).lo < 2 ^ 64
pack-lo_bound cfg r = (pack-Packs cfg r).lo_bound
