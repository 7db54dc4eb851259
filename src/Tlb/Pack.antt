-- ===== src/Tlb/Pack.antt =====
-- The 96-bit register image of a 2 MiB window (driver/tlb.c, TtWindPutField and TtWindPackTlb2M).
use tt_wind.Base.{
  ℕ, ◌+◌, ◌-◌, ◌^◌, bit_and, bit_or, ltb, leb, if◌then◌else◌, u32, u64, ◌<<<◌, ◌>>>◌,
}
use tt_wind.Context.{NocTlbConfig}

-- Bits 0..63 and bits 64..95.
pub record Image : Type 0 where
  pub lo : ℕ
  pub hi : ℕ

abbrev pub empty_image : Image
empty_image = record { lo = 0; hi = 0 }

unfoldable pub put_field : ℕ → ℕ → ℕ → Image → Image
put_field pos width value img =
    let masked = bit_and value (if leb 64 width then 2 ^ 64 - 1 else 2 ^ width - 1) in
    if ltb pos 64
    then record {
      lo = bit_or img.lo (u64 (masked <<< pos));
      hi = if ltb 64 (pos + width) then bit_or img.hi (u32 (masked >>> (64 - pos))) else img.hi;
    }
    else record { lo = img.lo; hi = bit_or img.hi (u32 (masked <<< (pos - 64))) }

unfoldable pub pack_tlb_2m : NocTlbConfig → Image
pack_tlb_2m cfg = put_field 73 1 cfg.static_vc (
    put_field 72 1 cfg.linked (
      put_field 70 2 cfg.ordering (
        put_field 69 1 cfg.mcast (
          put_field 67 2 cfg.noc (
            put_field 61 6 cfg.y_start (
              put_field 55 6 cfg.x_start (
                put_field 49 6 cfg.y_end
                  (put_field 43 6 cfg.x_end (put_field 0 43 (cfg.addr >>> 21) empty_image)))))))))
