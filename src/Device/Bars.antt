-- ===== src/Device/Bars.antt =====
-- The BAR table that PrepareHardware records (driver/device.c).
use tt_wind.Base.{
  ℕ, ◌*◌, Option, none, some, ap₂, zero, suc, ◌+◌, true, false, List, [], ◌∷◌, ◌++◌, map, take,
  keep_if, length, ◌≡◌, refl, ap, sym, ◌∙◌, leb, Bool-cases, inl, inr, arith,
}
use tt_wind.Context.{BarDesc, max_bars}
use tt_wind.Device.Resources.{
  Descriptor, ResourceType, memory, memory_large, other_resource, descriptor_length, is_memory,
  record_bars,
}

abbrev bar_of : Descriptor → BarDesc
bar_of d = record { phys = d.start; size = descriptor_length d.type d.len }

abbrev memories : List Descriptor → List BarDesc
memories ds = map bar_of (keep_if (λ d. is_memory d.type) ds)

append_nil : (xs : List BarDesc) → xs ++ [] ≡ xs
append_nil [] = refl
append_nil (x ∷ xs) = ap (λ ys. x ∷ ys) (append_nil xs)

append_one : (xs ys : List BarDesc) (x : BarDesc) → (xs ++ x ∷ []) ++ ys ≡ xs ++ x ∷ ys
append_one [] ys x = refl
append_one (y ∷ xs) ys x = ap (λ zs. y ∷ zs) (append_one xs ys x)

length_one : (xs : List BarDesc) (x : BarDesc) → length (xs ++ x ∷ []) ≡ suc (length xs)
length_one [] x = refl
length_one (y ∷ xs) x = ap suc (length_one xs x)

-- With room for `n` more.
recorded :
    (ds : List Descriptor) (bars : List BarDesc) (n : ℕ)
    → length bars + n ≡ max_bars
    → record_bars ds bars ≡ bars ++ take n (memories ds)
unfolding record_bars
recorded [] bars zero e = sym (append_nil bars)
recorded [] bars (suc n) e = sym (append_nil bars)
recorded (d ∷ ds) bars zero e = elim (Bool-cases (is_memory d.type)) [
  | inl m ↦ rw (m, record_bars) (rw (full e) (sym (append_nil bars)))
  | inr m ↦ rw (m, record_bars) (recorded ds bars zero e)
]
  where
    full : length bars + 0 ≡ max_bars → leb max_bars (length bars) ≡ true
    full q = ground arith
recorded (d ∷ ds) bars (suc n) e = elim (Bool-cases (is_memory d.type)) [
  | inl m ↦
      rw (m, record_bars)
        (rw (room e) (
          recorded ds (bars ++ bar_of d ∷ []) n (omega (arith, length_one bars (bar_of d)))
          ∙ append_one bars (take n (memories ds)) (bar_of d)))
  | inr m ↦ rw (m, record_bars) (recorded ds bars (suc n) e)
]
  where
    room : length bars + suc n ≡ max_bars → leb max_bars (length bars) ≡ false
    room q = ground arith

-- The unit of a length: a byte, and for a large resource 2^8, 2^16 or 2^32 bytes by its flag. What
-- is no memory resource has none.
abbrev pub unit_of : ResourceType → Option ℕ
unit_of memory = some 1
unit_of (memory_large true large_48 large_64) = some 256
unit_of (memory_large false true large_64) = some 65536
unit_of (memory_large false false true) = some 4294967296
unit_of (memory_large false false false) = some 0
unit_of other_resource = none

abbrev pub with_unit : Descriptor → Option ℕ → List BarDesc → List BarDesc
with_unit d none bars = bars
with_unit d (some n) bars = record { phys = d.start; size = d.len * n } ∷ bars

-- The ranges of the memory resources, in their order, with their lengths in bytes.
abbrev pub memory_ranges : List Descriptor → List BarDesc
memory_ranges [] = []
memory_ranges (d ∷ ds) = with_unit d (unit_of d.type) (memory_ranges ds)

abbrev sized : (start size : ℕ) → BarDesc
sized start size = record { phys = start; size = size }

added :
    (t : ResourceType) (start len : ℕ) (ds : List Descriptor) (bars : List BarDesc)
    → memories ds ≡ bars
    → memories (record { type = t; start = start; len = len } ∷ ds)
      ≡ with_unit (record { type = t; start = start; len = len }) (unit_of t) bars
unfolding descriptor_length
added memory start len ds bars e = ap₂ ◌∷◌ (ap (sized start) (omega arith)) e
added (memory_large true b c) start len ds bars e = ap₂ ◌∷◌ (ap (sized start) (omega arith)) e
added (memory_large false true c) start len ds bars e = ap₂ ◌∷◌ (ap (sized start) (omega arith)) e
added (memory_large false false true) start len ds bars e =
    ap₂ ◌∷◌ (ap (sized start) (omega arith)) e
added (memory_large false false false) start len ds bars e =
    ap₂ ◌∷◌ (ap (sized start) (omega arith)) e
added other_resource start len ds bars e = e

memories-ranges : (ds : List Descriptor) → memories ds ≡ memory_ranges ds
memories-ranges [] = refl
memories-ranges (d ∷ ds) = added d.type d.start d.len ds _ (memories-ranges ds)

-- The table holds the ranges of the first six memory resources, in their order: each with its start
-- and its length in bytes, which is that of the descriptor times 1, or times 2^8, 2^16 or 2^32 by the
-- first flag of a large resource, and 0 for one without a flag; every other resource is skipped.
pub record_bars-takes :
    (ds : List Descriptor) → record_bars ds [] ≡ take max_bars (memory_ranges ds)
record_bars-takes ds = recorded ds [] max_bars refl ∙ ap (take max_bars) (memories-ranges ds)
