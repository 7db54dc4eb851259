-- ===== src/Base/Words.antt =====
-- The casts, shifts and little-endian words of C over the native numbers.
use Prim.Native.Nat.{ℕ, ◌+◌, ◌-◌, ◌*◌, ◌/◌, ◌%◌, ◌^◌}
use mathlib.Core.List.{List}
use tt_wind.Base.Lists.{get_or}

abbrev pub u8 : ℕ → ℕ
u8 n = n % 2 ^ 8

abbrev pub u16 : ℕ → ℕ
u16 n = n % 2 ^ 16

abbrev pub u32 : ℕ → ℕ
u32 n = n % 2 ^ 32

abbrev pub u64 : ℕ → ℕ
u64 n = n % 2 ^ 64

-- UINT32 and UINT64 subtraction of words in range.
abbrev pub sub32 : ℕ → ℕ → ℕ
sub32 a b = (a + 2 ^ 32 - b) % 2 ^ 32

abbrev pub sub64 : ℕ → ℕ → ℕ
sub64 a b = (a + 2 ^ 64 - b) % 2 ^ 64

-- `~x` on a UINT32.
abbrev pub not32 : ℕ → ℕ
not32 x = 2 ^ 32 - 1 - x

infixl 75 ◌<<<◌ ◌>>>◌
abbrev pub ◌<<<◌ : ℕ → ℕ → ℕ
x <<< k = x * 2 ^ k

abbrev pub ◌>>>◌ : ℕ → ℕ → ℕ
x >>> k = x / 2 ^ k

abbrev pub all_ones32 : ℕ
all_ones32 = 0xFFFFFFFF

-- The two-byte and four-byte words at an offset of a buffer.
abbrev pub word16 : List ℕ → ℕ → ℕ
word16 bytes i = u8 (get_or bytes i 0) + 2 ^ 8 * u8 (get_or bytes (i + 1) 0)

abbrev pub word32 : List ℕ → ℕ → ℕ
word32 bytes i = word16 bytes i + 2 ^ 16 * word16 bytes (i + 2)
