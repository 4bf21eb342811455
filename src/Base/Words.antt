-- ===== src/Base/Words.antt =====
-- Machine words as native numbers below a power of two, and literals as lists of bytes.
-- A C `int` is its 32-bit pattern: `slt32` is the signed comparison of two patterns.
use Prim.Native.Nat.{ℕ, ◌+◌, ◌-◌, ◌%◌, ◌^◌}
use Prim.Native.Char.{code}
use Prim.Native.String.{String}
use mathlib.Core.Bool.{Bool}
use mathlib.Core.List.{List, [], ◌∷◌}
use jos.Base.Tests.{ltb, if◌then◌else◌}

abbrev pub Bytes : Type 0
Bytes = List ℕ

-- The bytes of an ASCII literal.
abbrev pub codes : String → Bytes
codes String.[] = []
codes (String.◌∷◌ c s) = code c ∷ codes s

abbrev pub u8 : ℕ → ℕ
u8 n = n % 2 ^ 8

abbrev pub u16 : ℕ → ℕ
u16 n = n % 2 ^ 16

abbrev pub u32 : ℕ → ℕ
u32 n = n % 2 ^ 32

abbrev pub u64 : ℕ → ℕ
u64 n = n % 2 ^ 64

-- `-1` as an `int`.
abbrev pub minus_one : ℕ
minus_one = 2 ^ 32 - 1

-- The sum and the difference of two `int` patterns.
abbrev pub add32 : ℕ → ℕ → ℕ
add32 a b = (a + b) % 2 ^ 32

abbrev pub sub32 : ℕ → ℕ → ℕ
sub32 a b = (a + 2 ^ 32 - b) % 2 ^ 32

-- The negative of an `int` pattern, and of a 64-bit pattern.
abbrev pub neg32 : ℕ → ℕ
neg32 a = (2 ^ 32 - a) % 2 ^ 32

abbrev pub neg64 : ℕ → ℕ
neg64 a = (2 ^ 64 - a) % 2 ^ 64

-- Is the `int`, or the `long long`, with this pattern negative?
abbrev pub is_neg32 : ℕ → Bool
is_neg32 a = ltb (2 ^ 31 - 1) a

abbrev pub is_neg64 : ℕ → Bool
is_neg64 a = ltb (2 ^ 63 - 1) a

-- `a < b` for two `int` patterns: shifting both by 2^31 orders them as unsigned numbers.
abbrev pub slt32 : ℕ → ℕ → Bool
slt32 a b = ltb ((a + 2 ^ 31) % 2 ^ 32) ((b + 2 ^ 31) % 2 ^ 32)

-- A `char` (signed on x86) converted to `int`.
abbrev pub sign_extend8 : ℕ → ℕ
sign_extend8 c = if ltb c 128 then c else c + (2 ^ 32 - 2 ^ 8)

-- An `int` converted to 64 bits, as bit patterns.
abbrev pub sign_extend32 : ℕ → ℕ
sign_extend32 w = if is_neg32 w then w + (2 ^ 64 - 2 ^ 32) else w

-- The difference of two 64-bit patterns.
abbrev pub minus64 : ℕ → ℕ → ℕ
minus64 a b = u64 (a + 2 ^ 64 - b)
