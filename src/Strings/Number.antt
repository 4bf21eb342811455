-- ===== src/Strings/Number.antt =====
-- lib/string.c: strtol. The `long` value is its 64-bit pattern, and the digits wrap in it.
pub mod Laws
use jos.Base.{
  ℕ, zero, suc, ◌+◌, ◌-◌, ◌*◌, Bool, true, false, ◌&&◌, ◌||◌, Option, none, some, ◌==◌, leb, slt32,
  if◌then◌else◌, ◌>>=◌, u64, neg64,
}
use jos.Base.Memory.{Memory}

is_blank : ℕ → Bool
is_blank c = (c == b' ') || (c == 9)

-- `while (*s == ' ' || *s == '\t') s++;`
pub skip_blanks : ℕ → Memory → ℕ → Option ℕ
skip_blanks zero m s = none
skip_blanks (suc fuel) m s = elim (is_blank (m s)) [
  | true ↦ skip_blanks fuel m (s + 1)
  | false ↦ some s
]

-- The digit that a byte stands for, in base 36 at most.
unfoldable pub digit_of : ℕ → Option ℕ
digit_of c =
    if leb b'0' c && leb c b'9'
    then some (c - b'0')
    else if leb b'a' c && leb c b'z'
    then some (c - b'a' + 10)
    else if leb b'A' c && leb c b'Z'
    then some (c - b'A' + 10)
    else none

-- The `while (1)` loop over the digits: the value and the pointer where it stops.
strtol_digits : ℕ → Memory → ℕ → ℕ → ℕ → Option (ℕ × ℕ)
strtol_digits zero m s val base = none
strtol_digits (suc fuel) m s val base = elim (digit_of (m s)) [
  | none ↦ some (val, s)
  | some dig ↦ elim (slt32 dig base) [
    | true ↦ strtol_digits fuel m (s + 1) (u64 (val * base + dig)) base
    | false ↦ some (val, s)
  ]
]

-- The pointer and the base behind the sign: the prefixes 0x and 0.
strtol_prefix : Memory → ℕ → ℕ → ℕ × ℕ
strtol_prefix m s base =
    if ((base == 0) || (base == 16)) && ((m s == b'0') && (m (s + 1) == b'x'))
    then (s + 2, 16)
    else if (base == 0) && (m s == b'0')
    then (s + 1, 8)
    else if base == 0
    then (s, 10)
    else (s, base)

-- The result is the value and what goes to `*endptr`.
pub strtol : ℕ → Memory → ℕ → ℕ → Option (ℕ × ℕ)
strtol fuel m s base = do
  s₁ ← skip_blanks fuel m s
  let neg = m s₁ == b'-'
  let s₂ = if (m s₁ == b'+') || neg then s₁ + 1 else s₁
  let (s₃, base') = strtol_prefix m s₂ base
  (val, end) ← strtol_digits fuel m s₃ 0 base'
  some (if neg then neg64 val else val, end)
