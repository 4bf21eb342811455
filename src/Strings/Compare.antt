-- ===== src/Strings/Compare.antt =====
-- lib/string.c: strcmp, strncmp and memcmp. The `int` result is its 32-bit pattern.
pub mod Laws
use jos.Base.{ℕ, zero, suc, ◌+◌, true, false, ◌&&◌, not, Option, none, some, ◌==◌, sub32}
use jos.Base.Memory.{Memory}

unfoldable pub strcmp : ℕ → Memory → ℕ → ℕ → Option ℕ
strcmp zero m p q = none
strcmp (suc fuel) m p q = elim (not (m p == 0) && (m p == m q)) [
  | true ↦ strcmp fuel m (p + 1) (q + 1)
  | false ↦ some (sub32 (m p) (m q))
]

-- `n` counts down: the rounds left.
unfoldable pub strncmp : Memory → ℕ → ℕ → ℕ → ℕ
strncmp m p q zero = 0
strncmp m p q (suc n) = elim (not (m p == 0) && (m p == m q)) [
  | true ↦ strncmp m (p + 1) (q + 1) n
  | false ↦ sub32 (m p) (m q)
]

pub memcmp : Memory → ℕ → ℕ → ℕ → ℕ
memcmp m v1 v2 zero = 0
memcmp m v1 v2 (suc n) = elim (m v1 == m v2) [
  | true ↦ memcmp m (v1 + 1) (v2 + 1) n
  | false ↦ sub32 (m v1) (m v2)
]
