-- ===== src/Rounding.antt =====
-- inc/types.h: MIN, MAX, ROUNDDOWN and ROUNDUP, on `uint64_t`.
mod Tests
use jos.Base.{ℕ, ◌+◌, ◌-◌, ◌*◌, ◌%◌, ◌/◌, ◌^◌, ◌<◌, ◌≤◌, ◌≡◌, Bool, leb, if◌then◌else◌, u64, arith}
use native.Mathlib.Nat.{mod-lt, mod-le, div-add-mod, mul-mod_right}

unfoldable pub min_of : ℕ → ℕ → ℕ
min_of a b = if leb a b then a else b

unfoldable pub max_of : ℕ → ℕ → ℕ
max_of a b = if leb b a then a else b

unfoldable pub round_down : ℕ → ℕ → ℕ
round_down a n = u64 (u64 a + 2 ^ 64 - u64 a % n)

unfoldable pub round_up : ℕ → ℕ → ℕ
unfolding round_down
round_up a n = round_down (u64 (u64 a + u64 n + 2 ^ 64 - 1)) (u64 n)

round_down_value : (a n : ℕ) → a < 2 ^ 64 → 0 < n → u64 (u64 a + 2 ^ 64 - u64 a % n) ≡ a - a % n
round_down_value a n ha hn =
    let e : u64 a ≡ a = omega arith in rw e (omega (arith, mod-lt a hn, mod-le a n))

-- ROUNDDOWN gives the multiple of `n` at or below `a`, less than `n` away.
pub round_down_lem :
    (a n : ℕ)
    → a < 2 ^ 64
    → 0 < n
    → (round_down a n % n ≡ 0) × (round_down a n ≤ a) × (a < round_down a n + n)
unfolding round_down
round_down_lem a n ha hn =
    let value = round_down_value a n ha hn in
    let parts = div-add-mod a n in
    rw value (
      (let e : a - a % n ≡ n * (a / n) = omega (arith, parts) in rw e (mul-mod_right n (a / n))),
      omega arith,
      omega (arith, mod-lt a hn, mod-le a n),
    )

-- ROUNDUP gives the multiple of `n` at or above `a`, less than `n` away, if `a + n` is below 2^64.
pub round_up_lem :
    (a n : ℕ)
    → a + n < 2 ^ 64
    → 0 < n
    → (round_up a n % n ≡ 0) × (a ≤ round_up a n) × (round_up a n < a + n)
unfolding round_up
round_up_lem a n ha hn =
    let sum : u64 (u64 a + u64 n + 2 ^ 64 - 1) ≡ a + n - 1 = omega arith in
    let modulus : u64 n ≡ n = omega arith in
    let down = round_down_lem (a + n - 1) n (omega arith) hn in
    rw (sum, modulus) (down.0, omega (arith, down.2), omega (arith, down.1))
