-- ===== src/Strings/Length.antt =====
-- lib/string.c: strlen and strnlen. A `while` loop over a string takes fuel, and answers `none`
-- where the fuel runs out before the terminating zero.
use jos.Base.{
  ℕ, zero, suc, ◌+◌, ◌<◌, ◌≡◌, min, true, false, Option, none, some, [], ◌∷◌, arith, Bytes, length,
  ◌==◌, u32, ◌^◌,
}
use jos.Base.Memory.{Memory, CString}

-- `n` counts the bytes passed, in an `int`.
strlen_loop : ℕ → Memory → ℕ → ℕ → Option ℕ
strlen_loop zero m s n = none
strlen_loop (suc fuel) m s n = elim (m s == 0) [
  | true ↦ some n
  | false ↦ strlen_loop fuel m (s + 1) (u32 (n + 1))
]

unfoldable pub strlen : ℕ → Memory → ℕ → Option ℕ
unfolding strlen_loop
strlen fuel m s = strlen_loop fuel m s 0

-- The count is an `int`; `size` counts down to 0, so it is the rounds left.
strnlen_loop : Memory → ℕ → ℕ → ℕ → ℕ
strnlen_loop m s zero n = n
strnlen_loop m s (suc size) n = elim (m s == 0) [
  | true ↦ n
  | false ↦ strnlen_loop m (s + 1) size (u32 (n + 1))
]

unfoldable pub strnlen : Memory → ℕ → ℕ → ℕ
unfolding strnlen_loop
strnlen m s size = strnlen_loop m s size 0

strlen_loop_lem :
    (fuel : ℕ) (m : Memory) (s n : ℕ) (cs : Bytes)
    → CString m s cs
    → length cs < fuel
    → n + length cs < 2 ^ 32
    → strlen_loop fuel m s n ≡ some (n + length cs)
unfolding strlen_loop
strlen_loop_lem zero m s n cs h lt small = absurd (omega arith)
strlen_loop_lem (suc fuel) m s n [] h lt small = ground arith
strlen_loop_lem (suc fuel) m s n (c ∷ cs) (hc, nz, rest) lt small =
    let next : u32 (n + 1) ≡ n + 1 = omega arith in
    ground (arith, next, strlen_loop_lem fuel m (s + 1) (n + 1) cs rest (omega arith) (omega arith))

-- With more fuel than bytes, `strlen` returns, and returns the number of bytes before the zero, if
-- that is below 2^32.
pub strlen_lem :
    (fuel : ℕ) (m : Memory) (s : ℕ) (cs : Bytes)
    → CString m s cs
    → length cs < fuel
    → length cs < 2 ^ 32
    → strlen fuel m s ≡ some (length cs)
unfolding strlen
strlen_lem fuel m s cs h lt small = ground (arith, strlen_loop_lem fuel m s 0 cs h lt (omega arith))

strnlen_loop_lem :
    (size : ℕ) (m : Memory) (s n : ℕ) (cs : Bytes)
    → CString m s cs
    → n + length cs < 2 ^ 32
    → strnlen_loop m s size n ≡ n + min (length cs) size
unfolding strnlen_loop
strnlen_loop_lem zero m s n cs h small = omega arith
strnlen_loop_lem (suc size) m s n [] h small = ground arith
strnlen_loop_lem (suc size) m s n (c ∷ cs) (hc, nz, rest) small =
    let next : u32 (n + 1) ≡ n + 1 = omega arith in
    ground (arith, next, strnlen_loop_lem size m (s + 1) (n + 1) cs rest (omega arith))

-- `strnlen` returns the length, cut at `size`, for a string below 2^32 bytes.
pub strnlen_lem :
    (size : ℕ) (m : Memory) (s : ℕ) (cs : Bytes)
    → CString m s cs
    → length cs < 2 ^ 32
    → strnlen m s size ≡ min (length cs) size
unfolding strnlen
strnlen_lem size m s cs h small = omega (arith, strnlen_loop_lem size m s 0 cs h (omega arith))
