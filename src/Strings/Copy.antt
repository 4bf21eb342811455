-- ===== src/Strings/Copy.antt =====
-- lib/string.c: strcpy, strcat, strncpy and strlcpy. A routine returns the new memory beside its
-- result.
pub mod Laws
use jos.Base.{
  sign_extend32, u64, ℕ, zero, suc, ◌+◌, ◌-◌, Bool, true, false, ◌&&◌, not, Option, none, some,
  ◌==◌, ltb, if◌then◌else◌, ◌>>=◌,
}
use jos.Base.Memory.{Memory, write}
use jos.Strings.Length.{strlen}

strcpy_loop : ℕ → Memory → ℕ → ℕ → Option Memory
strcpy_loop zero m dst src = none
strcpy_loop (suc fuel) m dst src = elim (m src == 0) [
  | true ↦ some (write m dst (m src))
  | false ↦ strcpy_loop fuel (write m dst (m src)) (dst + 1) (src + 1)
]

-- The second part of the result is the returned pointer.
unfoldable pub strcpy : ℕ → Memory → ℕ → ℕ → Option (Memory × ℕ)
unfolding strcpy_loop
strcpy fuel m dst src = do m' ← strcpy_loop fuel m dst src; some (m', dst)

-- `len` is an `int`, which is converted for the addition to the pointer.
pub strcat : ℕ → Memory → ℕ → ℕ → Option (Memory × ℕ)
strcat fuel m dst src = do
  len ← strlen fuel m dst
  (m', ret) ← strcpy fuel m (u64 (dst + sign_extend32 len)) src
  some (m', dst)

-- The first argument is the rounds left, `size - i`.
strncpy_loop : ℕ → Memory → ℕ → ℕ → Memory
strncpy_loop zero m dst src = m
strncpy_loop (suc rounds) m dst src =
    let m' = write m dst (m src) in
    strncpy_loop rounds m' (dst + 1) (if m' src == 0 then src else src + 1)

pub strncpy : Memory → ℕ → ℕ → ℕ → Memory × ℕ
unfolding strncpy_loop
strncpy m dst src size = (strncpy_loop size m dst src, dst)

-- `while (--size > 0 && *src != '\0')`; the first argument is `size - 1` on entry. The result is
-- the memory and the pointer `dst` after the loop.
strlcpy_loop : ℕ → Memory → ℕ → ℕ → Memory × ℕ
strlcpy_loop zero m dst src = (m, dst)
strlcpy_loop (suc room) m dst src = elim (m src == 0) [
  | true ↦ (m, dst)
  | false ↦ strlcpy_loop room (write m dst (m src)) (dst + 1) (src + 1)
]

pub strlcpy : Memory → ℕ → ℕ → ℕ → Memory × ℕ
unfolding strlcpy_loop
strlcpy m dst src size =
    if ltb 0 size
    then (let (m', end) = strlcpy_loop (size - 1) m dst src in (write m' end 0, end - dst))
    else (m, dst - dst)
