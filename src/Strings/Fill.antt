-- ===== src/Strings/Fill.antt =====
-- lib/string.c: memset, as it is compiled (`ASM` is 1: string instructions of the processor), and
-- the loop in C of the other branch of the `#if`.
pub mod Laws
use jos.Base.{ℕ, zero, suc, ◌+◌, ◌*◌, ◌/◌, ◌%◌, ◌^◌, ◌&&◌, ◌==◌, if◌then◌else◌, u8, u32, is_neg32}
use jos.Base.Memory.{Memory, write}

-- `rep stosb` with the direction flag clear: `count` bytes from `p` upwards.
rep_stosb : ℕ → Memory → ℕ → ℕ → Memory
rep_stosb zero m p al = m
rep_stosb (suc count) m p al = rep_stosb count (write m p al) (p + 1) al

-- A 32-bit store, least byte first.
abbrev store32 : Memory → ℕ → ℕ → Memory
store32 m p w =
    write (write (write (write m p (u8 w)) (p + 1) (u8 (w / 2 ^ 8))) (p + 2) (u8 (w / 2 ^ 16)))
      (p + 3) (u8 (w / 2 ^ 24))

-- `rep stosl`: `count` words from `p` upwards.
rep_stosl : ℕ → Memory → ℕ → ℕ → Memory
rep_stosl zero m p eax = m
rep_stosl (suc count) m p eax = rep_stosl count (store32 m p eax) (p + 4) eax

-- `(c<<24)|(c<<16)|(c<<8)|c` of a byte: the four copies share no bit, so `|` is `+`.
spread : ℕ → ℕ
spread c = c * 2 ^ 24 + c * 2 ^ 16 + c * 2 ^ 8 + c

unfoldable pub memset : Memory → ℕ → ℕ → ℕ → Memory × ℕ
unfolding rep_stosb rep_stosl spread
memset m v c n =
    if n == 0
    then (m, v)
    else if (v % 4 == 0) && (n % 4 == 0)
    then (rep_stosl (n / 4) m v (spread (u8 c)), v)
    else (rep_stosb n m v (u8 c), v)

-- The C loop `while (--m >= 0) *p++ = c`: `int m = n` cuts `n` to 32 bits.
pub memset_c : Memory → ℕ → ℕ → ℕ → Memory × ℕ
unfolding rep_stosb
memset_c m v c n = (rep_stosb (if is_neg32 (u32 n) then 0 else u32 n) m v (u8 c), v)
