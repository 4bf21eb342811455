-- ===== src/Strings/Move.antt =====
-- lib/string.c: memmove as it is compiled (`ASM` is 1), its loop in C, and memcpy.
pub mod Laws
use jos.Base.{ℕ, zero, suc, ◌+◌, ◌-◌, ◌/◌, ◌%◌, Bool, ◌&&◌, ◌==◌, ltb, if◌then◌else◌}
use jos.Base.Memory.{Memory, write}

-- A 32-bit move: the word is read before it is written.
abbrev move32 : Memory → ℕ → ℕ → Memory
move32 m d s =
    write (write (write (write m d (m s)) (d + 1) (m (s + 1))) (d + 2) (m (s + 2))) (d + 3)
      (m (s + 3))

-- `rep movsb` and `rep movsl` with the direction flag clear.
movsb_up : ℕ → Memory → ℕ → ℕ → Memory
movsb_up zero m d s = m
movsb_up (suc count) m d s = movsb_up count (write m d (m s)) (d + 1) (s + 1)

movsl_up : ℕ → Memory → ℕ → ℕ → Memory
movsl_up zero m d s = m
movsl_up (suc count) m d s = movsl_up count (move32 m d s) (d + 4) (s + 4)

-- The same with the flag set: the pointers fall after each move.
movsb_down : ℕ → Memory → ℕ → ℕ → Memory
movsb_down zero m d s = m
movsb_down (suc count) m d s = movsb_down count (write m d (m s)) (d - 1) (s - 1)

movsl_down : ℕ → Memory → ℕ → ℕ → Memory
movsl_down zero m d s = m
movsl_down (suc count) m d s = movsl_down count (move32 m d s) (d - 4) (s - 4)

unfoldable pub memmove : Memory → ℕ → ℕ → ℕ → Memory × ℕ
unfolding movsb_up movsl_up movsb_down movsl_down
memmove m dst src n =
    if ltb src dst && ltb dst (src + n)
    then (let s = src + n in
        let d = dst + n in
        if (s % 4 == 0) && (d % 4 == 0) && (n % 4 == 0)
        then (movsl_down (n / 4) m (d - 4) (s - 4), dst)
        else (movsb_down n m (d - 1) (s - 1), dst))
    else if (src % 4 == 0) && (dst % 4 == 0) && (n % 4 == 0)
    then (movsl_up (n / 4) m dst src, dst)
    else (movsb_up n m dst src, dst)

-- `while (n-- > 0) *--d = *--s;`
copy_down : ℕ → Memory → ℕ → ℕ → Memory
copy_down zero m d s = m
copy_down (suc n) m d s = copy_down n (write m (d - 1) (m (s - 1))) (d - 1) (s - 1)

pub memmove_c : Memory → ℕ → ℕ → ℕ → Memory × ℕ
unfolding copy_down movsb_up
memmove_c m dst src n =
    if ltb src dst && ltb dst (src + n)
    then (copy_down n m (dst + n) (src + n), dst)
    else (movsb_up n m dst src, dst)

unfoldable pub memcpy : Memory → ℕ → ℕ → ℕ → Memory × ℕ
unfolding memmove
memcpy m dst src n = memmove m dst src n
