-- ===== src/Strings/Move/Laws.antt =====
-- memmove against its specification: the bytes that stood at the source before the call.
use jos.Base.{
  ℕ, zero, suc, ◌+◌, ◌-◌, ◌*◌, ◌/◌, ◌%◌, ◌<◌, ◌≤◌, ◌≡◌, ◌⊎◌, ◌&&◌, leb, ltb, if◌then◌else◌, arith,
  ◌∙◌, ap,
}
use jos.Base.Memory.{Memory, write}
use jos.Strings.Move.{
  movsb_up, movsl_up, movsb_down, movsl_down, copy_down, move32, memmove, memmove_c, memcpy,
}

-- The memory in which the `n` bytes at `d` are those that `m` has at `s`.
unfoldable pub moved : Memory → ℕ → ℕ → ℕ → Memory
moved m d s n = λ a. if leb d a && ltb a (d + n) then m (s + (a - d)) else m a

-- An upward move does not read what it has written.
abbrev UpSafe : ℕ → ℕ → ℕ → Type 0
UpSafe d s n = (d ≤ s) ⊎ (s + n ≤ d)

movsb_up_lem :
    (n : ℕ) (m : Memory) (d s a : ℕ) → UpSafe d s n → movsb_up n m d s a ≡ moved m d s n a
unfolding movsb_up moved
movsb_up_lem zero m d s a h = ground arith
movsb_up_lem (suc n) m d s a h =
    movsb_up_lem n (write m d (m s)) (d + 1) (s + 1) a (ground arith) ∙ ground arith

movsl_up_lem :
    (n : ℕ) (m : Memory) (d s a : ℕ)
    → UpSafe d s (4 * n)
    → s % 4 ≡ 0
    → d % 4 ≡ 0
    → movsl_up n m d s a ≡ moved m d s (4 * n) a
unfolding movsl_up moved
movsl_up_lem zero m d s a h hs hd = ground arith
movsl_up_lem (suc n) m d s a h hs hd =
    movsl_up_lem n (move32 m d s) (d + 4) (s + 4) a (ground arith) (omega arith) (omega arith)
    ∙ ground arith

-- A downward move from a lower to a higher address does not read what it has written.
movsb_down_lem :
    (n : ℕ) (m : Memory) (d s top_d top_s a : ℕ)
    → s < d
    → top_d ≡ d + n - 1
    → top_s ≡ s + n - 1
    → movsb_down n m top_d top_s a ≡ moved m d s n a
unfolding movsb_down moved
movsb_down_lem zero m d s top_d top_s a h ed es = ground arith
movsb_down_lem (suc n) m d s top_d top_s a h ed es =
    movsb_down_lem n (write m top_d (m top_s)) d s (top_d - 1) (top_s - 1) a h (omega arith)
      (omega arith)
    ∙ ground arith

movsl_down_lem :
    (n : ℕ) (m : Memory) (d s top_d top_s a : ℕ)
    → s + 4 ≤ d
    → top_d ≡ d + 4 * n - 4
    → top_s ≡ s + 4 * n - 4
    → movsl_down n m top_d top_s a ≡ moved m d s (4 * n) a
unfolding movsl_down moved
movsl_down_lem zero m d s top_d top_s a h ed es = ground arith
movsl_down_lem (suc n) m d s top_d top_s a h ed es =
    movsl_down_lem n (move32 m top_d top_s) d s (top_d - 4) (top_s - 4) a h (omega arith)
      (omega arith)
    ∙ ground arith

copy_down_lem :
    (n : ℕ) (m : Memory) (d s top_d top_s a : ℕ)
    → s < d
    → top_d ≡ d + n
    → top_s ≡ s + n
    → copy_down n m top_d top_s a ≡ moved m d s n a
unfolding copy_down moved
copy_down_lem zero m d s top_d top_s a h ed es = ground arith
copy_down_lem (suc n) m d s top_d top_s a h ed es =
    copy_down_lem n (write m (top_d - 1) (m (top_s - 1))) d s (top_d - 1) (top_s - 1) a h
      (omega arith) (omega arith)
    ∙ ground arith

-- A block of whole words.
whole_words : (m : Memory) (d s n a : ℕ) → n % 4 ≡ 0 → moved m d s (4 * (n / 4)) a ≡ moved m d s n a
whole_words m d s n a h = ap (λ k. moved m d s k a) (omega arith)

-- On every path, overlapping blocks included, memmove returns `dst` and leaves in `[dst, dst + n)`
-- the bytes that stood at `src` before the call, and every other byte as it was.
pub memmove_lem :
    (m : Memory) (dst src n a : ℕ)
    → ((memmove m dst src n).0 a ≡ moved m dst src n a) × ((memmove m dst src n).1 ≡ dst)
unfolding memmove
memmove_lem m dst src n a = ground (
  arith,
  movsb_up_lem n m dst src a,
  movsl_up_lem (n / 4) m dst src a,
  movsb_down_lem n m dst src (dst + n - 1) (src + n - 1) a,
  movsl_down_lem (n / 4) m dst src (dst + n - 4) (src + n - 4) a,
  whole_words m dst src n a,
)

-- The string instructions and the loops in C leave the same byte at every address, and return the
-- same pointer.
pub memmove-eq-memmove_c :
    (m : Memory) (dst src n a : ℕ)
    → ((memmove m dst src n).0 a ≡ (memmove_c m dst src n).0 a)
      × ((memmove m dst src n).1 ≡ (memmove_c m dst src n).1)
unfolding memmove_c
memmove-eq-memmove_c m dst src n a = ground (
  arith,
  memmove_lem m dst src n a,
  movsb_up_lem n m dst src a,
  copy_down_lem n m dst src (dst + n) (src + n) a,
)

pub memcpy_lem :
    (m : Memory) (dst src n a : ℕ)
    → ((memcpy m dst src n).0 a ≡ moved m dst src n a) × ((memcpy m dst src n).1 ≡ dst)
unfolding memcpy
memcpy_lem m dst src n a = memmove_lem m dst src n a
