-- ===== src/Strings/Fill/Laws.antt =====
-- memset: every path fills the block, and the two implementations agree below 2 GB.
use jos.Base.{
  ℕ, zero, suc, ◌+◌, ◌*◌, ◌/◌, ◌%◌, ◌^◌, ◌<◌, ◌≤◌, ◌≡◌, ◌∙◌, ◌&&◌, arith, ltb, leb, if◌then◌else◌,
  ap, u8, u32, is_neg32,
}
use jos.Base.Memory.{Memory, write}
use jos.Strings.Fill.{rep_stosb, store32, rep_stosl, spread, memset, memset_c}

-- The memory in which the `n` bytes from `p` on are `c`.
unfoldable pub filled : Memory → ℕ → ℕ → ℕ → Memory
filled m p c n = λ a. if leb p a && ltb a (p + n) then c else m a

rep_stosb_lem : (n : ℕ) (m : Memory) (p c a : ℕ) → rep_stosb n m p c a ≡ filled m p c n a
unfolding rep_stosb filled
rep_stosb_lem zero m p c a = ground arith
rep_stosb_lem (suc n) m p c a = rep_stosb_lem n (write m p c) (p + 1) c a ∙ ground arith

-- The four bytes of the spread word are the byte.
spread_bytes :
    (c : ℕ)
    → c < 256
    → (u8 (spread c) ≡ c)
      × (u8 (spread c / 2 ^ 8) ≡ c)
      × (u8 (spread c / 2 ^ 16) ≡ c)
      × (u8 (spread c / 2 ^ 24) ≡ c)
unfolding spread
spread_bytes c h = omega arith

rep_stosl_lem :
    (n : ℕ) (m : Memory) (p c a : ℕ)
    → c < 256
    → rep_stosl n m p (spread c) a ≡ filled m p c (4 * n) a
unfolding rep_stosl filled
rep_stosl_lem zero m p c a h = ground arith
rep_stosl_lem (suc n) m p c a h =
    rep_stosl_lem n (store32 m p (spread c)) (p + 4) c a h ∙ ground (arith, spread_bytes c h)

whole_words :
    (m : Memory) (p c n a : ℕ) → n % 4 ≡ 0 → filled m p c (4 * (n / 4)) a ≡ filled m p c n a
whole_words m p c n a h = ap (λ k. filled m p c k a) (omega arith)

filled-zero : (m : Memory) (p c a : ℕ) → filled m p c 0 a ≡ m a
unfolding filled
filled-zero m p c a = ground arith

-- memset returns `v` and leaves the low byte of `c` in the `n` bytes at `v`, on the word path, the
-- byte path and for an empty block; every other byte is kept.
pub memset_lem :
    (m : Memory) (v c n a : ℕ)
    → ((memset m v c n).0 a ≡ filled m v (u8 c) n a) × ((memset m v c n).1 ≡ v)
unfolding memset
memset_lem m v c n a = ground (
  arith,
  filled-zero m v (u8 c) a,
  rep_stosb_lem n m v (u8 c) a,
  rep_stosl_lem (n / 4) m v (u8 c) a,
  whole_words m v (u8 c) n a,
)

-- The string instructions and the loop in C agree for a block below 2^31 bytes.
pub memset-eq-memset_c :
    (m : Memory) (v c n a : ℕ) → n < 2 ^ 31 → (memset m v c n).0 a ≡ (memset_c m v c n).0 a
unfolding memset_c
memset-eq-memset_c m v c n a h = ground (arith, memset_lem m v c n a, rep_stosb_lem n m v (u8 c) a)

-- From 2^31 bytes to 2^32 the loop in C writes nothing: its counter is an `int`.
pub memset_c-large : (m : Memory) (v c n : ℕ) → 2 ^ 31 ≤ n → n < 2 ^ 32 → memset_c m v c n ≡ (m, v)
unfolding memset_c
memset_c-large m v c n lo hi =
    let e : (if is_neg32 (u32 n) then 0 else u32 n) ≡ 0 = ground arith in rw e
