-- ===== src/Mmu/Assembler.antt =====
-- inc/mmu.h, part 2: the segment descriptors that the assembler macros SEG_NULL, SEG, SEG64 and
-- SEG64USER lay out byte by byte, against those of the macros for C.
use jos.Base.{
  ℕ, ◌+◌, ◌*◌, ◌/◌, ◌%◌, ◌^◌, ◌<◌, ◌≡◌, refl, ◌==◌, ==_iff, [], ◌∷◌, Bytes, bit_or, arith, true,
}
use jos.Base.Bits.{all_below, all_below_sound}
use jos.Mmu.Descriptor.{Segdesc, seg, seg64}

-- `.word w` and `.byte b`: the low bits, the lower byte first.
abbrev byte : ℕ → ℕ
byte b = b % 2 ^ 8

unfoldable pub seg_null_bytes : Bytes
seg_null_bytes = 0 ∷ 0 ∷ 0 ∷ 0 ∷ 0 ∷ 0 ∷ 0 ∷ 0 ∷ []

-- What the three macros share; `access` and `mode` are the constants that they put beside the type and
-- the high bits of the limit.
unfoldable pub segment_bytes : ℕ → ℕ → ℕ → ℕ → ℕ → Bytes
segment_bytes access mode type base lim =
    let low = lim / 2 ^ 12 % 2 ^ 16 in
    let address = base % 2 ^ 16 in
    byte low
    ∷ byte (low / 2 ^ 8)
    ∷ byte address
    ∷ byte (address / 2 ^ 8)
    ∷ (base / 2 ^ 16 % 2 ^ 8)
    ∷ byte (bit_or access type)
    ∷ byte (bit_or mode (lim / 2 ^ 28 % 2 ^ 4))
    ∷ (base / 2 ^ 24 % 2 ^ 8)
    ∷ []

unfoldable pub seg_bytes : ℕ → ℕ → ℕ → Bytes
unfolding segment_bytes
seg_bytes type base lim = segment_bytes 0x90 0xC0 type base lim

unfoldable pub seg64_bytes : ℕ → ℕ → ℕ → Bytes
unfolding segment_bytes
seg64_bytes type base lim = segment_bytes 0x90 0xA0 type base lim

unfoldable pub seg64user_bytes : ℕ → ℕ → ℕ → Bytes
unfolding segment_bytes
seg64user_bytes type base lim = segment_bytes 0xF0 0xA0 type base lim

-- The C macro SEG_NULL.
unfoldable pub seg_null : Segdesc
seg_null = record {
  lim_15_0 = 0;
  base_15_0 = 0;
  base_23_16 = 0;
  type = 0;
  s = 0;
  dpl = 0;
  p = 0;
  lim_19_16 = 0;
  avl = 0;
  l = 0;
  db = 0;
  g = 0;
  base_31_24 = 0;
}

-- The bytes of a `struct Segdesc`: the compiler lays the bit fields out from the lowest bit on.
unfoldable pub layout : Segdesc → Bytes
layout d =
    byte d.lim_15_0
    ∷ byte (d.lim_15_0 / 2 ^ 8)
    ∷ byte d.base_15_0
    ∷ byte (d.base_15_0 / 2 ^ 8)
    ∷ d.base_23_16
    ∷ (d.type + d.s * 2 ^ 4 + d.dpl * 2 ^ 5 + d.p * 2 ^ 7)
    ∷ (d.lim_19_16 + d.avl * 2 ^ 4 + d.l * 2 ^ 5 + d.db * 2 ^ 6 + d.g * 2 ^ 7)
    ∷ d.base_31_24
    ∷ []

-- A constant whose low four bits are clear, with four bits put there.
joined :
    (high n : ℕ)
    → n < 16
    → all_below 16 (λ i. byte (bit_or high i) == high + i) ≡ true
    → byte (bit_or high n) ≡ high + n
joined high n h e =
    (==_iff _ _).0 (all_below_sound 16 (λ i. byte (bit_or high i) == high + i) n e h)

-- Two descriptors of eight bytes that agree in the bytes at issue.
same_bytes :
    (a b c d e : ℕ) {x x' y y' z z' : ℕ}
    → x ≡ x'
    → y ≡ y'
    → z ≡ z'
    → ◌≡◌ {A = Bytes} (a ∷ b ∷ c ∷ d ∷ e ∷ x ∷ y ∷ z ∷ []) (a ∷ b ∷ c ∷ d ∷ e ∷ x' ∷ y' ∷ z' ∷ [])
same_bytes a b c d e p q r = rw (p, q, r) refl

-- The assembler macros lay out the descriptors of the C macros: SEG and SEG64 with privilege 0, and
-- SEG64USER that of SEG64 with privilege 3, for every base and limit and a type of four bits.
pub assembler-eq-layout :
    (type base lim : ℕ)
    → type < 16
    → (seg_bytes type base lim ≡ layout (seg type base lim 0))
      × (seg64_bytes type base lim ≡ layout (seg64 type base lim 0))
      × (seg64user_bytes type base lim ≡ layout (seg64 type base lim 3))
      × (seg_null_bytes ≡ layout seg_null)
unfolding seg_bytes seg64_bytes seg64user_bytes segment_bytes seg seg64 layout all_below
    seg_null_bytes seg_null
assembler-eq-layout type base lim small =
    let few : lim / 2 ^ 28 % 2 ^ 4 < 16 = omega arith in
    let system = joined 0x90 type small refl in
    let user = joined 0xF0 type small refl in
    let scaled = joined 0xC0 (lim / 2 ^ 28 % 2 ^ 4) few refl in
    let long = joined 0xA0 (lim / 2 ^ 28 % 2 ^ 4) few refl in
    (
      same_bytes _ _ _ _ _ (omega (arith, system)) (omega (arith, scaled)) (omega arith),
      same_bytes _ _ _ _ _ (omega (arith, system)) (omega (arith, long)) (omega arith),
      same_bytes _ _ _ _ _ (omega (arith, user)) (omega (arith, long)) (omega arith),
      refl,
    )
