-- ===== src/Mmu/Descriptor.antt =====
-- inc/mmu.h, parts 2 and 3: segment descriptors, the 64-bit system segment descriptor that SETTSS
-- fills, and the gates that SETGATE and SETCALLGATE fill. A bit field holds its value cut to its
-- width.
use jos.Base.{ℕ, ◌+◌, ◌-◌, ◌*◌, ◌/◌, ◌%◌, ◌^◌, ◌<◌, ◌≡◌, ◌==◌, if◌then◌else◌, arith}

-- `struct Segdesc`
pub record Segdesc : Type 0 where
  pub lim_15_0 : ℕ
  pub base_15_0 : ℕ
  pub base_23_16 : ℕ
  pub type : ℕ
  pub s : ℕ
  pub dpl : ℕ
  pub p : ℕ
  pub lim_19_16 : ℕ
  pub avl : ℕ
  pub l : ℕ
  pub db : ℕ
  pub g : ℕ
  pub base_31_24 : ℕ

-- SEG, SEG64 and SEG16 differ in the granularity of the limit and in the mode bits.
unfoldable pub seg : ℕ → ℕ → ℕ → ℕ → Segdesc
seg type base lim dpl = record {
  lim_15_0 = lim / 2 ^ 12 % 2 ^ 16;
  base_15_0 = base % 2 ^ 16;
  base_23_16 = base / 2 ^ 16 % 2 ^ 8;
  type = type % 2 ^ 4;
  s = 1;
  dpl = dpl % 2 ^ 2;
  p = 1;
  lim_19_16 = lim % 2 ^ 32 / 2 ^ 28 % 2 ^ 4;
  avl = 0;
  l = 0;
  db = 1;
  g = 1;
  base_31_24 = base % 2 ^ 32 / 2 ^ 24 % 2 ^ 8;
}

unfoldable pub seg64 : ℕ → ℕ → ℕ → ℕ → Segdesc
unfolding seg
seg64 type base lim dpl = record (seg type base lim dpl) { l = 1; db = 0 }

unfoldable pub seg16 : ℕ → ℕ → ℕ → ℕ → Segdesc
seg16 type base lim dpl = record {
  lim_15_0 = lim % 2 ^ 16;
  base_15_0 = base % 2 ^ 16;
  base_23_16 = base / 2 ^ 16 % 2 ^ 8;
  type = type % 2 ^ 4;
  s = 1;
  dpl = dpl % 2 ^ 2;
  p = 1;
  lim_19_16 = lim % 2 ^ 32 / 2 ^ 16 % 2 ^ 4;
  avl = 0;
  l = 0;
  db = 1;
  g = 0;
  base_31_24 = base % 2 ^ 32 / 2 ^ 24 % 2 ^ 8;
}

-- The base and the last byte of the segment that the processor reads from a descriptor.
abbrev pub segment_base : Segdesc → ℕ
segment_base d = d.base_31_24 * 2 ^ 24 + d.base_23_16 * 2 ^ 16 + d.base_15_0

abbrev pub segment_limit : Segdesc → ℕ
segment_limit d =
    if d.g == 0
    then d.lim_19_16 * 2 ^ 16 + d.lim_15_0
    else (d.lim_19_16 * 2 ^ 16 + d.lim_15_0) * 2 ^ 12 + (2 ^ 12 - 1)

-- `struct Gatedesc`
pub record Gatedesc : Type 0 where
  pub off_15_0 : ℕ
  pub ss : ℕ
  pub ist : ℕ
  pub rsv1 : ℕ
  pub type : ℕ
  pub s : ℕ
  pub dpl : ℕ
  pub p : ℕ
  pub off_31_16 : ℕ
  pub off_32_63 : ℕ
  pub rsv2 : ℕ

unfoldable pub setgate : ℕ → ℕ → ℕ → ℕ → Gatedesc
setgate istrap sel off dpl = record {
  off_15_0 = off % 2 ^ 16;
  ss = sel % 2 ^ 16;
  ist = 0;
  rsv1 = 0;
  type = if istrap == 0 then 0xE else 0xF;
  s = 0;
  dpl = dpl % 2 ^ 2;
  p = 1;
  off_31_16 = off / 2 ^ 16 % 2 ^ 16;
  off_32_63 = off / 2 ^ 32 % 2 ^ 32;
  rsv2 = 0;
}

unfoldable pub setcallgate : ℕ → ℕ → ℕ → Gatedesc
setcallgate ss off dpl = record {
  off_15_0 = off % 2 ^ 32 % 2 ^ 16;
  ss = ss % 2 ^ 16;
  ist = 0;
  rsv1 = 0;
  type = 0xC;
  s = 0;
  dpl = dpl % 2 ^ 2;
  p = 1;
  off_31_16 = off % 2 ^ 32 / 2 ^ 16 % 2 ^ 16;
  off_32_63 = off / 2 ^ 32 % 2 ^ 32;
  rsv2 = 0;
}

abbrev pub gate_offset : Gatedesc → ℕ
gate_offset g = g.off_32_63 * 2 ^ 32 + g.off_31_16 * 2 ^ 16 + g.off_15_0

-- `struct SystemSegdesc64`
pub record SystemSegdesc64 : Type 0 where
  pub lim_15_0 : ℕ
  pub base_15_0 : ℕ
  pub base_23_16 : ℕ
  pub type : ℕ
  pub s : ℕ
  pub dpl : ℕ
  pub p : ℕ
  pub lim_19_16 : ℕ
  pub avl : ℕ
  pub rsv1 : ℕ
  pub g : ℕ
  pub base_31_24 : ℕ
  pub base_63_32 : ℕ
  pub res1 : ℕ
  pub clear : ℕ
  pub res2 : ℕ

-- SETTSS; the argument `dpl` of the macro is not used.
unfoldable pub settss : ℕ → ℕ → ℕ → ℕ → SystemSegdesc64
settss type base lim dpl = record {
  lim_15_0 = lim % 2 ^ 16;
  base_15_0 = base % 2 ^ 16;
  base_23_16 = base / 2 ^ 16 % 2 ^ 8;
  type = type % 2 ^ 4;
  s = 0;
  dpl = 0;
  p = 1;
  lim_19_16 = lim / 2 ^ 16 % 2 ^ 4;
  avl = 0;
  rsv1 = 0;
  g = 0;
  base_31_24 = base / 2 ^ 24 % 2 ^ 8;
  base_63_32 = base / 2 ^ 32 % 2 ^ 32;
  res1 = 0;
  clear = 0;
  res2 = 0;
}

-- A descriptor of SEG or SEG64 gives back its 32-bit base, and a limit that ends a page; SEG16 gives
-- back a limit of 20 bits.
pub segments :
    (type base lim dpl : ℕ)
    → base < 2 ^ 32
    → lim < 2 ^ 32
    → (segment_base (seg type base lim dpl) ≡ base)
      × (segment_base (seg64 type base lim dpl) ≡ base)
      × (segment_base (seg16 type base lim dpl) ≡ base)
      × (segment_limit (seg type base lim dpl) ≡ lim / 2 ^ 12 * 2 ^ 12 + (2 ^ 12 - 1))
      × (segment_limit (seg64 type base lim dpl) ≡ lim / 2 ^ 12 * 2 ^ 12 + (2 ^ 12 - 1))
      × (segment_limit (seg16 type base lim dpl) ≡ lim % 2 ^ 20)
unfolding seg seg64 seg16
segments type base lim dpl hb hl = omega arith

-- A gate of SETGATE or SETCALLGATE gives back the 64-bit address of the handler, and SETTSS the
-- 64-bit base and 20 bits of the limit.
pub gates :
    (istrap sel off dpl type lim : ℕ)
    → off < 2 ^ 64
    → (gate_offset (setgate istrap sel off dpl) ≡ off)
      × (gate_offset (setcallgate sel off dpl) ≡ off)
      × ((settss type off lim dpl).base_63_32 * 2 ^ 32
            + (settss type off lim dpl).base_31_24 * 2 ^ 24
            + (settss type off lim dpl).base_23_16 * 2 ^ 16
            + (settss type off lim dpl).base_15_0
          ≡ off)
      × ((settss type off lim dpl).lim_19_16 * 2 ^ 16 + (settss type off lim dpl).lim_15_0
          ≡ lim % 2 ^ 20)
unfolding setgate setcallgate settss
gates istrap sel off dpl type lim h = omega arith
