-- ===== src/Print/Num.antt =====
-- lib/printfmt.c: printnum.
pub mod Laws
pub mod Roundtrip
use jos.Base.{
  ℕ, zero, suc, ◌-◌, ◌/◌, ◌%◌, true, false, Option, none, some, codes, get_or, ◌>>=◌, leb,
  if◌then◌else◌, is_neg32, sub32,
}
use jos.Print.Terminal.{Terminal, Putch, emit, emit_times}

-- "0123456789abcdef"[d]
abbrev pub digit_char : ℕ → ℕ
digit_char d = get_or (codes "0123456789abcdef") d 0

-- The rounds of `while (--width > 0)`; the least `int` wraps round to the greatest.
abbrev pub pad_rounds : ℕ → ℕ
pad_rounds width = if is_neg32 (sub32 width 1) then 0 else sub32 width 1

module _ {ℓ} {S : Type ℓ} (putch : Putch S) where
  -- The first argument bounds the depth of the recursion.
  unfoldable pub printnum_depth : ℕ → ℕ → ℕ → ℕ → ℕ → Terminal S → Option (Terminal S)
  printnum_depth zero num base width padc t = none
  printnum_depth (suc depth) num base width padc t = do
    t' ← elim (leb base num) [
      | true ↦ printnum_depth depth (num / base) base (sub32 width 1) padc t
      | false ↦ some (emit_times putch (pad_rounds width) padc t)
    ]
    some (emit putch (digit_char (num % base)) t')

  -- A 64-bit number has at most 64 digits in a base from 2 on.
  unfoldable pub printnum : ℕ → ℕ → ℕ → ℕ → Terminal S → Option (Terminal S)
  printnum num base width padc t = printnum_depth 64 num base width padc t
