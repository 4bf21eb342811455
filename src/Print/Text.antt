-- ===== src/Print/Text.antt =====
-- lib/printfmt.c: the `%s` conversion of vprintfmt.
use jos.Base.{
  ℕ, zero, suc, ◌+◌, ◌-◌, true, false, ◌&&◌, ◌||◌, not, Option, none, some, ◌>>=◌, ◌==◌,
  if◌then◌else◌, sub32, is_neg32, slt32, sign_extend8, sign_extend32,
}
use jos.Base.Memory.{Memory}
use jos.Strings.Length.{strnlen}
use jos.Print.Terminal.{Terminal, Putch, emit, emit_times}

-- The rounds of `for (; width > 0; width--)`.
abbrev pub positive_part : ℕ → ℕ
positive_part width = if is_neg32 width then 0 else width

module _ {ℓ} {S : Type ℓ} (putch : Putch S) (mem : Memory) where
  -- The character that is printed for a byte of the string.
  unfoldable pub shown : ℕ → ℕ → ℕ
  shown altflag ch = if not (altflag == 0) && (slt32 ch b' ' || slt32 b'~' ch) then b'?' else ch

  -- The loop over the bytes; the result is the width left, and the terminal.
  unfoldable pub put_string : ℕ → ℕ → ℕ → ℕ → ℕ → Terminal S → Option (ℕ × Terminal S)
  put_string zero p width precision altflag t = none
  put_string (suc fuel) p width precision altflag t = elim ((mem p == 0) || (precision == 0)) [
    | true ↦ some (width, t)
    | false ↦
        put_string fuel (p + 1) (sub32 width 1)
          (if is_neg32 precision then precision else precision - 1) altflag
          (emit putch (shown altflag (sign_extend8 (mem p))) t)
  ]

  -- The padding before the string, the string, and the blanks behind it.
  unfoldable pub print_string : ℕ → ℕ → ℕ → ℕ → ℕ → ℕ → Terminal S → Option (Terminal S)
  print_string fuel p width precision padc altflag t =
      let pads = slt32 0 width && not (padc == b'-') in
      let before = sub32 width (strnlen mem p (sign_extend32 precision)) in
      let width' = if pads then (if is_neg32 before then before else 0) else width in
      do
        (left, t') ←
            put_string fuel p width' precision altflag
              (if pads then emit_times putch (positive_part before) padc t else t)
        some (emit_times putch (positive_part left) b' ' t')
