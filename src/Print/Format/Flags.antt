-- ===== src/Print/Format/Flags.antt =====
-- lib/printfmt.c: the flags, width and precision of a %-escape sequence, up to its conversion
-- character (`reswitch:`).
use jos.Base.{
  ℕ, zero, suc, ◌+◌, ◌*◌, true, false, ◌&&◌, ◌||◌, Option, none, some, ◌>>=◌, ltb, leb, ◌==◌,
  if◌then◌else◌, add32, sub32, is_neg32, minus_one, u32,
}
use jos.Base.Memory.{Memory}
use jos.Print.Args.{Slots}

-- The local variables of vprintfmt that a sequence sets. `int`s are 32-bit patterns.
pub record Spec : Type 0 where
  pub padc : ℕ
  pub width : ℕ
  pub precision : ℕ
  pub lflag : ℕ
  pub altflag : ℕ

-- Their values before the first character of a sequence.
abbrev pub initial : Spec
initial = record { padc = b' '; width = minus_one; precision = minus_one; lflag = 0; altflag = 0 }

-- The conversion character, with the next argument, the address behind it, and the variables.
pub record Parsed : Type 0 where
  pub ch : ℕ
  pub next : ℕ
  pub fmt : ℕ
  pub spec : Spec

-- `process_precision:`
unfoldable pub process_precision : ℕ → Spec → Spec
process_precision precision spec =
    if is_neg32 spec.width
    then record spec { width = precision; precision = minus_one }
    else record spec { precision = precision }

-- The digits of a width: `ch` is the digit at hand and `fmt` the address of the next byte.
unfoldable pub read_width : ℕ → Memory → ℕ → ℕ → ℕ → Option (ℕ × ℕ)
read_width zero mem ch fmt precision = none
read_width (suc fuel) mem ch fmt precision =
    let value = sub32 (add32 (precision * 10) ch) b'0' in
    elim (ltb (mem fmt) b'0' || ltb b'9' (mem fmt)) [
      | true ↦ some (value, fmt)
      | false ↦ read_width fuel mem (mem fmt) (fmt + 1) value
    ]

-- What one flag character does; `none` at a conversion character. The result is the next argument,
-- the next address and the variables.
unfoldable pub flag : ℕ → Memory → Slots → ℕ → ℕ → ℕ → Spec → Option (Option (ℕ × ℕ × Spec))
flag fuel mem slots ch next fmt spec =
    if ch == b'-'
    then some (some (next, fmt, record spec { padc = b'-' }))
    else if ch == b'0'
    then some (some (next, fmt, record spec { padc = b'0' }))
    else if leb b'1' ch && leb ch b'9'
    then (do
      (value, fmt') ← read_width fuel mem ch fmt 0
      some (some (next, fmt', process_precision value spec)))
    else if ch == b'*'
    then some (some (next + 1, fmt, process_precision (u32 (slots next)) spec))
    else if ch == b'.'
    then some (some (next, fmt, if is_neg32 spec.width then record spec { width = 0 } else spec))
    else if ch == b'#'
    then some (some (next, fmt, record spec { altflag = 1 }))
    else if ch == b'l'
    then some (some (next, fmt, record spec { lflag = spec.lflag + 1 }))
    else some none

unfoldable pub reswitch : ℕ → Memory → Slots → ℕ → ℕ → Spec → Option Parsed
reswitch zero mem slots next fmt spec = none
reswitch (suc fuel) mem slots next fmt spec =
    flag fuel mem slots (mem fmt) next (fmt + 1) spec >>= λ more. elim more [
      | none ↦ some (record { ch = mem fmt; next = next; fmt = fmt + 1; spec = spec })
      | some (next', fmt', spec') ↦ reswitch fuel mem slots next' fmt' spec'
    ]

unfoldable pub parse_flags : ℕ → Memory → Slots → ℕ → ℕ → Option Parsed
parse_flags fuel mem slots next fmt = reswitch fuel mem slots next fmt initial
