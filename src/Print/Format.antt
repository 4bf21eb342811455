-- ===== src/Print/Format.antt =====
-- lib/printfmt.c: vprintfmt and printfmt. The format and the string arguments stand in a memory
-- that `putch` does not change. The loops take fuel: `none` means that the fuel ran out, or that
-- `%e` met an error number outside its table.
pub mod Flags
pub mod Preserve
pub mod Plain
pub mod Safe
pub mod Total
pub mod Render
use jos.Base.{
  ℕ, zero, suc, ◌+◌, ◌-◌, ◌*◌, ◌^◌, true, false, ◌&&◌, ◌||◌, Option, none, some, ◌>>=◌, ltb, leb,
  ◌==◌, ◌++◌, [], ◌∷◌, if◌then◌else◌, Bytes, codes, get_or, u32, u64, is_neg32, is_neg64, neg32,
  neg64,
}
use jos.Base.Memory.{Memory, memory_at}
use jos.Print.Terminal.{Terminal, Putch, emit}
use jos.Print.Num.{printnum}
use jos.Print.Args.{Slots, getint, getuint}
use jos.Print.Color.{escape_sequence}
use jos.Print.Text.{print_string}
use jos.Print.Format.Flags.{Spec, Parsed, parse_flags}

-- inc/error.h and the table `error_string`: 0 and E_NO_SYS have no text.
abbrev pub max_error : ℕ
max_error = 8

unfoldable pub error_string : ℕ → Option Bytes
error_string err =
    if err == 1
    then some (codes "unspecified error")
    else if err == 2
    then some (codes "bad environment")
    else if err == 3
    then some (codes "invalid parameter")
    else if err == 4
    then some (codes "out of memory")
    else if err == 5
    then some (codes "out of environments")
    else if err == 6
    then some (codes "segmentation fault")
    else none

-- Where a run goes on: the next argument, the next byte of the format, and the terminal.
abbrev pub Next {ℓ} : Type ℓ → Type ℓ
Next S = Option (ℕ × ℕ × Terminal S)

-- `for (fmt--; fmt[-1] != '%'; fmt--)`, from the address of the byte that was refused.
unfoldable pub back_up : Memory → ℕ → ℕ
back_up mem zero = zero
back_up mem (suc k) = elim (mem k == b'%') [ true ↦ suc k | false ↦ back_up mem k ]

-- The texts that `%e` prints through printfmt, laid out as a memory: a format at 0 and, for "%s",
-- its argument at 3.
abbrev pub error_memory : Memory
error_memory = memory_at 0 (codes "error %d")

abbrev pub text_memory : Bytes → Memory
text_memory text = memory_at 0 (codes "%s" ++ (0 ∷ text))

module _ {ℓ} {S : Type ℓ} (putch : Putch S) where
  -- `number:` at the end of the numeric conversions.
  unfoldable pub print_number : ℕ → ℕ → Spec → ℕ → ℕ → Terminal S → Next S
  print_number num base spec next fmt t = do
    t' ← printnum putch num base spec.width spec.padc t
    some (next, fmt, t')

  -- `%d`, and `%o`, which reads a signed number too.
  unfoldable pub print_signed : Slots → ℕ → Spec → ℕ → ℕ → Terminal S → Next S
  print_signed slots base spec next fmt t =
      let (num, next') = getint slots next 3 in
      if is_neg64 num
      then print_number (neg64 num) base spec next' fmt (emit putch b'-' t)
      else print_number num base spec next' fmt t

  -- `%e`: `print` is printfmt, with a memory and the slots of its arguments.
  unfoldable pub print_error :
      (Memory → Slots → Terminal S → Option (Terminal S)) → Slots → ℕ → ℕ → Terminal S → Next S
  print_error print slots next fmt t =
      let arg = u32 (slots next) in
      let err = if is_neg32 arg then neg32 arg else arg in
      if is_neg32 err then none else (do
        t' ←
            if leb max_error err then print error_memory (λ _. err) t else elim (error_string err) [
              | none ↦ print error_memory (λ _. err) t
              | some text ↦ print (text_memory text) (λ _. 3) t
            ]
        some (next + 1, fmt, t'))

  -- `%s`: NULL is printed as "(null)".
  unfoldable pub print_text : ℕ → Memory → Slots → Spec → ℕ → ℕ → Terminal S → Next S
  print_text fuel mem slots spec next fmt t =
      let p = u64 (slots next) in
      do
        t' ←
            if p == 0
            then print_string putch (memory_at 0 (codes "(null)")) fuel 0 spec.width spec.precision
                spec.padc spec.altflag t
            else print_string putch mem fuel p spec.width spec.precision spec.padc spec.altflag t
        some (next + 1, fmt, t')

  -- The conversion characters of the `switch`; `fmt` is the address behind the character.
  unfoldable pub convert :
      ℕ
      → (Memory → Slots → Terminal S → Option (Terminal S))
      → Memory
      → Slots
      → Parsed
      → Terminal S
      → Next S
  convert fuel print mem slots parsed t =
      if ch == b'c'
      then some (next + 1, fmt, emit putch (u32 (slots next)) t)
      else if ch == b'e'
      then print_error print slots next fmt t
      else if ch == b's'
      then print_text fuel mem slots spec next fmt t
      else if ch == b'd'
      then print_signed slots 10 spec next fmt t
      else if ch == b'u'
      then (let (num, next') = getuint slots next 3 in print_number num 10 spec next' fmt t)
      else if ch == b'o'
      then print_signed slots 8 spec next fmt t
      else if ch == b'p'
      then print_number (u64 (slots next)) 16 spec (next + 1) fmt
          (emit putch b'x' (emit putch b'0' t))
      else if ch == b'x'
      then (let (num, next') = getuint slots next 3 in print_number num 16 spec next' fmt t)
      else if ch == b'%'
      then some (next, fmt, emit putch ch t)
      else some (next, back_up mem (fmt - 1), emit putch b'%' t)
    where
      open parsed use {ch, next, fmt, spec}

  -- One round of the outer loop behind a '%'.
  unfoldable pub directive :
      ℕ
      → (Memory → Slots → Terminal S → Option (Terminal S))
      → Memory
      → Slots
      → ℕ
      → ℕ
      → Terminal S
      → Next S
  directive fuel print mem slots next fmt t = do
    parsed ← parse_flags fuel mem slots next fmt
    convert fuel print mem slots parsed t

  -- `while (1)`; the inner loop over plain characters is the last case.
  unfoldable pub vprintfmt : ℕ → Memory → Slots → ℕ → ℕ → Terminal S → Option (Terminal S)
  vprintfmt zero mem slots next fmt t = none
  vprintfmt (suc fuel) mem slots next fmt t = elim (mem fmt == b'%') [
    | true ↦
        directive fuel (λ mem' slots' t'. vprintfmt fuel mem' slots' 0 0 t') mem slots next
          (fmt + 1) t
        >>= λ (next', fmt', t'). vprintfmt fuel mem slots next' fmt' t'
    | false ↦ elim (mem fmt == 27) [
      | true ↦ escape_sequence putch mem fuel (fmt + 1) t >>= λ (fmt', t').
          vprintfmt fuel mem slots next fmt' t'
      | false ↦ elim (mem fmt == 0) [
        | true ↦ some t
        | false ↦ vprintfmt fuel mem slots next (fmt + 1) (emit putch (mem fmt) t)
      ]
    ]
  ]

  -- printfmt takes its arguments as the slots from 0 on.
  unfoldable pub printfmt : ℕ → Memory → Slots → ℕ → Terminal S → Option (Terminal S)
  printfmt fuel mem slots fmt t = vprintfmt fuel mem slots 0 fmt t
