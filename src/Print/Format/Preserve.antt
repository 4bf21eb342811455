-- ===== src/Print/Format/Preserve.antt =====
-- What every call of `putch` keeps, a whole formatted print keeps, whatever the format and the
-- arguments are.
use jos.Base.{
  sign_extend32, ℕ, zero, suc, ◌+◌, ◌-◌, ◌/◌, ◌≡◌, Bool, true, false, ◌&&◌, ◌||◌, not, Bytes,
  Option, none, some, ◌==◌, if◌then◌else◌, Ensures, Ensures-bind, Ensures-if, Ensures-case,
  Ensures-some, sub32, u64, u32, leb, is_neg32, is_neg64, neg32, slt32,
}
use jos.Base.Memory.{Memory}
use jos.Print.Terminal.{Terminal, Putch, emit, emit_times}
use jos.Print.Num.{printnum_depth, printnum, pad_rounds}
use jos.Print.Args.{Slots, getint}
use jos.Print.Color.{read_number, read_colors, escape_sequence}
use jos.Print.Text.{put_string, print_string, positive_part}
use jos.Strings.Length.{strnlen}
use jos.Print.Format.Flags.{Spec, Parsed, parse_flags}
use jos.Print.Format.{
  print_number, print_signed, print_error, print_text, convert, directive, vprintfmt, Next, back_up,
  error_string, max_error, error_memory, text_memory,
}

any {ℓ} : {A : Type ℓ} (m : Option A) → Ensures (λ _. Unit {0}) m
any none = tt
any (some a) = tt

module _ {ℓ κ} {S : Type ℓ} (putch : Putch S) (P : S → Type κ)
    (keep : (flag parsing ch : ℕ) (s : S) → P s → P (putch flag parsing ch s)) where
  emit_times_keep : (n ch : ℕ) (t : Terminal S) → P t.sink → P (emit_times putch n ch t).sink
  unfolding emit emit_times
  emit_times_keep zero ch t h = h
  emit_times_keep (suc n) ch t h = emit_times_keep n ch (emit putch ch t) (keep _ _ _ _ h)

  emit_keep : (ch : ℕ) (t : Terminal S) → P t.sink → P (emit putch ch t).sink
  unfolding emit
  emit_keep ch t h = keep _ _ _ _ h

  Kept : Terminal S → Type κ
  Kept t = P t.sink

  printnum_keep :
      (depth num base width padc : ℕ) (t : Terminal S)
      → P t.sink
      → Ensures Kept (printnum_depth putch depth num base width padc t)
  unfolding printnum_depth Kept
  printnum_keep zero num base width padc t h = tt
  printnum_keep (suc depth) num base width padc t h =
      Ensures-bind Kept Kept _ _
        (Ensures-case Kept (leb base num) _ _
          (printnum_keep depth (num / base) base (sub32 width 1) padc t h)
          (emit_times_keep (pad_rounds width) padc t h))
        (λ t' h'. emit_keep _ t' h')

  put_string_keep :
      (fuel : ℕ) (mem : Memory) (p width precision altflag : ℕ) (t : Terminal S)
      → P t.sink
      → Ensures (λ r. P r.1.sink) (put_string putch mem fuel p width precision altflag t)
  unfolding put_string
  put_string_keep zero mem p width precision altflag t h = tt
  put_string_keep (suc fuel) mem p width precision altflag t h =
      Ensures-case (λ r. P r.1.sink) ((mem p == 0) || (precision == 0)) _ _ h
        (put_string_keep fuel mem (p + 1) (sub32 width 1)
          (if is_neg32 precision then precision else precision - 1) altflag _ (emit_keep _ t h))

  print_string_keep :
      (fuel : ℕ) (mem : Memory) (p width precision padc altflag : ℕ) (t : Terminal S)
      → P t.sink
      → Ensures Kept (print_string putch mem fuel p width precision padc altflag t)
  unfolding print_string Kept
  print_string_keep fuel mem p width precision padc altflag t h =
      Ensures-bind (λ r. P r.1.sink) Kept _ _
        (put_string_keep fuel mem p _ precision altflag _
          (padded (slt32 0 width && not (padc == b'-'))))
        (λ r h'. emit_times_keep _ b' ' r.1 h')
    where
      padded :
          (b : Bool)
          → P
              (if b
                then emit_times putch
                    (positive_part (sub32 width (strnlen mem p (sign_extend32 precision))))
                    padc
                    t
                else t).sink
      padded true = emit_times_keep _ padc t h
      padded false = h

  read_number_keep :
      (fuel : ℕ) (mem : Memory) (fmt esc : ℕ) (t : Terminal S)
      → P t.sink
      → Ensures (λ r. P r.2.sink) (read_number putch mem fuel fmt esc t)
  unfolding read_number
  read_number_keep zero mem fmt esc t h = tt
  read_number_keep (suc fuel) mem fmt esc t h =
      Ensures-case (λ r. P r.2.sink) ((mem fmt == b';') || (mem fmt == b'm')) _ _ h
        (read_number_keep fuel mem (fmt + 1) _ _ (emit_keep _ t h))

  read_colors_keep :
      (fuel : ℕ) (mem : Memory) (fmt : ℕ) (t : Terminal S)
      → P t.sink
      → Ensures (λ r. P r.1.sink) (read_colors putch mem fuel fmt t)
  unfolding read_colors
  read_colors_keep zero mem fmt t h = tt
  read_colors_keep (suc fuel) mem fmt t h =
      Ensures-bind (λ r. P r.2.sink) (λ r. P r.1.sink) _ _
        (read_number_keep fuel mem (fmt + 1) 0 t h)
        λ r h'.
          Ensures-case (λ r. P r.1.sink) (mem r.1 == b'm') _ _ (emit_keep _ _ h')
            (read_colors_keep fuel mem r.1 _ (emit_keep _ _ h'))

  escape_sequence_keep :
      (fuel : ℕ) (mem : Memory) (fmt : ℕ) (t : Terminal S)
      → P t.sink
      → Ensures (λ r. P r.1.sink) (escape_sequence putch mem fuel fmt t)
  unfolding escape_sequence
  escape_sequence_keep fuel mem fmt t h =
      Ensures-bind (λ r. P r.1.sink) (λ r. P r.1.sink) _ _
        (read_colors_keep fuel mem fmt _ (emit_keep _ _ (emit_keep _ _ h))) (λ r h'. h')

  KeptNext : ℕ × ℕ × Terminal S → Type κ
  KeptNext r = P r.2.sink

  print_number_keep :
      (num base : ℕ) (spec : Spec) (next fmt : ℕ) (t : Terminal S)
      → P t.sink
      → Ensures KeptNext (print_number putch num base spec next fmt t)
  unfolding print_number printnum Kept KeptNext
  print_number_keep num base spec next fmt t h =
      Ensures-bind Kept KeptNext _ _ (printnum_keep 64 num base spec.width spec.padc t h)
        (λ t' h'. h')

  print_signed_keep :
      (slots : Slots) (base : ℕ) (spec : Spec) (next fmt : ℕ) (t : Terminal S)
      → P t.sink
      → Ensures KeptNext (print_signed putch slots base spec next fmt t)
  unfolding print_signed
  print_signed_keep slots base spec next fmt t h =
      Ensures-if KeptNext (is_neg64 (getint slots next 3).0) _ _
        (print_number_keep _ base spec _ fmt _ (emit_keep b'-' t h))
        (print_number_keep _ base spec _ fmt t h)

  print_text_keep :
      (fuel : ℕ) (mem : Memory) (slots : Slots) (spec : Spec) (next fmt : ℕ) (t : Terminal S)
      → P t.sink
      → Ensures KeptNext (print_text putch fuel mem slots spec next fmt t)
  unfolding print_text Kept KeptNext
  print_text_keep fuel mem slots spec next fmt t h =
      Ensures-bind Kept KeptNext _ _
        (Ensures-if Kept (u64 (slots next) == 0) _ _ (print_string_keep fuel _ 0 _ _ _ _ t h)
          (print_string_keep fuel mem _ _ _ _ _ t h))
        (λ t' h'. h')

  module _ (print : Memory → Slots → Terminal S → Option (Terminal S))
      (print_keep : (mem : Memory) (slots : Slots) (t : Terminal S)
        → P t.sink
        → Ensures Kept (print mem slots t)) where
    print_error_keep :
        (slots : Slots) (next fmt : ℕ) (t : Terminal S)
        → P t.sink
        → Ensures KeptNext (print_error putch print slots next fmt t)
    unfolding print_error Kept KeptNext
    print_error_keep slots next fmt t h = Ensures-if KeptNext (is_neg32 err) none _ tt (
        Ensures-bind Kept KeptNext _ _
          (Ensures-if Kept (leb max_error err) _ _ (print_keep error_memory (λ _. err) t h)
            (known (error_string err)))
          (λ t' h'. h'))
      where
        err : ℕ
        err = if is_neg32 (u32 (slots next)) then neg32 (u32 (slots next)) else u32 (slots next)

        known :
            (o : Option Bytes)
            → Ensures Kept (elim o [
              | none ↦ print error_memory (λ _. err) t
              | some text ↦ print (text_memory text) (λ _. 3) t
            ])
        known none = print_keep error_memory (λ _. err) t h
        known (some text) = print_keep (text_memory text) (λ _. 3) t h

    convert_keep :
        (fuel : ℕ) (mem : Memory) (slots : Slots) (parsed : Parsed) (t : Terminal S)
        → P t.sink
        → Ensures KeptNext (convert putch fuel print mem slots parsed t)
    unfolding convert KeptNext
    convert_keep fuel mem slots parsed t h = branch b'c' _ _ (emit_keep _ t h) (
        branch b'e' _ _ (print_error_keep slots next fmt t h) (
          branch b's' _ _ (print_text_keep fuel mem slots spec next fmt t h) (
            branch b'd' _ _ (print_signed_keep slots 10 spec next fmt t h) (
              branch b'u' _ _ (print_number_keep _ 10 spec _ fmt t h) (
                branch b'o' _ _ (print_signed_keep slots 8 spec next fmt t h) (
                  branch b'p' _ _
                    (print_number_keep _ 16 spec _ fmt _ (emit_keep _ _ (emit_keep _ t h)))
                    (branch b'x' _ _ (print_number_keep _ 16 spec _ fmt t h) (
                      branch b'%' (some (next, fmt, emit putch ch t))
                        (some (next, back_up mem (fmt - 1), emit putch b'%' t)) (emit_keep ch t h)
                        (emit_keep b'%' t h)))))))))
      where
        open parsed use {ch, next, fmt, spec}

        branch :
            (c : ℕ) (m n : Next S)
            → Ensures KeptNext m
            → Ensures KeptNext n
            → Ensures KeptNext (if ch == c then m else n)
        branch c m n h k = Ensures-if KeptNext (ch == c) m n h k

    directive_keep :
        (fuel : ℕ) (mem : Memory) (slots : Slots) (next fmt : ℕ) (t : Terminal S)
        → P t.sink
        → Ensures KeptNext (directive putch fuel print mem slots next fmt t)
    unfolding directive
    directive_keep fuel mem slots next fmt t h =
        Ensures-bind (λ _. Unit {0}) KeptNext (parse_flags fuel mem slots next fmt) _ (any _)
          (λ parsed _. convert_keep fuel mem slots parsed t h)

  vprintfmt_keep :
      (fuel : ℕ) (mem : Memory) (slots : Slots) (next fmt : ℕ) (t : Terminal S)
      → P t.sink
      → Ensures Kept (vprintfmt putch fuel mem slots next fmt t)
  unfolding vprintfmt Kept KeptNext
  vprintfmt_keep zero mem slots next fmt t h = tt
  vprintfmt_keep (suc fuel) mem slots next fmt t h =
      Ensures-case Kept (mem fmt == b'%') _ _
        (Ensures-bind KeptNext Kept _ _
          (directive_keep (λ mem' slots' t'. vprintfmt putch fuel mem' slots' 0 0 t')
            (λ mem' slots' t' h'. vprintfmt_keep fuel mem' slots' 0 0 t' h') fuel mem slots next
            (fmt + 1) t h)
          (λ r h'. vprintfmt_keep fuel mem slots r.0 r.1 r.2 h'))
        (Ensures-case Kept (mem fmt == 27) _ _
          (Ensures-bind (λ r. P r.1.sink) Kept _ _ (escape_sequence_keep fuel mem (fmt + 1) t h)
            (λ r h'. vprintfmt_keep fuel mem slots next r.0 r.1 h'))
          (Ensures-case Kept (mem fmt == 0) _ _ h
            (vprintfmt_keep fuel mem slots next (fmt + 1) _ (emit_keep _ t h))))

  -- What every call of `putch` keeps holds of the sink after any formatted print that returns.
  pub vprintfmt-keeps :
      (fuel : ℕ) (mem : Memory) (slots : Slots) (next fmt : ℕ) (t : Terminal S) {t' : Terminal S}
      → P t.sink
      → vprintfmt putch fuel mem slots next fmt t ≡ some t'
      → P t'.sink
  unfolding Kept
  vprintfmt-keeps fuel mem slots next fmt t h e =
      Ensures-some Kept _ (vprintfmt_keep fuel mem slots next fmt t h) e
