-- ===== src/Print/Format/Total.antt =====
-- The run of vprintfmt on a format that the automaton of Safe accepts.
pub mod Scan
pub mod Behind
pub mod Steps
pub mod Convert
use jos.Base.{
  ℕ, zero, suc, ◌+◌, ◌-◌, ◌*◌, ◌/◌, ◌^◌, ◌≤◌, ◌<◌, ◌≡◌, ◌≢◌, refl, sym, ap, ◌∙◌, Bool, true, false,
  ◌&&◌, ◌||◌, Option, none, some, ◌>>=◌, ltb, leb, ◌==◌, if◌then◌else◌, [], ◌∷◌, Bytes, codes,
  length, arith, Bool-cases, inl, inr, Yields, Yields-bind, Yields-if, Yields-case, Yields-some,
  add32, sub32, u32, u64, is_neg32, is_neg64, neg64,
}
use jos.Base.Memory.{Memory, CString, memory_at}
use jos.Print.Terminal.{Terminal, Putch, emit, emit_times}
use jos.Print.Num.{printnum_depth, printnum}
use jos.Print.Num.Laws.{div_small, twice, above_zero}
use jos.Print.Args.{Slots, getint, getuint}
use jos.Print.Text.{put_string, print_string}
use jos.Print.Color.{escape_sequence}
use jos.Print.Format.Flags.{Spec, Parsed, parse_flags}
use jos.Print.Format.Safe.{Mode, plain, sequence, escape, is_conversion, safe, advance}
use jos.Print.Format.Total.Scan.{Left, Left-weaken, Left-advance, escape_sequence-Yields, Ended}
use jos.Print.Format.Total.Behind.{Behind-start}
use jos.Print.Format.Total.Steps.{Reached, Reached-conversion, Reached-other, parse_flags-Yields}
use jos.Print.Format.{
  print_number, print_signed, print_error, print_text, convert, directive, vprintfmt, Next, back_up,
}
use jos.Print.Format.Total.Convert.{Readable, Done, Onward, convert-Yields}

module _ {ℓ} {S : Type ℓ} (putch : Putch S) where
  module _ (mem : Memory) where
    -- Behind the '%'.
    directive-Yields :
        (fuel bound n : ℕ) (print : Memory → Slots → Terminal S → Option (Terminal S))
        (slots : Slots) (next fmt : ℕ) (t : Terminal S)
        → ((i : ℕ) → u64 (slots i) ≢ 0 → Readable mem bound (u64 (slots i)))
        → bound < fuel
        → 6 < fuel
        → n < fuel
        → mem fmt ≡ b'%'
        → Left mem sequence n (fmt + 1)
        → Yields (Onward putch mem n) (directive putch fuel print mem slots next (fmt + 1) t)
    unfolding directive
    directive-Yields fuel bound n print slots next fmt t texts lt six long at left =
        Yields-bind (Reached mem n (fmt + 1) n) (Onward putch mem n) _ _
          (parse_flags-Yields mem n (fmt + 1) fuel n (fmt + 1) next slots
            (Behind-start mem n fmt at left) long)
          (λ p reached.
            convert-Yields putch mem fuel bound n n (fmt + 1) print slots p t texts lt six
              (omega arith) reached)

    vprintfmt-Yields :
        (fuel bound n : ℕ) (slots : Slots) (next fmt : ℕ) (t : Terminal S)
        → ((i : ℕ) → u64 (slots i) ≢ 0 → Readable mem bound (u64 (slots i)))
        → n + bound + 6 < fuel
        → Left mem plain n fmt
        → Yields (Done putch) (vprintfmt putch fuel mem slots next fmt t)
    unfolding vprintfmt advance
    vprintfmt-Yields zero bound n slots next fmt t texts lt left = absurd (omega arith)
    vprintfmt-Yields (suc fuel) bound n slots next fmt t texts lt left =
        Yields-case (Done putch) (mem fmt == b'%') _ _
          (λ q.
            let (pos, on) =
              Left-advance mem plain sequence n fmt left (ground arith) (ground arith) in
            Yields-bind (Onward putch mem (n - 1)) (Done putch) _ _
              (directive-Yields fuel bound (n - 1) _ slots next fmt t texts (omega arith)
                (omega arith) (omega arith) (ground arith) on)
              (λ r here.
                vprintfmt-Yields fuel bound (n - 1) slots r.0 r.1 r.2 texts (omega arith) here))
          λ q.
            Yields-case (Done putch) (mem fmt == 27) _ _
              (λ q₁.
                let (pos, on) =
                  Left-advance mem plain escape n fmt left (ground arith) (ground arith) in
                Yields-bind (Ended mem putch (n - 1)) (Done putch) _ _
                  (escape_sequence-Yields mem putch fuel (n - 1) (fmt + 1) t on (omega arith))
                  (λ r here.
                    vprintfmt-Yields fuel bound (n - 1) slots next r.0 r.1 texts (omega arith)
                      here))
              λ q₁.
                Yields-case (Done putch) (mem fmt == 0) _ _ (λ _. tt)
                  (λ q₂.
                    let (pos, on) =
                      Left-advance mem plain plain n fmt left (ground arith) (ground arith) in
                    vprintfmt-Yields fuel bound (n - 1) slots next (fmt + 1) _ texts (omega arith)
                      on)

  -- A format that has no `%e`, and no colour sequence that it does not end, is read to its end, with any
  -- flags, widths, precisions and unknown conversions: vprintfmt returns. The arguments, where they are
  -- not 0, are addresses of strings of at most `bound` bytes, and the fuel is above the lengths of the
  -- format and of these strings and 6, the length of "(null)".
  pub vprintfmt_returns :
      (fuel bound : ℕ) (mem : Memory) (slots : Slots) (next fmt : ℕ) (cs : Bytes) (t : Terminal S)
      → CString mem fmt cs
      → safe plain cs ≡ true
      → ((i : ℕ) → u64 (slots i) ≢ 0 → Readable mem bound (u64 (slots i)))
      → length cs + bound + 6 < fuel
      → (t' : Terminal S) × (vprintfmt putch fuel mem slots next fmt t ≡ some t')
  unfolding Left
  vprintfmt_returns fuel bound mem slots next fmt cs t h ok texts lt =
      let (t', run, done) = Yields-some (Done putch) _ (
        vprintfmt-Yields mem fuel bound (length cs) slots next fmt t texts lt
          (cs, h, ok, omega arith)) in
      (t', run)
