-- ===== src/Print/Format/Total/Convert.antt =====
-- The conversions of vprintfmt, and what they leave of the format.
use jos.Base.{
  ℕ, zero, suc, ◌+◌, ◌-◌, ◌/◌, ◌^◌, ◌≤◌, ◌<◌, ◌≡◌, ◌≢◌, true, false, ◌||◌, Option, some, leb, ◌==◌,
  [], ◌∷◌, Bytes, codes, length, arith, Yields, Yields-bind, Yields-if, Yields-case, sub32, u64,
  is_neg64,
}
use jos.Base.Memory.{Memory, CString, memory_at}
use jos.Print.Terminal.{Terminal, Putch, emit}
use jos.Print.Num.{printnum_depth, printnum}
use jos.Print.Num.Laws.{div_small, twice, above_zero}
use jos.Print.Args.{Slots, getint, getuint}
use jos.Print.Text.{put_string, print_string}
use jos.Print.Format.Flags.{Spec, Parsed}
use jos.Print.Format.Safe.{plain, is_conversion}
use jos.Print.Format.Total.Scan.{Left, Left-weaken}
use jos.Print.Format.Total.Steps.{Reached, Reached-conversion, Reached-other}
use jos.Print.Format.{print_number, print_signed, print_text, convert, back_up}

-- A string of at most `bound` bytes stands at the address.
abbrev pub Readable : Memory → ℕ → ℕ → Type 0
Readable mem bound p = (s : Bytes) × CString mem p s × (length s ≤ bound)

null_stands : CString (memory_at 0 (codes "(null)")) 0 (codes "(null)")
null_stands = ground arith

module _ {ℓ} {S : Type ℓ} (putch : Putch S) where
  abbrev pub Done : Terminal S → Type 0
  Done t = Unit

  printnum-Yields :
      (depth num base width padc : ℕ) (t : Terminal S)
      → 2 ≤ base
      → num < 2 ^ depth
      → 0 < depth
      → Yields Done (printnum_depth putch depth num base width padc t)
  unfolding printnum_depth
  printnum-Yields zero num base width padc t two small pos = absurd (omega arith)
  printnum-Yields (suc depth) num base width padc t two small pos =
      Yields-bind Done Done _ _
        (Yields-case Done (leb base num) _ _
          (λ e.
            printnum-Yields depth (num / base) base (sub32 width 1) padc t two
              (div_small num base (2 ^ depth) two (twice num depth small))
              (above_zero depth num (ground arith) (twice num depth small)))
          (λ _. tt))
        (λ t' _. tt)

  put_string-Yields :
      (fuel : ℕ) (mem : Memory) (p width precision altflag : ℕ) (t : Terminal S) (s : Bytes)
      → CString mem p s
      → length s < fuel
      → Yields
          (λ (r : ℕ × Terminal S). Unit)
          (put_string putch mem fuel p width precision altflag t)
  unfolding put_string
  put_string-Yields zero mem p width precision altflag t s h lt = absurd (omega arith)
  put_string-Yields (suc fuel) mem p width precision altflag t [] h lt =
      let stop : ((mem p == 0) || (precision == 0)) ≡ true = ground arith in
      rw (put_string, stop) tt
  put_string-Yields (suc fuel) mem p width precision altflag t (c ∷ s) (hc, nc, h) lt =
      Yields-case (λ (r : ℕ × Terminal S). Unit) ((mem p == 0) || (precision == 0)) _ _ (λ _. tt)
        (λ _. put_string-Yields fuel mem (p + 1) _ _ altflag _ s h (omega arith))

  print_string-Yields :
      (fuel bound : ℕ) (mem : Memory) (p width precision padc altflag : ℕ) (t : Terminal S)
      → Readable mem bound p
      → bound < fuel
      → Yields Done (print_string putch mem fuel p width precision padc altflag t)
  unfolding print_string
  print_string-Yields fuel bound mem p width precision padc altflag t (s, h, small) lt =
      Yields-bind (λ (r : ℕ × Terminal S). Unit) Done _ _
        (put_string-Yields fuel mem p _ precision altflag _ s h (omega arith)) (λ r _. tt)

  module _ (mem : Memory) where
    -- What is left behind a sequence.
    abbrev pub Onward : ℕ → ℕ × ℕ × Terminal S → Type 0
    Onward n r = Left mem plain n r.1

    print_number-Yields :
        (n num base : ℕ) (spec : Spec) (next fmt : ℕ) (t : Terminal S)
        → 2 ≤ base
        → num < 2 ^ 64
        → Left mem plain n fmt
        → Yields (Onward n) (print_number putch num base spec next fmt t)
    unfolding print_number printnum
    print_number-Yields n num base spec next fmt t two small left =
        Yields-bind Done (Onward n) _ _
          (printnum-Yields 64 num base spec.width spec.padc t two small (omega arith))
          (λ t' _. left)

    print_signed-Yields :
        (n : ℕ) (slots : Slots) (base : ℕ) (spec : Spec) (next fmt : ℕ) (t : Terminal S)
        → 2 ≤ base
        → Left mem plain n fmt
        → Yields (Onward n) (print_signed putch slots base spec next fmt t)
    unfolding print_signed getint
    print_signed-Yields n slots base spec next fmt t two left =
        Yields-if (Onward n) (is_neg64 (u64 (slots next))) _ _
          (λ e. print_number-Yields n _ base spec _ fmt _ two (omega arith) left)
          (λ e. print_number-Yields n _ base spec _ fmt t two (omega arith) left)

    print_text-Yields :
        (fuel bound n : ℕ) (slots : Slots) (spec : Spec) (next fmt : ℕ) (t : Terminal S)
        → (u64 (slots next) ≢ 0 → Readable mem bound (u64 (slots next)))
        → bound < fuel
        → 6 < fuel
        → Left mem plain n fmt
        → Yields (Onward n) (print_text putch fuel mem slots spec next fmt t)
    unfolding print_text
    print_text-Yields fuel bound n slots spec next fmt t texts lt six left =
        Yields-bind Done (Onward n) _ _
          (Yields-if Done (u64 (slots next) == 0) _ _
            (λ e.
              print_string-Yields fuel 6 (memory_at 0 (codes "(null)")) 0 _ _ _ _ t
                (codes "(null)", null_stands, omega arith) six)
            (λ e. print_string-Yields fuel bound mem _ _ _ _ _ t (texts (ground arith)) lt))
          (λ t' _. left)

    pub convert-Yields :
        (fuel bound n m start : ℕ) (print : Memory → Slots → Terminal S → Option (Terminal S))
        (slots : Slots) (p : Parsed) (t : Terminal S)
        → ((i : ℕ) → u64 (slots i) ≢ 0 → Readable mem bound (u64 (slots i)))
        → bound < fuel
        → 6 < fuel
        → m ≤ n
        → Reached mem n start m p
        → Yields (Onward n) (convert putch fuel print mem slots p t)
    unfolding convert getuint
    convert-Yields fuel bound n m start print slots p t texts lt six le at =
        Yields-if (Onward n) (p.ch == b'c') _ _ (λ q. onward (ground arith))
          λ q₁.
            Yields-if (Onward n) (p.ch == b'e') _ _
              (λ q. absurd ((other (ground arith)).1 (ground arith)))
              λ q₂.
                Yields-if (Onward n) (p.ch == b's') _ _
                  (λ q.
                    print_text-Yields fuel bound n slots p.spec p.next p.fmt t (texts p.next) lt six
                      (onward (ground arith)))
                  λ q₃.
                    Yields-if (Onward n) (p.ch == b'd') _ _
                      (λ q.
                        print_signed-Yields n slots 10 p.spec p.next p.fmt t (omega arith)
                          (onward (ground arith)))
                      λ q₄.
                        Yields-if (Onward n) (p.ch == b'u') _ _
                          (λ q.
                            print_number-Yields n _ 10 p.spec _ p.fmt t (omega arith) (omega arith)
                              (onward (ground arith)))
                          λ q₅.
                            Yields-if (Onward n) (p.ch == b'o') _ _
                              (λ q.
                                print_signed-Yields n slots 8 p.spec p.next p.fmt t (omega arith)
                                  (onward (ground arith)))
                              λ q₆.
                                Yields-if (Onward n) (p.ch == b'p') _ _
                                  (λ q.
                                    print_number-Yields n _ 16 p.spec _ p.fmt _ (omega arith)
                                      (omega arith) (onward (ground arith)))
                                  λ q₇.
                                    Yields-if (Onward n) (p.ch == b'x') _ _
                                      (λ q.
                                        print_number-Yields n _ 16 p.spec _ p.fmt t (omega arith)
                                          (omega arith) (onward (ground arith)))
                                      λ q₈.
                                        Yields-if (Onward n) (p.ch == b'%')
                                          (some (p.next, p.fmt, emit putch p.ch t))
                                          (some
                                            (p.next, back_up mem (p.fmt - 1), emit putch b'%' t))
                                          (λ q. onward (ground arith))
                                          (λ q₉. (other (ground arith)).0)
      where
        onward : is_conversion p.ch ≡ true → Left mem plain n p.fmt
        onward e =
            Left-weaken mem plain (m - 1) n p.fmt (omega arith)
              (Reached-conversion mem n start m p at e)

        other :
            is_conversion p.ch ≡ false → Left mem plain n (back_up mem (p.fmt - 1)) × (p.ch ≢ b'e')
        other e = Reached-other mem n start m p at e
