-- ===== src/Print/Format/Render/Step.antt =====
-- One item of a format, printed by vprintfmt.
use jos.Base.{
  ℕ, suc, ◌+◌, ◌-◌, ◌^◌, ◌<◌, ◌≤◌, ◌≡◌, inl, inr, refl, ap, ◌∙◌, Bool, true, false, ◌==◌,
  if◌then◌else◌, Option, some, ◌>>=◌, [], ◌∷◌, ◌++◌, Bytes, length, length-append, append_assoc,
  arith, Bool-cases, u32, u64, is_neg64, neg64,
}
use jos.Base.Memory.{Memory, CString}
use jos.Print.Terminal.{Terminal, Putch, emit}
use jos.Print.Args.{Slots, getint, getuint}
use jos.Print.Num.Laws.{IsWidth, room_of, printnum_lem}
use jos.Print.Format.Safe.{is_flag}
use jos.Print.Format.Plain.{emit_all, print_string_plain}
use jos.Print.Format.{directive, convert, print_number, print_signed, print_text}
use jos.Print.Format.Render.Width.{IsWidthText, width_of, shape_text, shape, parse_flags_lem}
use jos.Print.Format.Render.Items.{
  Radix, signed_decimal, signed_octal, unsigned_decimal, hexadecimal, letter, base, Item, percent,
  character, string, number, source, arguments, Passed, PrintsNumber, Prints,
}

width_of-IsWidth : (w : Bytes) → IsWidthText w → IsWidth 64 (width_of w)
width_of-IsWidth [] h = inr (omega arith)
width_of-IsWidth (d ∷ ds) (low, high, digits, small) = inl small

module _ {ℓ} {S : Type ℓ} (putch : Putch S) where
  -- A number printed with the flags of an item.
  print_number_lem :
      (n base : ℕ) (zeros : Bool) (w : Bytes) (next fmt : ℕ) (t : Terminal S)
      → 2 ≤ base
      → n < 2 ^ 64
      → IsWidthText w
      → (t' : Terminal S) × (print_number putch n base (shape zeros w) next fmt t
          ≡ some (next, fmt, t'))
        × PrintsNumber putch base n (if zeros then b'0' else b' ') (room_of (width_of w)) t t'
  unfolding print_number
  print_number_lem n base true w next fmt t two small width =
      let (ds, value, digits, pos, short, run) =
        printnum_lem putch n base (width_of w) b'0' t two small (width_of-IsWidth w width) in
      (_, rw (run, ◌>>=◌) refl, (ds, value, digits, pos, short, refl))
  print_number_lem n base false w next fmt t two small width =
      let (ds, value, digits, pos, short, run) =
        printnum_lem putch n base (width_of w) b' ' t two small (width_of-IsWidth w width) in
      (_, rw (run, ◌>>=◌) refl, (ds, value, digits, pos, short, refl))

  print_signed_lem :
      (slots : Slots) (n base : ℕ) (zeros : Bool) (w : Bytes) (next fmt : ℕ) (t : Terminal S)
      → 2 ≤ base
      → u64 (slots next) ≡ n
      → IsWidthText w
      → (t' : Terminal S) × (print_signed putch slots base (shape zeros w) next fmt t
          ≡ some (next + 1, fmt, t'))
        × (if is_neg64 n
            then PrintsNumber putch base
                (2 ^ 64 - n)
                (if zeros then b'0' else b' ')
                (room_of (width_of w))
                (emit putch b'-' t)
                t'
            else PrintsNumber putch base n
                (if zeros then b'0' else b' ')
                (room_of (width_of w))
                t
                t')
  unfolding print_signed getint
  print_signed_lem slots n base zeros w next fmt t two passed width =
      elim (Bool-cases (is_neg64 n)) [
        | inl e ↦
            let minus : neg64 n ≡ 2 ^ 64 - n = ground arith in
            let (t', run, prints) =
              print_number_lem (2 ^ 64 - n) base zeros w (next + 1) fmt (emit putch b'-' t) two
                (ground arith) width in
            (t', rw (passed, e, minus) run, rw e prints)
        | inr e ↦
            let (t', run, prints) =
              print_number_lem n base zeros w (next + 1) fmt t two (ground arith) width in
            (t', rw (passed, e) run, rw e prints)
      ]

  module _ (fuel : ℕ) (print : Memory → Slots → Terminal S → Option (Terminal S)) (mem : Memory)
      (slots : Slots) where
    -- The conversion of a number behind its flags.
    convert-number :
        (r : Radix) (n : ℕ) (zeros : Bool) (w : Bytes) (next fmt : ℕ) (t : Terminal S)
        → u64 (slots next) ≡ n
        → IsWidthText w
        → (t' : Terminal S) × (convert putch fuel print mem slots
              (record { ch = letter r; next = next; fmt = fmt; spec = shape zeros w })
              t
            ≡ some (next + 1, fmt, t'))
          × Prints putch (number zeros w r n) t t'
    unfolding convert getuint
    convert-number signed_decimal n zeros w next fmt t passed width =
        print_signed_lem slots n 10 zeros w next fmt t (omega arith) passed width
    convert-number signed_octal n zeros w next fmt t passed width =
        print_signed_lem slots n 8 zeros w next fmt t (omega arith) passed width
    convert-number unsigned_decimal n zeros w next fmt t passed width =
        let (t', run, prints) =
          print_number_lem n 10 zeros w (next + 1) fmt t (omega arith) (omega (arith, passed))
            width in
        (
          t',
          ap (λ x. print_number putch x 10 (shape zeros w) (next + 1) fmt t) passed ∙ run,
          prints,
        )
    convert-number hexadecimal n zeros w next fmt t passed width =
        let (t', run, prints) =
          print_number_lem n 16 zeros w (next + 1) fmt t (omega arith) (omega (arith, passed))
            width in
        (
          t',
          ap (λ x. print_number putch x 16 (shape zeros w) (next + 1) fmt t) passed ∙ run,
          prints,
        )

    letter-IsLetter : (r : Radix) → is_flag (letter r) ≡ false
    letter-IsLetter signed_decimal = refl
    letter-IsLetter signed_octal = refl
    letter-IsLetter unsigned_decimal = refl
    letter-IsLetter hexadecimal = refl

    -- What a sequence does.
    unfoldable pub Converts : Item → ℕ → ℕ → Terminal S → Type ℓ
    Converts i next fmt t =
        (t' : Terminal S) × (directive putch fuel print mem slots next (fmt + 1) t
          ≡ some (next + arguments i, fmt + length (source i), t'))
        × Prints putch i t t'

    pub directive_number :
        (zeros : Bool) (w : Bytes) (r : Radix) (n bound next fmt : ℕ) (rest : Bytes)
        (t : Terminal S)
        → CString mem fmt (source (number zeros w r n) ++ rest)
        → Passed mem slots bound next (number zeros w r n)
        → length w + 2 < fuel
        → Converts (number zeros w r n) next fmt t
    unfolding directive Converts
    directive_number zeros w r n bound next fmt rest t (hp, np, h) (passed, width) lt =
        let text = shape_text zeros w in
        let h' : CString mem (fmt + 1) (text ++ (letter r ∷ rest)) =
          (rw (append_assoc text (letter r ∷ []) rest) at h) in
        let run =
          parse_flags_lem zeros w fuel mem slots next (fmt + 1) (letter r) rest h' width
            (letter-IsLetter r) lt in
        let (t', done, prints) =
          convert-number r n zeros w next (fmt + 1 + length text + 1) t passed width in
        let place : fmt + 1 + length text + 1 ≡ fmt + suc (length (text ++ (letter r ∷ []))) =
          omega (arith, length-append text (letter r ∷ [])) in
        (
          t',
          ap (λ o. o >>= λ parsed. convert putch fuel print mem slots parsed t) run
              ∙ (done ∙ ap (λ f. some (next + 1, f, t')) place),
          prints,
        )

    pub directive_percent :
        (next fmt : ℕ) (rest : Bytes) (t : Terminal S)
        → CString mem fmt (source percent ++ rest)
        → 2 < fuel
        → Converts percent next fmt t
    unfolding directive Converts convert
    directive_percent next fmt rest t (hp, np, h) lt =
        let run = parse_flags_lem false [] fuel mem slots next (fmt + 1) b'%' rest h tt refl lt in
        let place : fmt + 1 + 0 + 1 ≡ fmt + 2 = omega arith in
        (
          emit putch b'%' t,
          ap (λ o. o >>= λ parsed. convert putch fuel print mem slots parsed t) run
              ∙ (let next_too : next + 0 ≡ next = omega arith in rw (place, next_too) refl),
          refl,
        )

    pub directive_character :
        (n next fmt : ℕ) (rest : Bytes) (t : Terminal S)
        → CString mem fmt (source (character n) ++ rest)
        → u32 (slots next) ≡ n
        → 2 < fuel
        → Converts (character n) next fmt t
    unfolding directive Converts convert
    directive_character n next fmt rest t (hp, np, h) passed lt =
        let run = parse_flags_lem false [] fuel mem slots next (fmt + 1) b'c' rest h tt refl lt in
        let place : fmt + 1 + 0 + 1 ≡ fmt + 2 = omega arith in
        (
          emit putch n t,
          ap (λ o. o >>= λ parsed. convert putch fuel print mem slots parsed t) run
              ∙ (ap (λ x. some (next + 1, fmt + 1 + 0 + 1, emit putch x t)) passed
                  ∙ ap (λ f. some (next + 1, f, emit putch n t)) place),
          refl,
        )

    pub directive_string :
        (p : ℕ) (s : Bytes) (bound next fmt : ℕ) (rest : Bytes) (t : Terminal S)
        → CString mem fmt (source (string p s) ++ rest)
        → Passed mem slots bound next (string p s)
        → bound + 2 < fuel
        → bound < 2 ^ 31
        → Converts (string p s) next fmt t
    unfolding directive Converts convert print_text
    directive_string p s bound next fmt rest t (hp, np, h) (passed, nz, stand, ascii, short) lt
          small =
        let run =
          parse_flags_lem false [] fuel mem slots next (fmt + 1) b's' rest h tt refl
            (omega arith) in
        let place : fmt + 1 + 0 + 1 ≡ fmt + 2 = omega arith in
        let there : (p == 0) ≡ false = ground arith in
        let printed =
          print_string_plain putch s fuel mem p t stand ascii (omega arith) (omega arith) in
        (
          emit_all putch s t,
          ap (λ o. o >>= λ parsed. convert putch fuel print mem slots parsed t) run
              ∙ (rw (passed, there, printed, ◌>>=◌, place) refl),
          refl,
        )
