-- ===== src/Print/Num/Roundtrip.antt =====
-- printnum of lib/printfmt.c and strtol of lib/string.c: what one prints the other reads.
use jos.Base.{
  ℕ, zero, suc, ◌+◌, ◌-◌, ◌*◌, ◌^◌, ◌<◌, ◌≤◌, ◌≡◌, inl, refl, ◌∙◌, sym, ap, arith, some, get_or,
  codes, List, [], ◌∷◌, ◌++◌, map, append-nil, append_assoc, length, length-append, All, Bytes,
}
use mathlib.Core.Option.{some-injective}
use jos.Base.Memory.{Memory, CString}
use jos.Print.Terminal.{Terminal, emit, emit_times}
use jos.Print.Num.{digit_char, printnum}
use jos.Print.Num.Laws.{positional, emit_digits, IsWidth, room_of, printnum_lem}
use jos.Strings.Number.{digit_of, strtol}
use jos.Strings.Number.Laws.{value_of, IsDigitOf, IsBlank, unsigned, strtol_lem}

-- A `putch` that appends the character to what was printed.
abbrev pub append_char : ℕ → ℕ → ℕ → Bytes → Bytes
append_char color parsing ch text = text ++ (ch ∷ [])

abbrev pub blank_page : Terminal Bytes
blank_page = record { color_flag = 7; color_parsing = 0; sink = [] }

blanks : ℕ → Bytes
blanks zero = []
blanks (suc n) = b' ' ∷ blanks n

blanks-IsBlank : (n : ℕ) → All IsBlank (blanks n)
unfolding blanks
blanks-IsBlank zero = tt
blanks-IsBlank (suc n) = (inl refl, blanks-IsBlank n)

sink-emit_times :
    (n : ℕ) (t : Terminal Bytes) → (emit_times append_char n b' ' t).sink ≡ t.sink ++ blanks n
unfolding emit_times emit blanks
sink-emit_times zero t = sym (append-nil t.sink)
sink-emit_times (suc n) t =
    sink-emit_times n (emit append_char b' ' t) ∙ append_assoc t.sink (b' ' ∷ []) (blanks n)

sink-emit_digits :
    (ds : List ℕ) (t : Terminal Bytes)
    → (emit_digits append_char ds t).sink ≡ t.sink ++ map digit_char ds
unfolding emit_digits emit
sink-emit_digits [] t = sym (append-nil t.sink)
sink-emit_digits (d ∷ ds) t =
    sink-emit_digits ds (emit append_char (digit_char d) t)
    ∙ append_assoc t.sink (digit_char d ∷ []) (map digit_char ds)

-- The bytes of a list are the digits from a number on.
Counts : ℕ → Bytes → Type 0
Counts n [] = Unit
Counts n (c ∷ cs) = (digit_of c ≡ some n) × Counts (suc n) cs

digit_of-get_or :
    (n : ℕ) (cs : Bytes) (d : ℕ)
    → Counts n cs
    → d < length cs
    → digit_of (get_or cs d 0) ≡ some (d + n)
unfolding Counts
digit_of-get_or n [] d counts h = absurd (omega arith)
digit_of-get_or n (c ∷ cs) zero (e, counts) h =
    let start : n ≡ 0 + n = omega arith in e ∙ ap some start
digit_of-get_or n (c ∷ cs) (suc d) (e, counts) h =
    let step : d + suc n ≡ suc d + n = omega arith in
    digit_of-get_or (suc n) cs d counts (omega arith) ∙ ap some step

hex_digits-Counts : Counts 0 (codes "0123456789abcdef")
unfolding Counts digit_of
hex_digits-Counts = ground arith

digit_of-digit_char : (d : ℕ) → d < 16 → digit_of (digit_char d) ≡ some d
digit_of-digit_char d h =
    let same : d + 0 ≡ d = omega arith in
    digit_of-get_or 0 (codes "0123456789abcdef") d hex_digits-Counts h ∙ ap some same

value_of-digit :
    (base val c d : ℕ) (cs : Bytes)
    → digit_of c ≡ some d
    → value_of base val (c ∷ cs) ≡ value_of base (val * base + d) cs
unfolding value_of
value_of-digit base val c d cs e = rw (e, value_of) refl

-- Digits as characters are digits of the base and stand for the same number.
digits_read_back :
    (base val : ℕ) (ds : List ℕ)
    → base ≤ 16
    → All (λ d. d < base) ds
    → All (IsDigitOf base) (map digit_char ds)
      × (value_of base val (map digit_char ds) ≡ positional base val ds)
unfolding value_of positional
digits_read_back base val [] small all = (tt, refl)
digits_read_back base val (d ∷ ds) small (lt, all) =
    let digit = digit_of-digit_char d (omega arith) in
    let (rest, value) = digits_read_back base (val * base + d) ds small all in
    (
      ((d, digit, lt), rest),
      value_of-digit base val (digit_char d) d (map digit_char ds) digit ∙ value,
    )

reads_back :
    (num base k fuel s : ℕ) (m : Memory) (ds : List ℕ) (text : Bytes)
    → 2 ≤ base
    → base < 16
    → num < 2 ^ 64
    → positional base 0 ds ≡ num
    → All (λ d. d < base) ds
    → text ≡ blanks k ++ map digit_char ds
    → CString m s text
    → length text < fuel
    → strtol fuel m s base ≡ some (num, s + length text)
reads_back num base k fuel s m ds text two small fits value all shape stands enough =
    let (digits, same) = digits_read_back base 0 ds (omega arith) all in
    let sum : length text ≡ length (blanks k) + length (map digit_char ds) =
      rw shape (length-append (blanks k) (map digit_char ds)) in
    let number = same ∙ value in
    let stands' : CString m s (blanks k ++ map digit_char ds) = rw (sym shape) stands in
    let fits' : value_of base 0 (map digit_char ds) < 2 ^ 64 = rw number fits in
    let run =
      strtol_lem fuel m s base (blanks k) unsigned (map digit_char ds) stands' (blanks-IsBlank k)
        digits (omega arith) (omega arith) (omega arith) fits' (omega (arith, sum)) in
    let whole : s + length (blanks k) + 0 + length (map digit_char ds) ≡ s + length text =
      omega (arith, sum) in
    run ∙ (rw (number, whole) refl)

-- strtol reads back the number that printnum has printed, padding with blanks included, up to the
-- end of the string. The base is from 2 to 15, the number has 64 bits, the width is one for which
-- printnum returns, and the fuel exceeds the length of the text.
pub strtol-printnum :
    (num base width fuel s : ℕ) (m : Memory) {t : Terminal Bytes}
    → 2 ≤ base
    → base < 16
    → num < 2 ^ 64
    → IsWidth 64 width
    → printnum append_char num base width b' ' blank_page ≡ some t
    → CString m s t.sink
    → length t.sink < fuel
    → strtol fuel m s base ≡ some (num, s + length t.sink)
strtol-printnum num base width fuel s m {t} two small fits ok run text enough =
    let (ds, value, all, _, _, printed) =
      printnum_lem append_char num base width b' ' blank_page two fits ok in
    let pad = room_of width - length ds in
    let same : t ≡ emit_digits append_char ds (emit_times append_char pad b' ' blank_page) =
      some-injective t _ (sym run ∙ printed) in
    reads_back num base pad fuel s m ds t.sink two small fits value all
      (ap (λ u. u.sink) same
        ∙ sink-emit_digits ds (emit_times append_char pad b' ' blank_page)
        ∙ ap (λ p. p ++ map digit_char ds) (sink-emit_times pad blank_page))
      text enough
