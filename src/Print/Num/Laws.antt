-- ===== src/Print/Num/Laws.antt =====
-- printnum against the positional value of digits.
use jos.Base.{
  ℕ, zero, suc, ◌+◌, ◌-◌, ◌*◌, ◌/◌, ◌%◌, ◌^◌, ◌<◌, ◌≤◌, ◌≡◌, ◌⊎◌, inl, inr, refl, ◌∙◌, some, ◌>>=◌,
  List, [], ◌∷◌, ◌++◌, length, length-append, All, All-append, Bool-cases, leb, if◌then◌else◌,
  is_neg32, sub32, arith, ap, sym,
}
use native.Mathlib.Nat.{div-add-mod', mod-lt, mod-eq_of_lt}
use jos.Print.Terminal.{Terminal, Putch, emit, emit_times}
use jos.Print.Num.{digit_char, pad_rounds, printnum_depth, printnum}

-- The number that digits, the highest first, stand for.
unfoldable pub positional : ℕ → ℕ → List ℕ → ℕ
positional base val [] = val
positional base val (d ∷ ds) = positional base (val * base + d) ds

positional-snoc :
    (base val d : ℕ) (ds : List ℕ)
    → positional base val (ds ++ (d ∷ [])) ≡ positional base val ds * base + d
unfolding positional
positional-snoc base val d [] = refl
positional-snoc base val d (e ∷ ds) = positional-snoc base (val * base + e) d ds

-- The first of two or more digits is not 0.
abbrev pub NoLeadingZero : List ℕ → Type 0
NoLeadingZero [] = Unit
NoLeadingZero (d ∷ []) = Unit
NoLeadingZero (d ∷ e ∷ ds) = 0 < d

NoLeadingZero-snoc :
    (base d n : ℕ) (ds : List ℕ)
    → NoLeadingZero ds
    → positional base 0 ds ≡ n
    → 0 < n
    → NoLeadingZero (ds ++ (d ∷ []))
unfolding positional
NoLeadingZero-snoc base d n [] h value pos = tt
NoLeadingZero-snoc base d n (c ∷ []) h value pos = omega (arith, value)
NoLeadingZero-snoc base d n (c ∷ e ∷ ds) h value pos = h

-- The width that is left, as a number.
abbrev pub room_of : ℕ → ℕ
room_of width = if is_neg32 width then 0 else width

-- A width that does not wrap round while the digits are counted.
abbrev pub IsWidth : ℕ → ℕ → Type 0
IsWidth digits width = (width < 2 ^ 31) ⊎ ((2 ^ 31 + digits ≤ width) × (width < 2 ^ 32))

pub div_small : (num base n : ℕ) → 2 ≤ base → num < 2 * n → num / base < n
div_small num base n two lt =
    let whole = div-add-mod' num base in
    let twice : num / base * 2 ≤ num / base * base = grind arith in omega (arith, whole, twice)

zero_or_pos : (n : ℕ) → (n ≡ 0) ⊎ (0 < n)
zero_or_pos n = omega arith

div-pos : (num base : ℕ) → 2 ≤ base → base ≤ num → 0 < num / base
div-pos num base two le =
    let whole = div-add-mod' num base in
    let small : num % base < base = mod-lt num (omega arith) in
    elim (zero_or_pos (num / base)) [
      | inl e ↦
          let none_left : num / base * base ≡ 0 = rw e (omega arith) in
          absurd (omega (arith, whole, small, none_left))
      | inr h ↦ h
    ]

pub twice : (num depth : ℕ) → num < 2 ^ suc depth → num < 2 * 2 ^ depth
twice num depth h = grind arith

pub above_zero : (depth num : ℕ) → 2 ≤ num → num < 2 * 2 ^ depth → 0 < depth
above_zero zero num big small = absurd (omega arith)
above_zero (suc depth) num big small = omega arith

module _ {ℓ} {S : Type ℓ} (putch : Putch S) where
  -- The digits of a list, printed.
  unfoldable pub emit_digits : List ℕ → Terminal S → Terminal S
  emit_digits [] t = t
  emit_digits (d ∷ ds) t = emit_digits ds (emit putch (digit_char d) t)

  emit_digits-snoc :
      (ds : List ℕ) (d : ℕ) (t : Terminal S)
      → emit_digits (ds ++ (d ∷ [])) t ≡ emit putch (digit_char d) (emit_digits ds t)
  unfolding emit_digits
  emit_digits-snoc [] d t = refl
  emit_digits-snoc (e ∷ ds) d t = emit_digits-snoc ds d (emit putch (digit_char e) t)

  printnum_depth_lem :
      (depth num base width padc : ℕ) (t : Terminal S)
      → 2 ≤ base
      → num < 2 ^ depth
      → 0 < depth
      → depth < 65
      → IsWidth depth width
      → (ds : List ℕ) × (positional base 0 ds ≡ num)
        × All (λ d. d < base) ds
        × (0 < length ds)
        × NoLeadingZero ds
        × (printnum_depth putch depth num base width padc t
            ≡ some (emit_digits ds (emit_times putch (room_of width - length ds) padc t)))
  unfolding printnum_depth positional emit_digits
  printnum_depth_lem zero num base width padc t two small pos few ok = absurd (omega arith)
  printnum_depth_lem (suc depth) num base width padc t two small pos few ok =
      elim (Bool-cases (leb base num)) [
        | inr e ↦
            let whole : num % base ≡ num = mod-eq_of_lt (ground arith) in
            let rounds : pad_rounds width ≡ room_of width - 1 = ground arith in
            (
              num ∷ [],
              omega arith,
              (ground arith, tt),
              omega arith,
              tt,
              rw (e, ◌>>=◌, whole, rounds) refl,
            )
        | inl e ↦
            let narrow : room_of (sub32 width 1) ≡ room_of width - 1 = ground arith in
            let (ds, value, digits, some_digit, short, run) =
              printnum_depth_lem depth (num / base) base (sub32 width 1) padc t two
                (div_small num base (2 ^ depth) two (twice num depth small))
                (above_zero depth num (ground arith) (twice num depth small)) (omega arith)
                (ground arith) in
            (
              ds ++ (num % base ∷ []),
              positional-snoc base 0 (num % base) ds ∙ (rw value (div-add-mod' num base)),
              All-append (λ d. d < base) ds (num % base ∷ []) digits (mod-lt num (omega arith), tt),
              omega (arith, length-append ds (num % base ∷ [])),
              NoLeadingZero-snoc base (num % base) (num / base) ds short value
                  (div-pos num base two (ground arith)),
              (let less : room_of width - length (ds ++ (num % base ∷ []))
                      ≡ room_of (sub32 width 1) - length ds =
                    omega (arith, narrow, length-append ds (num % base ∷ [])) in
                  rw (e, run, ◌>>=◌, less) (ap some (sym (emit_digits-snoc ds (num % base) _)))),
            )
      ]

  pub printnum_lem :
      (num base width padc : ℕ) (t : Terminal S)
      → 2 ≤ base
      → num < 2 ^ 64
      → IsWidth 64 width
      → (ds : List ℕ) × (positional base 0 ds ≡ num)
        × All (λ d. d < base) ds
        × (0 < length ds)
        × NoLeadingZero ds
        × (printnum putch num base width padc t
            ≡ some (emit_digits ds (emit_times putch (room_of width - length ds) padc t)))
  unfolding printnum
  printnum_lem num base width padc t two small ok =
      printnum_depth_lem 64 num base width padc t two small (omega arith) (omega arith) ok
