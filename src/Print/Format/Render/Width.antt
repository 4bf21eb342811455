-- ===== src/Print/Format/Render/Width.antt =====
-- The flags and widths of the numeric conversions, as they are written and as they are read.
use jos.Base.{
  ℕ, zero, suc, ◌+◌, ◌-◌, ◌*◌, ◌^◌, ◌<◌, ◌≤◌, ◌≡◌, refl, ap, ◌∙◌, Bool, true, false, ◌&&◌, ◌||◌,
  ◌==◌, ltb, leb, none, some, ◌>>=◌, [], ◌∷◌, ◌++◌, Bytes, All, length, arith, add32, sub32,
  minus_one,
}
use jos.Base.Memory.{Memory, CString, CString-split}
use jos.Print.Args.{Slots}
use jos.Print.Color.Laws.{IsDigit}
use jos.Print.Format.Safe.{is_flag}
use jos.Print.Format.Flags.{
  Spec, initial, process_precision, read_width, flag, reswitch, parse_flags,
}

-- The value of decimal digits behind others.
abbrev pub decimal : ℕ → Bytes → ℕ
decimal value [] = value
decimal value (d ∷ ds) = decimal (value * 10 + (d - b'0')) ds

decimal_grows : (value : ℕ) (ds : Bytes) → value ≤ decimal value ds
decimal_grows value [] = omega arith
decimal_grows value (d ∷ ds) = omega (arith, decimal_grows (value * 10 + (d - b'0')) ds)

-- The loop over the digits of a width, `ch` the digit at hand.
read_width_lem :
    (ds : Bytes) (fuel : ℕ) (mem : Memory) (ch fmt value c : ℕ) (rest : Bytes)
    → CString mem fmt (ds ++ (c ∷ rest))
    → IsDigit ch
    → All IsDigit ds
    → ¬ IsDigit c
    → decimal value (ch ∷ ds) < 2 ^ 31
    → length ds < fuel
    → read_width fuel mem ch fmt value ≡ some (decimal value (ch ∷ ds), fmt + length ds)
unfolding read_width
read_width_lem ds zero mem ch fmt value c rest h digit digits end small lt = absurd (omega arith)
read_width_lem [] (suc fuel) mem ch fmt value c rest (hc, nc, h) digit digits end small lt =
    let stop : (ltb (mem fmt) b'0' || ltb b'9' (mem fmt)) ≡ true = ground arith in
    let here : fmt + 0 ≡ fmt = omega arith in
    let exact : sub32 (add32 (value * 10) ch) b'0' ≡ value * 10 + (ch - b'0') = omega arith in
    rw (read_width, stop, here, exact) refl
read_width_lem (d ∷ ds) (suc fuel) mem ch fmt value c rest (hd, nd, h) digit (next, digits) end
      small lt =
    let go : (ltb (mem fmt) b'0' || ltb b'9' (mem fmt)) ≡ false = ground arith in
    let grows = decimal_grows (value * 10 + (ch - b'0')) (d ∷ ds) in
    let exact : sub32 (add32 (value * 10) ch) b'0' ≡ value * 10 + (ch - b'0') = omega arith in
    let place : fmt + suc (length ds) ≡ fmt + 1 + length ds = omega arith in
    rw (read_width, go, place, exact)
      (ap (λ x. read_width fuel mem x (fmt + 1) (value * 10 + (ch - b'0'))) hd
        ∙ read_width_lem ds fuel mem d (fmt + 1) (value * 10 + (ch - b'0')) c rest h next digits end
            small (omega arith))

-- A width as it is written: nothing, or digits of which the first is not 0, of an `int`.
abbrev pub IsWidthText : Bytes → Type 0
IsWidthText [] = Unit
IsWidthText (d ∷ ds) = (b'1' ≤ d) × (d ≤ b'9') × All IsDigit ds × (decimal 0 (d ∷ ds) < 2 ^ 31)

abbrev pub width_of : Bytes → ℕ
width_of [] = minus_one
width_of (d ∷ ds) = decimal 0 (d ∷ ds)

-- The variables that a padding character and a width leave.
abbrev pub shaped : ℕ → Bytes → Spec
shaped padc w = record initial { padc = padc; width = width_of w }

-- A character that is no flag.
abbrev pub IsLetter : ℕ → Type 0
IsLetter c = is_flag c ≡ false

reswitch_letter :
    (fuel : ℕ) (mem : Memory) (slots : Slots) (next fmt c : ℕ) (spec : Spec)
    → mem fmt ≡ c
    → IsLetter c
    → reswitch (suc fuel) mem slots next fmt spec
      ≡ some (record { ch = c; next = next; fmt = fmt + 1; spec = spec })
unfolding reswitch flag
reswitch_letter fuel mem slots next fmt c spec at letter =
    let letter_at : flag fuel mem slots (mem fmt) next (fmt + 1) spec ≡ some none = ground arith in
    rw (reswitch, letter_at, ◌>>=◌)
      (ap (λ x. some (record { ch = x; next = next; fmt = fmt + 1; spec = spec })) at)

reswitch_width :
    (w : Bytes) (fuel : ℕ) (mem : Memory) (slots : Slots) (next fmt padc c : ℕ) (rest : Bytes)
    → CString mem fmt (w ++ (c ∷ rest))
    → IsWidthText w
    → IsLetter c
    → length w + 1 < fuel
    → reswitch fuel mem slots next fmt (record initial { padc = padc })
      ≡ some (record { ch = c; next = next; fmt = fmt + length w + 1; spec = shaped padc w })
unfolding reswitch flag process_precision
reswitch_width w zero mem slots next fmt padc c rest h width letter lt = absurd (omega arith)
reswitch_width w (suc zero) mem slots next fmt padc c rest h width letter lt = absurd (omega arith)
reswitch_width [] (suc (suc fuel)) mem slots next fmt padc c rest (hc, nc, h) width letter lt =
    let here : fmt + 0 ≡ fmt = omega arith in
    rw here
      (reswitch_letter (suc fuel) mem slots next fmt c (record initial { padc = padc }) hc letter)
reswitch_width (d ∷ ds) (suc (suc fuel)) mem slots next fmt padc c rest (hd, nd, h)
      (low, high, digits, small) letter lt =
    let spec : Spec = record initial { padc = padc } in
    let run =
      read_width_lem ds (suc fuel) mem d (fmt + 1) 0 c rest h (omega arith) digits (ground arith)
        small (omega arith) in
    let place : fmt + suc (length ds) + 1 ≡ fmt + 1 + length ds + 1 = omega arith in
    let flagged : flag (suc fuel) mem slots (mem fmt) next (fmt + 1) spec
        ≡ some (some (next, fmt + 1 + length ds, shaped padc (d ∷ ds))) =
      (let a : (d == b'-') ≡ false = ground arith in
        let b : (d == b'0') ≡ false = ground arith in
        let e : (leb b'1' d && leb d b'9') ≡ true = ground arith in
        ap (λ x. flag (suc fuel) mem slots x next (fmt + 1) spec) hd
        ∙ rw (flag, a, b, e, run, ◌>>=◌) refl) in
    let (stands, behind) = CString-split mem (fmt + 1) ds (c ∷ rest) h in
    rw (reswitch, flagged, ◌>>=◌, place)
      (reswitch_letter fuel mem slots next (fmt + 1 + length ds) c (shaped padc (d ∷ ds)) behind.0
        letter)

-- The text between the '%' and the conversion character.
abbrev pub shape_text : Bool → Bytes → Bytes
shape_text true w = b'0' ∷ w
shape_text false w = w

abbrev pub shape : Bool → Bytes → Spec
shape true w = shaped b'0' w
shape false w = shaped b' ' w

pub parse_flags_lem :
    (zeros : Bool) (w : Bytes) (fuel : ℕ) (mem : Memory) (slots : Slots) (next fmt c : ℕ)
    (rest : Bytes)
    → CString mem fmt (shape_text zeros w ++ (c ∷ rest))
    → IsWidthText w
    → IsLetter c
    → length w + 2 < fuel
    → parse_flags fuel mem slots next fmt
      ≡ some (record {
        ch = c;
        next = next;
        fmt = fmt + length (shape_text zeros w) + 1;
        spec = shape zeros w;
      })
unfolding parse_flags reswitch flag
parse_flags_lem zeros w zero mem slots next fmt c rest h width letter lt = absurd (omega arith)
parse_flags_lem false w (suc fuel) mem slots next fmt c rest h width letter lt =
    reswitch_width w (suc fuel) mem slots next fmt b' ' c rest h width letter (omega arith)
parse_flags_lem true w (suc fuel) mem slots next fmt c rest (hc, nc, h) width letter lt =
    let place : fmt + suc (length w) + 1 ≡ fmt + 1 + length w + 1 = omega arith in
    rw (reswitch, hc, place)
      (reswitch_width w fuel mem slots next (fmt + 1) b'0' c rest h width letter (omega arith))
