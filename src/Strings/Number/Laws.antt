-- ===== src/Strings/Number/Laws.antt =====
-- strtol against the value of a digit string.
use jos.Base.{
  ℕ, zero, suc, ◌+◌, ◌*◌, ◌^◌, ◌<◌, ◌≤◌, ◌≡◌, ◌≢◌, ◌⊎◌, inl, inr, arith, none, some, [], ◌∷◌, ◌++◌,
  append-nil, Bytes, length, All, u64, neg64, Option-cases,
}
use native.Mathlib.Nat.{le_trans}
use jos.Base.Memory.{Memory, CString, Stands, CString-split}
use jos.Strings.Number.{skip_blanks, digit_of, strtol_digits, strtol_prefix, strtol, is_blank}

-- The value that digits add behind `val`; a byte that is no digit ends them.
unfoldable pub value_of : ℕ → ℕ → Bytes → ℕ
value_of base val [] = val
value_of base val (c ∷ cs) = elim (digit_of c) [
  | none ↦ val
  | some d ↦ value_of base (val * base + d) cs
]

abbrev pub IsDigitOf : ℕ → ℕ → Type 0
IsDigitOf base c = (d : ℕ) × (digit_of c ≡ some d) × (d < base)

-- Digits do not run on at this byte.
abbrev pub EndsDigits : ℕ → ℕ → Type 0
EndsDigits base c = (d : ℕ) → digit_of c ≡ some d → base ≤ d

digit_of-lt : (c d : ℕ) → digit_of c ≡ some d → d < 36
unfolding digit_of
digit_of-lt c d h = ground arith

le-value_of : (base val : ℕ) (cs : Bytes) → 0 < base → val ≤ value_of base val cs
unfolding value_of
le-value_of base val [] h = omega arith
le-value_of base val (c ∷ cs) h = elim (Option-cases (digit_of c)) [
  | inl e ↦ rw (e, value_of) (omega arith)
  | inr (d, e) ↦ rw (e, value_of) (le_trans (grind arith) (le-value_of base (val * base + d) cs h))
]

strtol_digits_lem :
    (fuel : ℕ) (m : Memory) (s val base : ℕ) (ds : Bytes)
    → Stands m s ds
    → EndsDigits base (m (s + length ds))
    → All (IsDigitOf base) ds
    → 0 < base
    → base < 2 ^ 31
    → value_of base val ds < 2 ^ 64
    → length ds < fuel
    → strtol_digits fuel m s val base ≡ some (value_of base val ds, s + length ds)
unfolding strtol_digits value_of
strtol_digits_lem zero m s val base ds at end all pos small fits lt = absurd (omega arith)
strtol_digits_lem (suc fuel) m s val base [] at end all pos small fits lt =
    let e : s + 0 ≡ s = omega arith in
    let end' : EndsDigits base (m s) = rw e at end in
    elim (Option-cases (digit_of (m s))) [
      | inl n ↦ ground arith
      | inr (d, h) ↦ ground (arith, end' d h, digit_of-lt (m s) d h)
    ]
strtol_digits_lem (suc fuel) m s val base (c ∷ ds) (hc, at) end ((d, hd, dlt), all) pos small fits
      lt =
    let e : s + suc (length ds) ≡ s + 1 + length ds = omega arith in
    let fits' : value_of base (val * base + d) ds < 2 ^ 64 = ground arith in
    let next : u64 (val * base + d) ≡ val * base + d =
      omega (arith, le-value_of base (val * base + d) ds pos) in
    let ih =
      strtol_digits_lem fuel m (s + 1) (val * base + d) base ds at (rw e at end) all pos small fits'
        (omega arith) in
    ground (arith, ih)

abbrev pub IsBlank : ℕ → Type 0
IsBlank c = (c ≡ b' ') ⊎ (c ≡ 9)

skip_blanks_lem :
    (fuel : ℕ) (m : Memory) (s : ℕ) (ws : Bytes)
    → Stands m s ws
    → All IsBlank ws
    → ¬ IsBlank (m (s + length ws))
    → length ws < fuel
    → skip_blanks fuel m s ≡ some (s + length ws)
unfolding skip_blanks is_blank
skip_blanks_lem zero m s ws at all end lt = absurd (omega arith)
skip_blanks_lem (suc fuel) m s [] at all end lt =
    let e : s + 0 ≡ s = omega arith in let end' : ¬ IsBlank (m s) = rw e at end in ground arith
skip_blanks_lem (suc fuel) m s (w ∷ ws) (hw, at) (b, all) end lt =
    let e : s + suc (length ws) ≡ s + 1 + length ws = omega arith in
    ground (arith, skip_blanks_lem fuel m (s + 1) ws at all (rw e at end) (omega arith))

-- The text of an optional sign, and whether it is a minus.
pub data Sign : Type 0 where
  unsigned plus minus : Sign

abbrev pub sign_text : Sign → Bytes
sign_text unsigned = []
sign_text plus = b'+' ∷ []
sign_text minus = b'-' ∷ []

abbrev pub signed64 : Sign → ℕ → ℕ
signed64 minus v = neg64 v
signed64 _ v = v

digit_not-IsBlank : (c d : ℕ) → digit_of c ≡ some d → (¬ IsBlank c) × (c ≢ b'+') × (c ≢ b'-')
unfolding digit_of
digit_not-IsBlank c d h =
    (λ z. absurd (ground arith), λ z. absurd (ground arith), λ z. absurd (ground arith))

zero-EndsDigits : (base : ℕ) → EndsDigits base 0
unfolding digit_of
zero-EndsDigits base d h = absurd (ground arith)

-- The byte where digits are expected is no blank and no sign.
head_of_digits :
    (m : Memory) (p base : ℕ) (ds : Bytes)
    → CString m p ds
    → All (IsDigitOf base) ds
    → (¬ IsBlank (m p)) × (m p ≢ b'+') × (m p ≢ b'-')
head_of_digits m p base [] h all =
    (λ z. absurd (ground arith), λ z. absurd (ground arith), λ z. absurd (ground arith))
head_of_digits m p base (c ∷ ds) (hc, nz, h) ((d, hd, lt), all) = rw hc (digit_not-IsBlank c d hd)

strtol_prefix_plain :
    (m : Memory) (s base : ℕ) → base ≢ 0 → base ≢ 16 → strtol_prefix m s base ≡ (s, base)
unfolding strtol_prefix
strtol_prefix_plain m s base z h = ground arith

-- The digits of a whole string.
digits_to_end :
    (fuel : ℕ) (m : Memory) (s base : ℕ) (ds : Bytes)
    → CString m s ds
    → All (IsDigitOf base) ds
    → 0 < base
    → base < 2 ^ 31
    → value_of base 0 ds < 2 ^ 64
    → length ds < fuel
    → strtol_digits fuel m s 0 base ≡ some (value_of base 0 ds, s + length ds)
digits_to_end fuel m s base ds h all pos small fits lt =
    let nil : ds ++ [] ≡ ds = append-nil ds in
    let parts = CString-split m s ds [] (rw nil h) in
    strtol_digits_lem fuel m s 0 base ds parts.0 (rw parts.1 (zero-EndsDigits base)) all pos small
      fits lt

-- strtol on blanks, a sign and digits of a base other than 0 and 16, up to the end of the string:
-- it returns the value, negated in 64 bits behind a minus, and the end of the string, if the value
-- is below 2^64 and the fuel above the string's length.
pub strtol_lem :
    (fuel : ℕ) (m : Memory) (s base : ℕ) (ws : Bytes) (sign : Sign) (ds : Bytes)
    → CString m s (ws ++ (sign_text sign ++ ds))
    → All IsBlank ws
    → All (IsDigitOf base) ds
    → base ≢ 0
    → base ≢ 16
    → base < 2 ^ 31
    → value_of base 0 ds < 2 ^ 64
    → length ws + length ds < fuel
    → strtol fuel m s base
      ≡ some
          (signed64 sign (value_of base 0 ds), s + length ws + length (sign_text sign) + length ds)
unfolding strtol
strtol_lem fuel m s base ws unsigned ds h blank all nz n16 small fits lt =
    let p = s + length ws in
    let parts = CString-split m s ws ds h in
    let head = head_of_digits m p base ds parts.1 all in
    let e : p + 0 ≡ p = omega arith in
    ground (
      arith,
      skip_blanks_lem fuel m s ws parts.0 blank head.0 (omega arith),
      strtol_prefix_plain m p base nz n16,
      digits_to_end fuel m p base ds parts.1 all (omega arith) small fits (omega arith),
      head.1,
      head.2,
      e,
    )
strtol_lem fuel m s base ws plus ds h blank all nz n16 small fits lt =
    let p = s + length ws in
    let parts = CString-split m s ws (b'+' ∷ ds) h in
    let blank_ends : ¬ IsBlank (m p) = λ z. absurd (ground (arith, parts.1.0)) in
    ground (
      arith,
      skip_blanks_lem fuel m s ws parts.0 blank blank_ends (omega arith),
      strtol_prefix_plain m (p + 1) base nz n16,
      digits_to_end fuel m (p + 1) base ds parts.1.2 all (omega arith) small fits (omega arith),
      parts.1.0,
    )
strtol_lem fuel m s base ws minus ds h blank all nz n16 small fits lt =
    let p = s + length ws in
    let parts = CString-split m s ws (b'-' ∷ ds) h in
    let blank_ends : ¬ IsBlank (m p) = λ z. absurd (ground (arith, parts.1.0)) in
    ground (
      arith,
      skip_blanks_lem fuel m s ws parts.0 blank blank_ends (omega arith),
      strtol_prefix_plain m (p + 1) base nz n16,
      digits_to_end fuel m (p + 1) base ds parts.1.2 all (omega arith) small fits (omega arith),
      parts.1.0,
    )
