-- ===== src/Monitor/Parse/Cut.antt =====
-- A line cut into words with blanks between them.
use jos.Base.{ℕ, ◌≡◌, ◌⊎◌, inl, inr, refl, ap, ◌==◌, List, [], ◌∷◌, Bytes, arith, Bool-cases}
use jos.Monitor.Parse.Laws.{IsWhite, text_of, Separated}

IsWhite-or_not : (c : ℕ) → IsWhite c ⊎ (¬ IsWhite c)
IsWhite-or_not c = elim (Bool-cases (c == 9)) [
  | inl e ↦ inl (ground arith)
  | inr e₁ ↦ elim (Bool-cases (c == 13)) [
    | inl e ↦ inl (ground arith)
    | inr e₂ ↦ elim (Bool-cases (c == 10)) [
      | inl e ↦ inl (ground arith)
      | inr e₃ ↦ elim (Bool-cases (c == b' ')) [
        | inl e ↦ inl (ground arith)
        | inr e₄ ↦ inr (ground arith)
      ]
    ]
  ]
]

-- The words of a line, and the blanks at its end.
abbrev pub IsCut : Bytes → Type 0
IsCut cs =
    (pieces : List (Bytes × Bytes)) × (end : Bytes) × (text_of pieces end ≡ cs)
    × Separated pieces end

blank_before : (c : ℕ) (cs : Bytes) → IsWhite c → IsCut cs → IsCut (c ∷ cs)
blank_before c cs w ([], end, same, sep) = ([], c ∷ end, ap (λ r. c ∷ r) same, (w, sep))
blank_before c cs w ((blanks, word) ∷ rest, end, same, (white, plain, pos, over, sep)) =
    (((c ∷ blanks, word) ∷ rest), end, ap (λ r. c ∷ r) same, ((w, white), plain, pos, over, sep))

letter_before : (c : ℕ) (cs : Bytes) → (¬ IsWhite c) → IsCut cs → IsCut (c ∷ cs)
letter_before c cs n ([], [], same, sep) =
    ((([], c ∷ []) ∷ []), [], ap (λ r. c ∷ r) same, (tt, (n, tt), omega arith, tt, tt))
letter_before c cs n ([], (e ∷ end), same, (w, sep)) =
    ((([], c ∷ []) ∷ []), (e ∷ end), ap (λ r. c ∷ r) same, (tt, (n, tt), omega arith, w, (w, sep)))
letter_before c cs n (([], word) ∷ rest, end, same, (white, plain, pos, over, sep)) =
    ((([], c ∷ word) ∷ rest), end, ap (λ r. c ∷ r) same, (tt, (n, plain), omega arith, over, sep))
letter_before c cs n ((b ∷ blanks, word) ∷ rest, end, same, ((w, white), plain, pos, over, sep)) = (
  ([], c ∷ []) ∷ (b ∷ blanks, word) ∷ rest,
  end,
  ap (λ r. c ∷ r) same,
  (tt, (n, tt), omega arith, w, ((w, white), plain, pos, over, sep)),
)

pub cut : (cs : Bytes) → IsCut cs
cut [] = ([], [], refl, tt)
cut (c ∷ cs) = elim (IsWhite-or_not c) [
  | inl w ↦ blank_before c cs w (cut cs)
  | inr n ↦ letter_before c cs n (cut cs)
]
