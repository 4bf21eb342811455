-- ===== src/Strings/Compare/Laws.antt =====
-- What strcmp, strncmp and memcmp tell of two strings.
use jos.Base.{
  ℕ, zero, suc, ◌+◌, ◌<◌, ◌≡◌, ◌↔◌, inl, inr, refl, Bool, true, false, some, [], ◌∷◌, arith, Bytes,
  length, take, All, ltb, ◌==◌, if◌then◌else◌, is_neg32, sub32, Bool-cases,
}
use jos.Base.Memory.{Memory, CString, read_bytes}
use jos.Strings.Compare.{strcmp, strncmp, memcmp}

abbrev pub IsByte : ℕ → Type 0
IsByte c = c < 256

-- The order of a dictionary.
unfoldable pub lex_ltb : Bytes → Bytes → Bool
lex_ltb [] [] = false
lex_ltb [] (y ∷ ys) = true
lex_ltb (x ∷ xs) [] = false
lex_ltb (x ∷ xs) (y ∷ ys) = if x == y then lex_ltb xs ys else ltb x y

-- What the result of a comparison says of two strings.
abbrev pub Compares : ℕ → Bytes → Bytes → Type 0
Compares r xs ys = ((r ≡ 0) ↔ (xs ≡ ys)) × (is_neg32 r ≡ lex_ltb xs ys)

cons_iff : (x y : ℕ) (xs ys : Bytes) → (x ∷ xs ≡ y ∷ ys) ↔ ((x ≡ y) × (xs ≡ ys))
cons_iff x y xs ys = (λ e. (ground arith, ground arith), λ e. ground arith)

-- strcmp returns, with more fuel than the first string has bytes. Its result is 0 exactly if the
-- strings are equal, and negative exactly if the first comes before the second in a dictionary.
pub strcmp_lem :
    (fuel : ℕ) (m : Memory) (p q : ℕ) (xs ys : Bytes)
    → CString m p xs
    → CString m q ys
    → All IsByte xs
    → All IsByte ys
    → length xs < fuel
    → (r : ℕ) × (strcmp fuel m p q ≡ some r) × Compares r xs ys
unfolding strcmp lex_ltb
strcmp_lem zero m p q xs ys hx hy bx by lt = absurd (omega arith)
strcmp_lem (suc fuel) m p q [] [] hx hy bx by lt = (0, ground arith, ((λ e. refl, λ e. refl), refl))
strcmp_lem (suc fuel) m p q [] (y ∷ ys) hx hy bx by lt =
    (sub32 (m p) (m q), ground arith, ((λ e. absurd (ground arith), λ e. cc), ground arith))
strcmp_lem (suc fuel) m p q (x ∷ xs) [] hx hy bx by lt =
    (sub32 (m p) (m q), ground arith, ((λ e. absurd (ground arith), λ e. cc), ground arith))
strcmp_lem (suc fuel) m p q (x ∷ xs) (y ∷ ys) hx hy bx by lt = elim (Bool-cases (x == y)) [
  | inl e ↦
      let (r, run, cmp) =
        strcmp_lem fuel m (p + 1) (q + 1) xs ys hx.2 hy.2 bx.1 by.1 (omega arith) in
      (
        r,
        ground arith,
        ((λ z. ground (arith, cmp.0.0 z), λ z. cmp.0.1 (ground arith)), ground arith),
      )
  | inr e ↦ (
    sub32 (m p) (m q),
    ground arith,
    ((λ z. absurd (ground arith), λ z. absurd (ground arith)), ground arith),
  )
]

-- strncmp is 0 exactly if the strings agree up to `n` bytes, and negative exactly if, cut at `n`
-- bytes, the first comes before the second in a dictionary.
pub strncmp_lem :
    (n : ℕ) (m : Memory) (p q : ℕ) (xs ys : Bytes)
    → CString m p xs
    → CString m q ys
    → All IsByte xs
    → All IsByte ys
    → Compares (strncmp m p q n) (take n xs) (take n ys)
unfolding strncmp lex_ltb
strncmp_lem zero m p q xs ys hx hy bx by = ((λ e. refl, λ e. refl), refl)
strncmp_lem (suc n) m p q [] [] hx hy bx by = ((λ e. refl, λ e. ground arith), ground arith)
strncmp_lem (suc n) m p q [] (y ∷ ys) hx hy bx by =
    ((λ e. absurd (ground arith), λ e. cc), ground arith)
strncmp_lem (suc n) m p q (x ∷ xs) [] hx hy bx by =
    ((λ e. absurd (ground arith), λ e. cc), ground arith)
strncmp_lem (suc n) m p q (x ∷ xs) (y ∷ ys) hx hy bx by = elim (Bool-cases (x == y)) [
  | inl e ↦
      let cmp = strncmp_lem n m (p + 1) (q + 1) xs ys hx.2 hy.2 bx.1 by.1 in
      (
        (λ z. ground (arith, cmp.0.0 (ground arith)), λ z. ground (arith, cmp.0.1 (ground arith))),
        ground arith,
      )
  | inr e ↦ ((λ z. absurd (ground arith), λ z. absurd (ground arith)), ground arith)
]

-- memcmp is 0 exactly if the two blocks of `n` bytes are equal.
pub memcmp_lem :
    (n : ℕ) (m : Memory) (p q : ℕ)
    → ((a : ℕ) → IsByte (m a))
    → (memcmp m p q n ≡ 0) ↔ (read_bytes m p n ≡ read_bytes m q n)
unfolding memcmp
memcmp_lem zero m p q b = (λ e. refl, λ e. refl)
memcmp_lem (suc n) m p q b = elim (Bool-cases (m p == m q)) [
  | inl e ↦
      let cmp = memcmp_lem n m (p + 1) (q + 1) b in
      (λ z. ground (arith, cmp.0 (ground arith)), λ z. ground (arith, cmp.1 (ground arith)))
  | inr e ↦ (λ z. absurd (ground (arith, b p, b q)), λ z. absurd (ground arith))
]
