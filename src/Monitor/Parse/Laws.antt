-- ===== src/Monitor/Parse/Laws.antt =====
-- The words of a command line, and the pointers to them.
use jos.Base.{
  ℕ, zero, suc, ◌+◌, ◌-◌, ◌<◌, ◌≤◌, ◌≡◌, ◌≢◌, ◌⊎◌, inl, inr, refl, ◌∙◌, true, false, ◌==◌, Option,
  some, ◌>>=◌, List, [], ◌∷◌, ◌++◌, Bytes, length, All, arith, Bool-cases, ap, append-nil,
  append_assoc, length-append,
}
use jos.Base.Memory.{Memory, write, CString, CString-congr, CString-split}
use jos.Strings.Search.{strchr}
use jos.Monitor.Parse.{maxargs, is_white, gobble, scan, Parsed, parsed, too_many, parse_args}

-- The four characters that separate words.
abbrev pub IsWhite : ℕ → Type 0
IsWhite c = (c ≡ 9) ⊎ (c ≡ 13) ⊎ (c ≡ 10) ⊎ (c ≡ b' ')

is_white-IsWhite : (c : ℕ) → IsWhite c → is_white c ≡ true
unfolding is_white strchr
is_white-IsWhite c h = ground arith

is_white_of_word : (c : ℕ) → ¬ IsWhite c → is_white c ≡ false
unfolding is_white strchr
is_white_of_word c h = ground arith

-- A line with words: for each one the blanks before it and the word, and the blanks at the end.
abbrev pub text_of : List (Bytes × Bytes) → Bytes → Bytes
text_of [] end = end
text_of ((blanks, word) ∷ rest) end = blanks ++ (word ++ text_of rest end)

-- Here a word is over.
abbrev pub Boundary : Bytes → Type 0
Boundary [] = Unit
Boundary (c ∷ cs) = IsWhite c

abbrev pub Separated : List (Bytes × Bytes) → Bytes → Type 0
Separated [] end = All IsWhite end
Separated ((blanks, word) ∷ rest) end =
    All IsWhite blanks
    × All (λ c. ¬ IsWhite c) word
    × (0 < length word)
    × Boundary (text_of rest end)
    × Separated rest end

-- Each pointer points to its word.
abbrev pub PointsTo : Memory → List ℕ → List (Bytes × Bytes) → Type 0
PointsTo m [] [] = Unit
PointsTo m (p ∷ ps) ((blanks, word) ∷ rest) = CString m p word × PointsTo m ps rest
PointsTo m ps rest = ⊥

-- Where a word begins, or the string ends.
Stops : Bytes → Type 0
Stops [] = Unit
Stops (c ∷ cs) = ¬ IsWhite c

gobble_lem :
    (fuel : ℕ) (m : Memory) (p : ℕ) (blanks rest : Bytes)
    → CString m p (blanks ++ rest)
    → All IsWhite blanks
    → Stops rest
    → length blanks < fuel
    → (m' : Memory) × (gobble fuel m p ≡ some (m', p + length blanks))
      × CString m' (p + length blanks) rest
      × ((a : ℕ) → a < p → m' a ≡ m a)
      × (0 < length blanks → m' p ≡ 0)
unfolding gobble Stops
gobble_lem zero m p blanks rest h white stops lt = absurd (omega arith)
gobble_lem (suc fuel) m p [] [] h white stops lt = (
  m,
  ground arith,
  (let e : p + 0 ≡ p = omega arith in rw e h),
  λ a l. refl,
  λ l. absurd (omega arith),
)
gobble_lem (suc fuel) m p [] (c ∷ rest) h white stops lt = (
  m,
  ground (arith, is_white_of_word c stops),
  (let e : p + 0 ≡ p = omega arith in rw e h),
  λ a l. refl,
  λ l. absurd (omega arith),
)
gobble_lem (suc fuel) m p (c ∷ blanks) rest (hc, nz, h) (w, white) stops lt =
    let tail = CString-congr m (write m p 0) (p + 1) (blanks ++ rest) (λ a lo hi. ground arith) h in
    let (m', run, str, below, zeroed) =
      gobble_lem fuel (write m p 0) (p + 1) blanks rest tail white stops (omega arith) in
    let e : p + suc (length blanks) ≡ p + 1 + length blanks = omega arith in
    (
      m',
      rw e (ground (arith, is_white-IsWhite c w, run)),
      rw e str,
      λ a l. below a (omega arith) ∙ ground arith,
      λ l. below p (omega arith) ∙ ground arith,
    )

scan_lem :
    (fuel : ℕ) (m : Memory) (p : ℕ) (word rest : Bytes)
    → CString m p (word ++ rest)
    → All (λ c. ¬ IsWhite c) word
    → Boundary rest
    → length word < fuel
    → scan fuel m p ≡ some (p + length word)
unfolding scan
scan_lem zero m p word rest h plain over lt = absurd (omega arith)
scan_lem (suc fuel) m p [] [] h plain over lt = ground arith
scan_lem (suc fuel) m p [] (c ∷ rest) h plain over lt = ground (arith, is_white-IsWhite c over)
scan_lem (suc fuel) m p (c ∷ word) rest (hc, nz, h) (w, plain) over lt =
    ground
      (arith, is_white_of_word c w, scan_lem fuel m (p + 1) word rest h plain over (omega arith))

Stops-word :
    (word rest : Bytes) → 0 < length word → All (λ c. ¬ IsWhite c) word → Stops (word ++ rest)
unfolding Stops
Stops-word [] rest pos plain = absurd (omega arith)
Stops-word (c ∷ word) rest pos plain = plain.0

-- A word with a zero written behind it is a string.
CString-word :
    (m m' : Memory) (p : ℕ) (word rest : Bytes)
    → CString m p (word ++ rest)
    → ((a : ℕ) → a < p + length word → m' a ≡ m a)
    → m' (p + length word) ≡ 0
    → CString m' p word
CString-word m m' p [] rest h same z = let e : p + 0 ≡ p = omega arith in rw e at z
CString-word m m' p (c ∷ word) rest (hc, nz, h) same z =
    let e : p + suc (length word) ≡ p + 1 + length word = omega arith in
    (
      same p (omega arith) ∙ hc,
      nz,
      CString-word m m' (p + 1) word rest h (λ a l. same a (omega arith)) (rw e at z),
    )

end-zero :
    (m' : Memory) (p : ℕ) (end : Bytes)
    → CString m' (p + length end) []
    → (0 < length end → m' p ≡ 0)
    → m' p ≡ 0
end-zero m' p [] h z = let e : p + 0 ≡ p = omega arith in rw e at h
end-zero m' p (c ∷ end) h z = z (omega arith)

word-nonzero :
    (m : Memory) (p : ℕ) (word rest : Bytes)
    → 0 < length word
    → CString m p (word ++ rest)
    → m p ≢ 0
word-nonzero m p [] rest pos h = absurd (omega arith)
word-nonzero m p (c ∷ word) rest pos (hc, nz, h) = λ z. nz (omega (arith, hc, z))

blanks_before :
    (blanks word rest : Bytes)
    → Boundary (blanks ++ (word ++ rest))
    → 0 < length word
    → All (λ c. ¬ IsWhite c) word
    → 0 < length blanks
blanks_before [] [] rest b pos plain = absurd (omega arith)
blanks_before [] (c ∷ word) rest b pos plain = absurd (plain.0 b)
blanks_before (c ∷ blanks) word rest b pos plain = omega arith

-- What a run of the parser over a text leaves: the pointers, the memory, and what it kept.
Cut : Memory → ℕ → List ℕ → List (Bytes × Bytes) → Bytes → Option Parsed → Type 0
Cut m p argv pieces end run =
    (ps : List ℕ) × (m' : Memory) × (run ≡ some (parsed (argv ++ ps) m'))
    × PointsTo m' ps pieces
    × ((a : ℕ) → a < p → m' a ≡ m a)
    × (Boundary (text_of pieces end) → m' p ≡ 0)

parse_args-Cut :
    (fuel : ℕ) (m : Memory) (p : ℕ) (argv : List ℕ) (pieces : List (Bytes × Bytes)) (end : Bytes)
    → CString m p (text_of pieces end)
    → Separated pieces end
    → length (text_of pieces end) + 1 < fuel
    → length argv + length pieces < maxargs
    → Cut m p argv pieces end (parse_args fuel m p argv)
unfolding parse_args Cut Stops
parse_args-Cut zero m p argv pieces end h sep lt few = absurd (omega arith)
parse_args-Cut (suc fuel) m p argv [] end h sep lt few =
    let (m', run, str, below, zeroed) =
      gobble_lem fuel m p end [] (rw (append-nil end) h) sep tt (omega arith) in
    (
      [],
      m',
      (let none_left : (m' (p + length end) == 0) ≡ true = ground arith in
          rw (run, ◌>>=◌, none_left, append-nil argv) refl),
      tt,
      below,
      λ b. end-zero m' p end str zeroed,
    )
parse_args-Cut (suc fuel) m p argv ((blanks, word) ∷ rest) end h (white, plain, pos, over, sep) lt
      few =
    let tail = text_of rest end in
    let sizes = length-append blanks (word ++ tail) in
    let size = length-append word tail in
    let (m₁, run₁, str, below₁, zeroed) =
      gobble_lem fuel m p blanks (word ++ tail) h white (Stops-word word tail pos plain)
        (omega (arith, sizes, size)) in
    let q = p + length blanks in
    let run₂ = scan_lem fuel m₁ q word tail str plain over (omega (arith, sizes, size)) in
    let (ps, m₂, run₃, points, below₂, ended) =
      parse_args-Cut fuel m₁ (q + length word) (argv ++ (q ∷ [])) rest end
        ((CString-split m₁ q word tail str).1) sep (omega (arith, sizes, size))
        (omega (arith, length-append argv (q ∷ []))) in
    let first = word-nonzero m₁ q word tail pos str in
    let more : (m₁ q == 0) ≡ false = ground arith in
    let room : (length argv == maxargs - 1) ≡ false = ground arith in
    (
      q ∷ ps,
      m₂,
      rw (run₁, ◌>>=◌, more, room, run₂)
          (run₃ ∙ ap (λ r. some (parsed r m₂)) (append_assoc argv (q ∷ []) ps)),
      (CString-word m₁ m₂ q word tail str below₂ (ended over), points),
      λ a l. below₂ a (omega arith) ∙ below₁ a l,
      λ b. below₂ p (omega arith) ∙ zeroed (blanks_before blanks word tail b pos plain),
    )

parse_args_overflow :
    (fuel : ℕ) (m : Memory) (p : ℕ) (argv : List ℕ) (pieces : List (Bytes × Bytes)) (end : Bytes)
    → CString m p (text_of pieces end)
    → Separated pieces end
    → length (text_of pieces end) + 1 < fuel
    → length argv < maxargs
    → maxargs ≤ length argv + length pieces
    → (m' : Memory) × (parse_args fuel m p argv ≡ some (too_many m'))
unfolding parse_args
parse_args_overflow zero m p argv pieces end h sep lt few many = absurd (omega arith)
parse_args_overflow (suc fuel) m p argv [] end h sep lt few many = absurd (omega arith)
parse_args_overflow (suc fuel) m p argv ((blanks, word) ∷ rest) end h (white, plain, pos, over, sep)
      lt few many =
    let tail = text_of rest end in
    let sizes = length-append blanks (word ++ tail) in
    let size = length-append word tail in
    let (m₁, run₁, str, below₁, zeroed) =
      gobble_lem fuel m p blanks (word ++ tail) h white (Stops-word word tail pos plain)
        (omega (arith, sizes, size)) in
    let q = p + length blanks in
    let first = word-nonzero m₁ q word tail pos str in
    let more : (m₁ q == 0) ≡ false = ground arith in
    elim (Bool-cases (length argv == maxargs - 1)) [
      | inl e ↦ (m₁, rw (run₁, ◌>>=◌, more, e) refl)
      | inr e ↦
          let run₂ = scan_lem fuel m₁ q word tail str plain over (omega (arith, sizes, size)) in
          let (m₂, run₃) =
            parse_args_overflow fuel m₁ (q + length word) (argv ++ (q ∷ [])) rest end
              ((CString-split m₁ q word tail str).1) sep (omega (arith, sizes, size))
              (ground (arith, length-append argv (q ∷ [])))
              (omega (arith, length-append argv (q ∷ []))) in
          (m₂, rw (run₁, ◌>>=◌, more, e, run₂) run₃)
    ]

-- A line of fewer than 16 words, each with blanks before it, and blanks at the end, that stands in
-- memory as a string: with fuel above its length, the parser returns, with one pointer to each word,
-- in order. Each word is now a string of its own, and no byte before the line has changed. The words
-- have at least one character, and blanks stand between any two.
pub parse_args_lem :
    (fuel : ℕ) (m : Memory) (p : ℕ) (pieces : List (Bytes × Bytes)) (end : Bytes)
    → CString m p (text_of pieces end)
    → Separated pieces end
    → length (text_of pieces end) + 1 < fuel
    → length pieces < maxargs
    → (ps : List ℕ) × (m' : Memory) × (parse_args fuel m p [] ≡ some (parsed ps m'))
      × PointsTo m' ps pieces
      × ((a : ℕ) → a < p → m' a ≡ m a)
unfolding Cut
parse_args_lem fuel m p pieces end h sep lt few =
    let (ps, m', run, points, below, zeroed) =
      parse_args-Cut fuel m p [] pieces end h sep lt (omega arith) in
    (ps, m', run, points, below)

-- With 16 words or more, the parser refuses such a line.
pub parse_args_refuses :
    (fuel : ℕ) (m : Memory) (p : ℕ) (pieces : List (Bytes × Bytes)) (end : Bytes)
    → CString m p (text_of pieces end)
    → Separated pieces end
    → length (text_of pieces end) + 1 < fuel
    → maxargs ≤ length pieces
    → (m' : Memory) × (parse_args fuel m p [] ≡ some (too_many m'))
parse_args_refuses fuel m p pieces end h sep lt many =
    parse_args_overflow fuel m p [] pieces end h sep lt (omega arith) (omega arith)

-- Where there are no words, there are no pointers.
pub no_words : (m : Memory) (ps : List ℕ) → PointsTo m ps [] → ps ≡ []
no_words m [] h = refl
no_words m (p ∷ ps) h = absurd h
