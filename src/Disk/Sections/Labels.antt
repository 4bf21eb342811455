-- ===== src/Disk/Sections/Labels.antt =====
-- Which entry of the table a section's name selects.
use jos.Base.{
  ℕ, ◌<◌, ◌≤◌, ◌≡◌, ◌≢◌, ◌⊎◌, inl, inr, refl, sym, ◌==◌, Option, none, some, ◌>>=◌, List, [], ◌∷◌,
  Bytes, codes, length, All, arith, Bool-cases,
}
use jos.Base.Memory.{Memory, CString}
use jos.Strings.Compare.Laws.{IsByte, strcmp_lem}
use jos.Disk.Sections.{
  Kind, debug_info, debug_abbrev, debug_frame, debug_line, debug_str, Names, tested, find_section,
  classify,
}

abbrev pub label : Kind → Bytes
label debug_info = codes ".debug_info"
label debug_abbrev = codes ".debug_abbrev"
label debug_frame = codes ".eh_frame"
label debug_line = codes ".debug_line"
label debug_str = codes ".debug_str"

-- The literals stand in memory.
abbrev pub AreNames : Memory → Names → Type 0
AreNames m names = (k : Kind) → CString m (names k) (label k)

label-IsByte : (k : Kind) → All IsByte (label k)
label-IsByte debug_info = ground arith
label-IsByte debug_abbrev = ground arith
label-IsByte debug_frame = ground arith
label-IsByte debug_line = ground arith
label-IsByte debug_str = ground arith

length-label : (k : Kind) → length (label k) ≤ 13
length-label debug_info = ground arith
length-label debug_abbrev = ground arith
length-label debug_frame = ground arith
length-label debug_line = ground arith
length-label debug_str = ground arith

-- The first kind of the list with this name, if there is one.
abbrev pub First : Option Kind → Bytes → List Kind → Type 0
First f word [] = f ≡ none
First f word (k ∷ ks) = ((word ≡ label k) × (f ≡ some k)) ⊎ ((word ≢ label k) × First f word ks)

pub classify_lem :
    (fuel : ℕ) (m : Memory) (names : Names) (name : ℕ) (word : Bytes) (ks : List Kind)
    → CString m name word
    → All IsByte word
    → AreNames m names
    → length word < fuel
    → (f : Option Kind) × (classify fuel m names name ks ≡ some f) × First f word ks
unfolding classify
classify_lem fuel m names name word [] h bytes lits lt = (none, refl, refl)
classify_lem fuel m names name word (k ∷ ks) h bytes lits lt =
    let (r, run, order) =
      strcmp_lem fuel m name (names k) word (label k) h (lits k) bytes (label-IsByte k) lt in
    elim (Bool-cases (r == 0)) [
      | inl e ↦ (some k, rw (classify, run, ◌>>=◌, e) refl, inl (order.0.0 (ground arith), refl))
      | inr e ↦
          let (f, found, first) = classify_lem fuel m names name word ks h bytes lits lt in
          (
            f,
            rw (classify, run, ◌>>=◌, e) found,
            inr ((λ same. let z = order.0.1 same in ground arith), first),
          )
    ]

-- The names differ, so each is the first of its kind.
pub First-label : (f : Option Kind) (k : Kind) → First f (label k) tested → f ≡ some k
First-label f debug_info (inl h) = h.1
First-label f debug_info (inr h) = absurd (h.0 refl)
First-label f debug_abbrev h = ground arith
First-label f debug_line h = ground arith
First-label f debug_frame h = ground arith
First-label f debug_str h = ground arith

-- For a string in memory, with fuel of at least 14, _dwarf_find_section returns the entry of the table
-- that has the string as its name, and NULL where no entry has.
pub find_section_lem :
    (fuel : ℕ) (m : Memory) (names : Names) (name : ℕ) (word : Bytes) (ks : List Kind)
    → CString m name word
    → All IsByte word
    → AreNames m names
    → 13 < fuel
    → (f : Option Kind) × (find_section fuel m names name ks ≡ some f) × First f word ks
unfolding find_section
find_section_lem fuel m names name word [] h bytes lits lt = (none, refl, refl)
find_section_lem fuel m names name word (k ∷ ks) h bytes lits lt =
    let size = length-label k in
    let (r, run, order) =
      strcmp_lem fuel m (names k) name (label k) word (lits k) h (label-IsByte k) bytes
        (omega arith) in
    elim (Bool-cases (r == 0)) [
      | inl e ↦ (
        some k,
        rw (find_section, run, ◌>>=◌, e) refl,
        inl (sym (order.0.0 (ground arith)), refl),
      )
      | inr e ↦
          let (f, found, first) = find_section_lem fuel m names name word ks h bytes lits lt in
          (
            f,
            rw (find_section, run, ◌>>=◌, e) found,
            inr ((λ same. let z = order.0.1 (sym same) in ground arith), first),
          )
    ]
