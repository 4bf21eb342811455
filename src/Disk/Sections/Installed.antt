-- ===== src/Disk/Sections/Installed.antt =====
-- The table of debug sections when the loop of read_section_headers is through.
use jos.Base.{
  ℕ, ◌+◌, ◌%◌, ◌^◌, ◌≤◌, ◌<◌, ◌≡◌, ◌≢◌, ◌⊎◌, inl, inr, refl, sym, ap, ◌∙◌, ◌==◌, true, some, ◌>>=◌,
  List, [], ◌∷◌, u64, arith, length,
}
use jos.Base.Memory.{Memory, CString, CString-congr}
use jos.Console.Ports.{Device}
use jos.Disk.Port.{Sectors}
use jos.Disk.Port.Laws.{IsReady}
use jos.Disk.Sections.{
  Kind, debug_info, debug_abbrev, debug_frame, debug_line, debug_str, Section, Names, tested,
  sh_name, Loading, place_section, section_step, section_loop,
}
use jos.Disk.Sections.Labels.{label, classify_lem}
use jos.Disk.Sections.Laws.{Holds}
use jos.Disk.Sections.Loop.{
  Header, IsHeader, AreHeaders, AreHeaders-congr, IsEntry, Stepped, place_Stepped,
}

-- The five literals stand in memory below `floor`.
unfoldable pub AreNamesBelow : ℕ → Memory → Names → Type 0
AreNamesBelow floor m names =
    (k : Kind) → CString m (names k) (label k) × (names k + length (label k) < floor)

-- No header has the name of `k`.
abbrev pub Absent : Kind → List Header → Type 0
Absent k [] = Unit
Absent k (x ∷ xs) = (x.word ≢ label k) × Absent k xs

-- `x` is the last header with the name of `k`.
abbrev pub IsLast : Kind → Header → List Header → Type 0
IsLast k x [] = ⊥
IsLast k x (y ∷ ys) = ((x ≡ y) × (x.word ≡ label k) × Absent k ys) ⊎ IsLast k x ys

-- What the headers add to `*kvoffset` at most.
unfoldable pub total : List Header → ℕ
total [] = 0
total (x ∷ xs) = x.size + 2048 + total xs

-- What the loop does for the headers `xs`.
pub record Installed (sectors : Sectors) (kvbase : ℕ) (xs : List Header) (st st' : Loading)
    : Type 0 where
  pub grows : st.kvoffset ≤ st'.kvoffset
  pub bounded : st'.kvoffset ≤ st.kvoffset + total xs
  pub kept : (a : ℕ) → a < kvbase + st.kvoffset → st'.machine.mem a ≡ st.machine.mem a
  pub others : (k : Kind) → Absent k xs → st'.table k ≡ st.table k
  pub entry :
      (k : Kind) (x : Header)
      → IsLast k x xs
      → IsEntry sectors k x
          (kvbase + st.kvoffset)
          (kvbase + st'.kvoffset)
          st'.machine.mem
          (st'.table k)

Holds-widen :
    (sectors : Sectors) (offset size low low' high high' : ℕ) (m m' : Memory) (e : Section)
    → low' ≤ low
    → high ≤ high'
    → ((a : ℕ) → a < high → m' a ≡ m a)
    → Holds sectors offset size low high m e
    → Holds sectors offset size low' high' m' e
Holds-widen sectors offset size low low' high high' m m' e l h same held = record {
  sized = held.sized;
  placed = held.placed;
  above = omega (arith, held.above);
  below = λ i lt. omega (arith, held.below i lt);
  bytes = λ i lt. same _ (held.below i lt) ∙ held.bytes i lt;
}

pub IsEntry-widen :
    (sectors : Sectors) (k : Kind) (x : Header) (low low' high high' : ℕ) (m m' : Memory)
    (e : Section)
    → low' ≤ low
    → high ≤ high'
    → ((a : ℕ) → a < high → m' a ≡ m a)
    → IsEntry sectors k x low high m e
    → IsEntry sectors k x low' high' m' e
IsEntry-widen sectors debug_frame x low low' high high' m m' e l h same held = held
IsEntry-widen sectors debug_info x low low' high high' m m' e l h same held =
    Holds-widen sectors x.offset x.size low low' high high' m m' e l h same held
IsEntry-widen sectors debug_abbrev x low low' high high' m m' e l h same held =
    Holds-widen sectors x.offset x.size low low' high high' m m' e l h same held
IsEntry-widen sectors debug_line x low low' high high' m m' e l h same held =
    Holds-widen sectors x.offset x.size low low' high high' m m' e l h same held
IsEntry-widen sectors debug_str x low low' high high' m m' e l h same held =
    Holds-widen sectors x.offset x.size low low' high high' m m' e l h same held

-- A round in front of the others.
Installed-cons :
    (sectors : Sectors) (kvbase : ℕ) (x : Header) (xs : List Header) (st st₁ st' : Loading)
    → Stepped sectors kvbase x st st₁
    → Installed sectors kvbase xs st₁ st'
    → Installed sectors kvbase (x ∷ xs) st st'
unfolding total
Installed-cons sectors kvbase x xs st st₁ st' one rest =
    let up = one.grows in
    let up' = rest.grows in
    record {
      grows = omega arith;
      bounded = omega (arith, one.bounded, rest.bounded);
      kept = λ a lt. rest.kept a (omega arith) ∙ one.kept a lt;
      others = λ k gone. rest.others k gone.1 ∙ one.others k gone.0;
      entry = λ k y last. elim last [
        | inl (e, named, gone) ↦
            rw (rest.others k gone, e)
              (IsEntry-widen sectors k x (kvbase + st.kvoffset) (kvbase + st.kvoffset)
                (kvbase + st₁.kvoffset) (kvbase + st'.kvoffset) st₁.machine.mem st'.machine.mem
                (st₁.table k) (omega arith) (omega arith) rest.kept
                (one.entry k (ap (λ z. z.word) (sym e) ∙ named)))
        | inr later ↦
            IsEntry-widen sectors k y (kvbase + st₁.kvoffset) (kvbase + st.kvoffset)
              (kvbase + st'.kvoffset) (kvbase + st'.kvoffset) st'.machine.mem st'.machine.mem
              (st'.table k) (omega arith) (omega arith) (λ a lt. refl) (rest.entry k y later)
      ];
    }

Installed-nil : (sectors : Sectors) (kvbase : ℕ) (st : Loading) → Installed sectors kvbase [] st st
unfolding total
Installed-nil sectors kvbase st = record {
  grows = omega arith;
  bounded = omega arith;
  kept = λ a lt. refl;
  others = λ k gone. refl;
  entry = λ k x last. absurd last;
}

module _ (dev : Device) (sectors : Sectors) (names : Names) where
  section_step_lem :
      (fuel kvbase floor nametab h : ℕ) (x : Header) (st : Loading)
      → IsReady dev
      → kvbase % 512 ≡ 0
      → st.kvoffset % 512 ≡ 0
      → floor ≤ kvbase + st.kvoffset
      → kvbase + st.kvoffset + x.size + 2048 < 2 ^ 64
      → AreNamesBelow floor st.machine.mem names
      → IsHeader fuel floor nametab h st.machine.mem x
      → (st' : Loading) × (section_step dev sectors names fuel kvbase nametab h st ≡ some st')
        × Stepped sectors kvbase x st st'
  unfolding section_step AreNamesBelow
  section_step_lem fuel kvbase floor nametab h x st ready base start fl memory lits g =
      let check : (st.kvoffset % 512 == 0) ≡ true = ground arith in
      let (f, found, first) =
        classify_lem fuel st.machine.mem names (u64 (nametab + sh_name st.machine.mem h)) x.word
          tested g.name g.letters (λ k. (lits k).0) g.short in
      let (st', run, stepped) =
        place_Stepped dev sectors names fuel kvbase floor nametab h f x st ready base start memory g
          fl first in
      (
        st',
        rw check
            (ap (λ o. o >>= λ k. place_section dev sectors names fuel kvbase h k st) found ∙ run),
        stepped,
      )

  -- On a disk that is always ready, the loop over headers that stand with their names and the five
  -- literals below the bytes to be written, with fuel for each section and no number that overflows,
  -- runs to its end and passes its assertions: for the last header with the name of a debug section,
  -- the table's entry has the section's size and the address of a copy of the section's bytes in the
  -- kernel's image, or, for .eh_frame, the address in the header; the copies lie in memory behind
  -- `kvbase + kvoffset`, below which nothing changes; and an entry whose name no header has stays.
  pub section_loop_lem :
      (fuel kvbase floor nametab h : ℕ) (xs : List Header) (st : Loading)
      → IsReady dev
      → kvbase % 512 ≡ 0
      → st.kvoffset % 512 ≡ 0
      → floor ≤ kvbase + st.kvoffset
      → kvbase + st.kvoffset + total xs + 2048 < 2 ^ 64
      → AreNamesBelow floor st.machine.mem names
      → AreHeaders fuel floor nametab h st.machine.mem xs
      → (st' : Loading) × (section_loop dev sectors names (length xs) fuel kvbase nametab h st
          ≡ some st')
        × Installed sectors kvbase xs st st'
  unfolding section_loop AreNamesBelow total
  section_loop_lem fuel kvbase floor nametab h [] st ready base start fl memory lits gs =
      (st, refl, Installed-nil sectors kvbase st)
  section_loop_lem fuel kvbase floor nametab h (x ∷ xs) st ready base start fl memory lits (g, gs) =
      let (st₁, run₁, one) =
        section_step_lem fuel kvbase floor nametab h x st ready base start fl (omega arith) lits
          g in
      let same : (a : ℕ) → a < floor → st₁.machine.mem a ≡ st.machine.mem a =
        λ a lt. one.kept a (omega arith) in
      let (st', run, rest) =
        section_loop_lem fuel kvbase floor nametab (h + 64) xs st₁ ready base one.start
          (omega (arith, one.grows)) (omega (arith, one.bounded))
          (λ k. (
            CString-congr st.machine.mem st₁.machine.mem (names k) (label k)
                (λ a lo hi. same a (let b = (lits k).1 in omega arith)) (lits k).0,
            (lits k).1,
          ))
          (AreHeaders-congr fuel floor nametab (h + 64) st.machine.mem st₁.machine.mem xs same
            gs) in
      (
        st',
        ap
              (λ o. o >>= λ st₂.
                section_loop dev sectors names (length xs) fuel kvbase nametab (h + 64) st₂)
              run₁
            ∙ run,
        Installed-cons sectors kvbase x xs st st₁ st' one rest,
      )
