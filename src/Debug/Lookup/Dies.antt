-- ===== src/Debug/Lookup/Dies.antt =====
-- The search in the entries of one unit.
use jos.Base.{
  ℕ, zero, suc, ◌<◌, ◌≡◌, inl, inr, refl, true, false, if◌then◌else◌, is_neg32, Option, none, some,
  ◌>>=◌, List, [], ◌∷◌, length, arith, Bool-cases,
}
use jos.Debug.Library.{Dbg, Dwarf}
use jos.Debug.Function.{Ripdebuginfo, covers, list_func_die}
use jos.Debug.Function.Laws.{list_func_die-eq-zero}
use jos.Debug.Lookup.{Locals, search_dies}

module _ (lib : Dwarf) where
  open lib use {Rest, Cu, Die, init, get_next_cu, siblingof, child}

  -- The entries of a unit behind the entry `d`, whatever the structures held before.
  abbrev pub Siblings : Dbg Rest → Cu → Die → List Die → Type 0
  Siblings dbg cu d [] = (prev : Die) → is_neg32 (siblingof dbg (some d) prev cu).0 ≡ true
  Siblings dbg cu d (e ∷ es) =
      ((prev : Die)
        → (is_neg32 (siblingof dbg (some d) prev cu).0 ≡ false)
          × ((siblingof dbg (some d) prev cu).1 ≡ e))
      × Siblings dbg cu e es

  -- The first entry that is a function round the address.
  unfoldable pub first_cover : ℕ → List Die → Option Die
  first_cover addr [] = none
  first_cover addr (d ∷ ds) = if covers lib d addr then some d else first_cover addr ds

  -- What a search of a unit's entries finds.
  pub search_dies-none :
      (rounds fuel : ℕ) (dbg : Dbg Rest) (l : Locals lib) (ds : List Die) (addr : ℕ)
      (info : Ripdebuginfo)
      → Siblings dbg l.cu l.die ds
      → length ds < rounds
      → first_cover addr (l.die ∷ ds) ≡ none
      → (l' : Locals lib) × (search_dies lib rounds fuel dbg l addr info ≡ some (none, l'))
        × (l'.ret ≡ l.ret)
  unfolding search_dies first_cover
  search_dies-none zero fuel dbg l ds addr info h lt miss = absurd (omega arith)
  search_dies-none (suc rounds) fuel dbg l [] addr info h lt miss =
      let c : covers lib l.die addr ≡ false = ground arith in
      let zero_result = list_func_die-eq-zero lib fuel l.ret dbg l.cu l.cudie l.die addr info c in
      (
        record l { die2 = (siblingof dbg (some l.die) l.die2 l.cu).1 },
        rw (search_dies, zero_result, ◌>>=◌, h l.die2) refl,
        refl,
      )
  search_dies-none (suc rounds) fuel dbg l (e ∷ es) addr info (step, h) lt miss =
      let c : covers lib l.die addr ≡ false = ground arith in
      let miss' : first_cover addr (e ∷ es) ≡ none = ground arith in
      let zero_result = list_func_die-eq-zero lib fuel l.ret dbg l.cu l.cudie l.die addr info c in
      let (l', run, same) =
        search_dies-none rounds fuel dbg (record l { die2 = e; die = e }) es addr info h
          (omega arith) miss' in
      (l', rw (search_dies, zero_result, ◌>>=◌, (step l.die2).0, (step l.die2).1) run, same)

  pub search_dies-some :
      (rounds fuel : ℕ) (dbg : Dbg Rest) (l : Locals lib) (ds : List Die) (addr : ℕ)
      (info info' : Ripdebuginfo) (x : Die)
      → Siblings dbg l.cu l.die ds
      → length ds < rounds
      → first_cover addr (l.die ∷ ds) ≡ some x
      → list_func_die lib fuel l.ret dbg l.cu l.cudie x addr info ≡ some (1, info')
      → (l' : Locals lib) × (search_dies lib rounds fuel dbg l addr info ≡ some (some info', l'))
  unfolding search_dies first_cover
  search_dies-some zero fuel dbg l ds addr info info' x h lt hit run = absurd (omega arith)
  search_dies-some (suc rounds) fuel dbg l [] addr info info' x h lt hit run =
      let e : l.die ≡ x = ground arith in
      let run' : list_func_die lib fuel l.ret dbg l.cu l.cudie l.die addr info ≡ some (1, info') =
        rw e run in
      (l, rw (search_dies, run', ◌>>=◌) refl)
  search_dies-some (suc rounds) fuel dbg l (d ∷ ds) addr info info' x (step, h) lt hit run =
      elim (Bool-cases (covers lib l.die addr)) [
        | inl c ↦
            let e : l.die ≡ x = ground arith in
            let run' : list_func_die lib fuel l.ret dbg l.cu l.cudie l.die addr info
                ≡ some (1, info') =
              rw e run in
            (l, rw (search_dies, run', ◌>>=◌) refl)
        | inr c ↦
            let zero_result =
              list_func_die-eq-zero lib fuel l.ret dbg l.cu l.cudie l.die addr info c in
            let hit' : first_cover addr (d ∷ ds) ≡ some x = ground arith in
            let (l', rest) =
              search_dies-some rounds fuel dbg (record l { die2 = d; die = d }) ds addr info info' x
                h (omega arith) hit' run in
            (l', rw (search_dies, zero_result, ◌>>=◌, (step l.die2).0, (step l.die2).1) rest)
      ]
