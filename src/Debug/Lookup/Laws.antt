-- ===== src/Debug/Lookup/Laws.antt =====
-- debuginfo_rip finds the first entry that covers the address.
use jos.Base.{
  ℕ, zero, suc, ◌+◌, ◌<◌, ◌≤◌, ◌≡◌, ◌≢◌, inl, inr, refl, ◌∙◌, false, ◌==◌, ltb, Option, none, some,
  ◌>>=◌, List, [], ◌∷◌, length, arith, Option-cases,
}
use jos.Debug.Library.{Dbg, Dwarf}
use jos.Debug.Function.{Ripdebuginfo, dle_no_entry, list_func_die}
use jos.Debug.Lookup.Dies.{Siblings, first_cover, search_dies-none, search_dies-some}
use jos.Debug.Lookup.{
  ulim, kernel_elf, found, not_found, unknown, InfoSection, Locals, search_units, debuginfo_rip,
}

module _ (lib : Dwarf) where
  open lib use {Rest, Cu, Die, init, get_next_cu, siblingof, child}

  -- A unit with entries below its first one, `cudie`, or with none; `dbg` is the library's state behind
  -- the unit's header.
  pub record CompiledUnit : Type 0 where
    pub dbg : Dbg Rest
    pub cu : Cu
    pub cudie : Die
    pub dies : List Die

  abbrev pub Children : Dbg Rest → Cu → Die → List Die → Type 0
  Children dbg cu cudie [] = (prev : Die) → (child dbg cu cudie prev).0 ≡ dle_no_entry
  Children dbg cu cudie (d ∷ ds) =
      ((prev : Die)
        → ((child dbg cu cudie prev).0 ≢ dle_no_entry) × ((child dbg cu cudie prev).1 ≡ d))
      × Siblings lib dbg cu d ds

  -- The units that the library hands out from the state `dbg` on, to the last.
  abbrev pub Units : Dbg Rest → List CompiledUnit → Type 0
  Units dbg [] = (prev : Cu) → (get_next_cu dbg prev).0 ≢ 0
  Units dbg (u ∷ us) =
      ((prev : Cu)
        → ((get_next_cu dbg prev).0 ≡ 0)
          × ((get_next_cu dbg prev).1 ≡ u.cu)
          × ((get_next_cu dbg prev).2 ≡ u.dbg))
      × ((prev : Die)
          → ((siblingof u.dbg none prev u.cu).0 ≢ dle_no_entry)
            × ((siblingof u.dbg none prev u.cu).1 ≡ u.cudie))
      × Children u.dbg u.cu u.cudie u.dies
      × Units u.dbg us

  -- The first function round the address, with its unit.
  unfoldable pub first_unit : ℕ → List CompiledUnit → Option (CompiledUnit × Die)
  unfolding first_cover
  first_unit addr [] = none
  first_unit addr (u ∷ us) = elim (first_cover lib addr u.dies) [
    | some d ↦ some (u, d)
    | none ↦ first_unit addr us
  ]

  -- The rounds that a search of the units needs.
  abbrev pub size_of : List CompiledUnit → ℕ
  size_of [] = 0
  size_of (u ∷ us) = suc (length u.dies + size_of us)

  -- The library's first answers for a unit.
  abbrev Opens : Dbg Rest → Dbg Rest → Cu → Die → Type 0
  Opens dbg dbg' cu cudie =
      ((prev : Cu)
        → ((get_next_cu dbg prev).0 ≡ 0)
          × ((get_next_cu dbg prev).1 ≡ cu)
          × ((get_next_cu dbg prev).2 ≡ dbg'))
      × ((prev : Die)
          → ((siblingof dbg' none prev cu).0 ≢ dle_no_entry)
            × ((siblingof dbg' none prev cu).1 ≡ cudie))

  -- A unit in which no entry covers the address is passed over.
  round_none :
      (rounds fuel : ℕ) (dbg dbg' : Dbg Rest) (cu : Cu) (cudie : Die) (dies : List Die)
      (l : Locals lib) (addr : ℕ) (info : Ripdebuginfo)
      → Opens dbg dbg' cu cudie
      → Children dbg' cu cudie dies
      → length dies < suc rounds
      → first_cover lib addr dies ≡ none
      → (l' : Locals lib) × (search_units lib (suc rounds) fuel dbg l addr info
          ≡ search_units lib rounds fuel dbg' l' addr info)
        × (l'.ret ≡ l.ret)
  unfolding search_units
  round_none rounds fuel dbg dbg' cu cudie [] l addr info (next, first) below lt miss =
      let die = (child dbg' cu cudie l.die).1 in
      let cudie_found : ((siblingof dbg' none l.cudie cu).0 == dle_no_entry) ≡ false =
        (let n = (first l.cudie).0 in ground arith) in
      let e = (first l.cudie).1 in
      (
        record l { cu = cu; cudie = cudie; die = die },
        rw
            (
              search_units,
              (next l.cu).0,
              (next l.cu).1,
              (next l.cu).2,
              cudie_found,
              (next l.cu).1,
              (next l.cu).2,
              e,
              below l.die,
              (next l.cu).1,
              (next l.cu).2,
              e,
            )
            refl,
        refl,
      )
  round_none rounds fuel dbg dbg' cu cudie (d ∷ ds) l addr info (next, first) (child_is, chain) lt
        miss =
      let cudie_found : ((siblingof dbg' none l.cudie cu).0 == dle_no_entry) ≡ false =
        (let n = (first l.cudie).0 in ground arith) in
      let die_found : ((child dbg' cu cudie l.die).0 == dle_no_entry) ≡ false =
        (let n = (child_is l.die).0 in ground arith) in
      let (l', run, same) =
        search_dies-none lib rounds fuel dbg' (record l { cu = cu; cudie = cudie; die = d }) ds addr
          info chain (omega arith) miss in
      (
        l',
        rw
            (
              search_units,
              (next l.cu).0,
              (next l.cu).1,
              (next l.cu).2,
              cudie_found,
              (next l.cu).1,
              (next l.cu).2,
              (first l.cudie).1,
              die_found,
              (next l.cu).1,
              (next l.cu).2,
              (first l.cudie).1,
              (child_is l.die).1,
              run,
              ◌>>=◌,
              (next l.cu).2,
            )
            refl,
        same,
      )

  -- A unit with an entry that covers the address ends the search.
  round_some :
      (rounds fuel : ℕ) (dbg dbg' : Dbg Rest) (cu : Cu) (cudie : Die) (dies : List Die)
      (l : Locals lib) (addr : ℕ) (info info' : Ripdebuginfo) (x : Die)
      → Opens dbg dbg' cu cudie
      → Children dbg' cu cudie dies
      → length dies < suc rounds
      → first_cover lib addr dies ≡ some x
      → list_func_die lib fuel l.ret dbg' cu cudie x addr info ≡ some (1, info')
      → search_units lib (suc rounds) fuel dbg l addr info ≡ some (found info')
  unfolding search_units first_cover
  round_some rounds fuel dbg dbg' cu cudie [] l addr info info' x opens below lt hit run =
      ground arith
  round_some rounds fuel dbg dbg' cu cudie (d ∷ ds) l addr info info' x (next, first)
        (child_is, chain) lt hit run =
      let cudie_found : ((siblingof dbg' none l.cudie cu).0 == dle_no_entry) ≡ false =
        (let n = (first l.cudie).0 in ground arith) in
      let die_found : ((child dbg' cu cudie l.die).0 == dle_no_entry) ≡ false =
        (let n = (child_is l.die).0 in ground arith) in
      let (l', found_run) =
        search_dies-some lib rounds fuel dbg' (record l { cu = cu; cudie = cudie; die = d }) ds addr
          info info' x chain (omega arith) hit run in
      rw
        (
          search_units,
          (next l.cu).0,
          (next l.cu).1,
          (next l.cu).2,
          cudie_found,
          (next l.cu).1,
          (next l.cu).2,
          (first l.cudie).1,
          die_found,
          (next l.cu).1,
          (next l.cu).2,
          (first l.cudie).1,
          (child_is l.die).1,
          found_run,
          ◌>>=◌,
        )
        refl

  search_units-none :
      (rounds fuel : ℕ) (dbg : Dbg Rest) (l : Locals lib) (us : List CompiledUnit) (addr : ℕ)
      (info : Ripdebuginfo)
      → Units dbg us
      → size_of us < rounds
      → first_unit addr us ≡ none
      → search_units lib rounds fuel dbg l addr info ≡ some (not_found info)
  unfolding search_units first_unit
  search_units-none zero fuel dbg l us addr info h lt miss = absurd (omega arith)
  search_units-none (suc rounds) fuel dbg l [] addr info h lt miss =
      let over : ((get_next_cu dbg l.cu).0 == 0) ≡ false = (let n = h l.cu in ground arith) in
      rw (search_units, over) refl
  search_units-none (suc rounds) fuel dbg l (u ∷ us) addr info (next, first, below, h) lt miss =
      let none_here : first_cover lib addr u.dies ≡ none = ground arith in
      let none_later : first_unit addr us ≡ none = ground arith in
      let (l', step, same) =
        round_none rounds fuel dbg u.dbg u.cu u.cudie u.dies l addr info (next, first) below
          (omega arith) none_here in
      step ∙ search_units-none rounds fuel u.dbg l' us addr info h (omega arith) none_later

  search_units-some :
      (rounds fuel : ℕ) (dbg : Dbg Rest) (l : Locals lib) (us : List CompiledUnit) (addr : ℕ)
      (info info' : Ripdebuginfo) (u : CompiledUnit) (x : Die)
      → Units dbg us
      → size_of us < rounds
      → first_unit addr us ≡ some (u, x)
      → list_func_die lib fuel l.ret u.dbg u.cu u.cudie x addr info ≡ some (1, info')
      → search_units lib rounds fuel dbg l addr info ≡ some (found info')
  unfolding search_units first_unit
  search_units-some zero fuel dbg l us addr info info' v x h lt hit run = absurd (omega arith)
  search_units-some (suc rounds) fuel dbg l [] addr info info' v x h lt hit run = ground arith
  search_units-some (suc rounds) fuel dbg l (u ∷ us) addr info info' v x (next, first, below, h) lt
        hit run =
      elim (Option-cases (first_cover lib addr u.dies)) [
        | inl e ↦
            let later : first_unit addr us ≡ some (v, x) = rw (first_unit, e) at hit in
            let (l', step, same) =
              round_none rounds fuel dbg u.dbg u.cu u.cudie u.dies l addr info (next, first) below
                (omega arith) e in
            step
            ∙ search_units-some rounds fuel u.dbg l' us addr info info' v x h (omega arith) later
                (rw same run)
        | inr (d, e) ↦
            let here : ◌≡◌ {A = Option (CompiledUnit × Die)} (some (u, d)) (some (v, x)) =
              rw (first_unit, e) at hit in
            let same_unit : u ≡ v = cc in
            let same_die : d ≡ x = cc in
            round_some rounds fuel dbg u.dbg u.cu u.cudie u.dies l addr info info' x (next, first)
              below (omega arith) (rw same_die at e) (rw same_unit run)
      ]

  -- For an address of the kernel and a section that is not empty, with rounds above the number of
  -- units and entries: if no entry of the units is a function round the address, debuginfo_rip
  -- returns -1 and reports an unknown function of no arguments at the address itself.
  pub debuginfo_rip_misses :
      (rounds fuel : ℕ) (sect : InfoSection) (l : Locals lib) (us : List CompiledUnit) (addr : ℕ)
      (info : Ripdebuginfo)
      → ulim ≤ addr
      → sect.ds_size ≢ 0
      → Units
          (record (init kernel_elf) { info_offset_elf = sect.ds_data; info_size = sect.ds_size })
          us
      → size_of us < rounds
      → first_unit addr us ≡ none
      → debuginfo_rip lib rounds fuel sect l addr info ≡ some (not_found (unknown addr info))
  unfolding debuginfo_rip
  debuginfo_rip_misses rounds fuel sect l us addr info kernel size h lt miss =
      let above : ltb addr ulim ≡ false = ground arith in
      let some_bytes : (sect.ds_size == 0) ≡ false = ground arith in
      rw (above, some_bytes)
        (search_units-none rounds fuel _ l us addr (unknown addr info) h lt miss)

  -- For an address of the kernel and a section that is not empty, with rounds above the number of
  -- units and entries: if an entry of the units is a function round the address, and list_func_die
  -- returns for the first one, in the order of the units and of the entries in them, then debuginfo_rip
  -- returns 0 and reports what list_func_die reports.
  pub debuginfo_rip_finds :
      (rounds fuel : ℕ) (sect : InfoSection) (l : Locals lib) (us : List CompiledUnit) (addr : ℕ)
      (info info' : Ripdebuginfo) (u : CompiledUnit) (x : Die)
      → ulim ≤ addr
      → sect.ds_size ≢ 0
      → Units
          (record (init kernel_elf) { info_offset_elf = sect.ds_data; info_size = sect.ds_size })
          us
      → size_of us < rounds
      → first_unit addr us ≡ some (u, x)
      → list_func_die lib fuel l.ret u.dbg u.cu u.cudie x addr (unknown addr info) ≡ some (1, info')
      → debuginfo_rip lib rounds fuel sect l addr info ≡ some (found info')
  unfolding debuginfo_rip
  debuginfo_rip_finds rounds fuel sect l us addr info info' u x kernel size h lt hit run =
      let above : ltb addr ulim ≡ false = ground arith in
      let some_bytes : (sect.ds_size == 0) ≡ false = ground arith in
      rw (above, some_bytes)
        (search_units-some rounds fuel _ l us addr (unknown addr info) info' u x h lt hit run)
