-- ===== src/Debug/Function/Laws.antt =====
-- What list_func_die reports of a function.
use jos.Base.{
  ℕ, zero, suc, ◌+◌, ◌<◌, ◌≡◌, ◌≢◌, ◌⊎◌, refl, true, false, not, ◌&&◌, ◌==◌, some, ◌>>=◌, List, [],
  ◌∷◌, length, arith,
}
use jos.Debug.Library.{Dbg, Dwarf}
use jos.Debug.Function.{
  Ripdebuginfo, tag_formal_parameter, at_low_pc, at_type, dle_no_entry, value_of, add_arg,
  type_size, next_size, further_args, list_args, describe, covers, list_func_die,
}

-- What the calls for the arguments leave alone.
abbrev pub SameFunction : Ripdebuginfo → Ripdebuginfo → Type 0
SameFunction a b =
    (b.file ≡ a.file)
    × (b.line ≡ a.line)
    × (b.fn_name ≡ a.fn_name)
    × (b.fn_namelen ≡ a.fn_namelen)
    × (b.fn_addr ≡ a.fn_addr)

module _ (lib : Dwarf) where
  open lib use {Rest, Cu, Die, tag, name, attr_find, siblingof, child, srclines}

  -- Behind the parameter `d` come the parameters `ds`, and then none.
  abbrev pub FollowedBy : Dbg Rest → Cu → Die → List Die → Type 0
  FollowedBy dbg cu d [] =
      (((siblingof dbg (some d) d cu).0 == 0)
        && (tag (siblingof dbg (some d) d cu).1 == tag_formal_parameter))
      ≡ false
  FollowedBy dbg cu d (e ∷ es) =
      ((siblingof dbg (some d) d cu).0 ≡ 0)
      × ((siblingof dbg (some d) d cu).1 ≡ e)
      × (tag e ≡ tag_formal_parameter)
      × FollowedBy dbg cu e es

  -- The first entries below `die` that are parameters; the size of the first one's type is found.
  abbrev pub HasArgs : ℕ → Dbg Rest → Cu → Die → Die → List Die → Type 0
  HasArgs fuel dbg cu die ret [] =
      ((child dbg cu die ret).0 ≡ dle_no_entry)
      ⊎ (tag (child dbg cu die ret).1 ≢ tag_formal_parameter)
  HasArgs fuel dbg cu die ret (d ∷ ds) =
      ((child dbg cu die ret).0 ≢ dle_no_entry)
      × ((child dbg cu die ret).1 ≡ d)
      × (tag d ≡ tag_formal_parameter)
      × ((size : ℕ) × (type_size lib fuel dbg cu (attr_find d at_type) die 8 ≡ some size))
      × FollowedBy dbg cu d ds

  further_args_lem :
      (fuel : ℕ) (dbg : Dbg Rest) (cu : Cu) (d : Die) (ds : List Die) (size : ℕ)
      (info : Ripdebuginfo)
      → FollowedBy dbg cu d ds
      → length ds < fuel
      → (info' : Ripdebuginfo) × (further_args lib fuel dbg cu d size info ≡ some info')
        × (info'.fn_narg ≡ info.fn_narg + length ds)
        × SameFunction info info'
  unfolding further_args add_arg
  further_args_lem zero dbg cu d ds size info h lt = absurd (omega arith)
  further_args_lem (suc fuel) dbg cu d [] size info h lt =
      (info, rw (h, further_args) refl, omega arith, (refl, refl, refl, refl, refl))
  further_args_lem (suc fuel) dbg cu d (e ∷ es) size info (ok, same, param, rest) lt =
      let both : ((siblingof dbg (some d) d cu).0 == 0)
            && (tag (siblingof dbg (some d) d cu).1 == tag_formal_parameter)
          ≡ true =
        rw (ok, same, param) refl in
      let size' = next_size lib dbg cu (attr_find e at_type) d size in
      let (info', run, count, kept) =
        further_args_lem fuel dbg cu e es size' (add_arg size' info) rest (omega arith) in
      (info', rw (further_args, both, same) run, omega (arith, count), kept)

  -- A function's entry that covers the address, with a list of parameters below it, first to last, and
  -- fuel above their number: list_func_die returns 1. It reports the names of the function and of the
  -- unit, the name's length, the line that the library gives, the function's lowest address, and as
  -- many arguments as there are parameters. The library finds the size of the first one's type.
  pub list_func_die_lem :
      (fuel : ℕ) (ret : Die) (dbg : Dbg Rest) (cu : Cu) (cudie die : Die) (addr : ℕ)
      (info : Ripdebuginfo) (ds : List Die)
      → covers lib die addr ≡ true
      → HasArgs fuel dbg cu die ret ds
      → length ds < fuel
      → (info' : Ripdebuginfo) × (list_func_die lib fuel ret dbg cu cudie die addr info
          ≡ some (1, info'))
        × (info'.fn_narg ≡ length ds)
        × (info'.file ≡ name cudie)
        × (info'.line ≡ srclines cudie addr)
        × (info'.fn_name ≡ name die)
        × (info'.fn_namelen ≡ length (name die))
        × (info'.fn_addr ≡ value_of (attr_find die at_low_pc))
  unfolding list_func_die list_args describe add_arg
  list_func_die_lem fuel ret dbg cu cudie die addr info [] c h lt =
      let start = describe lib die cudie addr info in
      let run : list_args lib fuel dbg cu die (child dbg cu die ret) start ≡ some start =
        ground arith in
      (start, rw (c, run, ◌>>=◌) refl, refl, refl, refl, refl, refl, refl)
  list_func_die_lem fuel ret dbg cu cudie die addr info (d ∷ ds) c
        (ok, same, param, (size, found), rest) lt =
      let start = describe lib die cudie addr info in
      let (info', run, count, kept) =
        further_args_lem fuel dbg cu d ds size (add_arg size start) rest (omega arith) in
      let more : ((child dbg cu die ret).0 == dle_no_entry) ≡ false = ground arith in
      let param' : not (tag (child dbg cu die ret).1 == tag_formal_parameter) ≡ false =
        rw (same, param) refl in
      let all : list_args lib fuel dbg cu die (child dbg cu die ret) start ≡ some info' =
        rw (list_args, more, param', same, found, ◌>>=◌) run in
      (info', rw (c, all, ◌>>=◌) refl, omega (arith, count), kept.0, kept.1, kept.2, kept.3, kept.4)

  -- Any other entry: list_func_die returns 0 and writes nothing.
  pub list_func_die-eq-zero :
      (fuel : ℕ) (ret : Die) (dbg : Dbg Rest) (cu : Cu) (cudie die : Die) (addr : ℕ)
      (info : Ripdebuginfo)
      → covers lib die addr ≡ false
      → list_func_die lib fuel ret dbg cu cudie die addr info ≡ some (0, info)
  unfolding list_func_die
  list_func_die-eq-zero fuel ret dbg cu cudie die addr info c = rw c refl
