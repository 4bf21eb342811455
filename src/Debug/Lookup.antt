-- ===== src/Debug/Lookup.antt =====
-- kern/kdebug.c: debuginfo_rip.
pub mod Dies
pub mod Laws
use jos.Base.{
  ℕ, zero, suc, ◌+◌, Bool, true, false, ◌==◌, ltb, if◌then◌else◌, Option, none, some, ◌>>=◌,
  is_neg32, Bytes, codes, ◌-◌, ◌*◌,
}
use jos.Debug.Library.{Dbg, Dwarf}
use jos.Debug.Function.{Ripdebuginfo, dle_no_entry, list_func_die}

abbrev pub ulim : ℕ
ulim = 0x8004000000 - 2 * 0x200000

-- The address of the kernel's ELF header, `0x10000 + KERNBASE`.
abbrev pub kernel_elf : ℕ
kernel_elf = 0x10000 + 0x8004000000

-- A call that returns, 0 or -1, or a panic, behind which nothing returns.
pub data Lookup : Type 0 where
  found : Ripdebuginfo → Lookup
  not_found : Ripdebuginfo → Lookup
  panics : Bytes → Lookup

unfoldable pub unknown : ℕ → Ripdebuginfo → Ripdebuginfo
unknown addr info = record info {
  file = codes "<unknown>";
  line = 0;
  fn_name = codes "<unknown>";
  fn_namelen = 9;
  fn_addr = addr;
  fn_narg = 0;
}

-- The entry of `section_info` that _dwarf_find_section returns for .debug_info: its `ds_data` and
-- `ds_size`.
pub record InfoSection : Type 0 where
  pub ds_data : ℕ
  pub ds_size : ℕ

module _ (lib : Dwarf) where
  open lib use {Rest, Cu, Die, init, get_next_cu, siblingof, child}

  -- The local structures, which keep what they held from one round to the next.
  pub record Locals : Type 0 where
    pub cu : Cu
    pub cudie : Die
    pub die : Die
    pub die2 : Die
    -- `ret` of list_func_die
    pub ret : Die

  -- The inner `while (1)`, over the entries of a unit. The result has no information where no entry is
  -- left. `fuel` is list_func_die's.
  unfoldable pub search_dies :
      ℕ → ℕ → Dbg Rest → Locals → ℕ → Ripdebuginfo → Option (Option Ripdebuginfo × Locals)
  search_dies zero fuel dbg l addr info = none
  search_dies (suc rounds) fuel dbg l addr info =
      list_func_die lib fuel l.ret dbg l.cu l.cudie l.die addr info >>= λ (result, info').
      elim (result == 0) [
        | false ↦ some (some info', l)
        | true ↦
            let (code, next) = siblingof dbg (some l.die) l.die2 l.cu in
            elim (is_neg32 code) [
              | true ↦ some (none, record l { die2 = next })
              | false ↦
                  search_dies rounds fuel dbg (record l { die2 = next; die = next }) addr info'
            ]
      ]

  -- `while(_get_next_cu(dbg, &cu) == 0)`
  unfoldable pub search_units : ℕ → ℕ → Dbg Rest → Locals → ℕ → Ripdebuginfo → Option Lookup
  search_units zero fuel dbg l addr info = none
  search_units (suc rounds) fuel dbg l addr info =
      let (code, cu, dbg') = get_next_cu dbg l.cu in
      elim (code == 0) [
        | false ↦ some (not_found info)
        | true ↦
            let (code₁, cudie) = siblingof dbg' none l.cudie cu in
            elim (code₁ == dle_no_entry) [
              | true ↦ search_units rounds fuel dbg' (record l { cu = cu; cudie = cudie }) addr info
              | false ↦
                  let (code₂, die) = child dbg' cu cudie l.die in
                  let l' = record l { cu = cu; cudie = cudie; die = die } in
                  elim (code₂ == dle_no_entry) [
                    | true ↦ search_units rounds fuel dbg' l' addr info
                    | false ↦ search_dies rounds fuel dbg' l' addr info >>= λ (hit, l''). elim hit [
                      | some info' ↦ some (found info')
                      | none ↦ search_units rounds fuel dbg' l'' addr info
                    ]
                  ]
            ]
      ]

  unfoldable pub debuginfo_rip : ℕ → ℕ → InfoSection → Locals → ℕ → Ripdebuginfo → Option Lookup
  unfolding search_units search_dies unknown
  debuginfo_rip rounds fuel sect locals addr info =
      if ltb addr ulim
      then some (panics (codes "User address"))
      else if sect.ds_size == 0
      then some (panics (codes "assertion failed: dbg->dbg_info_size"))
      else search_units rounds fuel
          (record (init kernel_elf) { info_offset_elf = sect.ds_data; info_size = sect.ds_size })
          locals addr (unknown addr info)
