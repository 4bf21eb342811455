-- ===== src/Debug/Function.antt =====
-- kern/kdebug.c: list_func_die, and kern/kdebug.h: struct Ripdebuginfo.
pub mod Laws
use jos.Base.{
  ℕ, zero, suc, ◌+◌, Bool, true, false, not, ◌&&◌, ◌==◌, ltb, if◌then◌else◌, Option, none, some,
  ◌>>=◌, List, Bytes, length, set, u32, u64,
}
use jos.Debug.Library.{Dbg, Dwarf}

-- `size_fn_arg` has 10 entries. A write past them stays in the structure, in `reg_table`, which the
-- kernel does not read.
pub record Ripdebuginfo : Type 0 where
  pub file : Bytes
  pub line : ℕ
  pub fn_name : Bytes
  pub fn_namelen : ℕ
  pub fn_addr : ℕ
  pub fn_narg : ℕ
  pub size_fn_arg : List ℕ

abbrev pub tag_subprogram : ℕ
tag_subprogram = 0x2E

abbrev pub tag_formal_parameter : ℕ
tag_formal_parameter = 0x05

abbrev pub at_byte_size : ℕ
at_byte_size = 0x0B

abbrev pub at_low_pc : ℕ
at_low_pc = 0x11

abbrev pub at_high_pc : ℕ
at_high_pc = 0x12

abbrev pub at_type : ℕ
at_type = 0x49

abbrev pub dle_no_entry : ℕ
dle_no_entry = 4

-- The value behind a pointer to an attribute that is not NULL.
abbrev pub value_of : Option ℕ → ℕ
value_of none = 0
value_of (some v) = v

-- `(low && low < addr) && (high && high > addr)`
abbrev pub between : Option ℕ → Option ℕ → ℕ → Bool
between (some low) (some high) addr = ltb low addr && ltb addr high
between (some low) none addr = false
between none high addr = false

-- The writes for one more argument.
unfoldable pub add_arg : ℕ → Ripdebuginfo → Ripdebuginfo
add_arg size info = record info {
  size_fn_arg = set info.size_fn_arg info.fn_narg (u32 size);
  fn_narg = info.fn_narg + 1;
}

module _ (lib : Dwarf) where
  open lib use {Rest, Cu, Die, cu_offset, tag, name, attr_find, siblingof, child, offdie, srclines}

  -- `try_again:`, with `attr` and the structure `sib`; the result is `ret_val`.
  unfoldable pub type_size : ℕ → Dbg Rest → Cu → Option ℕ → Die → ℕ → Option ℕ
  type_size zero dbg cu attr sib ret_val = none
  type_size (suc fuel) dbg cu none sib ret_val = some ret_val
  type_size (suc fuel) dbg cu (some ref) sib ret_val =
      let sib' = offdie dbg (u64 (cu_offset cu + ref)) sib cu in
      elim (attr_find sib' at_byte_size) [
        | some size ↦ some size
        | none ↦ type_size fuel dbg cu (attr_find sib' at_type) sib' ret_val
      ]

  -- The size of a further argument: its type's, or that of the argument before it.
  unfoldable pub next_size : Dbg Rest → Cu → Option ℕ → Die → ℕ → ℕ
  next_size dbg cu none sib ret_val = ret_val
  next_size dbg cu (some ref) sib ret_val =
      elim (attr_find (offdie dbg (u64 (cu_offset cu + ref)) sib cu) at_byte_size) [
        | some size ↦ size
        | none ↦ ret_val
      ]

  -- `while (dwarf_siblingof(dbg, &sib, &ret, cu) == DW_DLV_OK)`, with `sib` equal to `ret`.
  unfoldable pub further_args : ℕ → Dbg Rest → Cu → Die → ℕ → Ripdebuginfo → Option Ripdebuginfo
  unfolding add_arg next_size
  further_args zero dbg cu ret ret_val info = none
  further_args (suc fuel) dbg cu ret ret_val info =
      let (code, ret') = siblingof dbg (some ret) ret cu in
      let size = next_size dbg cu (attr_find ret' at_type) ret ret_val in
      elim ((code == 0) && (tag ret' == tag_formal_parameter)) [
        | true ↦ further_args fuel dbg cu ret' size (add_arg size info)
        | false ↦ some info
      ]

  -- Behind the call of dwarf_child.
  unfoldable pub list_args : ℕ → Dbg Rest → Cu → Die → ℕ × Die → Ripdebuginfo → Option Ripdebuginfo
  unfolding type_size further_args add_arg
  list_args fuel dbg cu sib (code, ret) info =
      if code == dle_no_entry
      then some info
      else if not (tag ret == tag_formal_parameter)
      then some info
      else (type_size fuel dbg cu (attr_find ret at_type) sib 8 >>= λ size.
          further_args fuel dbg cu ret size (add_arg size info))

  -- What is written before the arguments.
  unfoldable pub describe : Die → Die → ℕ → Ripdebuginfo → Ripdebuginfo
  describe die cudie addr info = record info {
    file = name cudie;
    fn_name = name die;
    fn_namelen = length (name die);
    fn_addr = value_of (attr_find die at_low_pc);
    line = srclines cudie addr;
    fn_narg = 0;
  }

  unfoldable pub covers : Die → ℕ → Bool
  covers die addr =
      (tag die == tag_subprogram)
      && between (attr_find die at_low_pc) (attr_find die at_high_pc) addr

  -- `cu` and `cudie` are what `die->cu_header` and `die->cu_die` point to; `ret` is what the local of
  -- this name holds before it is filled. The result is the `int` returned, with `*info`.
  unfoldable pub list_func_die :
      ℕ → Die → Dbg Rest → Cu → Die → Die → ℕ → Ripdebuginfo → Option (ℕ × Ripdebuginfo)
  unfolding covers describe list_args
  list_func_die fuel ret dbg cu cudie die addr info =
      if covers die addr
      then (list_args fuel dbg cu die (child dbg cu die ret) (describe die cudie addr info)
          >>= λ info'. some (1, info'))
      else some (0, info)
