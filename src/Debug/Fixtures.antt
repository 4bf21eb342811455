-- ===== src/Debug/Fixtures.antt =====
-- A library with one unit, `main.c`, with the functions `first` and, with two parameters, `second`.
use jos.Base.{ℕ, ◌+◌, ◌==◌, if◌then◌else◌, none, some, [], ◌∷◌, codes, replicate, minus_one}
use jos.Debug.Library.{Dwarf}
use jos.Debug.Function.{Ripdebuginfo}
use jos.Debug.Lookup.{InfoSection, Locals}

abbrev low_of_entry : ℕ → ℕ
low_of_entry d = if d == 2 then 0x8004000100 else 0x8004000200

-- Entry 1 is the unit's, 2 and 3 are the functions, 4 and 5 the parameters, 9 their type.
abbrev pub library : Dwarf
library = record {
  Rest = ℕ;
  Cu = ℕ;
  Die = ℕ;
  cu_offset = λ cu. 0;
  tag = λ d. if (d == 2) then 0x2E else if d == 3 then 0x2E else if d == 9 then 0x24 else 5;
  name = λ d. if d == 1 then codes "main.c" else if d == 2 then codes "first" else codes "second";
  attr_find = λ d at.
      if at == 0x11
      then some (low_of_entry d)
      else if at == 0x12
      then some (low_of_entry d + 0x100)
      else if at == 0x0B
      then (if d == 9 then some 4 else none)
      else some 9;
  init = λ elf. record { info_offset_elf = 0; info_size = 0; rest = 0 };
  get_next_cu =
      λ dbg cu. if dbg.rest == 0 then (0, 0, record dbg { rest = 1 }) else (minus_one, cu, dbg);
  siblingof = λ dbg die prev cu. elim die [
    | none ↦ (0, 1)
    | some d ↦ if d == 2 then (0, 3) else if d == 4 then (0, 5) else (minus_one, prev)
  ];
  child = λ dbg cu die prev. if die == 1 then (0, 2) else if die == 3 then (0, 4) else (4, prev);
  offdie = λ dbg offset prev cu. 9;
  srclines = λ die pc. 17;
}

abbrev pub blank : Ripdebuginfo
blank = record {
  file = [];
  line = 0;
  fn_name = [];
  fn_namelen = 0;
  fn_addr = 0;
  fn_narg = 0;
  size_fn_arg = replicate 10 0;
}

abbrev pub second_info : Ripdebuginfo
second_info = record {
  file = codes "main.c";
  line = 17;
  fn_name = codes "second";
  fn_namelen = 6;
  fn_addr = 0x8004000200;
  fn_narg = 2;
  size_fn_arg = 4 ∷ 4 ∷ replicate 8 0;
}

abbrev pub locals : Locals library
locals = record { cu = 0; cudie = 0; die = 0; die2 = 0; ret = 0 }

abbrev pub section : InfoSection
section = record { ds_data = 0x200000; ds_size = 64 }
