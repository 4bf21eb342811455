-- ===== src/Disk/Sections.antt =====
-- kern/elf_rw.c: the table of debug sections and read_section_headers. `none` is also a failed
-- assertion.
pub mod Labels
pub mod Laws
pub mod Loop
pub mod Installed
pub mod NameTable
pub mod Headers
use jos.Base.{
  ℕ, zero, suc, ◌+◌, ◌-◌, ◌*◌, ◌%◌, Bool, true, false, ◌==◌, ltb, if◌then◌else◌, Option, none, some,
  ◌>>=◌, List, [], ◌∷◌, u64, minus64,
}
use jos.Base.Memory.{Memory, le16, le32, le64}
use jos.Console.Ports.{Device}
use jos.Disk.Port.{Sectors, Machine, sectsize}
use jos.Disk.Segment.{readseg}
use jos.Rounding.{round_down, round_up}
use jos.Strings.Compare.{strcmp}

-- The indexes of `section_info`.
pub data Kind : Type 0 where
  debug_info : Kind
  debug_abbrev : Kind
  debug_frame : Kind
  debug_line : Kind
  debug_str : Kind

abbrev pub section_index : Kind → ℕ
section_index debug_info = 0
section_index debug_abbrev = 1
section_index debug_frame = 2
section_index debug_line = 3
section_index debug_str = 4

-- An entry of the table but for its name, which no function changes: `Names` has the addresses of the
-- five literals.
pub record Section : Type 0 where
  pub ds_data : ℕ
  pub ds_addr : ℕ
  pub ds_size : ℕ

abbrev pub Table : Type 0
Table = Kind → Section

abbrev pub Names : Type 0
Names = Kind → ℕ

abbrev pub section_info : Table
section_info = λ k. record { ds_data = 0; ds_addr = 0; ds_size = 0 }

unfoldable pub set_section : Kind → Section → Table → Table
set_section k entry table = λ j. if section_index j == section_index k then entry else table j

abbrev pub all_kinds : List Kind
all_kinds = debug_info ∷ debug_abbrev ∷ debug_frame ∷ debug_line ∷ debug_str ∷ []

-- The order of the tests in the two functions that fill the table.
abbrev pub tested : List Kind
tested = debug_info ∷ debug_abbrev ∷ debug_line ∷ debug_frame ∷ debug_str ∷ []

-- The loop of _dwarf_find_section: the index of the entry, or NULL.
unfoldable pub find_section : ℕ → Memory → Names → ℕ → List Kind → Option (Option Kind)
find_section fuel m names name [] = some none
find_section fuel m names name (k ∷ ks) = strcmp fuel m (names k) name >>= λ r. elim (r == 0) [
  | true ↦ some (some k)
  | false ↦ find_section fuel m names name ks
]

-- The chain of `if(!strcmp(name, …))`.
unfoldable pub classify : ℕ → Memory → Names → ℕ → List Kind → Option (Option Kind)
classify fuel m names name [] = some none
classify fuel m names name (k ∷ ks) = strcmp fuel m name (names k) >>= λ r. elim (r == 0) [
  | true ↦ some (some k)
  | false ↦ classify fuel m names name ks
]

abbrev pub kelfhdr : ℕ
kelfhdr = 0x10000 + 0x8004000000

-- `OFFSET_CORRECT`
unfoldable pub offset_correct : ℕ → ℕ
unfolding round_down
offset_correct x = minus64 x (round_down x sectsize)

-- A section header in memory.
abbrev pub sh_name : Memory → ℕ → ℕ
sh_name m h = le32 m h

abbrev pub sh_addr : Memory → ℕ → ℕ
sh_addr m h = le64 m (h + 16)

abbrev pub sh_offset : Memory → ℕ → ℕ
sh_offset m h = le64 m (h + 24)

abbrev pub sh_size : Memory → ℕ → ℕ
sh_size m h = le64 m (h + 32)

abbrev pub secthdr_size : ℕ
secthdr_size = 64

-- `secthdr_ptr[i]`. The array has 20 entries, the ones behind the headers NULL.
abbrev pub secthdr_ptr : ℕ → ℕ → ℕ → ℕ
secthdr_ptr secthdr count i = if ltb i count then secthdr + i * secthdr_size else 0

-- The state of read_section_headers.
pub record Loading : Type 0 where
  pub machine : Machine
  pub kvoffset : ℕ
  pub table : Table

module _ (dev : Device) (sectors : Sectors) (names : Names) where
  -- The entry for a section that has been read to `pa`.
  unfoldable pub note_loaded : ℕ → ℕ → Kind → Table → Machine × ℕ → Loading
  unfolding set_section offset_correct
  note_loaded pa h k table (s', kvoffset') =
      let ds_data = u64 (pa + offset_correct (sh_offset s'.mem h)) in
      record {
        machine = s';
        kvoffset = kvoffset';
        table =
            set_section k
              (record { ds_data = ds_data; ds_addr = ds_data; ds_size = sh_size s'.mem h }) table;
      }

  -- The branches that read a section from the disk.
  unfoldable pub load_section : ℕ → ℕ → ℕ → Kind → Loading → Option Loading
  unfolding note_loaded
  load_section fuel kvbase h k st =
      readseg dev sectors fuel (u64 (kvbase + st.kvoffset)) (sh_size st.machine.mem h)
        (sh_offset st.machine.mem h) st.kvoffset st.machine
      >>= λ r. some (note_loaded (u64 (kvbase + st.kvoffset)) h k st.table r)

  -- The branch of .eh_frame, which the loader has put in its place.
  unfoldable pub keep_section : ℕ → Kind → Loading → Loading
  unfolding set_section
  keep_section h k st = record st {
    table =
        set_section k
          (record {
            ds_data = sh_addr st.machine.mem h;
            ds_addr = sh_addr st.machine.mem h;
            ds_size = sh_size st.machine.mem h;
          })
          st.table;
  }

  unfoldable pub place_section : ℕ → ℕ → ℕ → Option Kind → Loading → Option Loading
  unfolding load_section keep_section
  place_section fuel kvbase h none st = some st
  place_section fuel kvbase h (some debug_frame) st = some (keep_section h debug_frame st)
  place_section fuel kvbase h (some debug_info) st = load_section fuel kvbase h debug_info st
  place_section fuel kvbase h (some debug_abbrev) st = load_section fuel kvbase h debug_abbrev st
  place_section fuel kvbase h (some debug_line) st = load_section fuel kvbase h debug_line st
  place_section fuel kvbase h (some debug_str) st = load_section fuel kvbase h debug_str st

  -- One round of the loop, for the header at `h`.
  unfoldable pub section_step : ℕ → ℕ → ℕ → ℕ → Loading → Option Loading
  unfolding classify place_section
  section_step fuel kvbase nametab h st =
      if st.kvoffset % sectsize == 0
      then (classify fuel st.machine.mem names (u64 (nametab + sh_name st.machine.mem h)) tested
          >>= λ k. place_section fuel kvbase h k st)
      else none

  -- The loop over the headers that are left, from `h` on.
  unfoldable pub section_loop : ℕ → ℕ → ℕ → ℕ → ℕ → Loading → Option Loading
  unfolding section_step
  section_loop zero fuel kvbase nametab h st = some st
  section_loop (suc left) fuel kvbase nametab h st =
      section_step fuel kvbase nametab h st >>= λ st'.
      section_loop left fuel kvbase nametab (h + secthdr_size) st'

  -- Behind the reading of the table of names to `pa`: the loop, and the end of what has been written.
  unfoldable pub names_read : ℕ → ℕ → ℕ → ℕ → ℕ → ℕ → Table → Machine × ℕ → Option (ℕ × Loading)
  unfolding section_loop offset_correct
  names_read fuel kvbase pa secthdr sec_name count table (s', kvoffset') =
      section_loop count fuel kvbase (u64 (pa + offset_correct (sh_offset s'.mem sec_name))) secthdr
        (record { machine = s'; kvoffset = kvoffset'; table = table })
      >>= λ st'. some (u64 (kvbase + st'.kvoffset), st')

  -- `sec_name` is the header of the table of names.
  unfoldable pub read_names : ℕ → ℕ → ℕ → ℕ → Loading → ℕ → Option (ℕ × Loading)
  unfolding names_read
  read_names fuel kvbase secthdr count st sec_name =
      readseg dev sectors fuel (u64 (kvbase + st.kvoffset)) (sh_size st.machine.mem sec_name)
        (sh_offset st.machine.mem sec_name) st.kvoffset st.machine
      >>= names_read fuel kvbase (u64 (kvbase + st.kvoffset)) secthdr sec_name count st.table

  -- From the headers in memory on.
  unfoldable pub read_sections : ℕ → ℕ → ℕ → ℕ → ℕ → Loading → Option (ℕ × Loading)
  unfolding read_names
  read_sections fuel elfhdr kvbase secthdr count st =
      read_names fuel kvbase secthdr count st
        (secthdr_ptr secthdr count (le16 st.machine.mem (elfhdr + 62)))

  -- Behind the reading of the headers.
  unfoldable pub headers_read : ℕ → ℕ → ℕ → ℕ → ℕ → Table → Machine × ℕ → Option (ℕ × Loading)
  unfolding read_sections offset_correct
  headers_read fuel elfhdr kvbase offset count table (s', kvoffset') =
      read_sections fuel elfhdr kvbase (u64 (kvbase + offset_correct offset)) count
        (record { machine = s'; kvoffset = kvoffset'; table = table })

  -- The headers' number and size are known. More than 20 overrun `secthdr_ptr`, which is not followed
  -- further.
  unfoldable pub read_headers : ℕ → ℕ → ℕ → Machine → Table → ℕ → ℕ → ℕ → Option (ℕ × Loading)
  unfolding headers_read
  read_headers fuel elfhdr kvbase s table offset count size =
      if ltb 20 count
      then none
      else (readseg dev sectors fuel kvbase (count * size) offset 0 s
          >>= headers_read fuel elfhdr kvbase offset count table)

  unfoldable pub read_section_headers : ℕ → ℕ → ℕ → Machine → Table → Option (ℕ × Loading)
  unfolding read_headers round_up
  read_section_headers fuel elfhdr to_va s table =
      let shoff = le64 s.mem (elfhdr + 40) in
      read_headers fuel elfhdr (round_up to_va sectsize) s table
        (if elfhdr == kelfhdr then shoff else u64 (shoff + minus64 elfhdr 0x8004000000))
        (le16 s.mem (elfhdr + 60)) (le16 s.mem (elfhdr + 58))

-- find_debug_sections, which only notes where the sections lie: the loop over the headers from `h` on,
-- with `debug_address`.
module _ (names : Names) where
  unfoldable pub note_section : Memory → ℕ → Option Kind → ℕ × Table → ℕ × Table
  unfolding set_section
  note_section m h none (address, table) = (address, table)
  note_section m h (some debug_frame) (address, table) = (
    u64 (address + sh_size m h),
    set_section debug_frame
        (record { ds_data = sh_addr m h; ds_addr = sh_addr m h; ds_size = sh_size m h }) table,
  )
  note_section m h (some debug_info) (address, table) = (
    u64 (address + sh_size m h),
    set_section debug_info (record { ds_data = address; ds_addr = address; ds_size = sh_size m h })
        table,
  )
  note_section m h (some debug_abbrev) (address, table) = (
    u64 (address + sh_size m h),
    set_section debug_abbrev
        (record { ds_data = address; ds_addr = address; ds_size = sh_size m h }) table,
  )
  note_section m h (some debug_line) (address, table) = (
    u64 (address + sh_size m h),
    set_section debug_line (record { ds_data = address; ds_addr = address; ds_size = sh_size m h })
        table,
  )
  note_section m h (some debug_str) (address, table) = (
    u64 (address + sh_size m h),
    set_section debug_str (record { ds_data = address; ds_addr = address; ds_size = sh_size m h })
        table,
  )

  unfoldable pub note_sections : ℕ → ℕ → Memory → ℕ → ℕ → ℕ × Table → Option (ℕ × Table)
  unfolding classify note_section
  note_sections zero fuel m strings h st = some st
  note_sections (suc left) fuel m strings h st =
      classify fuel m names (u64 (strings + sh_name m h)) tested >>= λ k.
      note_sections left fuel m strings (h + secthdr_size) (note_section m h k st)

  -- `USTABDATA` is `PTSIZE`.
  unfoldable pub find_debug_sections : ℕ → Memory → ℕ → Table → Option Table
  unfolding note_sections
  find_debug_sections fuel m elf table =
      let sh = u64 (elf + le64 m (elf + 40)) in
      let strings = u64 (elf + sh_offset m (sh + le16 m (elf + 62) * secthdr_size)) in
      note_sections (le16 m (elf + 60)) fuel m strings sh (0x200000, table) >>= λ st. some st.1
