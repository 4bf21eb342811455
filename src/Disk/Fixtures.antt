-- ===== src/Disk/Fixtures.antt =====
-- A disk that is always ready, and an image with the sections `.shstrtab` and `.debug_info`.
use jos.Base.{
  ℕ, ◌+◌, ◌*◌, ◌-◌, ◌==◌, ltb, if◌then◌else◌, [], ◌∷◌, ◌++◌, Bytes, List, codes, replicate, refl,
  arith,
}
use jos.Base.Memory.{Memory, memory_at}
use jos.Console.Ports.{Device}
use jos.Disk.Port.{Sectors, Machine}
use jos.Disk.Port.Laws.{IsReady}
use jos.Disk.Sections.{debug_info, debug_abbrev, debug_frame, debug_line, debug_str, Names, kelfhdr}
use jos.Disk.Boot.Laws.{image_byte}
use jos.Disk.Sections.Labels.{AreNames}
use jos.Disk.Sections.Loop.{Header}
use jos.Disk.Sections.Installed.{AreNamesBelow, total}
use jos.Disk.Sections.NameTable.{AreListed}
use jos.Disk.Sections.Headers.{IsImage}

abbrev pub ready : Device
ready = λ t port. if port == 0x1F7 then 0x40 else 0

pub ready-IsReady : IsReady ready
unfolding IsReady
ready-IsReady t = refl

abbrev pub fresh : Machine
fresh = record { io = record { clock = 0; log = [] }; mem = λ a. 0 }

-- A header: the name's offset, the section's offset and its size, each below 256 or a multiple of it.
abbrev header_bytes : ℕ → ℕ → ℕ → ℕ → Bytes
header_bytes name low high size =
    (name ∷ replicate 23 0) ++ (low ∷ high ∷ replicate 6 0) ++ (size ∷ replicate 31 0)

abbrev image_bytes : Bytes
image_bytes =
    header_bytes 0 128 0 22
    ++ header_bytes 10 0 1 3
    ++ codes ".shstrtab"
    ++ (0 ∷ codes ".debug_info")
    ++ replicate 107 0
    ++ (7 ∷ 8 ∷ 9 ∷ [])

abbrev pub disk : Sectors
disk = λ n i. memory_at 0 image_bytes ((n - 1) * 512 + i)

abbrev pub sections : List Header
sections =
    record { word = codes ".shstrtab"; address = 0; offset = 128; size = 22 }
    ∷ record { word = codes ".debug_info"; address = 0; offset = 256; size = 3 }
    ∷ []

-- The literals from the address 1 on, and the ELF header.
abbrev pub kernel_names : Names
kernel_names debug_info = 1
kernel_names debug_abbrev = 13
kernel_names debug_frame = 27
kernel_names debug_line = 37
kernel_names debug_str = 49

abbrev literal_bytes : Bytes
literal_bytes =
    codes ".debug_info"
    ++ (0 ∷ codes ".debug_abbrev")
    ++ (0 ∷ codes ".eh_frame")
    ++ (0 ∷ codes ".debug_line")
    ++ (0 ∷ codes ".debug_str")

abbrev pub kernel_memory : Memory
kernel_memory = λ a.
    if ltb a 200
    then memory_at 1 literal_bytes a
    else memory_at kelfhdr (replicate 58 0 ++ (64 ∷ 0 ∷ 2 ∷ 0 ∷ [])) a

pub literals_stand : AreNames kernel_memory kernel_names
literals_stand debug_info = ground arith
literals_stand debug_abbrev = ground arith
literals_stand debug_frame = ground arith
literals_stand debug_line = ground arith
literals_stand debug_str = ground arith

pub literals_below : AreNamesBelow 0x8004020000 kernel_memory kernel_names
unfolding AreNamesBelow
literals_below debug_info = (literals_stand debug_info, omega arith)
literals_below debug_abbrev = (literals_stand debug_abbrev, omega arith)
literals_below debug_frame = (literals_stand debug_frame, omega arith)
literals_below debug_line = (literals_stand debug_line, omega arith)
literals_below debug_str = (literals_stand debug_str, omega arith)

pub shstrtab_listed : AreListed disk 2000 128 128 22 0 (image_byte disk) sections
shstrtab_listed = (
  record {
    low = omega arith;
    name = ground arith;
    within = omega arith;
    letters = ground arith;
    short = omega arith;
    has_address = refl;
    has_offset = refl;
    has_size = refl;
    enough = omega arith;
    disk = omega arith;
  },
  (
    record {
      low = omega arith;
      name = ground arith;
      within = omega arith;
      letters = ground arith;
      short = omega arith;
      has_address = refl;
      has_offset = refl;
      has_size = refl;
      enough = omega arith;
      disk = omega arith;
    },
    tt,
  ),
)

pub kernel-IsImage : IsImage disk kernel_names 2000 0x8004020000 0 0 128 22 kernel_memory sections
unfolding total
kernel-IsImage = record {
  loaded = omega arith;
  offset = refl;
  entry_size = refl;
  count = refl;
  names_index = refl;
  few = omega arith;
  inside = omega arith;
  names_offset = refl;
  names_size = refl;
  named = omega arith;
  enough = omega arith;
  disk = omega arith;
  names_disk = omega arith;
  memory = omega arith;
  literals = literals_below;
  headers = shstrtab_listed;
}

-- An image with one segment, of three bytes at 512, which goes to 0x20000.
abbrev kernel_bytes : Bytes
kernel_bytes =
    (0x7F ∷ 0x45 ∷ 0x4C ∷ 0x46 ∷ replicate 22 0)
    ++ (16 ∷ 0 ∷ 0 ∷ 0 ∷ 0 ∷ 0 ∷ 64 ∷ replicate 23 0)
    ++ (1 ∷ replicate 16 0)
    ++ (2 ∷ replicate 16 0)
    ++ (2 ∷ replicate 13 0)
    ++ (3 ∷ replicate 407 0)
    ++ (1 ∷ 2 ∷ 3 ∷ [])

abbrev pub kernel_disk : Sectors
kernel_disk = λ n i. memory_at 0 kernel_bytes ((n - 1) * 512 + i)
