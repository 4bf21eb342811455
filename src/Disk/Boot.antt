-- ===== src/Disk/Boot.antt =====
-- boot/main.c: readseg, 32 bits wide, and bootmain.
pub mod Laws
pub mod Load
use jos.Base.{
  ℕ, zero, suc, ◌+◌, ◌-◌, ◌*◌, ◌/◌, ◌%◌, ◌^◌, true, false, ◌==◌, ltb, if◌then◌else◌, Option, none,
  some, ◌>>=◌, u32,
}
use jos.Base.Memory.{Memory, le16, le32, le64}
use jos.Console.Ports.{Device, outw}
use jos.Disk.Port.{Sectors, Machine, readsect, sectsize}

module _ (dev : Device) (sectors : Sectors) where
  -- `while (pa < end_pa)`
  unfoldable pub readseg_loop : ℕ → ℕ → ℕ → ℕ → Machine → Option Machine
  readseg_loop zero pa end_pa offset s = none
  readseg_loop (suc fuel) pa end_pa offset s = elim (ltb pa end_pa) [
    | true ↦ readsect dev sectors fuel pa offset s >>= λ s'.
        readseg_loop fuel (u32 (pa + sectsize)) end_pa (u32 (offset + 1)) s'
    | false ↦ some s
  ]

  unfoldable pub readseg : ℕ → ℕ → ℕ → ℕ → Machine → Option Machine
  readseg fuel pa count offset s =
      readseg_loop fuel (pa - pa % sectsize) (u32 (pa + count)) (u32 (offset / sectsize + 1)) s

-- Fields of `struct Elf` and `struct Proghdr` (inc/elf.h).
abbrev pub elf_magic : ℕ
elf_magic = 0x464C457F

abbrev pub elfhdr : ℕ
elfhdr = 0x10000

-- The offsets of the fields: e_magic 0, e_entry 24, e_phoff 32, e_phnum 56; p_offset 8, p_pa 24,
-- p_memsz 40; a program header has 56 bytes.
abbrev pub proghdr_size : ℕ
proghdr_size = 56

-- What becomes of the processor: it jumps to the kernel's entry, or stays in the loop at `bad`.
pub data Boot : Type 0 where
  entered : ℕ → Machine → Boot
  bad : Machine → Boot

module _ (dev : Device) (sectors : Sectors) where
  -- `for (; ph < eph; ph++)`: the first argument is the headers left.
  unfoldable pub load_segments : ℕ → ℕ → ℕ → Machine → Option Machine
  load_segments fuel zero ph s = some s
  load_segments fuel (suc left) ph s =
      readseg dev sectors fuel (u32 (le64 s.mem (ph + 24))) (u32 (le64 s.mem (ph + 40)))
        (u32 (le64 s.mem (ph + 8))) s
      >>= λ s'. load_segments fuel left (ph + proghdr_size) s'

  -- Behind a header that is an ELF header.
  unfoldable pub boot_kernel : ℕ → Machine → Option Boot
  boot_kernel fuel s = do
    s' ← load_segments fuel (le16 s.mem (elfhdr + 56)) (u32 (elfhdr + le64 s.mem (elfhdr + 32))) s
    some (entered (u32 (le64 s'.mem (elfhdr + 24))) s')

  unfoldable pub bootmain : ℕ → Machine → Option Boot
  unfolding outw
  bootmain fuel s = readseg dev sectors fuel elfhdr (sectsize * 8) 0 s >>= λ s'.
      if le32 s'.mem elfhdr == elf_magic
      then boot_kernel fuel s'
      else some (bad (record s' { io = outw 0x8A00 0x8E00 (outw 0x8A00 0x8A00 s'.io) }))
