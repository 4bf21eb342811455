-- ===== src/Disk/Segment.antt =====
-- kern/elf_rw.c: the kernel's readseg, 64 bits wide. `none` is also a failed assertion, which panics.
pub mod Laws
use jos.Base.{
  ℕ, zero, suc, ◌+◌, ◌-◌, ◌/◌, ◌%◌, true, false, ◌==◌, ltb, if◌then◌else◌, Option, none, some,
  ◌>>=◌, u64,
}
use jos.Console.Ports.{Device}
use jos.Disk.Port.{Sectors, Machine, readsect, sectsize}

module _ (dev : Device) (sectors : Sectors) where
  -- `while (pa < end_pa)`: the result is the machine, with `pa`, `offset` and `*kvoffset`.
  unfoldable pub read_sectors : ℕ → ℕ → ℕ → ℕ → ℕ → Machine → Option (Machine × ℕ × ℕ × ℕ)
  read_sectors zero pa end_pa offset kvoffset s = none
  read_sectors (suc fuel) pa end_pa offset kvoffset s = elim (ltb pa end_pa) [
    | true ↦ readsect dev sectors fuel pa offset s >>= λ s'.
        read_sectors fuel (u64 (pa + sectsize)) end_pa (u64 (offset + 1))
          (u64 (kvoffset + sectsize)) s'
    | false ↦ some (s, pa, offset, kvoffset)
  ]

  -- The sector behind the loop's, where the bytes run over the end of the last one.
  unfoldable pub read_last : ℕ → ℕ → ℕ → Machine × ℕ × ℕ × ℕ → Option (Machine × ℕ)
  read_last fuel count orgoff (s, pa, offset, kvoffset) =
      if ltb sectsize (u64 (orgoff % sectsize + count))
      then (do s' ← readsect dev sectors fuel pa offset s; some (s', u64 (kvoffset + sectsize)))
      else some (s, kvoffset)

  unfoldable pub readseg : ℕ → ℕ → ℕ → ℕ → ℕ → Machine → Option (Machine × ℕ)
  readseg fuel pa count offset kvoffset s =
      if pa % sectsize == 0
      then (do
        state ←
            read_sectors fuel (pa - pa % sectsize) (u64 (pa + count)) (u64 (offset / sectsize + 1))
              kvoffset s
        (s', kvoffset') ← read_last fuel count offset state
        if kvoffset' % sectsize == 0 then some (s', kvoffset') else none)
      else none
