-- ===== src/Disk/Port.antt =====
-- boot/main.c and kern/elf_rw.c: waitdisk and readsect. The disk is a parameter: its ports answer as
-- in `Console.Ports`, and the sector that insl transfers is a function of the address that was
-- written to the ports.
pub mod Laws
use jos.Base.{
  ℕ, zero, suc, ◌+◌, ◌*◌, ◌-◌, ◌/◌, ◌^◌, true, false, ◌&&◌, ◌==◌, ltb, leb, if◌then◌else◌, Option,
  none, some, ◌>>=◌, bit_and, bit_or, u8,
}
use jos.Base.Memory.{Memory}
use jos.Console.Ports.{Device, Ports, inb, outb}

abbrev pub sectsize : ℕ
sectsize = 512

-- The disk's contents: the byte at an index of a sector.
abbrev pub Sectors : Type 0
Sectors = ℕ → ℕ → ℕ

-- The ports and the memory that a load changes.
pub record Machine : Type 0 where
  pub io : Ports
  pub mem : Memory

-- The sector number that the four address ports hold: 28 bits, the upper four in the byte that also
-- has 0xE0.
unfoldable pub selected : ℕ → ℕ → ℕ → ℕ → ℕ
selected low mid high top = low + mid * 2 ^ 8 + high * 2 ^ 16 + bit_and top 0x0F * 2 ^ 24

-- `insl(0x1F0, dst, SECTSIZE / 4)`: the 512 bytes of a sector go to `dst`.
abbrev pub insl : (ℕ → ℕ) → ℕ → Memory → Memory
insl sector dst m = λ a. if leb dst a && ltb a (dst + sectsize) then sector (a - dst) else m a

module _ (dev : Device) (sectors : Sectors) where
  -- `while ((inb(0x1F7) & 0xC0) != 0x40)`
  unfoldable pub waitdisk : ℕ → Ports → Option Ports
  unfolding inb
  waitdisk zero io = none
  waitdisk (suc fuel) io =
      let (status, io') = inb dev 0x1F7 io in
      elim (bit_and status 0xC0 == 0x40) [ true ↦ some io' | false ↦ waitdisk fuel io' ]

  -- The bytes that go to the ports 0x1F3 to 0x1F6 for sector `offset`.
  unfoldable pub address_byte : ℕ → ℕ → ℕ
  address_byte offset zero = u8 offset
  address_byte offset (suc zero) = u8 (offset / 2 ^ 8)
  address_byte offset (suc (suc zero)) = u8 (offset / 2 ^ 16)
  address_byte offset (suc (suc (suc k))) = u8 (bit_or (offset / 2 ^ 24) 0xE0)

  -- The writes that ask for one sector.
  unfoldable pub command : ℕ → Ports → Ports
  unfolding outb address_byte
  command offset io = outb 0x1F7 0x20 (
      outb 0x1F6 (address_byte offset 3) (
        outb 0x1F5 (address_byte offset 2) (
          outb 0x1F4 (address_byte offset 1)
            (outb 0x1F3 (address_byte offset 0) (outb 0x1F2 1 io)))))

  unfoldable pub readsect : ℕ → ℕ → ℕ → Machine → Option Machine
  unfolding command selected address_byte
  readsect fuel dst offset s = do
    io₁ ← waitdisk fuel s.io
    io₂ ← waitdisk fuel (command offset io₁)
    let sector =
        selected (address_byte offset 0) (address_byte offset 1) (address_byte offset 2)
          (address_byte offset 3)
    some (record { io = io₂; mem = insl (sectors sector) dst s.mem })
