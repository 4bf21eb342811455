-- ===== src/Console/Ports.antt =====
-- inc/x86.h: inb, outb and outw. What a device answers is the function `Device` of the time and the port;
-- each access takes one unit of time, and what is written is logged, the latest first.
use jos.Base.{ℕ, ◌+◌, List, ◌∷◌, u8, u16}

abbrev pub Device : Type 0
Device = ℕ → ℕ → ℕ

pub record Ports : Type 0 where
  pub clock : ℕ
  pub log : List (ℕ × ℕ)

unfoldable pub outb : ℕ → ℕ → Ports → Ports
outb port value io = record { clock = io.clock + 1; log = (port, u8 value) ∷ io.log }

-- A 16-bit write.
unfoldable pub outw : ℕ → ℕ → Ports → Ports
outw port value io = record { clock = io.clock + 1; log = (port, u16 value) ∷ io.log }

module _ (dev : Device) where
  unfoldable pub inb : ℕ → Ports → ℕ × Ports
  inb port io = (u8 (dev io.clock port), record io { clock = io.clock + 1 })

  -- kern/console.c: four readings of an unused port.
  unfoldable pub delay : Ports → Ports
  unfolding inb
  delay io = (inb 0x84 (inb 0x84 (inb 0x84 (inb 0x84 io).1).1).1).1
