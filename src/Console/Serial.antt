-- ===== src/Console/Serial.antt =====
-- kern/console.c: the serial port and the parallel port.
use jos.Base.{ℕ, zero, suc, ◌+◌, true, false, not, ◌==◌, if◌then◌else◌, bit_and, minus_one}
use jos.Console.Ports.{Device, Ports, inb, outb, delay}
use jos.Console.State.{Console}

abbrev pub com1 : ℕ
com1 = 0x3F8

module _ (dev : Device) where
  -- `for (i = 0; !(inb(port) & mask) && i < 12800; i++) delay();`: the first argument is the rounds
  -- left, and the port is read once more after the last delay.
  unfoldable pub wait_ready : ℕ → ℕ → ℕ → Ports → Ports
  unfolding inb delay
  wait_ready zero port mask io = (inb dev port io).1
  wait_ready (suc rounds) port mask io =
      let (status, io') = inb dev port io in
      elim (bit_and status mask == 0) [
        | true ↦ wait_ready rounds port mask (delay dev io')
        | false ↦ io'
      ]

  -- The `int` -1 stands for "no data".
  unfoldable pub serial_proc_data : Console → ℕ × Console
  unfolding inb
  serial_proc_data c =
      let (status, io') = inb dev (com1 + 5) c.io in
      if bit_and status 0x01 == 0
      then (minus_one, record c { io = io' })
      else (let (byte, io'') = inb dev com1 io' in (byte, record c { io = io'' }))

  unfoldable pub serial_putc : ℕ → Ports → Ports
  unfolding wait_ready outb
  serial_putc ch io = outb com1 ch (wait_ready 12800 (com1 + 5) 0x20 io)

  unfoldable pub lpt_putc : ℕ → Ports → Ports
  unfolding wait_ready outb
  lpt_putc ch io =
      outb 0x37A 0x08 (outb 0x37A 0x0D (outb 0x378 ch (wait_ready 12800 0x379 0x80 io)))

  unfoldable pub serial_init : Console → Console
  unfolding inb outb
  serial_init c =
      let set_up = outb (com1 + 1) 0x01 (
        outb (com1 + 4) 0 (
          outb (com1 + 3) 0x03
            (outb (com1 + 1) 0 (outb com1 12 (outb (com1 + 3) 0x80 (outb (com1 + 2) 0 c.io)))))) in
      let (status, io₁) = inb dev (com1 + 5) set_up in
      let io₂ = (inb dev (com1 + 2) io₁).1 in
      record c { serial_exists = not (status == 0xFF); io = (inb dev com1 io₂).1 }
