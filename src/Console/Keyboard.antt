-- ===== src/Console/Keyboard.antt =====
-- kern/console.c: kbd_proc_data and kbd_init.
pub mod Laws
use jos.Base.{
  ℕ, ◌+◌, ◌-◌, ◌^◌, Bool, true, false, not, ◌&&◌, ◌==◌, ltb, leb, if◌then◌else◌, Option, some,
  ◌>>=◌, bit_and, bit_or, bit_xor, codes, minus_one, ◌++◌, ◌∷◌, [],
}
use jos.Console.Ports.{Device, inb, outb}
use jos.Console.State.{Console, Kernel}
use jos.Console.Cprintf.{print_literal}
use jos.Console.Keymap.{
  shiftcode, togglecode, charcode, shift_bit, ctl_bit, alt_bit, capslock_bit, e0esc_bit, key_del,
}

-- `shift & ~bits`, in 32 bits.
abbrev pub clear : ℕ → ℕ → ℕ
clear shift bits = bit_and shift (2 ^ 32 - 1 - bits)

-- A letter in the other case.
unfoldable pub swap_case : ℕ → ℕ
swap_case c =
    if leb b'a' c && leb c b'z' then c - 32 else if leb b'A' c && leb c b'Z' then c + 32 else c

-- A key that goes down, behind an E0 escape or not: the character, and the new `shift`.
unfoldable pub key_down : ℕ → ℕ → ℕ × ℕ
unfolding shiftcode togglecode charcode swap_case
key_down shift code =
    let shift' = bit_xor (bit_or shift (shiftcode code)) (togglecode code) in
    let c = charcode (bit_and shift' (ctl_bit + shift_bit)) code in
    (if bit_and shift' capslock_bit == 0 then c else swap_case c, shift')

-- One byte from the keyboard: the character, 0 if there is none yet, and the new `shift`.
unfoldable pub key_byte : ℕ → ℕ → ℕ × ℕ
unfolding shiftcode key_down
key_byte shift byte =
    if byte == 0xE0
    then (0, bit_or shift e0esc_bit)
    else if not (bit_and byte 0x80 == 0)
    then (let code = if bit_and shift e0esc_bit == 0 then bit_and byte 0x7F else byte in
        (0, clear shift (bit_or (shiftcode code) e0esc_bit)))
    else if not (bit_and shift e0esc_bit == 0)
    then key_down (clear shift e0esc_bit) (bit_or byte 0x80)
    else key_down shift byte

-- The test for Ctrl-Alt-Del. It is made for keys that go down, but `c` is 0 for the others.
abbrev pub reboots : ℕ → ℕ → Bool
reboots shift c = (bit_and (2 ^ 32 - 1 - shift) (ctl_bit + alt_bit) == 0) && (c == key_del)

module _ (dev : Device) where
  -- "Process special keys", and the return.
  unfoldable pub special_keys : ℕ → ℕ → Kernel → Option (ℕ × Kernel)
  unfolding outb
  special_keys fuel c k =
      if reboots k.sink.shift c
      then (do
        k' ← print_literal dev fuel (codes "Rebooting!" ++ (10 ∷ [])) (λ _. 0) k
        some (c, record k' { sink = record (k'.sink) { io = outb 0x92 0x3 k'.sink.io } }))
      else some (c, k)

  -- The `int` -1 stands for "no data".
  unfoldable pub kbd_proc_data : ℕ → Kernel → Option (ℕ × Kernel)
  unfolding inb
  kbd_proc_data fuel k =
      let (status, io₁) = inb dev 0x64 k.sink.io in
      if bit_and status 0x01 == 0
      then some (minus_one, record k { sink = record (k.sink) { io = io₁ } })
      else (let (byte, io₂) = inb dev 0x60 io₁ in
          let (c, shift') = key_byte k.sink.shift byte in
          special_keys fuel c (record k { sink = record (k.sink) { io = io₂; shift = shift' } }))

-- kbd_init does nothing.
unfoldable pub kbd_init : Console → Console
kbd_init s = s
