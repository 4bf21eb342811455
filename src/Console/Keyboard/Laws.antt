-- ===== src/Console/Keyboard/Laws.antt =====
-- What the keyboard's decoder keeps and returns.
use jos.Base.{
  ℕ, ◌+◌, ◌-◌, ◌<◌, ◌≤◌, ◌≡◌, ◌≢◌, ◌⊎◌, inl, inr, bit_xor, refl, Bool, true, ◌&&◌, ◌||◌, ◌==◌,
  ==_iff, ltb, some, Ensures, Ensures-bind, Ensures-if, bit_and, bit_or, minus_one, arith, codes,
  ◌++◌, ◌∷◌, [],
}
use jos.Base.Bits.{all_below, all_below_sound}
use jos.Console.Ports.{Device, Ports, inb, outb}
use jos.Console.State.{Console, Kernel}
use jos.Console.Putc.Laws.{IsConsole}
use jos.Console.Cprintf.{print_literal}
use jos.Console.Cprintf.Laws.{print_literal_keep}
use jos.Console.Keymap.{shiftcode, togglecode, capslock_bit}
use jos.Console.Keyboard.{key_byte, swap_case, reboots, special_keys, kbd_proc_data}

-- The facts that one byte from the keyboard keeps, as a test.
byte_test : ℕ → ℕ → Bool
byte_test shift byte =
    let (c, shift') = key_byte shift byte in
    ltb c 256 && (ltb shift' 128 && (ltb byte 0x80 || (c == 0)))

byte_table : all_below 128 (λ shift. all_below 256 (λ byte. byte_test shift byte)) ≡ true
unfolding all_below byte_test key_byte
byte_table = refl

-- From a `shift` of seven bits, one byte gives a character below 256 and again seven bits; and a
-- byte from 0x80 on, a release or an escape, gives no character.
pub key_byte_bounds :
    (shift byte : ℕ)
    → shift < 128
    → byte < 256
    → ((key_byte shift byte).0 < 256)
      × ((key_byte shift byte).1 < 128)
      × (0x80 ≤ byte → (key_byte shift byte).0 ≡ 0)
unfolding byte_test
key_byte_bounds shift byte hs hb =
    let h =
      all_below_sound 256 (byte_test shift) byte
        (all_below_sound 128 (λ shift. all_below 256 (byte_test shift)) shift byte_table hs) hb in
    (ground (arith, h), ground (arith, h), λ up. ground (arith, h))

-- A key that is pressed and released, as its two bytes.
abbrev pub tap : ℕ → ℕ → ℕ
tap shift code = (key_byte (key_byte shift code).1 (code + 0x80)).1

-- After a tap of any key, `shift` is as before, but for the modifier that the key is and the lock
-- that it toggles.
tap_test : ℕ → ℕ → Bool
tap_test shift code =
    tap shift code == bit_xor (bit_and shift (127 - shiftcode code)) (togglecode code)

tap_table : all_below 64 (λ shift. all_below 0x60 (λ code. tap_test shift code)) ≡ true
unfolding all_below tap_test key_byte
tap_table = refl

-- Pressing and releasing a key outside an E0 sequence, one of the codes below 0x60, gives no modifier
-- to hold: a Shift, Ctrl or Alt key leaves its own bit clear, a lock key flips its own bit, and
-- every other bit of `shift` is as before.
pub key_byte_tap :
    (shift code : ℕ)
    → shift < 64
    → code < 0x60
    → tap shift code ≡ bit_xor (bit_and shift (127 - shiftcode code)) (togglecode code)
unfolding tap_test
key_byte_tap shift code hs hc = (==_iff _ _).0 (
    all_below_sound 0x60 (tap_test shift) code
      (all_below_sound 64 (λ shift. all_below 0x60 (tap_test shift)) shift tap_table hs) hc)

-- Caps Lock swaps the case of letters and changes no other character.
caps_test : ℕ → ℕ → Bool
caps_test shift byte =
    (key_byte (bit_or shift capslock_bit) byte).0
    == swap_case (key_byte (bit_and shift (127 - capslock_bit)) byte).0

caps_table :
    all_below 128 (λ shift. all_below 256 (λ byte. caps_test shift byte || (byte == 0x3A))) ≡ true
unfolding all_below caps_test key_byte
caps_table = refl

-- One character is the other in the other case: letters swap, and nothing else changes.
abbrev pub OtherCase : ℕ → ℕ → Type 0
OtherCase c d =
    ((b'a' ≤ c) × (c ≤ b'z') × (d + 32 ≡ c))
    ⊎ ((b'A' ≤ c) × (c ≤ b'Z') × (d ≡ c + 32))
    ⊎ (((c < b'A') ⊎ ((b'Z' < c) × (c < b'a')) ⊎ (b'z' < c)) × (d ≡ c))

swap_case-OtherCase : (c : ℕ) → OtherCase c (swap_case c)
unfolding swap_case
swap_case-OtherCase c = ground arith

-- For every byte but Caps Lock itself and in every state of the modifiers, with Caps Lock on the
-- character is the one without it in the other case: small letters are 32 lower, capital letters
-- 32 higher, and any other character is the same.
pub key_byte_capslock :
    (shift byte : ℕ)
    → shift < 128
    → byte < 256
    → byte ≢ 0x3A
    → OtherCase
        (key_byte (bit_and shift (127 - capslock_bit)) byte).0
        (key_byte (bit_or shift capslock_bit) byte).0
unfolding caps_test
key_byte_capslock shift byte hs hb ne =
    let h =
      all_below_sound 256 (λ byte. caps_test shift byte || (byte == 0x3A)) byte
        (all_below_sound 128
          (λ shift. all_below 256 (λ byte. caps_test shift byte || (byte == 0x3A))) shift caps_table
          hs)
        hb in
    let same : (key_byte (bit_or shift capslock_bit) byte).0
        ≡ swap_case (key_byte (bit_and shift (127 - capslock_bit)) byte).0 =
      ground (arith, h) in
    rw same (swap_case-OtherCase _)

-- A character that a device hands over: -1, or a byte.
abbrev pub IsInput : ℕ → Type 0
IsInput c = (c ≡ minus_one) ⊎ (c < 256)

IsAnswer : ℕ × Kernel → Type 0
IsAnswer r = IsInput r.0 × IsConsole r.1.sink

-- The invariant reads neither the ports nor the colours.
pub IsConsole-io :
    (s : Console) (io : Ports) (shift : ℕ)
    → IsConsole s
    → shift < 128
    → IsConsole (record s { io = io; shift = shift })
IsConsole-io s io shift h bits = record {
  screen = record { cells = h.screen.cells; cursor = h.screen.cursor };
  ring = h.ring;
  modifiers = bits;
}

special_keys_keep :
    (dev : Device) (fuel c : ℕ) (k : Kernel)
    → c < 256
    → IsConsole k.sink
    → Ensures IsAnswer (special_keys dev fuel c k)
unfolding special_keys IsAnswer
special_keys_keep dev fuel c k hc h =
    let io_of = λ (k' : Kernel). outb 0x92 0x3 k'.sink.io in
    Ensures-if IsAnswer (reboots k.sink.shift c) _ (some (c, k))
      (Ensures-bind (λ k'. IsConsole k'.sink) IsAnswer
        (print_literal dev fuel (codes "Rebooting!" ++ (10 ∷ [])) (λ _. 0) k)
        (λ k'. some (c, record k' { sink = record (k'.sink) { io = io_of k' } }))
        (print_literal_keep dev fuel _ _ k h)
        (λ k' h'. (inr hc, IsConsole-io k'.sink (io_of k') k'.sink.shift h' h'.modifiers)))
      (inr hc, h)

-- One call of kbd_proc_data that returns gives -1 or a byte, and keeps the console's invariant.
pub kbd_proc_data_keep :
    (dev : Device) (fuel : ℕ) (k : Kernel)
    → IsConsole k.sink
    → Ensures (λ r. IsInput r.0 × IsConsole r.1.sink) (kbd_proc_data dev fuel k)
unfolding kbd_proc_data IsAnswer
kbd_proc_data_keep dev fuel k h =
    let (status, io₁) = inb dev 0x64 k.sink.io in
    let (byte, io₂) = inb dev 0x60 io₁ in
    let shift = k.sink.shift in
    let bounds = key_byte_bounds shift byte h.modifiers (omega arith) in
    Ensures-if IsAnswer (bit_and status 0x01 == 0) (some _) _
      (inl refl, IsConsole-io k.sink io₁ shift h h.modifiers)
      (special_keys_keep dev fuel (key_byte shift byte).0 _ bounds.0
        (IsConsole-io k.sink io₂ (key_byte shift byte).1 h bounds.1))
