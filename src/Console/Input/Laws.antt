-- ===== src/Console/Input/Laws.antt =====
-- What polling the devices keeps, and what getchar returns.
use jos.Base.{
  ℕ, zero, suc, ◌<◌, ◌≢◌, refl, inl, inr, ◌==◌, Bool, true, false, if◌then◌else◌, Option, some,
  Ensures, Ensures-bind, Ensures-case, Ensures-if, Bool-cases, minus_one, arith, bit_and,
}
use jos.Console.Ports.{Device, inb}
use jos.Console.State.{Console, Kernel}
use jos.Console.Putc.Laws.{IsConsole}
use jos.Console.Serial.{serial_proc_data}
use jos.Console.Ring.{store}
use jos.Console.Ring.Laws.{store-IsRing, load-IsRing}
use jos.Console.Keyboard.Laws.{IsInput, IsConsole-io, kbd_proc_data_keep}
use jos.Console.Input.{cons_intr, serial_intr, kbd_intr, cons_getc, getchar}

Good : Kernel → Type 0
Good k = IsConsole k.sink

stored :
    (b : Bool) (c : ℕ) (k : Kernel)
    → IsConsole k.sink
    → IsConsole
        (if b then k else record k { sink = record (k.sink) { cons = store c k.sink.cons } }).sink
stored true c k h = h
stored false c k h = record {
  screen = record { cells = h.screen.cells; cursor = h.screen.cursor };
  ring = store-IsRing c k.sink.cons h.ring;
  modifiers = h.modifiers;
}

cons_intr_keep :
    (proc : Kernel → Option (ℕ × Kernel))
    → ((k : Kernel) → IsConsole k.sink → Ensures (λ r. IsInput r.0 × IsConsole r.1.sink) (proc k))
    → (fuel : ℕ) (k : Kernel) → IsConsole k.sink
    → Ensures Good (cons_intr proc fuel k)
unfolding cons_intr Good
cons_intr_keep proc keep zero k h = tt
cons_intr_keep proc keep (suc fuel) k h =
    Ensures-bind (λ r. IsInput r.0 × IsConsole r.1.sink) Good (proc k) _ (keep k h)
      (λ r h'.
        Ensures-case Good (r.0 == minus_one) _ _ h'.1
          (cons_intr_keep proc keep fuel _ (stored (r.0 == 0) r.0 r.1 h'.1)))

module _ (dev : Device) where
  serial_keep :
      (s : Console)
      → IsConsole s
      → IsInput (serial_proc_data dev s).0 × IsConsole (serial_proc_data dev s).1
  unfolding serial_proc_data
  serial_keep s h =
      let (status, io') = inb dev 0x3FD s.io in
      elim (Bool-cases (bit_and status 0x01 == 0)) [
        | inl e ↦ rw e (inl refl, IsConsole-io s io' s.shift h h.modifiers)
        | inr e ↦
            rw e (inr (omega arith), IsConsole-io s (inb dev 0x3F8 io').1 s.shift h h.modifiers)
      ]

  serial_intr_keep :
      (fuel : ℕ) (k : Kernel) → IsConsole k.sink → Ensures Good (serial_intr dev fuel k)
  unfolding serial_intr Good
  serial_intr_keep fuel k h =
      Ensures-if Good k.sink.serial_exists _ (some k)
        (cons_intr_keep _ (λ k' h'. serial_keep k'.sink h') fuel k h) h

  -- Polling both devices and taking a character keep the console's invariant; the character is a
  -- byte.
  pub cons_getc_keep :
      (fuel : ℕ) (k : Kernel)
      → IsConsole k.sink
      → Ensures (λ r. (r.0 < 256) × IsConsole r.1.sink) (cons_getc dev fuel k)
  unfolding cons_getc kbd_intr Good
  cons_getc_keep fuel k h =
      Ensures-bind Good (λ r. (r.0 < 256) × IsConsole r.1.sink) _ _ (serial_intr_keep fuel k h)
        λ k₁ h₁.
          Ensures-bind Good (λ r. (r.0 < 256) × IsConsole r.1.sink) _ _
            (cons_intr_keep _ (kbd_proc_data_keep dev fuel) fuel k₁ h₁)
            λ k₂ h₂. (
              (load-IsRing k₂.sink.cons h₂.ring).1,
              record {
                screen = record { cells = h₂.screen.cells; cursor = h₂.screen.cursor };
                ring = (load-IsRing k₂.sink.cons h₂.ring).0;
                modifiers = h₂.modifiers;
              },
            )

  -- getchar keeps the console's invariant, and what it returns is a byte other than 0.
  pub getchar_keep :
      (fuel : ℕ) (k : Kernel)
      → IsConsole k.sink
      → Ensures (λ r. (r.0 < 256) × (r.0 ≢ 0) × IsConsole r.1.sink) (getchar dev fuel k)
  unfolding getchar
  getchar_keep zero k h = tt
  getchar_keep (suc fuel) k h =
      Ensures-bind (λ r. (r.0 < 256) × IsConsole r.1.sink) _ (cons_getc dev fuel k) _
        (cons_getc_keep fuel k h) (λ r h'. again r.0 r.1 h' (getchar_keep fuel r.1 h'.1))
    where
      Q : ℕ × Kernel → Type 0
      Q r = (r.0 < 256) × (r.0 ≢ 0) × IsConsole r.1.sink

      again :
          (c : ℕ) (k' : Kernel)
          → (c < 256) × IsConsole k'.sink
          → Ensures Q (getchar dev fuel k')
          → Ensures Q (elim (c == 0) [ true ↦ getchar dev fuel k' | false ↦ some (c, k') ])
      again c k' h' rest = elim (Bool-cases (c == 0)) [
        | inl e ↦ rw e rest
        | inr e ↦ rw e (h'.0, (λ z. absurd (ground arith)), h'.1)
      ]
