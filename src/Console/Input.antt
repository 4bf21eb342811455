-- ===== src/Console/Input.antt =====
-- kern/console.c: cons_intr, serial_intr, kbd_intr, cons_getc, getchar and cons_init.
pub mod Laws
pub mod Silent
pub mod Start
pub mod Serial
use jos.Base.{
  ℕ, zero, suc, Bool, true, false, ◌==◌, if◌then◌else◌, Option, none, some, ◌>>=◌, minus_one, codes,
  List, ◌++◌, ◌∷◌, [],
}
use jos.Console.Ports.{Device}
use jos.Console.State.{Console, Kernel}
use jos.Console.Serial.{serial_proc_data, serial_init}
use jos.Console.Keyboard.{kbd_proc_data, kbd_init}
use jos.Console.Screen.{cga_init}
use jos.Console.Ring.{store, load}
use jos.Console.Cprintf.{print_literal}

-- `while ((c = (*proc)()) != -1) { if (c == 0) continue; … }`
unfoldable pub cons_intr : (Kernel → Option (ℕ × Kernel)) → ℕ → Kernel → Option Kernel
cons_intr proc zero k = none
cons_intr proc (suc fuel) k = proc k >>= λ (c, k'). elim (c == minus_one) [
  | true ↦ some k'
  | false ↦
      cons_intr proc fuel (
        if c == 0
        then k'
        else record k' { sink = record (k'.sink) { cons = store c k'.sink.cons } })
]

module _ (dev : Device) where
  unfoldable pub serial_intr : ℕ → Kernel → Option Kernel
  serial_intr fuel k =
      if k.sink.serial_exists
      then cons_intr
          (λ k'. let (c, s) = serial_proc_data dev k'.sink in some (c, record k' { sink = s })) fuel
          k
      else some k

  unfoldable pub kbd_intr : ℕ → Kernel → Option Kernel
  kbd_intr fuel k = cons_intr (kbd_proc_data dev fuel) fuel k

  unfoldable pub cons_getc : ℕ → Kernel → Option (ℕ × Kernel)
  cons_getc fuel k = do
    k₁ ← serial_intr fuel k
    k₂ ← kbd_intr fuel k₁
    let (c, ring) = load k₂.sink.cons
    some (c, record k₂ { sink = record (k₂.sink) { cons = ring } })

  -- `while ((c = cons_getc()) == 0)`
  unfoldable pub getchar : ℕ → Kernel → Option (ℕ × Kernel)
  getchar zero k = none
  getchar (suc fuel) k = cons_getc fuel k >>= λ (c, k'). elim (c == 0) [
    | true ↦ getchar fuel k'
    | false ↦ some (c, k')
  ]

  -- `readback` and the two lists are what cga_init finds in the video memory.
  unfoldable pub cons_init : ℕ → ℕ → List ℕ → List ℕ → Kernel → Option Kernel
  cons_init fuel readback cga_cells mono_cells k =
      let k' : Kernel = record k {
        sink = serial_init dev (kbd_init (cga_init dev readback cga_cells mono_cells k.sink));
      } in
      if k'.sink.serial_exists
      then some k'
      else print_literal dev fuel (codes "Serial port does not exist!" ++ (10 ∷ [])) (λ _. 0) k'
