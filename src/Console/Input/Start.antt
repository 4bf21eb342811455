-- ===== src/Console/Input/Start.antt =====
-- cons_init, and the console that it leaves.
use jos.Base.{
  ℕ, ◌*◌, ◌^◌, ◌<◌, ◌≡◌, ◌⊎◌, refl, ◌==◌, List, length, length-set, get_or, bit_or, u8, u16, ◌∙◌,
  arith, Bool-cases, inl, inr, Yields, Yields-if,
}
use jos.Console.Ports.{Device, inb, outb}
use jos.Console.State.{Console, Kernel, crt_size}
use jos.Console.Serial.{serial_init}
use jos.Console.Keyboard.{kbd_init}
use jos.Console.Screen.{cga_init}
use jos.Console.Screen.Laws.{IsScreen}
use jos.Console.Ring.Laws.{IsRing}
use jos.Console.Putc.Laws.{IsConsole}
use jos.Console.Input.{cons_init}
use jos.Console.Cprintf.Total.{Held, IsLiteral, print_literal-Yields}
use jos.Print.Format.Safe.{safe, advance, may_end}

-- The screen that cga_init finds has its 2000 cells, and the cursor registers of both adapters hold
-- the index of one of them.
pub record IsVideo (dev : Device) (cga_cells mono_cells : List ℕ) : Type 0 where
  pub cga : length cga_cells ≡ crt_size
  pub mono : length mono_cells ≡ crt_size
  pub cursor :
      (t t' : ℕ) (port : ℕ)
      → (port ≡ 0x3B5) ⊎ (port ≡ 0x3D5)
      → u16 (bit_or (u8 (dev t port) * 2 ^ 8) (u8 (dev t' port))) < crt_size

module _ (dev : Device) where
  cga_init-IsScreen :
      (readback : ℕ) (cga_cells mono_cells : List ℕ) (s : Console)
      → IsVideo dev cga_cells mono_cells
      → IsScreen (cga_init dev readback cga_cells mono_cells s)
  unfolding cga_init inb outb
  cga_init-IsScreen readback cga_cells mono_cells s video = elim (Bool-cases (readback == 0xA55A)) [
    | inl e ↦ record {
      cells = rw e (length-set cga_cells 0 (get_or cga_cells 0 0) ∙ video.cga);
      cursor = rw e (video.cursor _ _ 0x3D5 (inr refl));
    }
    | inr e ↦ record { cells = rw e video.mono; cursor = rw e (video.cursor _ _ 0x3B5 (inl refl)) }
  ]

  set_up-IsConsole :
      (readback : ℕ) (cga_cells mono_cells : List ℕ) (s : Console)
      → IsVideo dev cga_cells mono_cells
      → IsRing s.cons
      → s.shift < 128
      → IsConsole (serial_init dev (kbd_init (cga_init dev readback cga_cells mono_cells s)))
  unfolding serial_init kbd_init cga_init
  set_up-IsConsole readback cga_cells mono_cells s video ring small =
      let is = cga_init-IsScreen readback cga_cells mono_cells s video in
      record {
        screen = record { cells = is.cells; cursor = is.cursor };
        ring = ring;
        modifiers = small;
      }

  -- Whether there is a serial port or not, cons_init returns, the console is good, and what waits in
  -- the input buffer stays there. The adapters are as IsVideo says.
  pub cons_init-Yields :
      (fuel readback : ℕ) (cga_cells mono_cells : List ℕ) (k : Kernel)
      → IsVideo dev cga_cells mono_cells
      → IsRing k.sink.cons
      → k.sink.shift < 128
      → 100 < fuel
      → Yields (Held k.sink.cons) (cons_init dev fuel readback cga_cells mono_cells k)
  unfolding cons_init Held IsLiteral safe advance may_end serial_init kbd_init cga_init
  cons_init-Yields fuel readback cga_cells mono_cells k video ring small lt =
      let started =
        serial_init dev (kbd_init (cga_init dev readback cga_cells mono_cells k.sink)) in
      let good = set_up-IsConsole readback cga_cells mono_cells k.sink video ring small in
      Yields-if (Held k.sink.cons) started.serial_exists _ _ (λ _. (good, refl))
        (λ _.
          print_literal-Yields dev k.sink.cons fuel _ _ _ (ground arith, refl) (omega arith)
            (good, refl))
