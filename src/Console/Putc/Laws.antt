-- ===== src/Console/Putc/Laws.antt =====
-- cons_putc keeps the screen's invariant, and two levels of calls are enough.
use jos.Base.{ℕ, zero, suc, ◌<◌, ◌≡◌, refl, false, ◌==◌, arith, bit_and}
use jos.Console.Ports.{Device}
use jos.Console.State.{Console}
use jos.Console.Screen.{cga_putc, put_cell, attributed}
use jos.Console.Screen.Laws.{IsScreen, cga_putc-IsScreen, SameInput, cga_putc-SameInput, low_byte}
use jos.Console.Ring.Laws.{IsRing}
use jos.Console.Putc.{putc_depth, cons_putc}

-- The invariant of all of the console's variables.
pub record IsConsole (s : Console) : Type 0 where
  pub screen : IsScreen s
  pub ring : IsRing s.cons
  pub modifiers : s.shift < 128

module _ (dev : Device) where
  putc_depth_keep :
      (depth flag parsing ch : ℕ) (s : Console)
      → IsScreen s
      → IsScreen (putc_depth dev depth flag parsing ch s)
  unfolding putc_depth
  putc_depth_keep zero flag parsing ch s h = h
  putc_depth_keep (suc depth) flag parsing ch s h =
      cga_putc-IsScreen (putc_depth dev depth flag parsing) flag parsing ch _
        (λ ch' s' h'. putc_depth_keep depth flag parsing ch' s' h')
        (record { cells = h.cells; cursor = h.cursor })

  -- Every character in every colour leaves a screen of 2000 cells with the cursor on one of them.
  pub cons_putc-IsScreen :
      (flag parsing ch : ℕ) (s : Console) → IsScreen s → IsScreen (cons_putc dev flag parsing ch s)
  unfolding cons_putc
  cons_putc-IsScreen flag parsing ch s h = putc_depth_keep 2 flag parsing ch s h

  putc_depth-SameInput :
      (depth flag parsing ch : ℕ) (s : Console)
      → SameInput s (putc_depth dev depth flag parsing ch s)
  unfolding putc_depth
  putc_depth-SameInput zero flag parsing ch s = (refl, refl)
  putc_depth-SameInput (suc depth) flag parsing ch s =
      cga_putc-SameInput (putc_depth dev depth flag parsing) flag parsing ch _
        (λ ch' s'. putc_depth-SameInput depth flag parsing ch' s')

  pub cons_putc-SameInput :
      (flag parsing ch : ℕ) (s : Console) → SameInput s (cons_putc dev flag parsing ch s)
  unfolding cons_putc
  cons_putc-SameInput flag parsing ch s = putc_depth-SameInput 2 flag parsing ch s

  -- The console's invariant is kept too.
  pub cons_putc-IsConsole :
      (flag parsing ch : ℕ) (s : Console)
      → IsConsole s
      → IsConsole (cons_putc dev flag parsing ch s)
  unfolding cons_putc
  cons_putc-IsConsole flag parsing ch s h = record {
    screen = putc_depth_keep 2 flag parsing ch s h.screen;
    ring = rw ((putc_depth-SameInput 2 flag parsing ch s).0) h.ring;
    modifiers = omega (arith, (putc_depth-SameInput 2 flag parsing ch s).1);
  }

-- A character other than a tab makes no call.
no_tab :
    (f g : ℕ → Console → Console) (flag parsing ch : ℕ) (s : Console)
    → (bit_and (attributed flag ch) 0xFF == 9) ≡ false
    → cga_putc f flag parsing ch s ≡ cga_putc g flag parsing ch s
unfolding cga_putc put_cell
no_tab f g flag parsing ch s h = rw h refl

-- A tab calls with blanks alone.
tab_calls :
    (f g : ℕ → Console → Console) (flag parsing ch : ℕ) (s : Console)
    → ((s : Console) → f b' ' s ≡ g b' ' s)
    → cga_putc f flag parsing ch s ≡ cga_putc g flag parsing ch s
unfolding cga_putc put_cell
tab_calls f g flag parsing ch s same = simp same

space_depth :
    (dev : Device) (depth flag parsing : ℕ) (s : Console)
    → flag < 256
    → putc_depth dev (suc depth) flag parsing b' ' s ≡ putc_depth dev 1 flag parsing b' ' s
unfolding putc_depth
space_depth dev depth flag parsing s h =
    no_tab (putc_depth dev depth flag parsing) (λ c x. x) flag parsing b' ' _
      (rw (low_byte flag b' ' h (omega arith)))

-- More depth than two levels changes nothing: a character is printed as cons_putc prints it.
pub putc_depth-eq-cons_putc :
    (dev : Device) (depth flag parsing ch : ℕ) (s : Console)
    → flag < 256
    → putc_depth dev (suc (suc depth)) flag parsing ch s ≡ cons_putc dev flag parsing ch s
unfolding putc_depth cons_putc
putc_depth-eq-cons_putc dev depth flag parsing ch s h =
    tab_calls (putc_depth dev (suc depth) flag parsing) (putc_depth dev 1 flag parsing) flag parsing
      ch _ (λ s'. space_depth dev depth flag parsing s' h)
