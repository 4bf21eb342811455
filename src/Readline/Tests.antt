-- ===== src/Readline/Tests.antt =====
-- The line editor on a buffer that holds "ab".
use jos.Base.{
  codes, ℕ, zero, suc, ◌<◌, ◌≤◌, ◌≡◌, List, ◌∷◌, replicate, length, get_or, length-replicate, arith,
  Bool, refl, some, [], inr,
}
use jos.Console.Fixtures.{device, kernel, kernel-IsConsole}
use jos.Console.State.{Ring, Kernel}
use jos.Console.Ring.Laws.{get_or-zeros, pending, stretch}
use jos.Console.Putc.Laws.{IsConsole}
use jos.Console.Input.Silent.{Silent}
use jos.Readline.Live.{Delivers, typed_line, readline_live}
use jos.Readline.{buflen, line_key, readline}
use jos.Readline.Laws.{edited, drop_last, IsLine, Refines, line_key_lem}

abbrev typed : List ℕ
typed = b'a' ∷ b'b' ∷ replicate 1022 0

typed-length : length typed ≡ buflen
typed-length = omega (arith, length-replicate {A = ℕ} 1022 0)

shown_in_typed : (j : ℕ) → j < 2 → b' ' ≤ get_or typed j 0
shown_in_typed zero h = omega arith
shown_in_typed (suc zero) h = omega arith
shown_in_typed (suc (suc j)) h = absurd (omega arith)

typed-IsLine : IsLine 2 typed
typed-IsLine = record { size = typed-length; room = omega arith; shown = shown_in_typed }

line_key_lem_example : Refines b'c' 2 typed (line_key b'c' 2 typed)
line_key_lem_example = line_key_lem b'c' 2 typed typed-IsLine (omega arith)

-- The bytes "ab", a backspace, "c", a return and "x" wait.
abbrev waiting_line : Ring
waiting_line = record {
  buf = b'a' ∷ b'b' ∷ 8 ∷ b'c' ∷ 13 ∷ b'x' ∷ replicate 506 0;
  rpos = 0;
  wpos = 6;
}

abbrev filled : Kernel
filled = record kernel { sink = record (kernel.sink) { cons = waiting_line } }

small_bytes : (i : ℕ) → get_or waiting_line.buf i 0 < 256
small_bytes zero = omega arith
small_bytes (suc zero) = omega arith
small_bytes (suc (suc zero)) = omega arith
small_bytes (suc (suc (suc zero))) = omega arith
small_bytes (suc (suc (suc (suc zero)))) = omega arith
small_bytes (suc (suc (suc (suc (suc zero))))) = omega arith
small_bytes (suc (suc (suc (suc (suc (suc i)))))) = get_or-zeros 506 i

filled-IsConsole : IsConsole filled.sink
filled-IsConsole = record {
  screen = record {
    cells = kernel-IsConsole.screen.cells;
    cursor = kernel-IsConsole.screen.cursor;
  };
  ring = record {
    size = omega (arith, length-replicate {A = ℕ} 506 0);
    reader = omega arith;
    writer = omega arith;
    bytes = small_bytes;
  };
  modifiers = omega arith;
}

device-Silent : Silent device
unfolding Silent
device-Silent t = (refl, refl)

waits : pending waiting_line ≡ b'a' ∷ b'b' ∷ 8 ∷ b'c' ∷ 13 ∷ b'x' ∷ []
unfolding pending stretch
waits = refl

readline_live_example :
    (r : Bool × List ℕ × Kernel) × (readline device 9 (some (codes "K> ")) typed filled ≡ some r)
    × Delivers (b'a' ∷ b'c' ∷ []) (b'x' ∷ []) r
unfolding typed_line edited drop_last
readline_live_example =
    readline_live device (some (codes "K> ")) (b'a' ∷ b'b' ∷ 8 ∷ b'c' ∷ []) 9 13 typed filled
      (b'x' ∷ []) device-Silent (ground arith, omega arith, omega arith) typed-length
      filled-IsConsole (ground arith) (inr refl) waits (omega arith)
