-- ===== src/Monitor/Live.antt =====
-- The monitor on the lines that are typed.
pub mod Commands
pub mod Line
pub mod Backtrace
pub mod Typed
mod Tests
use jos.Base.{
  ℕ, zero, suc, ◌+◌, ◌-◌, ◌*◌, ◌<◌, ◌≤◌, ◌≡◌, ◌≢◌, ◌⊎◌, inl, inr, refl, sym, ap, ◌∙◌, true, false,
  ltb, Option, none, some, ◌>>=◌, List, [], ◌∷◌, ◌++◌, Bytes, codes, length, All, take, get_or,
  arith, append_assoc, is_neg32,
}
use jos.Base.Memory.{Memory, CString}
use jos.Console.Ports.{Device}
use jos.Console.State.{Kernel}
use jos.Console.Cprintf.Total.{Held}
use jos.Console.Ring.Laws.{pending}
use jos.Console.Input.Silent.{Silent}
use jos.Debug.Library.{Dwarf}
use jos.Debug.Function.{Ripdebuginfo}
use jos.Debug.Lookup.{InfoSection, Locals}
use jos.Readline.{buflen}
use jos.Readline.Laws.{IsLine, length-line, edited, drop_last, line}
use jos.Readline.Live.{InLine, Delivers, typed_line, readline_live}
use jos.Strings.Compare.Laws.{IsByte}
use jos.Monitor.{Symbols, line_memory, buf_address}
use jos.Monitor.Backtrace.{Stack, look_up, mon_backtrace}
use jos.Monitor.Backtrace.Laws.{Good, Frame, Chain}
use jos.Monitor.Turns.{AtPrompt, Turn, turn, Reaches, here, later, Turn-AtPrompt}
use jos.Monitor.Live.Line.{runcmd_returns}
use jos.Monitor.Live.Backtrace.{Named, mon_backtrace-Yields}
use jos.Monitor.Live.Typed.{typed_line-IsByte, line_stands}

-- A line that may be typed, with the byte that ends it.
abbrev pub IsTyped : Bytes → ℕ → Type 0
IsTyped typed last = All InLine typed × All IsByte typed × ((last ≡ 10) ⊎ (last ≡ 13))

-- The bytes of some lines.
abbrev pub script : List (Bytes × ℕ) → Bytes
script [] = []
script ((typed, last) ∷ lines) = typed ++ (last ∷ script lines)

abbrev pub IsScript : ℕ → List (Bytes × ℕ) → Type 0
IsScript fuel lines = All (λ (l : Bytes × ℕ). IsTyped l.0 l.1 × (length l.0 + 2 < fuel)) lines

module _ (dev : Device) (symbols : Symbols) (lib : Dwarf) (sect : InfoSection)
    (locals : ℕ → Locals lib) (stack : Stack) (info info' : Ripdebuginfo) (fuel bound : ℕ)
    (frames : List Frame) where
  answered_turn :
      (typed rest : Bytes) (last : ℕ) (buf : List ℕ) (k : Kernel)
      → Silent dev
      → look_up dev lib sect locals fuel stack.rip info ≡ some info'
      → Chain dev lib sect locals fuel stack.mem stack.rbp stack.rip info' frames
      → length frames < fuel
      → Named bound frames
      → 1500 + bound < fuel
      → IsTyped typed last
      → length typed + 2 < fuel
      → AtPrompt (buf, k)
      → pending k.sink.cons ≡ typed ++ (last ∷ rest)
      → (t : List ℕ × Kernel) × Turn dev symbols lib sect locals stack info (buf, k) t
        × (pending t.1.sink.cons ≡ rest)
  unfolding AtPrompt Good Delivers Held
  answered_turn typed rest last buf k silent looked chain few named lt (within, bytes, end) short h
        wait =
      let ((ok, buf₁, k₁), run, (fine, (i, is, same, ended), left, good)) =
        readline_live dev (some (codes "K> ")) typed fuel last buf k rest silent
          (ground arith, omega arith, omega arith) h.0 h.1 within end wait short in
      let size = length-line i buf₁ (omega (arith, is.size, is.room)) in
      let (k₂, buf₂, ran, held) =
        runcmd_returns dev k₁.sink.cons symbols (mon_backtrace dev lib sect locals stack info) fuel
          buf₁ k₁ (take i buf₁)
          (λ k' held.
            mon_backtrace-Yields dev k₁.sink.cons lib sect locals stack info info' fuel bound frames
              k' looked chain few named (omega arith) held)
          (line_stands i buf₁ is ended) (rw same (typed_line-IsByte typed [] tt bytes))
          (omega (arith, size, is.room)) (good, refl) in
      (
        (buf₂, k₂),
        turn fuel 0 buf buf₁ buf₂ k k₁ k₂ (run ∙ ap (λ q. some (q, buf₁, k₁)) fine) ran refl,
        ap pending held.1 ∙ left,
      )

  first_turn :
      (s t u : List ℕ × Kernel)
      → Turn dev symbols lib sect locals stack info s t
      → Reaches dev symbols lib sect locals stack info t u
      → Reaches dev symbols lib sect locals stack info s u
  first_turn s _ _ step (here t) = later s s t (here s) step
  first_turn s _ _ step (later t u v path more) = later s u v (first_turn s t u step path) more

  -- Lines wait at a prompt, each of bytes that getchar does not skip and with a byte that ends it, and
  -- behind them any others; no device has anything more to hand over. The stack has a chain of frames,
  -- as backtrace needs. The fuel is 1500 above the longest file name that a frame has, above the number
  -- of frames, and 3 above each line. Then the monitor comes to a prompt where all these lines have
  -- been read and run, whatever they say, and only the others wait.
  pub answers_all :
      (lines : List (Bytes × ℕ)) (rest : Bytes) (buf : List ℕ) (k : Kernel)
      → Silent dev
      → look_up dev lib sect locals fuel stack.rip info ≡ some info'
      → Chain dev lib sect locals fuel stack.mem stack.rbp stack.rip info' frames
      → length frames < fuel
      → Named bound frames
      → 1500 + bound < fuel
      → IsScript fuel lines
      → AtPrompt (buf, k)
      → pending k.sink.cons ≡ script lines ++ rest
      → (t : List ℕ × Kernel) × Reaches dev symbols lib sect locals stack info (buf, k) t
        × (pending t.1.sink.cons ≡ rest)
  answers_all [] rest buf k silent looked chain few named lt lines_ok h wait =
      ((buf, k), here (buf, k), wait)
  answers_all ((typed, last) ∷ lines) rest buf k silent looked chain few named lt
        ((ok, short), lines_ok) h wait =
      let (t, step, left) =
        answered_turn typed (script lines ++ rest) last buf k silent looked chain few named lt ok
          short h (wait ∙ append_assoc typed (last ∷ script lines) rest) in
      let (u, path, left') =
        answers_all lines rest t.0 t.1 silent looked chain few named lt lines_ok
          (Turn-AtPrompt dev symbols lib sect locals stack info (buf, k) t h step) left in
      (u, first_turn (buf, k) t u step path, left')
