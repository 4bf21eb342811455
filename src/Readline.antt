-- ===== src/Readline.antt =====
-- lib/readline.c: the line editor on top of getchar and cputchar.
pub mod Laws
pub mod Live
mod Tests
use jos.Base.{
  ℕ, zero, suc, ◌+◌, ◌-◌, Bool, true, false, not, ◌&&◌, ◌||◌, ◌==◌, ltb, leb, if◌then◌else◌, Option,
  none, some, ◌>>=◌, is_neg32, List, [], ◌∷◌, ◌++◌, Bytes, codes, set,
}
use jos.Console.Ports.{Device}
use jos.Console.State.{Kernel}
use jos.Console.Putc.{cputchar, iscons}
use jos.Console.Input.{getchar}
use jos.Console.Cprintf.{Arg, text, num, print_args}

abbrev pub buflen : ℕ
buflen = 1024

-- What one character does to the line, `i` characters of `buf`.
pub data Outcome : Type 0 where
  -- the line goes on, and the character is echoed if there is one
  more : Option ℕ → ℕ → List ℕ → Outcome
  -- the line is finished
  finished : List ℕ → Outcome
  failed : Outcome

-- The chain of tests of the loop. `c` is an `int` pattern, so `c >= ' '` of one that is not
-- negative is the comparison of numbers.
unfoldable pub line_key : ℕ → ℕ → List ℕ → Outcome
line_key c i buf =
    if is_neg32 c
    then failed
    else if ((c == 8) || (c == 0x7F)) && ltb 0 i
    then more (some 8) (i - 1) buf
    else if leb b' ' c && ltb i (buflen - 1)
    then more (some c) (i + 1) (set buf i c)
    else if (c == 10) || (c == 13)
    then finished (set buf i 0)
    else more none i buf

module _ (dev : Device) where
  -- `if (echoing) cputchar(c);`
  unfoldable pub echo : ℕ → Option ℕ → Kernel → Kernel
  echo echoing none k = k
  echo echoing (some c) k = if echoing == 0 then k else cputchar dev c k

  -- The result: is the line there, or was NULL returned; the buffer; and the state.
  unfoldable pub readline_loop : ℕ → ℕ → ℕ → List ℕ → Kernel → Option (Bool × List ℕ × Kernel)
  readline_loop zero echoing i buf k = none
  readline_loop (suc fuel) echoing i buf k = getchar dev fuel k >>= λ (c, k').
      elim (line_key c i buf) [
        | more e i' buf' ↦ readline_loop fuel echoing i' buf' (echo echoing e k')
        | finished buf' ↦ some (true, buf', echo echoing (some 10) k')
        | failed ↦
            print_args dev fuel (codes "read error: %e" ++ (10 ∷ [])) (num c ∷ []) k' >>= λ k''.
            some (false, buf, k'')
      ]

  -- `none` for the prompt stands for NULL.
  unfoldable pub readline : ℕ → Option Bytes → List ℕ → Kernel → Option (Bool × List ℕ × Kernel)
  readline fuel none buf k = readline_loop fuel (iscons 0) 0 buf k
  readline fuel (some prompt) buf k = do
    k' ← print_args dev fuel (codes "%s") (text prompt ∷ []) k
    readline_loop fuel (iscons 0) 0 buf k'
