-- ===== src/Readline/Live.antt =====
-- A line that waits in the input buffer with its newline is read to its end.
use jos.Base.{
  ◌^◌, ℕ, zero, suc, ◌+◌, ◌<◌, ◌≡◌, ◌≢◌, ◌⊎◌, inl, inr, refl, ap, ◌∙◌, ◌==◌, true, Option, none,
  some, ◌>>=◌, List, [], ◌∷◌, ◌++◌, Bytes, All, length, get_or, arith, Bool, Bool-cases, set, subst,
}
use jos.Console.Ports.{Device}
use jos.Console.State.{Kernel}
use jos.Console.Putc.{cputchar, iscons}
use jos.Console.Putc.Laws.{IsConsole, cons_putc-SameInput}
use jos.Console.Ring.Laws.{pending}
use jos.Console.Input.Silent.{Silent, getchar_silent}
use jos.Console.Cprintf.Prompt.{IsAscii, print_prompt}
use jos.Readline.{buflen, Outcome, more, finished, failed, line_key, echo, readline_loop, readline}
use jos.Readline.Laws.{line, edited, IsLine, Refines, line_key_lem, echo_keep}

-- The editor on lists, on a sequence of bytes.
unfoldable pub typed_line : Bytes → Bytes → Bytes
typed_line cs [] = cs
typed_line cs (c ∷ typed) = typed_line (edited c cs) typed

-- A byte that neither ends a line nor is skipped by getchar.
abbrev pub InLine : ℕ → Type 0
InLine c = (c ≢ 0) × (c ≢ 10) × (c ≢ 13)

-- Which outcome a byte has.
more_key :
    (c i : ℕ) (buf : List ℕ)
    → IsLine i buf
    → c < 256
    → InLine c
    → (e : Option ℕ) × (i' : ℕ) × (buf' : List ℕ) × (line_key c i buf ≡ more e i' buf')
      × IsLine i' buf'
      × (line i' buf' ≡ edited c (line i buf))
more_key c i buf h small within = go (line_key c i buf) refl (line_key_lem c i buf h small)
  where
    go :
        (o : Outcome)
        → line_key c i buf ≡ o
        → Refines c i buf o
        → (e : Option ℕ) × (i' : ℕ) × (buf' : List ℕ) × (line_key c i buf ≡ more e i' buf')
          × IsLine i' buf'
          × (line i' buf' ≡ edited c (line i buf))
    go (more e i' buf') run (h', same) = (e, i', buf', run, h', same)
    go (finished buf') run (inl e, _, _, _) = absurd (within.1 e)
    go (finished buf') run (inr e, _, _, _) = absurd (within.2 e)
    go failed run ref = absurd ref

end_key : (c i : ℕ) (buf : List ℕ) → (c ≡ 10) ⊎ (c ≡ 13) → line_key c i buf ≡ finished (set buf i 0)
unfolding line_key
end_key c i buf (inl e) = rw e refl
end_key c i buf (inr e) = rw e refl

-- What readline hands over: the line, a zero behind it, and the bytes that still wait.
unfoldable pub Delivers : Bytes → Bytes → Bool × List ℕ × Kernel → Type 0
Delivers cs rest (ok, buf, k) =
    (ok ≡ true)
    × ((i : ℕ) × IsLine i buf × (line i buf ≡ cs) × (get_or buf i 0 ≡ 0))
    × (pending k.sink.cons ≡ rest)
    × IsConsole k.sink

-- No prompt, or one that printing is done with.
abbrev pub IsPrompt : ℕ → Option Bytes → Type 0
IsPrompt fuel none = Unit
IsPrompt fuel (some s) = All IsAscii s × (length s + 2 < fuel) × (length s < 2 ^ 31)

module _ (dev : Device) where
  echo-cons :
      (echoing : ℕ) (e : Option ℕ) (k : Kernel) → (echo dev echoing e k).sink.cons ≡ k.sink.cons
  unfolding echo cputchar
  echo-cons echoing none k = refl
  echo-cons echoing (some c) k = elim (Bool-cases (echoing == 0)) [
    | inl e ↦ rw e refl
    | inr e ↦ rw e ((cons_putc-SameInput dev _ _ c k.sink).0)
  ]

  -- The end of the line is the next byte.
  ends :
      (fuel echoing i last : ℕ) (buf : List ℕ) (k : Kernel) (rest : Bytes)
      → Silent dev
      → IsLine i buf
      → IsConsole k.sink
      → (last ≡ 10) ⊎ (last ≡ 13)
      → pending k.sink.cons ≡ last ∷ rest
      → (r : Bool × List ℕ × Kernel) × (readline_loop dev (suc (suc (suc fuel))) echoing i buf k
          ≡ some r)
        × Delivers (line i buf) rest r
  unfolding readline_loop Delivers
  ends fuel echoing i last buf k rest silent h good end wait =
      let nz : last ≢ 0 = elim end [ inl e ↦ (λ z. omega arith) | inr e ↦ (λ z. omega arith) ] in
      let (k₁, run, wait₁, good₁, small) =
        getchar_silent dev silent fuel k last rest good wait nz in
      let key = end_key last i buf end in
      let (_, h', same, zeroed) : Refines last i buf (finished (set buf i 0)) =
        rw key at (line_key_lem last i buf h small) in
      (
        (true, set buf i 0, echo dev echoing (some 10) k₁),
        rw (readline_loop, run, ◌>>=◌, key) refl,
        (
          refl,
          (i, h', same, zeroed),
          ap pending (echo-cons echoing (some 10) k₁) ∙ wait₁,
          echo_keep dev echoing (some 10) k₁ good₁,
        ),
      )

  readline_loop_live :
      (typed : Bytes) (fuel echoing i last : ℕ) (buf : List ℕ) (k : Kernel) (rest : Bytes)
      → Silent dev
      → IsLine i buf
      → IsConsole k.sink
      → All InLine typed
      → (last ≡ 10) ⊎ (last ≡ 13)
      → pending k.sink.cons ≡ typed ++ (last ∷ rest)
      → length typed + 2 < fuel
      → (r : Bool × List ℕ × Kernel) × (readline_loop dev fuel echoing i buf k ≡ some r)
        × Delivers (typed_line (line i buf) typed) rest r
  unfolding readline_loop typed_line
  readline_loop_live typed zero echoing i last buf k rest silent h good within end wait lt =
      absurd (omega arith)
  readline_loop_live typed (suc zero) echoing i last buf k rest silent h good within end wait lt =
      absurd (omega arith)
  readline_loop_live typed (suc (suc zero)) echoing i last buf k rest silent h good within end wait
        lt =
      absurd (omega arith)
  readline_loop_live [] (suc (suc (suc fuel))) echoing i last buf k rest silent h good within end
        wait lt =
      ends fuel echoing i last buf k rest silent h good end wait
  readline_loop_live (c ∷ typed) (suc (suc (suc fuel))) echoing i last buf k rest silent h good
        (first, within) end wait lt =
      let (k₁, got, wait₁, good₁, small) =
        getchar_silent dev silent fuel k c (typed ++ (last ∷ rest)) good wait first.0 in
      let (e, i', buf', key, h', same) = more_key c i buf h small first in
      let (r, run, delivered) =
        readline_loop_live typed (suc (suc fuel)) echoing i' last buf' (echo dev echoing e k₁) rest
          silent h' (echo_keep dev echoing e k₁ good₁) within end
          (ap pending (echo-cons echoing e k₁) ∙ wait₁) (omega arith) in
      (
        r,
        rw (readline_loop, got, ◌>>=◌, key) run,
        subst (λ cs. Delivers (typed_line cs typed) rest r) same delivered,
      )

  -- No device has anything more to hand over, and a line waits in the input buffer: bytes other than 0
  -- and the two ends of a line, then one of these, then any others. A readline with no prompt or one of
  -- ASCII characters, with a buffer of 1024 bytes, fuel of three more than the line and than the prompt,
  -- and a good console, returns the line as the editor on lists makes it of the bytes, ended by a zero;
  -- the others still wait, and the console is good.
  pub readline_live :
      (prompt : Option Bytes) (typed : Bytes) (fuel last : ℕ) (buf : List ℕ) (k : Kernel)
      (rest : Bytes)
      → Silent dev
      → IsPrompt fuel prompt
      → length buf ≡ buflen
      → IsConsole k.sink
      → All InLine typed
      → (last ≡ 10) ⊎ (last ≡ 13)
      → pending k.sink.cons ≡ typed ++ (last ∷ rest)
      → length typed + 2 < fuel
      → (r : Bool × List ℕ × Kernel) × (readline dev fuel prompt buf k ≡ some r)
        × Delivers (typed_line [] typed) rest r
  unfolding readline
  readline_live none typed fuel last buf k rest silent p size good within end wait lt =
      readline_loop_live typed fuel (iscons 0) 0 last buf k rest silent
        (record { size = size; room = omega arith; shown = λ j l. absurd (omega arith) }) good
        within end wait lt
  readline_live (some s) typed fuel last buf k rest silent (ascii, enough, small) size good within
        end wait lt =
      let (k', printed, same, good') = print_prompt dev s fuel k ascii enough small good in
      let (r, run, delivered) =
        readline_loop_live typed fuel (iscons 0) 0 last buf k' rest silent
          (record { size = size; room = omega arith; shown = λ j l. absurd (omega arith) }) good'
          within end (ap pending same ∙ wait) lt in
      (r, ap (λ o. o >>= λ q. readline_loop dev fuel (iscons 0) 0 buf q) printed ∙ run, delivered)
