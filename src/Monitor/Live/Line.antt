-- ===== src/Monitor/Live/Line.antt =====
-- The run of a command line.
use jos.Base.{
  ℕ, ◌+◌, ◌<◌, ◌≤◌, ◌≡◌, ◌⊎◌, inl, inr, refl, ap, ◌∙◌, Option, none, some, ◌>>=◌, List, [], ◌∷◌,
  ◌++◌, Bytes, length, length-append, All, arith, ltb, Bool-cases, Yields, Yields-bind, Yields-some,
  Yields-of-some,
}
use mathlib.Core.List.{List-discrete}
use native.Mathlib.Decide.{ℕ_discrete}
use jos.Base.Memory.{CString}
use jos.Console.Ports.{Device}
use jos.Console.State.{Kernel, Ring}
use jos.Console.Cprintf.Total.{Held, IsLiteral}
use jos.Print.Format.Safe.{safe, advance, may_end}
use jos.Strings.Compare.Laws.{IsByte}
use jos.Monitor.{
  Function, Command, commands, Symbols, line_memory, buf_address, runcmd, run_parsed, run_words,
}
use jos.Monitor.Parse.{maxargs, parsed}
use jos.Monitor.Parse.Laws.{text_of, Separated, no_words, parse_args_lem, parse_args_refuses}
use jos.Monitor.Parse.Cut.{cut}
use jos.Monitor.Laws.{Chosen, runcmd_lem}
use jos.Monitor.Live.Commands.{Answers, print_then, answer-Yields}

-- There is always an answer to which command a word names.
chosen : (word : Bytes) (cs : List Command) → (f : Option Function) × Chosen f word cs
chosen word [] = (none, refl)
chosen word (c ∷ cs) = elim (List-discrete ℕ_discrete word c.name) [
  | yes e ↦ (some c.func, inl (e, refl))
  | no ne ↦ let (f, h) = chosen word cs in (f, inr (ne, h))
]

All-left {ℓ} : (P : ℕ → Type ℓ) (xs ys : Bytes) → All P (xs ++ ys) → All P xs × All P ys
All-left P [] ys h = (tt, h)
All-left P (x ∷ xs) ys (hx, h) = let (a, b) = All-left P xs ys h in ((hx, a), b)

few_or_many : (n : ℕ) → (n < maxargs) ⊎ (maxargs ≤ n)
few_or_many n = elim (Bool-cases (ltb n maxargs)) [
  | inl e ↦ inl (ground arith)
  | inr e ↦ inr (ground arith)
]

-- What runcmd leaves.
unfoldable pub Ran : Ring → ℕ × Kernel × List ℕ → Type 0
unfolding Held
Ran ring r = Held ring r.1 × (r.0 ≡ 0)

module _ (dev : Device) (ring : Ring) (symbols : Symbols)
    (mon_backtrace : ℕ → Kernel → Option (ℕ × Kernel)) where
  run_pieces :
      (fuel : ℕ) (buf : List ℕ) (k : Kernel) (pieces : List (Bytes × Bytes)) (end : Bytes)
      → ((k' : Kernel) → Held ring k' → Yields (Answers ring) (mon_backtrace fuel k'))
      → CString (line_memory buf) buf_address (text_of pieces end)
      → Separated pieces end
      → All IsByte (text_of pieces end)
      → 400 + length (text_of pieces end) < fuel
      → Held ring k
      → Yields (Ran ring) (runcmd dev symbols mon_backtrace fuel buf k)
  unfolding runcmd run_parsed run_words Ran Answers IsLiteral safe advance may_end
  run_pieces fuel buf k [] end listed h sep bytes lt held =
      let (ps, m', run, points, below) =
        parse_args_lem fuel (line_memory buf) buf_address [] end h sep (omega arith)
          (omega arith) in
      Yields-of-some (Ran ring) _
        (ap (λ o. o >>= run_parsed dev symbols mon_backtrace fuel k)
          (run ∙ ap (λ l. some (parsed l m')) (no_words m' ps points)))
        (held, refl)
  run_pieces fuel buf k ((blanks, word) ∷ rest) end listed h sep bytes lt held =
      elim (few_or_many (length rest + 1)) [
        | inl few ↦
            let (f, is) = chosen word commands in
            let (buf', run) =
              runcmd_lem dev symbols mon_backtrace fuel buf k blanks word rest end f h sep
                ((All-left IsByte word _ (All-left IsByte blanks _ bytes).1).0) (omega arith) few
                is in
            rw run (
              Yields-bind (Answers ring) (Ran ring) _ _
                (answer-Yields dev ring symbols mon_backtrace f word fuel k listed
                  (omega (
                    arith,
                    length-append blanks (word ++ text_of rest end),
                    length-append word (text_of rest end),
                  ))
                  held)
                (λ r done. done))
        | inr many ↦
            let (m', run) =
              parse_args_refuses fuel (line_memory buf) buf_address ((blanks, word) ∷ rest) end h
                sep (omega arith) (omega (arith, many)) in
            rw (runcmd, run)
              (print_then dev ring (Ran ring) fuel _ _ k _ (ground arith, refl) (omega arith) held
                (λ k' h'. (h', refl)))
      ]

  -- A line of bytes that stands in the buffer as a string is run to its end, however many words it has:
  -- runcmd returns 0, with a good console on which the same input waits. The fuel is 400 above the
  -- line's length, and the command backtrace, where the line runs it, returns 0.
  pub runcmd_returns :
      (fuel : ℕ) (buf : List ℕ) (k : Kernel) (cs : Bytes)
      → ((k' : Kernel) → Held ring k' → Yields (Answers ring) (mon_backtrace fuel k'))
      → CString (line_memory buf) buf_address cs
      → All IsByte cs
      → 400 + length cs < fuel
      → Held ring k
      → (k' : Kernel) × (buf' : List ℕ) × (runcmd dev symbols mon_backtrace fuel buf k
          ≡ some (0, k', buf'))
        × Held ring k'
  unfolding Ran
  runcmd_returns fuel buf k cs listed h bytes lt held =
      let (pieces, end, same, sep) = cut cs in
      let ((ret, k', buf'), run, kept) = Yields-some (Ran ring) _ (
        run_pieces fuel buf k pieces end listed (rw same h) sep (rw same bytes) (rw same lt)
          held) in
      (k', buf', run ∙ ap (λ z. some (z, k', buf')) kept.1, kept.0)
