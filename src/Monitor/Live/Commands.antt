-- ===== src/Monitor/Live/Commands.antt =====
-- Runs of the commands help and kerninfo, and of the message for an unknown one.
use jos.Base.{
  ℕ, ◌+◌, ◌<◌, ◌≡◌, refl, Option, none, some, ◌>>=◌, List, [], ◌∷◌, Bytes, length, length-append,
  arith, Yields, Yields-bind,
}
use jos.Console.Ports.{Device}
use jos.Console.State.{Kernel, Ring}
use jos.Console.Cprintf.{Arg, print_args}
use jos.Console.Cprintf.Total.{Held, IsLiteral, print_fuel, print_args-Yields}
use jos.Print.Format.Safe.{safe, advance, may_end}
use jos.Monitor.{
  Function, help, kerninfo, backtrace, commands, Symbols, mon_help, mon_kerninfo, run_command,
}
use jos.Monitor.Laws.{answer}

-- What a command leaves that returns: a console on which the same input waits, and the result 0.
unfoldable pub Answers : Ring → ℕ × Kernel → Type 0
unfolding Held
Answers ring r = Held ring r.1 × (r.0 ≡ 0)

module _ (dev : Device) (ring : Ring) where
  -- One print, with what follows it.
  pub print_then {ℓ} :
      {A : Type ℓ} (Q : A → Type 0) (fuel : ℕ) (fmt : Bytes) (args : List Arg) (k : Kernel)
      (f : Kernel → Option A)
      → IsLiteral fmt
      → print_fuel fmt args < fuel
      → Held ring k
      → ((k' : Kernel) → Held ring k' → Yields Q (f k'))
      → Yields Q (print_args dev fuel fmt args k >>= f)
  print_then Q fuel fmt args k f literal lt h go =
      Yields-bind (Held ring) Q _ f (print_args-Yields dev ring fuel fmt args k literal lt h) go

  mon_help-Yields :
      (fuel : ℕ) (k : Kernel)
      → 400 < fuel
      → Held ring k
      → Yields (Answers ring) (mon_help dev fuel commands k)
  unfolding mon_help IsLiteral safe advance may_end Answers
  mon_help-Yields fuel k lt h =
      print_then (Answers ring) fuel _ _ k _ (ground arith, refl) (omega arith) h
        λ k₁ h₁.
          print_then (Answers ring) fuel _ _ k₁ _ (ground arith, refl) (omega arith) h₁
            λ k₂ h₂.
              print_then (Answers ring) fuel _ _ k₂ (λ k'. some (0, k')) (ground arith, refl)
                (omega arith) h₂ λ k₃ h₃. (h₃, refl)

  mon_kerninfo-Yields :
      (symbols : Symbols) (fuel : ℕ) (k : Kernel)
      → 400 < fuel
      → Held ring k
      → Yields (Answers ring) (mon_kerninfo dev symbols fuel k)
  unfolding mon_kerninfo IsLiteral safe advance may_end Answers
  mon_kerninfo-Yields symbols fuel k lt h =
      print_then (Answers ring) fuel _ _ k _ (ground arith, refl) (omega arith) h
        λ k₁ h₁.
          print_then (Answers ring) fuel _ _ k₁ _ (ground arith, refl) (omega arith) h₁
            λ k₂ h₂.
              print_then (Answers ring) fuel _ _ k₂ _ (ground arith, refl) (omega arith) h₂
                λ k₃ h₃.
                  print_then (Answers ring) fuel _ _ k₃ _ (ground arith, refl) (omega arith) h₃
                    λ k₄ h₄.
                      print_then (Answers ring) fuel _ _ k₄ _ (ground arith, refl) (omega arith) h₄
                        λ k₅ h₅.
                          print_then (Answers ring) fuel _ _ k₅ _ (ground arith, refl) (omega arith)
                            h₅
                            λ k₆ h₆.
                              print_then (Answers ring) fuel _ _ k₆ (λ k'. some (0, k'))
                                (ground arith, refl) (omega arith) h₆ λ k₇ h₇. (h₇, refl)

  -- What a line does whose first word names the command `f`, or none. The third command is a parameter.
  pub answer-Yields :
      (symbols : Symbols) (mon_backtrace : ℕ → Kernel → Option (ℕ × Kernel)) (f : Option Function)
      (word : Bytes) (fuel : ℕ) (k : Kernel)
      → ((k' : Kernel) → Held ring k' → Yields (Answers ring) (mon_backtrace fuel k'))
      → 400 + length word < fuel
      → Held ring k
      → Yields (Answers ring) (answer dev symbols mon_backtrace f word fuel k)
  unfolding answer run_command IsLiteral safe advance may_end Answers
  answer-Yields symbols mon_backtrace (some help) word fuel k listed lt h =
      mon_help-Yields fuel k (omega arith) h
  answer-Yields symbols mon_backtrace (some kerninfo) word fuel k listed lt h =
      mon_kerninfo-Yields symbols fuel k (omega arith) h
  answer-Yields symbols mon_backtrace (some backtrace) word fuel k listed lt h = listed k h
  answer-Yields symbols mon_backtrace none word fuel k listed lt h =
      print_then (Answers ring) fuel _ _ k (λ k'. some (0, k')) (ground arith, refl)
        (omega (arith, length-append word (0 ∷ []))) h λ k' h'. (h', refl)
