-- ===== src/Monitor/Keep.antt =====
-- What every command and every command line keeps.
use jos.Base.{ℕ, ◌≡◌, refl, Option, none, some, List, [], ◌∷◌, Ensures, Ensures-bind, Ensures-any}
use jos.Base.Memory.{Memory}
use jos.Console.Ports.{Device}
use jos.Console.State.{Kernel}
use jos.Console.Cprintf.Laws.{print_args_keep}
use jos.Debug.Library.{Dwarf}
use jos.Debug.Function.{Ripdebuginfo}
use jos.Debug.Lookup.{InfoSection, Locals}
use jos.Monitor.Parse.{Parsed, parsed, too_many}
use jos.Monitor.{
  string_at, Function, help, kerninfo, backtrace, Command, commands, Symbols, mon_help,
  mon_kerninfo, run_command, invoke, run_words, run_parsed, runcmd,
}
use jos.Monitor.Backtrace.{Stack, mon_backtrace}
use jos.Monitor.Backtrace.Laws.{Good, Finishes, mon_backtrace_keep}

module _ (dev : Device) where
  mon_help_keep :
      (fuel : ℕ) (cs : List Command) (k : Kernel)
      → Good k
      → Ensures Finishes (mon_help dev fuel cs k)
  unfolding mon_help Good Finishes
  mon_help_keep fuel [] k h = (h, refl)
  mon_help_keep fuel (c ∷ cs) k h =
      Ensures-bind Good Finishes _ _ (print_args_keep dev fuel _ _ k h)
        (λ k' h'. mon_help_keep fuel cs k' h')

  mon_kerninfo_keep :
      (symbols : Symbols) (fuel : ℕ) (k : Kernel)
      → Good k
      → Ensures Finishes (mon_kerninfo dev symbols fuel k)
  unfolding mon_kerninfo Good Finishes
  mon_kerninfo_keep symbols fuel k h =
      Ensures-bind Good Finishes _ _ (print_args_keep dev fuel _ _ k h) (λ k₁ h₁.
        Ensures-bind Good Finishes _ _ (print_args_keep dev fuel _ _ k₁ h₁) (λ k₂ h₂.
          Ensures-bind Good Finishes _ _ (print_args_keep dev fuel _ _ k₂ h₂) (λ k₃ h₃.
            Ensures-bind Good Finishes _ _ (print_args_keep dev fuel _ _ k₃ h₃) (λ k₄ h₄.
              Ensures-bind Good Finishes _ _ (print_args_keep dev fuel _ _ k₄ h₄) (λ k₅ h₅.
                Ensures-bind Good Finishes _ _ (print_args_keep dev fuel _ _ k₅ h₅) (λ k₆ h₆.
                  Ensures-bind Good Finishes _ _ (print_args_keep dev fuel _ _ k₆ h₆)
                    (λ k₇ h₇. (h₇, refl))))))))

-- What runcmd leaves, with the buffer.
unfoldable pub Returns : ℕ × Kernel × List ℕ → Type 0
Returns r = Good r.1 × (r.0 ≡ 0)

-- The monitor with its commands.
module _ (dev : Device) (symbols : Symbols) (lib : Dwarf) (sect : InfoSection)
    (locals : ℕ → Locals lib) (stack : Stack) (info : Ripdebuginfo) where
  run_command_keep :
      (func : Function) (fuel : ℕ) (k : Kernel)
      → Good k
      → Ensures Finishes
          (run_command dev symbols (mon_backtrace dev lib sect locals stack info) func fuel k)
  unfolding run_command
  run_command_keep help fuel k h = mon_help_keep dev fuel commands k h
  run_command_keep kerninfo fuel k h = mon_kerninfo_keep dev symbols fuel k h
  run_command_keep backtrace fuel k h = mon_backtrace_keep dev lib sect locals stack info fuel k h

  invoke_keep :
      (fuel p : ℕ) (m : Memory) (k : Kernel) (f : Option Function)
      → Good k
      → Ensures Finishes
          (invoke dev symbols (mon_backtrace dev lib sect locals stack info) fuel p m k f)
  unfolding invoke Good Finishes
  invoke_keep fuel p m k (some func) h = run_command_keep func fuel k h
  invoke_keep fuel p m k none h =
      Ensures-bind (λ _. Unit) Finishes _ _ (Ensures-any (string_at fuel m p))
        (λ n _.
          Ensures-bind Good Finishes _ (λ k'. some (0, k')) (print_args_keep dev fuel _ _ k h)
            (λ k' h'. (h', refl)))

  run_words_keep :
      (fuel : ℕ) (argv : List ℕ) (m : Memory) (k : Kernel)
      → Good k
      → Ensures Finishes
          (run_words dev symbols (mon_backtrace dev lib sect locals stack info) fuel argv m k)
  unfolding run_words Finishes
  run_words_keep fuel [] m k h = (h, refl)
  run_words_keep fuel (p ∷ ps) m k h =
      Ensures-bind (λ _. Unit) Finishes _ _ (Ensures-any _) (λ f _. invoke_keep fuel p m k f h)

  run_parsed_keep :
      (fuel : ℕ) (k : Kernel) (p : Parsed)
      → Good k
      → Ensures Returns
          (run_parsed dev symbols (mon_backtrace dev lib sect locals stack info) fuel k p)
  unfolding run_parsed Good Returns Finishes
  run_parsed_keep fuel k (too_many m) h =
      Ensures-bind Good Returns _ _ (print_args_keep dev fuel _ _ k h) (λ k' h'. (h', refl))
  run_parsed_keep fuel k (parsed argv m) h =
      Ensures-bind Finishes Returns _ _ (run_words_keep fuel argv m k h) (λ r h'. h')

  -- A command line that is run to its end leaves the console's invariant as it was, and runcmd returns
  -- 0, whatever the line, the stack and the debug information are.
  pub runcmd_keep :
      (fuel : ℕ) (buf : List ℕ) (k : Kernel)
      → Good k
      → Ensures Returns
          (runcmd dev symbols (mon_backtrace dev lib sect locals stack info) fuel buf k)
  unfolding runcmd Returns
  runcmd_keep fuel buf k h =
      Ensures-bind (λ _. Unit) Returns _ _ (Ensures-any _) (λ p _. run_parsed_keep fuel k p h)
