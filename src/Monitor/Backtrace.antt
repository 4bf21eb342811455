-- ===== src/Monitor/Backtrace.antt =====
-- kern/monitor.c: mon_backtrace.
pub mod Laws
pub mod Shown
use jos.Base.{
  ℕ, zero, suc, ◌+◌, ◌-◌, ◌*◌, ◌^◌, true, false, ◌==◌, leb, if◌then◌else◌, Option, none, some,
  ◌>>=◌, List, [], ◌∷◌, ◌++◌, codes, get_or, minus64, sign_extend8,
}
use jos.Base.Memory.{Memory, le32, le64}
use jos.Console.Ports.{Device}
use jos.Console.State.{Kernel}
use jos.Console.Cprintf.{text, num, print_args}
use jos.Debug.Library.{Dwarf}
use jos.Debug.Function.{Ripdebuginfo}
use jos.Debug.Lookup.{Lookup, found, not_found, panics, InfoSection, Locals, debuginfo_rip}

-- What debuginfo_rip leaves in `info`, if it returns. A panic does not.
unfoldable pub info_of : Lookup → Option Ripdebuginfo
info_of (found info) = some info
info_of (not_found info) = some info
info_of (panics message) = none

-- The registers rbp and rip on entry, and the memory of the stack, which printing leaves.
pub record Stack : Type 0 where
  pub rbp : ℕ
  pub rip : ℕ
  pub mem : Memory

module _ (dev : Device) where
  -- The loop over the name; the first two arguments are the rounds left and `i`.
  unfoldable pub print_name : ℕ → ℕ → ℕ → Ripdebuginfo → Kernel → Option Kernel
  print_name zero i fuel info k = some k
  print_name (suc left) i fuel info k = do
    k' ← print_args dev fuel (codes "%c") (num (sign_extend8 (get_or info.fn_name i 0)) ∷ []) k
    print_name left (i + 1) fuel info k'

  -- The loop over the arguments.
  unfoldable pub print_arguments : ℕ → ℕ → ℕ → Memory → ℕ → Kernel → Option Kernel
  print_arguments zero i fuel mem rbp k = some k
  print_arguments (suc left) i fuel mem rbp k = do
    k' ← print_args dev fuel (codes " %016x") (num (le32 mem (minus64 rbp ((i + 1) * 4))) ∷ []) k
    print_arguments left (i + 1) fuel mem rbp k'

  -- One round: "print stack and debug information".
  unfoldable pub print_frame : ℕ → Memory → ℕ → ℕ → Ripdebuginfo → Kernel → Option Kernel
  unfolding print_name print_arguments
  print_frame fuel mem rbp rip info k = do
    k₁ ←
        print_args dev fuel (codes "  rbp %016x  rip %016x" ++ (10 ∷ [])) (num rbp ∷ num rip ∷ []) k
    k₂ ← print_args dev fuel (codes "       %s:%d: ") (text info.file ∷ num info.line ∷ []) k₁
    k₃ ← print_name info.fn_namelen 0 fuel info k₂
    k₄ ← print_args dev fuel (codes "+%016x") (num (minus64 rip info.fn_addr) ∷ []) k₃
    k₅ ← print_args dev fuel (codes "  args:%d ") (num info.fn_narg ∷ []) k₄
    k₆ ← print_arguments info.fn_narg 0 fuel mem rbp k₅
    print_args dev fuel (10 ∷ []) [] k₆

module _ (dev : Device) (lib : Dwarf) (sect : InfoSection) (locals : ℕ → Locals lib) where
  -- `debuginfo_rip(rip, &info)`. `locals rip` is what the call's locals hold before they are filled.
  unfoldable pub look_up : ℕ → ℕ → Ripdebuginfo → Option Ripdebuginfo
  unfolding info_of
  look_up fuel rip info = debuginfo_rip lib fuel fuel sect (locals rip) rip info >>= info_of

  -- `while (rbp != 0)`, with the rounds left.
  unfoldable pub backtrace_loop : ℕ → ℕ → Memory → ℕ → ℕ → Ripdebuginfo → Kernel → Option Kernel
  unfolding look_up print_frame
  backtrace_loop zero fuel mem rbp rip info k = none
  backtrace_loop (suc rounds) fuel mem rbp rip info k = elim (rbp == 0) [
    | true ↦ some k
    | false ↦ print_frame dev fuel mem rbp rip info k >>= λ k'.
        look_up fuel (le64 mem (rbp + 8)) info >>= λ info'.
        backtrace_loop rounds fuel mem (le64 mem rbp) (le64 mem (rbp + 8)) info' k'
  ]

  -- `info` is what the structure holds on entry.
  unfoldable pub mon_backtrace : Stack → Ripdebuginfo → ℕ → Kernel → Option (ℕ × Kernel)
  unfolding backtrace_loop
  mon_backtrace stack info fuel k = do
    k₁ ←
        print_args dev fuel
          ((27 ∷ codes "[41;36mStack backtrace:") ++ (27 ∷ codes "[0m") ++ (10 ∷ [])) [] k
    info' ← look_up fuel stack.rip info
    k₂ ← backtrace_loop fuel fuel stack.mem stack.rbp stack.rip info' k₁
    some (0, k₂)
