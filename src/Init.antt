-- ===== src/Init.antt =====
-- kern/init.c.
pub mod Laws
pub mod Calls
pub mod Boot
pub mod Panic
mod Tests
use jos.Base.{
  Bool, ℕ, zero, suc, ◌-◌, Option, some, ◌>>=◌, is_neg32, if◌then◌else◌, [], ◌∷◌, ◌++◌, Bytes,
  codes, ◌==◌, List, minus64,
}
use jos.Base.Memory.{Memory}
use jos.Strings.Fill.{memset}
use jos.Disk.Port.{Sectors, Machine}
use jos.Disk.Sections.{Names, Table, section_info, kelfhdr, read_section_headers}
use jos.Console.Input.{cons_init}
use jos.Console.Ports.{Device}
use jos.Console.State.{Kernel, zeroed}
use jos.Console.Cprintf.{Arg, text, num, print_args, vcprintf}
use jos.Print.Args.{Slots}

module _ (dev : Device) (mon_backtrace : ℕ → Kernel → Option (ℕ × Kernel)) where
  -- The first argument is the calls that still follow.
  unfoldable pub backtrace_calls : ℕ → ℕ → ℕ → Kernel → Option Kernel
  backtrace_calls zero fuel x k = do
    k₁ ← print_args dev fuel (codes "entering test_backtrace %d" ++ (10 ∷ [])) (num x ∷ []) k
    (ret, k₂) ← mon_backtrace fuel k₁
    print_args dev fuel (codes "leaving test_backtrace %d" ++ (10 ∷ [])) (num x ∷ []) k₂
  backtrace_calls (suc calls) fuel x k = do
    k₁ ← print_args dev fuel (codes "entering test_backtrace %d" ++ (10 ∷ [])) (num x ∷ []) k
    k₂ ← backtrace_calls calls fuel (x - 1) k₁
    print_args dev fuel (codes "leaving test_backtrace %d" ++ (10 ∷ [])) (num x ∷ []) k₂

  -- `x` is an `int` pattern: a negative one is not counted down.
  unfoldable pub test_backtrace : ℕ → ℕ → Kernel → Option Kernel
  unfolding backtrace_calls
  test_backtrace fuel x k = backtrace_calls (if is_neg32 x then 0 else x) fuel x k

-- The format and its arguments stand in `mem` and `slots`.
unfoldable pub warn : Device → ℕ → Bytes → ℕ → Memory → Slots → ℕ → Kernel → Option Kernel
warn dev fuel file line mem slots fmt k = do
  k₁ ← print_args dev fuel (codes "kernel warning at %s:%d: ") (text file ∷ num line ∷ []) k
  (cnt, k₂) ← vcprintf dev fuel mem slots fmt k₁
  print_args dev fuel (10 ∷ []) [] k₂

-- `while (1) monitor(NULL);`, the first rounds of it; `monitor` is Monitor's.
unfoldable pub monitors : ℕ → (Kernel → Option Kernel) → Kernel → Option Kernel
monitors zero monitor k = some k
monitors (suc rounds) monitor k = monitor k >>= monitors rounds monitor

-- The address `panicstr`, 0 if no panic has been, and the console, after rounds of the monitor.
unfoldable pub panic :
    Device
    → (Kernel → Option Kernel)
    → ℕ
    → ℕ
    → Bytes
    → ℕ
    → Memory
    → Slots
    → ℕ
    → ℕ × Kernel
    → Option (ℕ × Kernel)
unfolding monitors
panic dev monitor rounds fuel file line mem slots fmt (panicstr, k) =
    if panicstr == 0
    then (do
      k₁ ← print_args dev fuel (codes "kernel panic at %s:%d: ") (text file ∷ num line ∷ []) k
      (cnt, k₂) ← vcprintf dev fuel mem slots fmt k₁
      k₃ ← print_args dev fuel (10 ∷ []) [] k₂
      k₄ ← monitors rounds monitor k₃
      some (fmt, k₄))
    else (monitors rounds monitor k >>= λ k'. some (panicstr, k'))

-- What cga_init finds in the video memory, and the addresses that the linker has set: the
-- bounds of the variables without initial value, and which of those addresses belong to variables
-- that the model keeps in a record, those of the console, the keyboard and printing, and end_debug.
pub record Start : Type 0 where
  pub readback : ℕ
  pub cga_cells : List ℕ
  pub mono_cells : List ℕ
  pub edata : ℕ
  pub end : ℕ
  pub owned : ℕ → Bool

-- The kernel once it is set up: the console, the memory but for the variables in `Kernel` and
-- `end_debug`, the table of debug sections, and `end_debug`.
pub record Running : Type 0 where
  pub console : Kernel
  pub mem : Memory
  pub table : Table
  pub end_debug : ℕ

module _ (dev : Device) (sectors : Sectors) (names : Names) where
  -- The disk is read through the same ports as the console.
  unfoldable pub load_debug : ℕ → Start → Memory → Kernel → Option Running
  unfolding read_section_headers
  load_debug fuel start mem k =
      read_section_headers dev sectors names fuel kelfhdr start.end
        (record { io = k.sink.io; mem = mem }) section_info
      >>= λ (end_debug, st). some (record {
        console = record k { sink = record (k.sink) { io = st.machine.io } };
        mem = st.machine.mem;
        table = st.table;
        end_debug = end_debug;
      })

  -- i386_init up to its call of test_backtrace. The call of memset clears the memory, and with it the
  -- variables in `k`.
  unfoldable pub set_up : ℕ → Start → Memory → Kernel → Option Running
  unfolding load_debug memset cons_init zeroed
  set_up fuel start mem k = do
    let cleared = (memset mem start.edata 0 (minus64 start.end start.edata)).0
    k₁ ← cons_init dev fuel start.readback start.cga_cells start.mono_cells (zeroed k)
    k₂ ← print_args dev fuel (codes "6828 decimal is %o octal!" ++ (10 ∷ [])) (num 6828 ∷ []) k₁
    load_debug fuel start cleared k₂

  unfoldable pub i386_init :
      (ℕ → Kernel → Option (ℕ × Kernel))
      → (Kernel → Option Kernel)
      → ℕ
      → ℕ
      → Start
      → Memory
      → Kernel
      → Option Kernel
  unfolding set_up test_backtrace monitors
  i386_init mon_backtrace monitor rounds fuel start mem k = do
    running ← set_up fuel start mem k
    k' ← test_backtrace dev mon_backtrace fuel 5 running.console
    monitors rounds monitor k'
