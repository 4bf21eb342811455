-- ===== src/Monitor.antt =====
-- kern/monitor.c: the kernel monitor, over the command backtrace, which Backtrace has, and the linker's
-- symbols.
pub mod Parse
pub mod Backtrace
pub mod Laws
pub mod Keep
pub mod Turns
pub mod Live
pub mod Fixtures
mod Tests
use jos.Base.{
  ℕ, zero, suc, ◌+◌, ◌-◌, ◌/◌, ◌^◌, true, false, ◌==◌, ltb, if◌then◌else◌, Option, none, some,
  ◌>>=◌, is_neg32, List, [], ◌∷◌, ◌++◌, Bytes, codes, get_or, minus64,
}
use jos.Base.Memory.{Memory, memory_at, read_bytes}
use jos.Console.Ports.{Device}
use jos.Console.State.{Kernel}
use jos.Console.Cprintf.{Arg, text, num, print_args, print_literal}
use jos.Strings.Compare.{strcmp}
use jos.Monitor.Parse.{maxargs, Parsed, parsed, too_many, parse_args}
use jos.Readline.{buflen, readline}
use jos.Rounding.{round_up}

-- `struct Command`: the address of the name, the name, the description and the function.
pub data Function : Type 0 where
  help : Function
  kerninfo : Function
  backtrace : Function

pub record Command : Type 0 where
  pub address : ℕ
  pub name : Bytes
  pub desc : Bytes
  pub func : Function

abbrev pub commands : List Command
commands =
    record {
      address = 1;
      name = codes "help";
      desc = codes "Display this list of commands";
      func = help;
    }
    ∷ record {
      address = 6;
      name = codes "kerninfo";
      desc = codes "Display information about the kernel";
      func = kerninfo;
    }
    ∷ record { address = 15; name = codes "backtrace"; desc = codes "Backtrace"; func = backtrace }
    ∷ []

-- The names as they lie in memory from the address 1 on, and the buffer of readline.
abbrev pub names : Bytes
names = codes "help" ++ (0 ∷ (codes "kerninfo" ++ (0 ∷ codes "backtrace")))

abbrev pub buf_address : ℕ
buf_address = 100

abbrev pub line_memory : List ℕ → Memory
line_memory buf =
    λ a. if ltb a buf_address then memory_at 1 names a else get_or buf (a - buf_address) 0

-- The symbols of the linker that mon_kerninfo prints.
pub record Symbols : Type 0 where
  pub start : ℕ
  pub entry : ℕ
  pub etext : ℕ
  pub edata : ℕ
  pub end : ℕ

abbrev pub kernbase : ℕ
kernbase = 0x8004000000

-- `for (i = 0; i < NCOMMANDS; i++)`: the first entry whose name is the word at `p`.
unfoldable pub find_command : ℕ → Memory → ℕ → List Command → Option (Option Function)
find_command fuel m p [] = some none
find_command fuel m p (c ∷ cs) = strcmp fuel m p c.address >>= λ r. elim (r == 0) [
  | true ↦ some (some c.func)
  | false ↦ find_command fuel m p cs
]

module _ (dev : Device) where
  unfoldable pub mon_help : ℕ → List Command → Kernel → Option (ℕ × Kernel)
  mon_help fuel [] k = some (0, k)
  mon_help fuel (c ∷ cs) k =
      print_args dev fuel (codes "%s - %s" ++ (10 ∷ [])) (text c.name ∷ text c.desc ∷ []) k
      >>= λ k'. mon_help fuel cs k'

  unfoldable pub mon_kerninfo : Symbols → ℕ → Kernel → Option (ℕ × Kernel)
  unfolding round_up
  mon_kerninfo symbols fuel k = do
    k₁ ← print_args dev fuel (codes "Special kernel symbols:" ++ (10 ∷ [])) [] k
    k₂ ←
        print_args dev fuel (codes "  _start                  %08x (phys)" ++ (10 ∷ []))
          (num symbols.start ∷ []) k₁
    k₃ ←
        print_args dev fuel (codes "  entry  %08x (virt)  %08x (phys)" ++ (10 ∷ []))
          (num symbols.entry ∷ num (minus64 symbols.entry kernbase) ∷ []) k₂
    k₄ ←
        print_args dev fuel (codes "  etext  %08x (virt)  %08x (phys)" ++ (10 ∷ []))
          (num symbols.etext ∷ num (minus64 symbols.etext kernbase) ∷ []) k₃
    k₅ ←
        print_args dev fuel (codes "  edata  %08x (virt)  %08x (phys)" ++ (10 ∷ []))
          (num symbols.edata ∷ num (minus64 symbols.edata kernbase) ∷ []) k₄
    k₆ ←
        print_args dev fuel (codes "  end    %08x (virt)  %08x (phys)" ++ (10 ∷ []))
          (num symbols.end ∷ num (minus64 symbols.end kernbase) ∷ []) k₅
    k₇ ←
        print_args dev fuel (codes "Kernel executable memory footprint: %dKB" ++ (10 ∷ []))
          (num (round_up (minus64 symbols.end symbols.entry) 1024 / 1024) ∷ []) k₆
    some (0, k₇)

-- The bytes of the string at an address, which the format's %s prints.
unfoldable pub string_at : ℕ → Memory → ℕ → Option Bytes
string_at zero m p = none
string_at (suc fuel) m p = elim (m p == 0) [
  | true ↦ some []
  | false ↦ string_at fuel m (p + 1) >>= λ cs. some (m p ∷ cs)
]

module _ (dev : Device) (symbols : Symbols) (mon_backtrace : ℕ → Kernel → Option (ℕ × Kernel)) where
  -- `commands[i].func(argc, argv, tf)`
  unfoldable pub run_command : Function → ℕ → Kernel → Option (ℕ × Kernel)
  unfolding mon_help mon_kerninfo
  run_command help fuel k = mon_help dev fuel commands k
  run_command kerninfo fuel k = mon_kerninfo dev symbols fuel k
  run_command backtrace fuel k = mon_backtrace fuel k

  -- What runcmd does with the entry of the table that it found, if it found one.
  unfoldable pub invoke : ℕ → ℕ → Memory → Kernel → Option Function → Option (ℕ × Kernel)
  unfolding run_command string_at
  invoke fuel p m k (some func) = run_command func fuel k
  invoke fuel p m k none = string_at fuel m p >>= λ word.
      print_args dev fuel (codes "Unknown command '%s'" ++ (10 ∷ [])) (text word ∷ []) k >>= λ k'.
      some (0, k')

  -- Behind the parser: "Lookup and invoke the command".
  unfoldable pub run_words : ℕ → List ℕ → Memory → Kernel → Option (ℕ × Kernel)
  run_words fuel [] m k = some (0, k)
  run_words fuel (p ∷ ps) m k = find_command fuel m p commands >>= invoke fuel p m k

  -- The `int` result, the state, and the buffer, into which the parser has written.
  unfoldable pub run_parsed : ℕ → Kernel → Parsed → Option (ℕ × Kernel × List ℕ)
  run_parsed fuel k (too_many m) =
      print_args dev fuel (codes "Too many arguments (max %d)" ++ (10 ∷ [])) (num maxargs ∷ []) k
      >>= λ k'. some (0, k', read_bytes m buf_address buflen)
  run_parsed fuel k (parsed argv m) =
      run_words fuel argv m k >>= λ (ret, k'). some (ret, k', read_bytes m buf_address buflen)

  unfoldable pub runcmd : ℕ → List ℕ → Kernel → Option (ℕ × Kernel × List ℕ)
  runcmd fuel buf k = parse_args fuel (line_memory buf) buf_address [] >>= run_parsed fuel k

  -- `while (1)`
  unfoldable pub monitor_loop : ℕ → List ℕ → Kernel → Option Kernel
  monitor_loop zero buf k = none
  monitor_loop (suc fuel) buf k = readline dev fuel (some (codes "K> ")) buf k >>= λ (ok, buf', k').
      elim ok [
        | false ↦ monitor_loop fuel buf' k'
        | true ↦ runcmd fuel buf' k' >>= λ (ret, k'', buf''). elim (is_neg32 ret) [
          | true ↦ some k''
          | false ↦ monitor_loop fuel buf'' k''
        ]
      ]

  unfoldable pub monitor : ℕ → List ℕ → Kernel → Option Kernel
  monitor fuel buf k = do
    k₁ ← print_args dev fuel (codes "Welcome to the JOS kernel monitor!" ++ (10 ∷ [])) [] k
    k₂ ← print_args dev fuel (codes "Type 'help' for a list of commands." ++ (10 ∷ [])) [] k₁
    monitor_loop fuel buf k₂
