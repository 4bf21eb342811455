-- ===== src/Console/Cprintf.antt =====
-- kern/printf.c: putch, vcprintf and cprintf.
pub mod Laws
pub mod Prompt
pub mod Total
pub mod Shown
use jos.Base.{ℕ, zero, suc, ◌+◌, List, [], ◌∷◌, ◌++◌, length, Option, some, ◌>>=◌, Bytes}
use jos.Base.Memory.{Memory, memory_at}
use jos.Console.Ports.{Device}
use jos.Console.State.{Console, Kernel}
use jos.Console.Putc.{cons_putc}
use jos.Print.Terminal.{Terminal}
use jos.Print.Args.{Slots}
use jos.Print.Format.{vprintfmt}

module _ (dev : Device) where
  -- `*cnt++` advances the local pointer `cnt` and leaves the count that it pointed to.
  unfoldable pub putch : ℕ → ℕ → ℕ → Console × ℕ → Console × ℕ
  putch flag parsing ch (s, cnt) = (cons_putc dev flag parsing ch s, cnt)

  -- The result is the `int` returned, with the new state.
  unfoldable pub vcprintf : ℕ → Memory → Slots → ℕ → Kernel → Option (ℕ × Kernel)
  vcprintf fuel mem slots fmt k = do
    t ←
        vprintfmt putch fuel mem slots 0 fmt (record {
          color_flag = k.color_flag;
          color_parsing = k.color_parsing;
          sink = (k.sink, 0);
        })
    some (
      t.sink.1,
      record { color_flag = t.color_flag; color_parsing = t.color_parsing; sink = t.sink.0 },
    )

  unfoldable pub cprintf : ℕ → Memory → Slots → ℕ → Kernel → Option (ℕ × Kernel)
  cprintf fuel mem slots fmt k = vcprintf fuel mem slots fmt k

  -- A call of cprintf with a literal, its result dropped.
  unfoldable pub print_literal : ℕ → Bytes → Slots → Kernel → Option Kernel
  print_literal fuel text slots k = do
    (ret, k') ← cprintf fuel (memory_at 0 text) slots 0 k
    some k'

-- An argument of a call with a literal format: a string, or the 64 bits of a number. An `int` is
-- handed over with its upper half zero.
pub data Arg : Type 0 where
  text : Bytes → Arg
  num : ℕ → Arg

-- The strings one behind the other, and the slots: a string's slot is its address.
abbrev pub arg_bytes : List Arg → Bytes
arg_bytes [] = []
arg_bytes (text s ∷ args) = s ++ (0 ∷ arg_bytes args)
arg_bytes (num n ∷ args) = arg_bytes args

abbrev pub arg_slot : ℕ → List Arg → ℕ → ℕ
arg_slot base [] i = 0
arg_slot base (text s ∷ args) zero = base
arg_slot base (num n ∷ args) zero = n
arg_slot base (text s ∷ args) (suc i) = arg_slot (base + length s + 1) args i
arg_slot base (num n ∷ args) (suc i) = arg_slot base args i

module _ (dev : Device) where
  -- A call of cprintf with a literal format and its arguments, its result dropped.
  unfoldable pub print_args : ℕ → Bytes → List Arg → Kernel → Option Kernel
  print_args fuel fmt args k = do
    (ret, k') ←
        cprintf dev fuel (memory_at 0 (fmt ++ (0 ∷ arg_bytes args)))
          (arg_slot (length fmt + 1) args) 0 k
    some k'
