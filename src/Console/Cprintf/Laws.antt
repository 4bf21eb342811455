-- ===== src/Console/Cprintf/Laws.antt =====
-- What every formatted print on the console keeps and returns.
use jos.Base.{
  ℕ, List, ◌≡◌, refl, Option, some, >>=-eq-some, Ensures, Ensures-bind, Option-cases, inl, inr,
  arith, Bytes,
}
use jos.Base.Memory.{Memory}
use jos.Console.Ports.{Device}
use jos.Console.State.{Console, Kernel}
use jos.Console.Putc.Laws.{IsConsole, cons_putc-IsConsole}
use jos.Console.Cprintf.{putch, vcprintf, cprintf, print_literal, Arg, print_args}
use jos.Print.Terminal.{Terminal}
use jos.Print.Args.{Slots}
use jos.Print.Format.Preserve.{vprintfmt-keeps}

-- What holds between two calls of putch: a good console, and the count still 0.
Counted : Console × ℕ → Type 0
Counted s = IsConsole s.0 × (s.1 ≡ 0)

putch_keep :
    (dev : Device) (flag parsing ch : ℕ) (s : Console × ℕ)
    → Counted s
    → Counted (putch dev flag parsing ch s)
unfolding putch Counted
putch_keep dev flag parsing ch s h = (cons_putc-IsConsole dev flag parsing ch s.0 h.0, h.1)

returned :
    (t : Terminal (Console × ℕ)) {ret : ℕ} {k' : Kernel}
    → Counted t.sink
    → ◌≡◌ {A = Option (ℕ × Kernel)}
        (some (
          t.sink.1,
          record { color_flag = t.color_flag; color_parsing = t.color_parsing; sink = t.sink.0 },
        ))
        (some (ret, k'))
    → IsConsole k'.sink × (ret ≡ 0)
unfolding Counted
returned t {ret} {k'} kept e =
    let console : t.sink.0 ≡ k'.sink = ground arith in (rw console at kept.0, ground arith)

-- Whatever the format and the arguments, a call of cprintf that returns keeps the console's
-- invariant, and returns 0: the characters printed are not counted.
pub cprintf-IsConsole :
    (dev : Device) (fuel : ℕ) (mem : Memory) (slots : Slots) (fmt : ℕ) (k : Kernel) {ret : ℕ}
    {k' : Kernel}
    → IsConsole k.sink
    → cprintf dev fuel mem slots fmt k ≡ some (ret, k')
    → IsConsole k'.sink × (ret ≡ 0)
unfolding cprintf vcprintf Counted
cprintf-IsConsole dev fuel mem slots fmt k {ret} {k'} h e =
    let (t, run, result) = >>=-eq-some _ _ e in
    let kept =
      vprintfmt-keeps (putch dev) Counted (putch_keep dev) fuel mem slots 0 fmt _ (h, refl) run in
    returned t kept result

-- A call of cprintf with its result dropped.
cprintf_keep :
    (dev : Device) (fuel : ℕ) (mem : Memory) (slots : Slots) (fmt : ℕ) (k : Kernel)
    → IsConsole k.sink
    → Ensures (λ (r : ℕ × Kernel). IsConsole r.1.sink) (cprintf dev fuel mem slots fmt k)
cprintf_keep dev fuel mem slots fmt k h = elim (Option-cases (cprintf dev fuel mem slots fmt k)) [
  | inl e ↦ rw e tt
  | inr ((ret, k'), e) ↦ rw e ((cprintf-IsConsole dev fuel mem slots fmt k h e).0)
]

-- Prints of literals keep the invariant, as rules for a chain of steps.
pub print_literal_keep :
    (dev : Device) (fuel : ℕ) (text : Bytes) (slots : Slots) (k : Kernel)
    → IsConsole k.sink
    → Ensures (λ k'. IsConsole k'.sink) (print_literal dev fuel text slots k)
unfolding print_literal
print_literal_keep dev fuel text slots k h =
    Ensures-bind (λ (r : ℕ × Kernel). IsConsole r.1.sink) (λ k'. IsConsole k'.sink) _ _
      (cprintf_keep dev fuel _ slots 0 k h) (λ r h'. h')

pub print_args_keep :
    (dev : Device) (fuel : ℕ) (fmt : Bytes) (args : List Arg) (k : Kernel)
    → IsConsole k.sink
    → Ensures (λ k'. IsConsole k'.sink) (print_args dev fuel fmt args k)
unfolding print_args
print_args_keep dev fuel fmt args k h =
    Ensures-bind (λ (r : ℕ × Kernel). IsConsole r.1.sink) (λ k'. IsConsole k'.sink) _ _
      (cprintf_keep dev fuel _ _ 0 k h) (λ r h'. h')
