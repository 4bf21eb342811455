-- ===== src/Console/Cprintf/Total.antt =====
-- Calls of cprintf with a safe format, as steps of a chain.
use jos.Base.{
  ℕ, zero, suc, ◌+◌, ◌-◌, ◌≤◌, ◌<◌, ◌≡◌, ◌≢◌, refl, ◌∙◌, ◌==◌, ltb, true, false, some, ◌>>=◌, List,
  [], ◌∷◌, ◌++◌, Bytes, All, length, length-append, arith, get_or, u64, Bool-cases, inl, inr,
  Yields, Yields-of-some, Yields-bind,
}
use jos.Base.Memory.{Memory, memory_at, CString}
use jos.Console.Ports.{Device}
use jos.Console.State.{Console, Kernel, Ring}
use jos.Console.Putc.Laws.{IsConsole, cons_putc-SameInput}
use jos.Console.Cprintf.{putch, vcprintf, cprintf, Arg, arg_bytes, print_args, print_literal}
use jos.Console.Cprintf.Laws.{cprintf-IsConsole}
use jos.Console.Cprintf.Prompt.{stands}
use jos.Print.Terminal.{Terminal}
use jos.Print.Args.{Slots}
use jos.Print.Format.Preserve.{vprintfmt-keeps}
use jos.Print.Format.Safe.{plain, safe}
use jos.Print.Format.Total.{vprintfmt_returns}
use jos.Print.Format.Total.Convert.{Readable}

pub beyond : (xs : Bytes) (i : ℕ) → length xs ≤ i → get_or xs i 0 ≡ 0
beyond [] i le = refl
beyond (x ∷ xs) zero le = absurd (omega arith)
beyond (x ∷ xs) (suc i) le = beyond xs i (omega arith)

-- At every address of a memory that holds finitely many bytes stands a string.
memory_at-Readable :
    (n : ℕ) (bytes : Bytes) (p : ℕ) → length bytes ≤ n + p → Readable (memory_at 0 bytes) n p
memory_at-Readable zero bytes p le = (
  [],
  (let same : p - 0 ≡ p = omega arith in
      let low : ltb p 0 ≡ false = ground arith in rw (low, same) (beyond bytes p (omega arith))),
  omega arith,
)
memory_at-Readable (suc n) bytes p le = elim (Bool-cases (memory_at 0 bytes p == 0)) [
  | inl e ↦ ([], ground arith, omega arith)
  | inr e ↦
      let (s, h, small) = memory_at-Readable n bytes (p + 1) (omega arith) in
      ((memory_at 0 bytes p ∷ s), (refl, ground arith, h), omega arith)
]

-- The bytes that a call lays out: the format and its string arguments, each with its zero.
abbrev pub laid_out : Bytes → List Arg → Bytes
laid_out fmt args = fmt ++ (0 ∷ arg_bytes args)

pub literal_stands :
    (fmt : Bytes) (args : List Arg)
    → All (λ c. c ≢ 0) fmt
    → CString (memory_at 0 (laid_out fmt args)) 0 fmt
literal_stands fmt args h =
    stands (memory_at 0 (laid_out fmt args)) 0 fmt (arg_bytes args)
      (λ i.
        let e : 0 + i - 0 ≡ i = omega arith in
        let f : ltb (0 + i) 0 ≡ false = ground arith in rw (f, e) refl)
      h

-- The terminal that vcprintf starts from, and the kernel that it ends in.
abbrev pub opened_at : Kernel → Terminal (Console × ℕ)
opened_at k = record {
  color_flag = k.color_flag;
  color_parsing = k.color_parsing;
  sink = (k.sink, 0);
}

abbrev pub closed : Terminal (Console × ℕ) → Kernel
closed t = record { color_flag = t.color_flag; color_parsing = t.color_parsing; sink = t.sink.0 }

-- A good console on which this input waits.
unfoldable pub Held : Ring → Kernel → Type 0
Held ring k = IsConsole k.sink × (k.sink.cons ≡ ring)

-- A format that may be written as a literal: no zeros, and safe.
unfoldable pub IsLiteral : Bytes → Type 0
IsLiteral fmt = All (λ c. c ≢ 0) fmt × (safe plain fmt ≡ true)

-- Enough fuel for a call.
abbrev pub print_fuel : Bytes → List Arg → ℕ
print_fuel fmt args = length fmt + length (laid_out fmt args) + 6

-- A literal without arguments needs no zero behind it in this memory.
get_or-zero : (cs : Bytes) (i : ℕ) → get_or cs i 0 ≡ get_or (cs ++ (0 ∷ [])) i 0
get_or-zero [] zero = refl
get_or-zero [] (suc i) = refl
get_or-zero (c ∷ cs) zero = refl
get_or-zero (c ∷ cs) (suc i) = get_or-zero cs i

bare_stands : (fmt : Bytes) → All (λ c. c ≢ 0) fmt → CString (memory_at 0 fmt) 0 fmt
bare_stands fmt h =
    stands (memory_at 0 fmt) 0 fmt []
      (λ i.
        let e : 0 + i - 0 ≡ i = omega arith in
        let f : ltb (0 + i) 0 ≡ false = ground arith in rw (f, e) (get_or-zero fmt i))
      h

module _ (dev : Device) (ring : Ring) where
  -- A call with a safe format, whose arguments are as vprintfmt needs them.
  pub vcprintf-Yields :
      (fuel bound : ℕ) (mem : Memory) (slots : Slots) (at : ℕ) (fmt : Bytes) (k : Kernel)
      → CString mem at fmt
      → safe plain fmt ≡ true
      → ((i : ℕ) → u64 (slots i) ≢ 0 → Readable mem bound (u64 (slots i)))
      → length fmt + bound + 6 < fuel
      → Held ring k
      → Yields (λ (r : ℕ × Kernel). Held ring r.1) (vcprintf dev fuel mem slots at k)
  unfolding cprintf vcprintf putch Held
  vcprintf-Yields fuel bound mem slots at fmt k stand ok texts lt (good, same) =
      let (t', run) =
        vprintfmt_returns (putch dev) fuel bound mem slots 0 at fmt (opened_at k) stand ok texts
          lt in
      let kept =
        vprintfmt-keeps (putch dev) (λ s. s.0.cons ≡ ring)
          (λ flag parsing ch s same'. (cons_putc-SameInput dev flag parsing ch s.0).0 ∙ same') fuel
          mem slots 0 at (opened_at k) same run in
      let whole : vcprintf dev fuel mem slots at k ≡ some (t'.sink.1, closed t') =
        (rw (run, ◌>>=◌) refl) in
      Yields-of-some (λ (r : ℕ × Kernel). Held ring r.1) _ whole
        ((cprintf-IsConsole dev fuel mem slots at k good whole).0, kept)

  cprintf-Yields :
      (fuel : ℕ) (bytes fmt : Bytes) (slots : Slots) (k : Kernel)
      → CString (memory_at 0 bytes) 0 fmt
      → safe plain fmt ≡ true
      → length fmt + length bytes + 6 < fuel
      → Held ring k
      → Yields (λ (r : ℕ × Kernel). Held ring r.1) (cprintf dev fuel (memory_at 0 bytes) slots 0 k)
  unfolding cprintf
  cprintf-Yields fuel bytes fmt slots k stand ok lt held =
      vcprintf-Yields fuel (length bytes) (memory_at 0 bytes) slots 0 fmt k stand ok
        (λ i _. memory_at-Readable (length bytes) bytes (u64 (slots i)) (omega arith)) lt held

  -- A call of cprintf with a literal format returns: the rules for a chain of steps.
  pub print_args-Yields :
      (fuel : ℕ) (fmt : Bytes) (args : List Arg) (k : Kernel)
      → IsLiteral fmt
      → print_fuel fmt args < fuel
      → Held ring k
      → Yields (Held ring) (print_args dev fuel fmt args k)
  unfolding IsLiteral print_args
  print_args-Yields fuel fmt args k (nz, ok) lt held =
      Yields-bind (λ (r : ℕ × Kernel). Held ring r.1) (Held ring) _ _
        (cprintf-Yields fuel (laid_out fmt args) fmt _ k (literal_stands fmt args nz) ok lt held)
        (λ r h. h)

  pub print_literal-Yields :
      (fuel : ℕ) (fmt : Bytes) (slots : Slots) (k : Kernel)
      → IsLiteral fmt
      → print_fuel fmt [] < fuel
      → Held ring k
      → Yields (Held ring) (print_literal dev fuel fmt slots k)
  unfolding IsLiteral print_literal
  print_literal-Yields fuel fmt slots k (nz, ok) lt held =
      Yields-bind (λ (r : ℕ × Kernel). Held ring r.1) (Held ring) _ _
        (cprintf-Yields fuel fmt fmt slots k (bare_stands fmt nz) ok
          (omega (arith, length-append fmt (0 ∷ []))) held)
        (λ r h. h)
