-- ===== src/Init/Panic.antt =====
-- From a panic to the monitor.
use jos.Base.{
  ℕ, ◌+◌, ◌<◌, ◌≡◌, ◌≢◌, ◌⊎◌, inl, inr, refl, ap, ◌∙◌, ◌==◌, true, if◌then◌else◌, Option, some,
  ◌>>=◌, [], ◌∷◌, ◌++◌, Bytes, codes, length, length-append, arith, u64, Bool-cases, ◌>>=◌,
  >>=-congr, >>=_assoc, Yields, Yields-bind, Yields-some,
}
use jos.Base.Memory.{Memory, CString}
use jos.Console.Ports.{Device}
use jos.Console.State.{Kernel, Ring}
use jos.Console.Putc.Laws.{IsConsole}
use jos.Console.Cprintf.{text, num, print_args, vcprintf}
use jos.Console.Cprintf.Total.{Held, IsLiteral, print_args-Yields, vcprintf-Yields}
use jos.Print.Args.{Slots}
use jos.Print.Format.Safe.{plain, safe, advance, may_end}
use jos.Print.Format.Total.Convert.{Readable}
use jos.Monitor.Live.Commands.{print_then}
use jos.Init.{monitors, panic}

module _ (dev : Device) (file : Bytes) (line : ℕ) (mem : Memory) (slots : Slots) (at : ℕ) where
  -- The message: where it happened, the text, and a newline.
  unfoldable pub message : ℕ → Bytes → Kernel → Option Kernel
  message fuel lead k = do
    k₁ ← print_args dev fuel lead (text file ∷ num line ∷ []) k
    (cnt, k₂) ← vcprintf dev fuel mem slots at k₁
    print_args dev fuel (10 ∷ []) [] k₂

  message-Yields :
      (ring : Ring) (fuel bound : ℕ) (lead fmt : Bytes) (k : Kernel)
      → IsLiteral lead
      → length lead < 100
      → CString mem at fmt
      → safe plain fmt ≡ true
      → ((i : ℕ) → u64 (slots i) ≢ 0 → Readable mem bound (u64 (slots i)))
      → length file + length fmt + bound + 300 < fuel
      → Held ring k
      → Yields (Held ring) (message fuel lead k)
  unfolding message IsLiteral safe advance may_end
  message-Yields ring fuel bound lead fmt k literal short stand ok texts lt h =
      print_then dev ring (Held ring) fuel _ _ k _ literal
        (omega (arith, length-append lead (0 ∷ (file ++ (0 ∷ []))), length-append file (0 ∷ []))) h
        λ k₁ h₁.
          Yields-bind (λ (r : ℕ × Kernel). Held ring r.1) (Held ring) _ _
            (vcprintf-Yields dev ring fuel bound mem slots at fmt k₁ stand ok texts (omega arith)
              h₁)
            λ r h₂. print_args-Yields dev ring fuel _ _ r.1 (ground arith, refl) (omega arith) h₂

  -- A panic on a good console, its message and arguments as vprintfmt_returns needs them and the
  -- fuel 300 above the lengths of the file name, the message and a string argument, goes on as the
  -- loop of the monitor, on a good console and with the input that waited. The first panic prints
  -- where it happened and its message, and leaves the message's address in panicstr; a panic within
  -- a panic prints nothing and leaves the address of the first.
  pub panic_lem :
      (monitor : Kernel → Option Kernel) (rounds fuel bound panicstr : ℕ) (fmt : Bytes) (k : Kernel)
      → CString mem at fmt
      → safe plain fmt ≡ true
      → ((i : ℕ) → u64 (slots i) ≢ 0 → Readable mem bound (u64 (slots i)))
      → length file + length fmt + bound + 300 < fuel
      → IsConsole k.sink
      → (k' : Kernel) × (panic dev monitor rounds fuel file line mem slots at (panicstr, k)
          ≡ (monitors rounds monitor k' >>= λ q. some (if panicstr == 0 then at else panicstr, q)))
        × IsConsole k'.sink
        × (k'.sink.cons ≡ k.sink.cons)
        × (((panicstr ≡ 0) × (message fuel (codes "kernel panic at %s:%d: ") k ≡ some k'))
            ⊎ ((panicstr ≢ 0) × (k' ≡ k)))
  unfolding panic Held IsLiteral safe advance may_end message
  panic_lem monitor rounds fuel bound panicstr fmt k stand ok texts lt good =
      elim (Bool-cases (panicstr == 0)) [
        | inl e ↦
            let zero_then : panicstr ≡ 0 = ground arith in
            let (k', run, held) = Yields-some (Held k.sink.cons) _ (
              message-Yields k.sink.cons fuel bound (codes "kernel panic at %s:%d: ") fmt k
                (ground arith, refl) (omega arith) stand ok texts lt (good, refl)) in
            let first =
              print_args dev fuel (codes "kernel panic at %s:%d: ") (text file ∷ num line ∷ []) k in
            let after = λ (k₃ : Kernel). monitors rounds monitor k₃ >>= λ q. some (at, q) in
            (
              k',
              rw e (
                  >>=-congr first (λ k₁.
                    >>=_assoc (vcprintf dev fuel mem slots at k₁)
                      (λ r. print_args dev fuel (10 ∷ []) [] r.1) after)
                  ∙ >>=_assoc first
                      (λ k₁. vcprintf dev fuel mem slots at k₁ >>= λ r.
                        print_args dev fuel (10 ∷ []) [] r.1)
                      after
                  ∙ ap (λ o. o >>= after) run),
              held.0,
              held.1,
              inl (zero_then, run),
            )
        | inr e ↦ (k, rw e refl, good, refl, inr (ground arith, refl))
      ]
