-- ===== src/Console/Cprintf/Prompt.antt =====
-- cprintf("%s", …) of an ASCII string returns, and leaves the input as it was.
use jos.Base.{
  ℕ, zero, suc, ◌+◌, ◌-◌, ◌^◌, ◌<◌, ◌≡◌, ◌≢◌, refl, sym, ap, ◌∙◌, ltb, false, some, ◌>>=◌, [], ◌∷◌,
  ◌++◌, Bytes, All, codes, length, arith, get_or, Ensures-some,
}
use jos.Base.Memory.{Memory, memory_at, CString}
use jos.Console.Ports.{Device}
use jos.Console.State.{Console, Kernel}
use jos.Console.Putc.Laws.{IsConsole, cons_putc-SameInput}
use jos.Console.Cprintf.{putch, vcprintf, cprintf, text, print_args, arg_slot}
use jos.Console.Cprintf.Laws.{print_args_keep}
use jos.Print.Terminal.{Terminal, emit}
use jos.Print.Format.{vprintfmt, directive, convert, print_text}
use jos.Print.Format.Flags.{parse_flags, reswitch, flag}
use jos.Print.Format.Plain.{emit_all, print_string_plain}

-- A character that is neither 0 nor outside ASCII.
abbrev pub IsAscii : ℕ → Type 0
IsAscii c = (c ≢ 0) × (c < 128)

ascii_small : (cs : Bytes) → All IsAscii cs → All (λ c. c < 128) cs
ascii_small [] h = tt
ascii_small (c ∷ cs) ((nz, small), h) = (small, ascii_small cs h)

ascii_nonzero : (cs : Bytes) → All IsAscii cs → All (λ c. c ≢ 0) cs
ascii_nonzero [] h = tt
ascii_nonzero (c ∷ cs) ((nz, small), h) = (nz, ascii_nonzero cs h)

-- A list of bytes with a zero behind it, wherever it stands.
pub stands :
    (m : Memory) (p : ℕ) (cs rest : Bytes)
    → ((i : ℕ) → m (p + i) ≡ get_or (cs ++ (0 ∷ rest)) i 0)
    → All (λ c. c ≢ 0) cs
    → CString m p cs
stands m p [] rest same h = let e : p + 0 ≡ p = omega arith in ap m (sym e) ∙ same 0
stands m p (c ∷ cs) rest same (nz, h) =
    let e : p + 0 ≡ p = omega arith in
    (
      ap m (sym e) ∙ same 0,
      nz,
      stands m (p + 1) cs rest
          (λ i. let f : p + 1 + i ≡ p + suc i = omega arith in ap m f ∙ same (suc i)) h,
    )

-- The format, its zero, and the string with its own.
abbrev prompt_memory : Bytes → Memory
prompt_memory s = memory_at 0 (b'%' ∷ b's' ∷ 0 ∷ (s ++ (0 ∷ [])))

prompt_stands : (s : Bytes) → All IsAscii s → CString (prompt_memory s) 3 s
prompt_stands s h =
    stands (prompt_memory s) 3 s []
      (λ i.
        let e : 3 + i - 0 ≡ suc (suc (suc i)) = omega arith in
        let f : ltb (3 + i) 0 ≡ false = ground arith in rw (f, e) refl)
      (ascii_nonzero s h)

module _ (dev : Device) where
  emit_all-cons :
      (cs : Bytes) (t : Terminal (Console × ℕ))
      → (emit_all (putch dev) cs t).sink.0.cons ≡ t.sink.0.cons
  unfolding emit_all emit putch
  emit_all-cons [] t = refl
  emit_all-cons (c ∷ cs) t =
      emit_all-cons cs (emit (putch dev) c t)
      ∙ (cons_putc-SameInput dev t.color_flag t.color_parsing c t.sink.0).0

  vprintfmt_text :
      (s : Bytes) (fuel : ℕ) (t : Terminal (Console × ℕ))
      → All IsAscii s
      → length s < suc (suc fuel)
      → length s < 2 ^ 31
      → vprintfmt
          (putch dev)
          (suc (suc (suc fuel)))
          (prompt_memory s)
          (arg_slot 3 (text s ∷ []))
          0
          0
          t
        ≡ some (emit_all (putch dev) s t)
  unfolding vprintfmt directive parse_flags reswitch flag convert print_text
  vprintfmt_text s fuel t h lt small =
      rw
        (
          print_string_plain (putch dev) s (suc (suc fuel)) (prompt_memory s) 3 t
              (prompt_stands s h) (ascii_small s h) lt small,
          ◌>>=◌,
        )
        refl

  -- The call returns.
  pub print_prompt :
      (s : Bytes) (fuel : ℕ) (k : Kernel)
      → All IsAscii s
      → length s + 2 < fuel
      → length s < 2 ^ 31
      → IsConsole k.sink
      → (k' : Kernel) × (print_args dev fuel (codes "%s") (text s ∷ []) k ≡ some k')
        × (k'.sink.cons ≡ k.sink.cons)
        × IsConsole k'.sink
  unfolding print_args cprintf vcprintf
  print_prompt s zero k h lt small good = absurd (omega arith)
  print_prompt s (suc zero) k h lt small good = absurd (omega arith)
  print_prompt s (suc (suc zero)) k h lt small good = absurd (omega arith)
  print_prompt s (suc (suc (suc fuel))) k h lt small good =
      let t : Terminal (Console × ℕ) = record {
        color_flag = k.color_flag;
        color_parsing = k.color_parsing;
        sink = (k.sink, 0);
      } in
      let t' = emit_all (putch dev) s t in
      let k' : Kernel = record {
        color_flag = t'.color_flag;
        color_parsing = t'.color_parsing;
        sink = t'.sink.0;
      } in
      let run : print_args dev (suc (suc (suc fuel))) (codes "%s") (text s ∷ []) k ≡ some k' =
        (rw (vprintfmt_text s fuel t h (omega arith) small, ◌>>=◌) refl) in
      (
        k',
        run,
        emit_all-cons s t,
        Ensures-some (λ q. IsConsole q.sink) _
            (print_args_keep dev _ (codes "%s") (text s ∷ []) k good) run,
      )
