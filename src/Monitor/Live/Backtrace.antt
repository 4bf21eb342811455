-- ===== src/Monitor/Live/Backtrace.antt =====
-- The command backtrace on a stack with a chain of frames.
use jos.Base.{
  ℕ, zero, suc, ◌+◌, ◌<◌, ◌≤◌, ◌≡◌, refl, some, List, [], ◌∷◌, length, length-append, All, arith,
  Yields, Yields-bind,
}
use jos.Base.Memory.{Memory}
use jos.Console.Ports.{Device}
use jos.Console.State.{Kernel, Ring}
use jos.Console.Cprintf.Total.{Held, IsLiteral, print_args-Yields}
use jos.Print.Format.Safe.{safe, advance, may_end}
use jos.Debug.Library.{Dwarf}
use jos.Debug.Function.{Ripdebuginfo}
use jos.Debug.Lookup.{InfoSection, Locals}
use jos.Monitor.Backtrace.{Stack, print_name, print_arguments, print_frame, look_up, mon_backtrace}
use jos.Monitor.Backtrace.Laws.{Frame, Chain, list_frames, mon_backtrace_lem}
use jos.Monitor.Live.Commands.{Answers, print_then}

-- No file name is longer than this.
abbrev pub Named : ℕ → List Frame → Type 0
Named bound frames = All (λ f. length f.info.file ≤ bound) frames

module _ (dev : Device) (ring : Ring) where
  print_name-Yields :
      (left i fuel : ℕ) (info : Ripdebuginfo) (k : Kernel)
      → 100 < fuel
      → Held ring k
      → Yields (Held ring) (print_name dev left i fuel info k)
  unfolding print_name IsLiteral safe advance may_end
  print_name-Yields zero i fuel info k lt h = h
  print_name-Yields (suc left) i fuel info k lt h =
      print_then dev ring (Held ring) fuel _ _ k _ (ground arith, refl) (omega arith) h
        λ k' h'. print_name-Yields left (i + 1) fuel info k' lt h'

  print_arguments-Yields :
      (left i fuel : ℕ) (mem : Memory) (rbp : ℕ) (k : Kernel)
      → 100 < fuel
      → Held ring k
      → Yields (Held ring) (print_arguments dev left i fuel mem rbp k)
  unfolding print_arguments IsLiteral safe advance may_end
  print_arguments-Yields zero i fuel mem rbp k lt h = h
  print_arguments-Yields (suc left) i fuel mem rbp k lt h =
      print_then dev ring (Held ring) fuel _ _ k _ (ground arith, refl) (omega arith) h
        λ k' h'. print_arguments-Yields left (i + 1) fuel mem rbp k' lt h'

  print_frame-Yields :
      (fuel : ℕ) (mem : Memory) (rbp rip : ℕ) (info : Ripdebuginfo) (k : Kernel)
      → 100 + length info.file < fuel
      → Held ring k
      → Yields (Held ring) (print_frame dev fuel mem rbp rip info k)
  unfolding print_frame IsLiteral safe advance may_end
  print_frame-Yields fuel mem rbp rip info k lt h =
      print_then dev ring (Held ring) fuel _ _ k _ (ground arith, refl) (omega arith) h
        λ k₁ h₁.
          print_then dev ring (Held ring) fuel _ _ k₁ _ (ground arith, refl)
            (omega (arith, length-append info.file (0 ∷ []))) h₁
            λ k₂ h₂.
              Yields-bind (Held ring) (Held ring) _ _
                (print_name-Yields info.fn_namelen 0 fuel info k₂ (omega arith) h₂)
                λ k₃ h₃.
                  print_then dev ring (Held ring) fuel _ _ k₃ _ (ground arith, refl) (omega arith)
                    h₃
                    λ k₄ h₄.
                      print_then dev ring (Held ring) fuel _ _ k₄ _ (ground arith, refl)
                        (omega arith) h₄
                        λ k₅ h₅.
                          Yields-bind (Held ring) (Held ring) _ _
                            (print_arguments-Yields info.fn_narg 0 fuel mem rbp k₅ (omega arith) h₅)
                            λ k₆ h₆.
                              print_args-Yields dev ring fuel _ _ k₆ (ground arith, refl)
                                (omega arith) h₆

  list_frames-Yields :
      (fuel bound : ℕ) (mem : Memory) (frames : List Frame) (k : Kernel)
      → 100 + bound < fuel
      → Named bound frames
      → Held ring k
      → Yields (Held ring) (list_frames dev fuel mem frames k)
  unfolding list_frames
  list_frames-Yields fuel bound mem [] k lt named h = h
  list_frames-Yields fuel bound mem (f ∷ fs) k lt (short, named) h =
      Yields-bind (Held ring) (Held ring) _ _
        (print_frame-Yields fuel mem f.rbp f.rip f.info k (omega arith) h)
        λ k' h'. list_frames-Yields fuel bound mem fs k' lt named h'

  -- On a stack with a chain of frames, backtrace returns 0.
  pub mon_backtrace-Yields :
      (lib : Dwarf) (sect : InfoSection) (locals : ℕ → Locals lib) (stack : Stack)
      (info info' : Ripdebuginfo) (fuel bound : ℕ) (frames : List Frame) (k : Kernel)
      → look_up dev lib sect locals fuel stack.rip info ≡ some info'
      → Chain dev lib sect locals fuel stack.mem stack.rbp stack.rip info' frames
      → length frames < fuel
      → Named bound frames
      → 200 + bound < fuel
      → Held ring k
      → Yields (Answers ring) (mon_backtrace dev lib sect locals stack info fuel k)
  unfolding IsLiteral safe advance may_end Answers
  mon_backtrace-Yields lib sect locals stack info info' fuel bound frames k looked chain few named
        lt h =
      rw (mon_backtrace_lem dev lib sect locals stack info info' fuel k frames looked chain few) (
        print_then dev ring (Answers ring) fuel _ _ k _ (ground arith, refl) (omega arith) h
          λ k₁ h₁.
            Yields-bind (Held ring) (Answers ring) _ (λ k₂. some (0, k₂))
              (list_frames-Yields fuel bound stack.mem frames k₁ (omega arith) named h₁)
              λ k₂ h₂. (h₂, refl))
