-- ===== src/Monitor/Backtrace/Laws.antt =====
-- The frames that a backtrace lists.
use jos.Base.{
  ℕ, zero, suc, ◌+◌, ◌<◌, ◌≡◌, ◌≢◌, refl, ◌==◌, true, false, Option, some, ◌>>=◌, List, [], ◌∷◌,
  ◌++◌, codes, length, arith, Ensures, Ensures-bind, Ensures-any, >>=-congr, Ensures-case, ap, ◌∙◌,
}
use jos.Base.Memory.{Memory, le64}
use jos.Console.Ports.{Device}
use jos.Console.State.{Kernel}
use jos.Console.Putc.Laws.{IsConsole}
use jos.Console.Cprintf.{print_args}
use jos.Console.Cprintf.Laws.{print_args_keep}
use jos.Debug.Library.{Dwarf}
use jos.Debug.Function.{Ripdebuginfo}
use jos.Debug.Lookup.{InfoSection, Locals}
use jos.Monitor.Backtrace.{
  Stack, print_name, print_arguments, print_frame, look_up, backtrace_loop, mon_backtrace,
}

-- One activation: its frame pointer, the address in its code, and what is known of that.
pub record Frame : Type 0 where
  pub rbp : ℕ
  pub rip : ℕ
  pub info : Ripdebuginfo

-- A good console.
unfoldable pub Good : Kernel → Type 0
Good k = IsConsole k.sink

-- What a command leaves: a good console and the result 0.
unfoldable pub Finishes : ℕ × Kernel → Type 0
Finishes r = Good r.1 × (r.0 ≡ 0)

module _ (dev : Device) where
  print_name_keep :
      (left i fuel : ℕ) (info : Ripdebuginfo) (k : Kernel)
      → Good k
      → Ensures Good (print_name dev left i fuel info k)
  unfolding print_name Good
  print_name_keep zero i fuel info k h = h
  print_name_keep (suc left) i fuel info k h =
      Ensures-bind Good Good _ _ (print_args_keep dev fuel _ _ k h)
        (λ k' h'. print_name_keep left (i + 1) fuel info k' h')

  print_arguments_keep :
      (left i fuel : ℕ) (mem : Memory) (rbp : ℕ) (k : Kernel)
      → Good k
      → Ensures Good (print_arguments dev left i fuel mem rbp k)
  unfolding print_arguments Good
  print_arguments_keep zero i fuel mem rbp k h = h
  print_arguments_keep (suc left) i fuel mem rbp k h =
      Ensures-bind Good Good _ _ (print_args_keep dev fuel _ _ k h)
        (λ k' h'. print_arguments_keep left (i + 1) fuel mem rbp k' h')

  print_frame_keep :
      (fuel : ℕ) (mem : Memory) (rbp rip : ℕ) (info : Ripdebuginfo) (k : Kernel)
      → Good k
      → Ensures Good (print_frame dev fuel mem rbp rip info k)
  unfolding print_frame Good
  print_frame_keep fuel mem rbp rip info k h =
      Ensures-bind Good Good _ _ (print_args_keep dev fuel _ _ k h) (λ k₁ h₁.
        Ensures-bind Good Good _ _ (print_args_keep dev fuel _ _ k₁ h₁) (λ k₂ h₂.
          Ensures-bind Good Good _ _ (print_name_keep info.fn_namelen 0 fuel info k₂ h₂) (λ k₃ h₃.
            Ensures-bind Good Good _ _ (print_args_keep dev fuel _ _ k₃ h₃) (λ k₄ h₄.
              Ensures-bind Good Good _ _ (print_args_keep dev fuel _ _ k₄ h₄) (λ k₅ h₅.
                Ensures-bind Good Good _ _ (print_arguments_keep info.fn_narg 0 fuel mem rbp k₅ h₅)
                  (λ k₆ h₆. print_args_keep dev fuel _ _ k₆ h₆))))))

  -- The frames printed one after the other.
  unfoldable pub list_frames : ℕ → Memory → List Frame → Kernel → Option Kernel
  list_frames fuel mem [] k = some k
  list_frames fuel mem (f ∷ fs) k =
      print_frame dev fuel mem f.rbp f.rip f.info k >>= λ k'. list_frames fuel mem fs k'

module _ (dev : Device) (lib : Dwarf) (sect : InfoSection) (locals : ℕ → Locals lib) where
  -- The chain of saved frame pointers and return addresses from `rbp`, `rip` on, which ends at the
  -- frame pointer 0, with what debuginfo_rip finds for each address.
  unfoldable pub Chain : ℕ → Memory → ℕ → ℕ → Ripdebuginfo → List Frame → Type 0
  Chain fuel mem rbp rip info [] = rbp ≡ 0
  Chain fuel mem rbp rip info (f ∷ fs) =
      (rbp ≢ 0)
      × (f ≡ record { rbp = rbp; rip = rip; info = info })
      × ((info' : Ripdebuginfo) × (look_up dev lib sect locals fuel (le64 mem (rbp + 8)) info
            ≡ some info')
          × Chain fuel mem (le64 mem rbp) (le64 mem (rbp + 8)) info' fs)

  backtrace_loop_lem :
      (rounds fuel : ℕ) (mem : Memory) (rbp rip : ℕ) (info : Ripdebuginfo) (frames : List Frame)
      (k : Kernel)
      → Chain fuel mem rbp rip info frames
      → length frames < rounds
      → backtrace_loop dev lib sect locals rounds fuel mem rbp rip info k
        ≡ list_frames dev fuel mem frames k
  unfolding backtrace_loop list_frames Chain
  backtrace_loop_lem zero fuel mem rbp rip info frames k chain lt = absurd (omega arith)
  backtrace_loop_lem (suc rounds) fuel mem rbp rip info [] k chain lt =
      let stop : (rbp == 0) ≡ true = ground arith in rw (backtrace_loop, stop) refl
  backtrace_loop_lem (suc rounds) fuel mem rbp rip info (f ∷ fs) k
        (nz, same, (info', looked, chain)) lt =
      let go : (rbp == 0) ≡ false = ground arith in
      rw (backtrace_loop, go)
        (rw same (
          >>=-congr (print_frame dev fuel mem rbp rip info k) (λ k'.
            ap
              (λ o. o >>= λ info₁.
                backtrace_loop dev lib sect locals rounds fuel mem (le64 mem rbp)
                  (le64 mem (rbp + 8)) info₁ k')
              looked
            ∙ backtrace_loop_lem rounds fuel mem (le64 mem rbp) (le64 mem (rbp + 8)) info' fs k'
                chain (omega arith))))

  -- The heading printed, the frames of a chain from the registers on are printed in their order, and
  -- mon_backtrace returns 0, where the fuel is above the number of frames.
  pub mon_backtrace_lem :
      (stack : Stack) (info info' : Ripdebuginfo) (fuel : ℕ) (k : Kernel) (frames : List Frame)
      → look_up dev lib sect locals fuel stack.rip info ≡ some info'
      → Chain fuel stack.mem stack.rbp stack.rip info' frames
      → length frames < fuel
      → mon_backtrace dev lib sect locals stack info fuel k ≡ (
          print_args dev fuel
            ((27 ∷ codes "[41;36mStack backtrace:") ++ (27 ∷ codes "[0m") ++ (10 ∷ []))
            []
            k
          >>= λ k₁. list_frames dev fuel stack.mem frames k₁ >>= λ k₂. some (0, k₂))
  unfolding mon_backtrace
  mon_backtrace_lem stack info info' fuel k frames looked chain lt = >>=-congr _ (λ k₁.
      ap
        (λ o. o >>= λ info₁.
          backtrace_loop dev lib sect locals fuel fuel stack.mem stack.rbp stack.rip info₁ k₁
          >>= λ k₂. some (0, k₂))
        looked
      ∙ ap (λ o. o >>= λ k₂. some (0, k₂))
          (backtrace_loop_lem fuel fuel stack.mem stack.rbp stack.rip info' frames k₁ chain lt))

  backtrace_loop_keep :
      (rounds fuel : ℕ) (mem : Memory) (rbp rip : ℕ) (info : Ripdebuginfo) (k : Kernel)
      → Good k
      → Ensures Good (backtrace_loop dev lib sect locals rounds fuel mem rbp rip info k)
  unfolding backtrace_loop
  backtrace_loop_keep zero fuel mem rbp rip info k h = tt
  backtrace_loop_keep (suc rounds) fuel mem rbp rip info k h = Ensures-case Good (rbp == 0) _ _ h (
      Ensures-bind Good Good _ _ (print_frame_keep dev fuel mem rbp rip info k h) (λ k' h'.
        Ensures-bind (λ _. Unit) Good _ _ (Ensures-any _)
          (λ info' _.
            backtrace_loop_keep rounds fuel mem (le64 mem rbp) (le64 mem (rbp + 8)) info' k' h')))

  -- What a call of mon_backtrace that returns keeps and returns.
  pub mon_backtrace_keep :
      (stack : Stack) (info : Ripdebuginfo) (fuel : ℕ) (k : Kernel)
      → Good k
      → Ensures Finishes (mon_backtrace dev lib sect locals stack info fuel k)
  unfolding mon_backtrace Good Finishes
  mon_backtrace_keep stack info fuel k h =
      Ensures-bind Good Finishes _ _ (print_args_keep dev fuel _ _ k h) (λ k₁ h₁.
        Ensures-bind (λ _. Unit) Finishes (look_up dev lib sect locals fuel stack.rip info) _
          (Ensures-any (look_up dev lib sect locals fuel stack.rip info))
          (λ info' _.
            Ensures-bind Good Finishes _ (λ k₂. some (0, k₂))
              (backtrace_loop_keep fuel fuel stack.mem stack.rbp stack.rip info' k₁ h₁)
              (λ k₂ h₂. (h₂, refl))))
