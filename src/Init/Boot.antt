-- ===== src/Init/Boot.antt =====
-- From the start of the kernel to its monitor.
use jos.Base.{
  sym, [], ◌∷◌, ℕ, zero, suc, ◌+◌, ◌-◌, ◌^◌, ◌<◌, ◌≡◌, refl, ap, ◌∙◌, Option, some, ◌>>=◌, List,
  length, arith, Yields, Yields-bind, Yields-some,
}
use jos.Base.Memory.{Memory}
use jos.Console.Ports.{Device}
use jos.Console.State.{Kernel, Ring, empty_ring}
use jos.Console.Putc.Laws.{IsConsole}
use jos.Console.Cprintf.Total.{Held, IsLiteral, print_args-Yields}
use jos.Console.Input.Start.{IsVideo}
use jos.Print.Format.Safe.{safe, advance, may_end}
use jos.Debug.Library.{Dwarf}
use jos.Debug.Function.{Ripdebuginfo}
use jos.Debug.Lookup.{InfoSection, Locals}
use jos.Disk.Port.{Sectors}
use jos.Disk.Port.Laws.{IsReady}
use jos.Disk.Sections.{Names}
use jos.Disk.Sections.Loop.{Header}
use jos.Disk.Sections.Headers.{IsImage}
use jos.Monitor.Backtrace.{Stack, look_up, mon_backtrace}
use jos.Monitor.Backtrace.Laws.{Frame, Chain}
use jos.Monitor.Live.Commands.{Answers, print_then}
use jos.Monitor.Live.Backtrace.{Named, mon_backtrace-Yields}
use jos.Init.Laws.{IsSetUp, cleared, set_up-Yields}
use jos.Init.Calls.{entering, leaving, says, backtrace_calls_lem}
use jos.Init.{Start, Running, set_up, backtrace_calls, test_backtrace, monitors, i386_init}

module _ (dev : Device) (ring : Ring) (mon_backtrace : ℕ → Kernel → Option (ℕ × Kernel)) where
  backtrace_calls-Yields :
      (calls fuel x : ℕ) (k : Kernel)
      → ((k' : Kernel) → Held ring k' → Yields (Answers ring) (mon_backtrace fuel k'))
      → 100 < fuel
      → Held ring k
      → Yields (Held ring) (backtrace_calls dev mon_backtrace calls fuel x k)
  unfolding backtrace_calls IsLiteral safe advance may_end Answers
  backtrace_calls-Yields zero fuel x k listed lt h =
      print_then dev ring (Held ring) fuel _ _ k _ (ground arith, refl) (omega arith) h
        λ k₁ h₁.
          Yields-bind (Answers ring) (Held ring) _ _ (listed k₁ h₁)
            λ r h₂. print_args-Yields dev ring fuel _ _ r.1 (ground arith, refl) (omega arith) h₂.0
  backtrace_calls-Yields (suc calls) fuel x k listed lt h =
      print_then dev ring (Held ring) fuel _ _ k _ (ground arith, refl) (omega arith) h
        λ k₁ h₁.
          Yields-bind (Held ring) (Held ring) _ _
            (backtrace_calls-Yields calls fuel (x - 1) k₁ listed lt h₁)
            λ k₂ h₂. print_args-Yields dev ring fuel _ _ k₂ (ground arith, refl) (omega arith) h₂

module _ (dev : Device) (sectors : Sectors) (names : Names) (lib : Dwarf) (sect : InfoSection)
    (locals : ℕ → Locals lib) (stack : Stack) (info info' : Ripdebuginfo)
    (frames : List Frame) where
  -- The kernel comes to its monitor. Let the image, the disk and the video adapter be as set_up_lem
  -- needs them, and let the stack have a chain of frames whose addresses debuginfo_rip handles. The
  -- fuel is 200 above the longest file name, and above the number of frames. Then i386_init goes
  -- through the set-up, which leaves memory and table as set_up_lem says. Behind it the messages of
  -- test_backtrace from 5 down to 0 are printed as its calls enter, mon_backtrace lists the stack, and
  -- the messages from 0 to 5 are printed as they leave. From there on it is the loop of the monitor,
  -- on a good console without input.
  pub i386_init_lem :
      (monitor : Kernel → Option Kernel) (rounds fuel bound : ℕ) (start : Start) (mem : Memory)
      (k : Kernel) (shoff index strings strings_size : ℕ) (xs : List Header)
      → IsReady dev
      → IsVideo dev start.cga_cells start.mono_cells
      → start.end < 2 ^ 64
      → IsImage sectors names fuel start.end shoff index strings strings_size (cleared start mem) xs
      → look_up dev lib sect locals fuel stack.rip info ≡ some info'
      → Chain dev lib sect locals fuel stack.mem stack.rbp stack.rip info' frames
      → length frames < fuel
      → Named bound frames
      → 200 + bound < fuel
      → (r : Running) × (k' : Kernel) × (set_up dev sectors names fuel start mem k ≡ some r)
        × IsSetUp sectors start xs r
        × ((says dev fuel entering (5 ∷ 4 ∷ 3 ∷ 2 ∷ 1 ∷ 0 ∷ []) r.console >>= λ k₁.
              mon_backtrace dev lib sect locals stack info fuel k₁ >>= λ listed.
              says dev fuel leaving (0 ∷ 1 ∷ 2 ∷ 3 ∷ 4 ∷ 5 ∷ []) listed.1)
            ≡ some k')
        × (i386_init dev sectors names
              (mon_backtrace dev lib sect locals stack info)
              monitor
              rounds
              fuel
              start
              mem
              k
            ≡ monitors rounds monitor k')
        × IsConsole k'.sink
        × (k'.sink.cons ≡ empty_ring)
  unfolding i386_init test_backtrace Held
  i386_init_lem monitor rounds fuel bound start mem k shoff index strings strings_size xs ready
        video small image looked chain few named lt =
      let command = mon_backtrace dev lib sect locals stack info in
      let (r, run, (is, held)) =
        Yields-some (λ r. IsSetUp sectors start xs r × Held empty_ring r.console) _
          (set_up-Yields dev sectors names fuel start mem k shoff index strings strings_size xs
            ready video small image (omega arith)) in
      let (k', calls, held') =
        Yields-some (Held empty_ring) (test_backtrace dev command fuel 5 r.console) (
          backtrace_calls-Yields dev empty_ring command 5 fuel 5 r.console
            (λ q h.
              mon_backtrace-Yields dev empty_ring lib sect locals stack info info' fuel bound frames
                q looked chain few named lt h)
            (omega arith) held) in
      (
        r,
        k',
        run,
        is,
        sym (backtrace_calls_lem dev command fuel 5 5 r.console) ∙ calls,
        ap
              (λ o. o >>= λ running.
                test_backtrace dev command fuel 5 running.console >>= monitors rounds monitor)
              run
            ∙ ap (λ o. o >>= monitors rounds monitor) calls,
        held'.0,
        held'.1,
      )
