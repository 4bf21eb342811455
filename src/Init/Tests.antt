-- ===== src/Init/Tests.antt =====
-- Without fuel nothing is printed.
use jos.Base.{
  leb, ltb, ◌&&◌, ◌≤◌, ◌<◌, ◌-◌, ◌++◌, ◌∙◌, subst, sym, false, ◌∷◌, ℕ, refl, ◌≢◌, ◌⊎◌, inl, inr,
  length-replicate, ◌==◌, if◌then◌else◌, true,
}
use jos.Base.Memory.{CString}
use jos.Console.State.{Kernel, empty_ring}
use jos.Console.Fixtures.{kernel-IsConsole}
use jos.Console.Putc.Laws.{IsConsole}
use jos.Console.Input.Start.{IsVideo}
use jos.Print.Format.Safe.{plain, safe, advance, may_end}
use jos.Debug.Fixtures.{library, blank, second_info, locals, section}
use jos.Debug.Function.{
  covers, list_func_die, list_args, further_args, type_size, describe, add_arg, next_size,
}
use jos.Debug.Lookup.{unknown, debuginfo_rip, search_units, search_dies}
use jos.Monitor.Backtrace.{Stack, info_of, look_up, mon_backtrace}
use jos.Monitor.Backtrace.Laws.{Chain}
use jos.Init.{Running}
use jos.Init.Boot.{i386_init_lem}
use jos.Init.Panic.{message, panic_lem}
use jos.Base.{◌≡◌, none, some, codes}
use mathlib.Core.Path.{fun_ext}
use jos.Base.Memory.{Memory, memory_at}
use jos.Console.Fixtures.{device, kernel}
use jos.Console.Input.{cons_init}
use jos.Console.Cprintf.{print_literal, print_args, cprintf, vcprintf}
use jos.Print.Format.{vprintfmt}
use jos.Base.{◌>>=◌, replicate, [], arith}
use jos.Strings.Fill.Laws.{filled, memset_lem}
use jos.Disk.Sections.{kelfhdr}
use jos.Disk.Sections.Headers.{IsImage}
use jos.Console.Cprintf.Total.{beyond}
use jos.Disk.Fixtures.{
  ready, ready-IsReady, disk, sections, kernel_names, kernel_memory, kernel-IsImage,
}
use jos.Init.Calls.{entering, leaving, says}
use jos.Init.Laws.{cleared, IsSetUp, set_up_lem}
use jos.Init.{
  Start, set_up, load_debug, i386_init, panic, monitors, test_backtrace, backtrace_calls, warn,
}

test_backtrace_run : test_backtrace device (λ fuel k. some (0, k)) 0 5 kernel ≡ none
unfolding test_backtrace backtrace_calls print_args cprintf vcprintf vprintfmt
test_backtrace_run = refl

warn_run : warn device 0 (codes "init.c") 3 (memory_at 1 (codes "x")) (λ _. 0) 1 kernel ≡ none
unfolding warn print_args cprintf vcprintf vprintfmt
warn_run = refl

-- A start with sixteen bytes to clear, of which the first belongs to the console.
abbrev begin : Start
begin = record {
  readback = 0xA55A;
  cga_cells = replicate 2000 0;
  mono_cells = replicate 2000 0;
  edata = 0x800401FFF0;
  end = 0x8004020000;
  owned = λ a. a == 0x800401FFF0;
}

-- The image in memory, with other bytes where the variables without initial value are.
abbrev dirty : Memory
dirty = λ a. if leb begin.edata a && ltb a begin.end then 0xCC else kernel_memory a

kernel_memory-zero : (a : ℕ) → begin.edata ≤ a → a < begin.end → kernel_memory a ≡ 0
kernel_memory-zero a lo hi =
    let low : ltb a 200 ≡ false = ground arith in
    let above : ltb a kelfhdr ≡ false = ground arith in
    rw (low, above) (beyond (replicate 58 0 ++ (64 ∷ 0 ∷ 2 ∷ 0 ∷ [])) (a - kelfhdr) (omega arith))

cleared-dirty : (a : ℕ) → cleared begin dirty a ≡ kernel_memory a
unfolding filled
cleared-dirty a = (memset_lem dirty begin.edata 0 16 a).0 ∙ ground (arith, kernel_memory-zero a)

dirty-IsImage :
    IsImage disk kernel_names 2000 0x8004020000 0 0 128 22 (cleared begin dirty) sections
dirty-IsImage =
    let same : cleared begin dirty ≡ kernel_memory = fun_ext cleared-dirty in
    subst (λ m. IsImage disk kernel_names 2000 0x8004020000 0 0 128 22 m sections) (sym same)
      kernel-IsImage

ready-IsVideo : IsVideo ready begin.cga_cells begin.mono_cells
ready-IsVideo = record {
  cga = length-replicate {A = ℕ} 2000 0;
  mono = length-replicate {A = ℕ} 2000 0;
  cursor =
      λ t t' port which. elim which [ inl e ↦ rw e (omega arith) | inr e ↦ rw e (omega arith) ];
}

set_up_lem_example :
    (r : Running) × (set_up ready disk kernel_names 2000 begin dirty kernel ≡ some r)
    × IsSetUp disk begin sections r
    × IsConsole r.console.sink
    × (r.console.sink.cons ≡ empty_ring)
set_up_lem_example =
    set_up_lem ready disk kernel_names 2000 begin dirty kernel 0 0 128 22 sections ready-IsReady
      ready-IsVideo (omega arith) dirty-IsImage (omega arith)

-- A stack with no frame above the first.
abbrev bottom : Stack
bottom = record { rbp = 0; rip = 0x8004000250; mem = λ _. 0 }

looks_up : look_up ready library section (λ _. locals) 2000 0x8004000250 blank ≡ some second_info
unfolding look_up debuginfo_rip search_units search_dies info_of unknown list_func_die list_args
    further_args type_size describe add_arg next_size covers
looks_up = refl

no_frame : Chain ready library section (λ _. locals) 2000 (λ _. 0) 0 0x8004000250 second_info []
unfolding Chain
no_frame = refl

i386_init_lem_example :
    (r : Running) × (k' : Kernel) × (set_up ready disk kernel_names 2000 begin dirty kernel
      ≡ some r)
    × IsSetUp disk begin sections r
    × ((says ready 2000 entering (5 ∷ 4 ∷ 3 ∷ 2 ∷ 1 ∷ 0 ∷ []) r.console >>= λ k₁.
          mon_backtrace ready library section (λ _. locals) bottom blank 2000 k₁ >>= λ listed.
          says ready 2000 leaving (0 ∷ 1 ∷ 2 ∷ 3 ∷ 4 ∷ 5 ∷ []) listed.1)
        ≡ some k')
    × (i386_init ready disk kernel_names
          (mon_backtrace ready library section (λ _. locals) bottom blank)
          (λ k. some k)
          3
          2000
          begin
          dirty
          kernel
        ≡ monitors 3 (λ k. some k) k')
    × IsConsole k'.sink
    × (k'.sink.cons ≡ empty_ring)
i386_init_lem_example =
    i386_init_lem ready disk kernel_names library section (λ _. locals) bottom blank second_info []
      (λ k. some k) 3 2000 0 begin dirty kernel 0 0 128 22 sections ready-IsReady ready-IsVideo
      (omega arith) dirty-IsImage looks_up no_frame (omega arith) tt (omega arith)

oops : CString (memory_at 1 (codes "oops")) 1 (codes "oops")
oops = ground arith

oops-safe : safe plain (codes "oops") ≡ true
unfolding safe advance may_end
oops-safe = refl

abbrev no_panic : ℕ
no_panic = 0

panic_lem_example :
    (k' : Kernel) × (panic device
        (λ k. some k)
        3
        400
        (codes "init.c")
        5
        (memory_at 1 (codes "oops"))
        (λ _. 0)
        1
        (no_panic, kernel)
      ≡ (monitors 3 (λ k. some k) k' >>= λ q. some (if no_panic == 0 then 1 else no_panic, q)))
    × IsConsole k'.sink
    × (k'.sink.cons ≡ kernel.sink.cons)
    × (((no_panic ≡ 0)
          × (message device
                (codes "init.c")
                5
                (memory_at 1 (codes "oops"))
                (λ _. 0)
                1
                400
                (codes "kernel panic at %s:%d: ")
                kernel
              ≡ some k'))
        ⊎ ((no_panic ≢ 0) × (k' ≡ kernel)))
panic_lem_example =
    panic_lem device (codes "init.c") 5 (memory_at 1 (codes "oops")) (λ _. 0) 1 (λ k. some k) 3 400
      0 no_panic (codes "oops") kernel oops oops-safe (λ i nz. absurd (nz refl)) (omega arith)
      kernel-IsConsole

panic_run :
    (panic device (λ k. some k) 3 0 (codes "x") 1 (memory_at 1 (codes "x")) (λ _. 0) 1 (7, kernel)
      >>= λ r. some r.0)
    ≡ some 7
unfolding panic monitors
panic_run = refl

init_run :
    i386_init device disk kernel_names
      (λ fuel k. some (0, k))
      (λ k. some k)
      1
      0
      begin
      kernel_memory
      kernel
    ≡ none
unfolding i386_init set_up load_debug cons_init print_literal print_args cprintf vcprintf vprintfmt
init_run = ground arith
