-- ===== src/Monitor/Tests.antt =====
-- The monitor on the line " help me".
use jos.Base.{
  zero, suc, get_or, length-replicate, ℕ, ◌<◌, ◌≡◌, inl, refl, none, some, ◌>>=◌, List, [], ◌∷◌,
  Bytes, codes, replicate, arith, ◌++◌,
}
use jos.Base.Memory.{Memory, memory_at, CString}
use jos.Console.Fixtures.{device, kernel, kernel-IsConsole}
use jos.Console.State.{Kernel}
use jos.Console.Ring.Laws.{get_or-zeros, pending, stretch}
use jos.Console.Cprintf.{print_args, cprintf, vcprintf}
use jos.Print.Format.{vprintfmt}
use jos.Monitor.{help, line_memory, runcmd, run_words, run_parsed, monitor, monitor_loop}
use jos.Debug.Fixtures.{library, blank, second_info, locals, section}
use jos.Debug.Function.{
  covers, list_func_die, list_args, further_args, type_size, describe, add_arg, next_size,
}
use jos.Debug.Lookup.{unknown, debuginfo_rip, search_units, search_dies}
use jos.Monitor.Backtrace.{info_of, look_up, mon_backtrace}
use jos.Console.Cprintf.Shown.{Shows}
use jos.Monitor.Backtrace.Shown.{frames_items, mon_backtrace_lists}
use jos.Monitor.Backtrace.Laws.{Good, Chain}
use jos.Monitor.Turns.{AtPrompt, Turn, here, later, empty_turn, Reaches-AtPrompt, monitor_stays}
use jos.Monitor.Parse.{parsed, parse_args, gobble}
use jos.Monitor.Parse.Laws.{text_of, Separated, PointsTo, parse_args_lem}
use jos.Monitor.Laws.{answer, runcmd_lem}
use jos.Monitor.Fixtures.{symbols, stack, first_info, frame, empty_buffer, device-Silent}

abbrev pieces : List (Bytes × Bytes)
pieces = (codes " ", codes "help") ∷ (codes " ", codes "me") ∷ []

pieces-Separated : Separated pieces []
pieces-Separated = ground arith

line_text : CString (line_memory (codes " help me")) 100 (text_of pieces [])
line_text = ground arith

parse_args_lem_example :
    (ps : List ℕ) × (m' : Memory) × (parse_args 20 (line_memory (codes " help me")) 100 []
      ≡ some (parsed ps m'))
    × PointsTo m' ps pieces
    × ((a : ℕ) → a < 100 → m' a ≡ line_memory (codes " help me") a)
parse_args_lem_example =
    parse_args_lem 20 (line_memory (codes " help me")) 100 pieces [] line_text pieces-Separated
      (omega arith) (omega arith)

-- Sixteen words of one letter.
abbrev many : List (Bytes × Bytes)
many = replicate 16 (codes " ", codes "x")

many-Separated : Separated many []
many-Separated = ground arith

many_text : CString (memory_at 100 (text_of many [])) 100 (text_of many [])
many_text = ground arith

runcmd_lem_example :
    (buf' : List ℕ) × (runcmd device symbols (λ fuel k. some (0, k)) 600 (codes " help me") kernel
      ≡ (answer device symbols (λ fuel k. some (0, k)) (some help) (codes "help") 600 kernel
          >>= λ (ret, k'). some (ret, k', buf')))
runcmd_lem_example =
    runcmd_lem device symbols (λ fuel k. some (0, k)) 600 (codes " help me") kernel (codes " ")
      (codes "help") ((codes " ", codes "me") ∷ []) [] (some help) line_text pieces-Separated
      (ground arith) (omega arith) (omega arith) (inl (refl, refl))

-- An empty line runs nothing.
empty_run :
    (runcmd device symbols (λ fuel k. none) 4 [] kernel >>= λ (ret, k, buf). some ret) ≡ some 0
unfolding runcmd run_parsed run_words parse_args gobble
empty_run = refl

no_fuel_run : monitor device symbols (λ fuel k. none) 0 [] kernel ≡ none
unfolding monitor monitor_loop print_args cprintf vcprintf vprintfmt
no_fuel_run = refl

looks_up_second :
    look_up device library section (λ _. locals) 400 0x8004000250 blank ≡ some second_info
unfolding look_up debuginfo_rip search_units search_dies info_of unknown list_func_die list_args
    further_args type_size describe add_arg next_size covers
looks_up_second = refl

looks_up_first :
    look_up device library section (λ _. locals) 400 0x8004000150 second_info ≡ some first_info
unfolding look_up debuginfo_rip search_units search_dies info_of unknown list_func_die list_args
    further_args type_size describe add_arg next_size covers
looks_up_first = refl

one_frame :
    Chain device library section
      (λ _. locals)
      400
      stack.mem
      0x1000
      0x8004000250
      second_info
      (frame ∷ [])
unfolding Chain
one_frame = (ground arith, refl, (first_info, looks_up_first, refl))

mon_backtrace_lists_example :
    (k₁ : Kernel) × (k₂ : Kernel) × (print_args device 400
        ((27 ∷ codes "[41;36mStack backtrace:") ++ (27 ∷ codes "[0m") ++ (10 ∷ []))
        []
        kernel
      ≡ some k₁)
    × Shows device (frames_items stack.mem (frame ∷ [])) k₁ k₂
    × (mon_backtrace device library section (λ _. locals) stack blank 400 kernel ≡ some (0, k₂))
mon_backtrace_lists_example =
    mon_backtrace_lists device library section (λ _. locals) stack blank second_info 400 6 kernel
      (frame ∷ []) kernel-IsConsole looks_up_second one_frame (omega arith)
      ((omega arith, ground arith, ground arith), tt) (omega arith) (omega arith)

kernel-Good : Good kernel
unfolding Good
kernel-Good = kernel-IsConsole

prompt : AtPrompt (empty_buffer, kernel)
unfolding AtPrompt
prompt = (refl, kernel-Good)

monitor_stays_example :
    monitor device symbols
      (mon_backtrace device library section (λ _. locals) stack blank)
      20
      empty_buffer
      kernel
    ≡ none
monitor_stays_example =
    monitor_stays device symbols library section (λ _. locals) stack blank 20 empty_buffer kernel
      prompt

-- A newline waits, and no device has anything more.
abbrev entered : Kernel
entered = record kernel {
  sink = record (kernel.sink) { cons = record { buf = 10 ∷ replicate 511 0; rpos = 0; wpos = 1 } };
}

newline_small : (i : ℕ) → get_or entered.sink.cons.buf i 0 < 256
newline_small zero = omega arith
newline_small (suc i) = get_or-zeros 511 i

entered-AtPrompt : AtPrompt (empty_buffer, entered)
unfolding AtPrompt Good
entered-AtPrompt = (
  refl,
  record {
    screen = record {
      cells = kernel-IsConsole.screen.cells;
      cursor = kernel-IsConsole.screen.cursor;
    };
    ring = record {
      size = omega (arith, length-replicate {A = ℕ} 511 0);
      reader = omega arith;
      writer = omega arith;
      bytes = newline_small;
    };
    modifiers = omega arith;
  },
)

newline_waits : pending entered.sink.cons ≡ 10 ∷ []
unfolding pending stretch
newline_waits = refl

after_newline :
    (t : List ℕ × Kernel) × Turn device symbols library section
      (λ _. locals)
      stack
      blank
      (empty_buffer, entered)
      t
    × (pending t.1.sink.cons ≡ [])
after_newline =
    empty_turn device symbols library section (λ _. locals) stack blank 9 empty_buffer entered []
      device-Silent entered-AtPrompt newline_waits (omega arith)

Reaches-AtPrompt_example : AtPrompt after_newline.0
Reaches-AtPrompt_example =
    Reaches-AtPrompt device symbols library section (λ _. locals) stack blank
      (empty_buffer, entered) after_newline.0 entered-AtPrompt
      (later (empty_buffer, entered) (empty_buffer, entered) after_newline.0
        (here (empty_buffer, entered)) after_newline.1)
