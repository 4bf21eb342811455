-- ===== src/Monitor/Live/Tests.antt =====
-- The monitor on the lines "help" and "x".
use jos.Monitor.Turns.{Reaches}
use jos.Monitor.Live.{script, answers_all}
use jos.Base.{
  zero, suc, get_or, length-replicate, ℕ, ◌<◌, ◌≡◌, refl, some, List, [], ◌∷◌, Bytes, codes,
  replicate, arith, ◌++◌,
}
use jos.Console.Fixtures.{device, kernel, kernel-IsConsole}
use jos.Console.State.{Kernel}
use jos.Console.Ring.Laws.{get_or-zeros, pending, stretch}
use jos.Debug.Fixtures.{library, blank, second_info, locals, section}
use jos.Debug.Function.{
  covers, list_func_die, list_args, further_args, type_size, describe, add_arg, next_size,
}
use jos.Debug.Lookup.{unknown, debuginfo_rip, search_units, search_dies}
use jos.Monitor.Backtrace.{info_of, look_up}
use jos.Monitor.Backtrace.Laws.{Good, Chain}
use jos.Monitor.Turns.{AtPrompt}
use jos.Monitor.Fixtures.{symbols, stack, first_info, frame, empty_buffer, device-Silent}

-- The lines "help" and "x" wait.
abbrev two_lines : Kernel
two_lines = record kernel {
  sink = record (kernel.sink) {
    cons = record { buf = codes "help" ++ (10 ∷ b'x' ∷ 13 ∷ replicate 505 0); rpos = 0; wpos = 7 };
  };
}

two_lines_small : (i : ℕ) → get_or two_lines.sink.cons.buf i 0 < 256
two_lines_small zero = omega arith
two_lines_small (suc zero) = omega arith
two_lines_small (suc (suc zero)) = omega arith
two_lines_small (suc (suc (suc zero))) = omega arith
two_lines_small (suc (suc (suc (suc zero)))) = omega arith
two_lines_small (suc (suc (suc (suc (suc zero))))) = omega arith
two_lines_small (suc (suc (suc (suc (suc (suc zero)))))) = omega arith
two_lines_small (suc (suc (suc (suc (suc (suc (suc i))))))) = get_or-zeros 505 i

two_lines-AtPrompt : AtPrompt (empty_buffer, two_lines)
unfolding AtPrompt Good
two_lines-AtPrompt = (
  refl,
  record {
    screen = record {
      cells = kernel-IsConsole.screen.cells;
      cursor = kernel-IsConsole.screen.cursor;
    };
    ring = record {
      size = omega (arith, length-replicate {A = ℕ} 505 0);
      reader = omega arith;
      writer = omega arith;
      bytes = two_lines_small;
    };
    modifiers = omega arith;
  },
)

abbrev typed_lines : List (Bytes × ℕ)
typed_lines = (codes "help", 10) ∷ (codes "x", 13) ∷ []

lines_wait : pending two_lines.sink.cons ≡ script typed_lines ++ []
unfolding pending stretch
lines_wait = refl

looks_up_second_far :
    look_up device library section (λ _. locals) 2000 0x8004000250 blank ≡ some second_info
unfolding look_up debuginfo_rip search_units search_dies info_of unknown list_func_die list_args
    further_args type_size describe add_arg next_size covers
looks_up_second_far = refl

looks_up_first_far :
    look_up device library section (λ _. locals) 2000 0x8004000150 second_info ≡ some first_info
unfolding look_up debuginfo_rip search_units search_dies info_of unknown list_func_die list_args
    further_args type_size describe add_arg next_size covers
looks_up_first_far = refl

one_frame_far :
    Chain device library section
      (λ _. locals)
      2000
      stack.mem
      0x1000
      0x8004000250
      second_info
      (frame ∷ [])
unfolding Chain
one_frame_far = (ground arith, refl, (first_info, looks_up_first_far, refl))

answers_all_example :
    (t : List ℕ × Kernel) × Reaches device symbols library section
      (λ _. locals)
      stack
      blank
      (empty_buffer, two_lines)
      t
    × (pending t.1.sink.cons ≡ [])
answers_all_example =
    answers_all device symbols library section (λ _. locals) stack blank second_info 2000 20
      (frame ∷ []) typed_lines [] empty_buffer two_lines device-Silent looks_up_second_far
      one_frame_far (omega arith) (omega arith) (omega arith) (ground arith) two_lines-AtPrompt
      lines_wait
