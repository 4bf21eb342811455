-- ===== src/Print/Tests.antt =====
-- Formatted printing into a list and into a buffer.
use jos.Base.{◌==◌, if◌then◌else◌}
use jos.Print.Format.Render.{vprintfmt-Renders}
use jos.Print.Format.Render.Items.{
  Item, verbatim, number, string, hexadecimal, sources, AllPassed, Renders,
}
use jos.Base.{true, ◌/◌, ◌*◌}
use jos.Print.Color.Laws.{
  mirrored, spilled, interpret_color_lem, written, colored, escape_sequence_lem,
}
use jos.Print.Format.Safe.{plain, safe, advance, may_end}
use jos.Print.Format.Total.{vprintfmt_returns}
use jos.Base.{
  u32, min, List, length, inl, ℕ, ◌+◌, ◌^◌, ◌-◌, ◌<◌, ◌≤◌, ◌≡◌, ◌⊎◌, refl, [], ◌∷◌, ◌++◌, Option,
  some, ◌>>=◌, arith, Bytes, codes,
}
use jos.Base.Memory.{Memory, memory_at, write, CString}
use jos.Print.Terminal.{Terminal, emit, emit_times}
use jos.Print.Args.{Slots, getuint, getint}
use jos.Print.Num.{printnum, printnum_depth}
use jos.Print.Num.Roundtrip.{append_char, blank_page, strtol-printnum}
use jos.Strings.Number.{strtol}
use jos.Print.Color.{interpret_color, read_number, read_colors, escape_sequence}
use jos.Print.Text.{put_string, print_string, shown}
use jos.Print.Format.{
  vprintfmt, printfmt, directive, convert, back_up, print_number, print_signed, print_error,
  print_text, error_string,
}
use jos.Print.Format.Flags.{parse_flags, reswitch, flag, read_width, process_precision}
use jos.Print.Buffer.{sprintputch, vsnprintf, snprintf}
use jos.Print.Buffer.Laws.{vsnprintf-stays_inside}

abbrev collect : ℕ → ℕ → ℕ → Bytes → Bytes
collect color parsing ch s = s ++ (ch ∷ [])

-- What printfmt prints into a list.
abbrev printed : Bytes → Slots → Option Bytes
printed fmt slots =
    printfmt collect 20 (memory_at 1 fmt) slots 1
      (record { color_flag = 7; color_parsing = 0; sink = [] })
    >>= λ t. some t.sink

plain_run : printed (codes "hi%%") (λ _. 0) ≡ some (codes "hi%")
unfolding printfmt vprintfmt directive convert emit parse_flags reswitch flag
plain_run = refl

signed_run : printed (codes "%5d|") (λ _. 2 ^ 64 - 42) ≡ some (codes "-   42|")
unfolding printfmt vprintfmt directive convert emit emit_times parse_flags reswitch flag read_width
    process_precision print_signed print_number getint printnum printnum_depth
signed_run = refl

-- A negative `int` is handed over with its upper half zero, and is printed unsigned.
int_run : printed (codes "%d") (λ _. 2 ^ 32 - 1) ≡ some (codes "4294967295")
unfolding printfmt vprintfmt directive convert emit emit_times parse_flags reswitch flag read_width
    process_precision print_signed print_number getint printnum printnum_depth
int_run = refl

hex_run : printed (codes "%08x") (λ _. 0xBEEF) ≡ some (codes "0000beef")
unfolding printfmt vprintfmt directive convert emit emit_times parse_flags reswitch flag read_width
    process_precision print_number getuint printnum printnum_depth
hex_run = refl

text_run : printed (codes "%s" ++ (0 ∷ codes "ok")) (λ _. 4) ≡ some (codes "ok")
unfolding printfmt vprintfmt directive convert emit emit_times parse_flags reswitch flag print_text
    print_string put_string shown
text_run = refl

error_run : printed (codes "%e") (λ _. 2 ^ 32 - 3) ≡ some (codes "invalid parameter")
unfolding printfmt vprintfmt directive convert emit emit_times parse_flags reswitch flag print_error
    error_string print_text print_string put_string shown
error_run = refl

unknown_run : printed (codes "%z") (λ _. 0) ≡ some (codes "%z")
unfolding printfmt vprintfmt directive convert emit parse_flags reswitch flag back_up
unknown_run = refl

-- The sequence for a red foreground: red and blue change places in the attribute.
color_run :
    (printfmt collect 20
        (memory_at 1 (27 ∷ codes "[31mx"))
        (λ _. 0)
        1
        (record { color_flag = 7; color_parsing = 0; sink = [] })
      >>= λ t. some (t.color_flag + t.color_parsing))
    ≡ some 4
unfolding printfmt vprintfmt emit escape_sequence read_colors read_number interpret_color
color_run = refl

-- "abc" at 100
abbrev format : Terminal Memory
format = record { color_flag = 7; color_parsing = 0; sink = memory_at 100 (codes "abc") }

abbrev cut : Terminal Memory
cut = record format { sink = write (write (write format.sink 10 97) 11 98) 12 0 }

vsnprintf_run : vsnprintf 9 (λ _. 0) 10 3 100 format ≡ some (3, cut)
unfolding vsnprintf vprintfmt emit sprintputch
vsnprintf_run = refl

snprintf_run : snprintf 9 (λ _. 0) 10 3 100 format ≡ some (3, cut)
unfolding snprintf vsnprintf vprintfmt emit sprintputch
snprintf_run = refl

vsnprintf-stays_inside_example :
    (total : ℕ) × (3 ≡ u32 total)
    × (cut.sink (10 + min total 2) ≡ 0)
    × ((a : ℕ) → (a < 10) ⊎ (13 ≤ a) → cut.sink a ≡ format.sink a)
vsnprintf-stays_inside_example =
    vsnprintf-stays_inside 9 (λ _. 0) 10 3 100 format {cnt = 3} {t' = cut} (omega arith)
      (omega arith) (omega arith) vsnprintf_run

abbrev page : Terminal Bytes
page = record { color_flag = 7; color_parsing = 0; sink = [] }

hello_text : CString (memory_at 1 (codes "hello")) 1 (codes "hello")
hello_text = ground arith

interpret_color_lem_example :
    (interpret_color 7 (30 + 1) ≡ 7 / 8 * 8 + mirrored 1)
    × (interpret_color 7 (40 + 1) ≡ spilled 7 1)
interpret_color_lem_example = interpret_color_lem 7 1 (omega arith) (omega arith)

-- Blue on black and then a background that ANSI calls blue.
abbrev blank_terminal : Terminal Bytes
blank_terminal = record { color_flag = 7; color_parsing = 0; sink = [] }

colors_stand : CString (memory_at 0 (codes "[31;44mx")) 0 (codes "[31;44mx")
colors_stand = ground arith

escape_sequence_lem_example :
    (t' : Terminal Bytes) × (escape_sequence collect
        (memory_at 0 (codes "[31;44mx"))
        9
        0
        blank_terminal
      ≡ some (0 + 1 + length (written (codes "31") (codes "44" ∷ [])), t'))
    × (t'.color_flag ≡ colored 7 (codes "31") (codes "44" ∷ []))
    × (t'.color_parsing ≡ 0)
escape_sequence_lem_example =
    escape_sequence_lem collect (codes "31") (codes "44" ∷ []) 9 (memory_at 0 (codes "[31;44mx")) 0
      b'[' (codes "x") blank_terminal colors_stand (omega arith) (omega arith) (omega arith)

-- Flags, a width, a string and an unknown conversion; "ok" stands at 10.
abbrev mixed : Bytes
mixed = codes "%08x %s%z"

abbrev mixed_memory : Memory
mixed_memory = memory_at 0 (mixed ++ (0 ∷ codes "ok"))

mixed_stands : CString mixed_memory 0 mixed
mixed_stands = ground arith

ok_stands : CString mixed_memory 10 (codes "ok")
ok_stands = ground arith

mixed-safe : safe plain mixed ≡ true
unfolding safe advance may_end
mixed-safe = refl

vprintfmt_returns_example :
    (t' : Terminal Bytes) × (vprintfmt collect 20 mixed_memory (λ _. 10) 0 0 blank_terminal
      ≡ some t')
vprintfmt_returns_example =
    vprintfmt_returns collect 20 2 mixed_memory (λ _. 10) 0 0 mixed blank_terminal mixed_stands
      mixed-safe (λ i nz. (codes "ok", ok_stands, omega arith)) (omega arith)

-- "n=%04x, %s", with "ok" at 11.
abbrev some_items : List Item
some_items =
    verbatim (codes "n=")
    ∷ number true (codes "4") hexadecimal 0xBEEF
    ∷ verbatim (codes ", ")
    ∷ string 11 (codes "ok")
    ∷ []

abbrev items_memory : Memory
items_memory = memory_at 0 (sources some_items ++ (0 ∷ codes "ok"))

abbrev items_slots : Slots
items_slots = λ i. if i == 0 then 0xBEEF else 11

items_stand : CString items_memory 0 (sources some_items)
items_stand = ground arith

items_passed : AllPassed items_memory items_slots 2 0 some_items
items_passed = ground arith

vprintfmt-Renders_example :
    (t' : Terminal Bytes) × (vprintfmt collect 20 items_memory items_slots 0 0 blank_terminal
      ≡ some t')
    × Renders collect some_items blank_terminal t'
vprintfmt-Renders_example =
    vprintfmt-Renders collect items_memory items_slots some_items 2 20 0 0 blank_terminal
      items_stand items_passed (omega arith) (omega arith)

abbrev number_page : Terminal Bytes
number_page = record { color_flag = 7; color_parsing = 0; sink = codes "  1984" }

number_page_run : printnum append_char 1984 10 6 b' ' blank_page ≡ some number_page
unfolding printnum printnum_depth emit emit_times
number_page_run = refl

strtol-printnum_example : strtol 7 (memory_at 3 (codes "  1984")) 3 10 ≡ some (1984, 9)
strtol-printnum_example =
    strtol-printnum 1984 10 6 7 3 (memory_at 3 (codes "  1984")) {t = number_page} (omega arith)
      (omega arith) (omega arith) (inl (omega arith)) number_page_run (ground arith) (omega arith)
