-- ===== src/Console/Screen/Laws.antt =====
-- The screen's invariant, and what one character does to the cells and the cursor.
use jos.Base.{
  ℕ, ◌+◌, ◌-◌, ◌*◌, ◌/◌, ◌^◌, ◌<◌, ◌≡◌, ◌≢◌, refl, true, ◌==◌, leb, if◌then◌else◌, List, bit_and,
  bit_or, u16, set, take, drop, replicate, length, length-set, length-append, length-take,
  length-drop, length-replicate, arith, ==_iff,
}
use jos.Base.Bits.{all_below, all_below_sound}
use jos.Console.State.{Console, crt_size, crt_cols}
use jos.Console.Screen.{
  attributed, blank_cell, scroll, scroll_screen, move_cursor, put_cell, cga_putc,
}

-- The screen has its 2000 cells, and the cursor stands on one of them.
pub record IsScreen (s : Console) : Type 0 where
  pub cells : length s.crt_buf ≡ crt_size
  pub cursor : s.crt_pos < crt_size

pub length-scroll : (cells : List ℕ) → length cells ≡ crt_size → length (scroll cells) ≡ crt_size
unfolding scroll
length-scroll cells h = omega (
  arith,
  length-append (take (crt_size - crt_cols) (drop crt_cols cells)) (replicate crt_cols blank_cell),
  length-take (crt_size - crt_cols) (drop crt_cols cells),
  length-drop crt_cols cells,
  length-replicate crt_cols blank_cell,
)

-- Between the switch and the scroll the cursor is at most one line below the screen.
IsBelow : Console → Type 0
IsBelow s = (length s.crt_buf ≡ crt_size) × (s.crt_pos < crt_size + crt_cols)

scroll_screen_keep : (s : Console) → IsBelow s → IsScreen (scroll_screen s)
unfolding scroll_screen IsBelow
scroll_screen_keep s h = ground (arith, length-scroll s.crt_buf)

put_cell_keep :
    (cons_putc : ℕ → Console → Console) (c : ℕ) (s : Console)
    → ((ch : ℕ) (s : Console) → IsScreen s → IsScreen (cons_putc ch s))
    → IsScreen s
    → IsBelow (put_cell cons_putc c s)
unfolding put_cell IsBelow
put_cell_keep cons_putc c s keep h =
    let s₁ = cons_putc b' ' s in
    let s₂ = cons_putc b' ' s₁ in
    let s₃ = cons_putc b' ' s₂ in
    let s₄ = cons_putc b' ' s₃ in
    let tab = keep b' ' s₄ (keep b' ' s₃ (keep b' ' s₂ (keep b' ' s₁ (keep b' ' s h)))) in
    ground (
      arith,
      tab,
      length-set s.crt_buf s.crt_pos (u16 c),
      length-set s.crt_buf (s.crt_pos - 1) (u16 (bit_or (bit_and c (2 ^ 32 - 2 ^ 8)) b' ')),
    )

-- cga_putc keeps the screen's invariant for every character and every colour, if the calls for a
-- tab do: no cell outside the buffer is written.
pub cga_putc-IsScreen :
    (cons_putc : ℕ → Console → Console) (flag parsing ch : ℕ) (s : Console)
    → ((ch : ℕ) (s : Console) → IsScreen s → IsScreen (cons_putc ch s))
    → IsScreen s
    → IsScreen (cga_putc cons_putc flag parsing ch s)
unfolding cga_putc move_cursor
cga_putc-IsScreen cons_putc flag parsing ch s keep h =
    ground (arith, h, scroll_screen_keep _ (put_cell_keep cons_putc (attributed flag ch) s keep h))

-- A byte and a colour below 256 make the cell of that byte and that colour; colour 0 gives 0x07.
attributed_table :
    all_below 256 (λ flag.
      all_below 256
        (λ ch. attributed flag ch == (if flag == 0 then 0x700 + ch else flag * 256 + ch)))
    ≡ true
unfolding all_below attributed
attributed_table = refl

pub attributed_lem :
    (flag ch : ℕ)
    → flag < 256
    → ch < 256
    → attributed flag ch ≡ (if flag == 0 then 0x700 + ch else flag * 256 + ch)
attributed_lem flag ch hf hc = (==_iff _ _).0 (
    all_below_sound 256 _ ch
      (all_below_sound 256
        (λ flag.
          all_below 256
            (λ ch. attributed flag ch == (if flag == 0 then 0x700 + ch else flag * 256 + ch)))
        flag attributed_table hf)
      hc)

low_byte_table :
    all_below 256 (λ flag. all_below 256 (λ ch. bit_and (attributed flag ch) 0xFF == ch)) ≡ true
unfolding all_below attributed
low_byte_table = refl

pub low_byte : (flag ch : ℕ) → flag < 256 → ch < 256 → bit_and (attributed flag ch) 0xFF ≡ ch
low_byte flag ch hf hc = (==_iff _ _).0 (
    all_below_sound 256 _ ch
      (all_below_sound 256 (λ flag. all_below 256 (λ ch. bit_and (attributed flag ch) 0xFF == ch))
        flag low_byte_table hf)
      hc)

-- A character that is no control character the switch knows.
abbrev pub IsPlain : ℕ → Type 0
IsPlain ch = (ch < 256) × (ch ≢ 8) × (ch ≢ 9) × (ch ≢ 10) × (ch ≢ 13)

-- The cell of a character in a colour.
abbrev pub cell_of : ℕ → ℕ → ℕ
cell_of flag ch = if flag == 0 then 0x700 + ch else flag * 256 + ch

-- Outside a colour sequence a plain character goes to the cell under the cursor, in its colour, and
-- the cursor moves to the next cell; at the last cell the screen scrolls by a line and the cursor
-- goes to the start of the last line.
pub cga_putc_plain :
    (cons_putc : ℕ → Console → Console) (flag ch : ℕ) (s : Console)
    → flag < 256
    → IsPlain ch
    → s.crt_pos < crt_size
    → let s' = cga_putc cons_putc flag 0 ch s in
      let written = set s.crt_buf s.crt_pos (cell_of flag ch) in
      (s'.crt_buf ≡ (if s.crt_pos == crt_size - 1 then scroll written else written))
      × (s'.crt_pos ≡ (if s.crt_pos == crt_size - 1 then crt_size - crt_cols else s.crt_pos + 1))
unfolding cga_putc move_cursor scroll_screen put_cell
cga_putc_plain cons_putc flag ch s hf plain h =
    let cell : u16 (attributed flag ch) ≡ cell_of flag ch =
      ground (arith, attributed_lem flag ch hf plain.0) in
    let c : ℕ = attributed flag ch in ground (arith, low_byte flag ch hf plain.0, cell)

-- Outside a colour sequence a newline moves the cursor to the start of the next line; from the last
-- line the screen scrolls and the cursor stays on it. No cell is written otherwise.
pub cga_putc_newline :
    (cons_putc : ℕ → Console → Console) (flag : ℕ) (s : Console)
    → flag < 256
    → s.crt_pos < crt_size
    → let s' = cga_putc cons_putc flag 0 10 s in
      (s'.crt_buf ≡ (if leb (crt_size - crt_cols) s.crt_pos then scroll s.crt_buf else s.crt_buf))
      × (s'.crt_pos ≡ (
          if leb (crt_size - crt_cols) s.crt_pos
          then crt_size - crt_cols
          else s.crt_pos / crt_cols * crt_cols + crt_cols))
unfolding cga_putc move_cursor scroll_screen put_cell
cga_putc_newline cons_putc flag s hf h = ground (arith, low_byte flag 10 hf (omega arith))

-- What output leaves alone: the input buffer and the keyboard's modifiers.
abbrev pub SameInput : Console → Console → Type 0
SameInput s s' = (s'.cons ≡ s.cons) × (s'.shift ≡ s.shift)

pub cga_putc-SameInput :
    (cons_putc : ℕ → Console → Console) (flag parsing ch : ℕ) (s : Console)
    → ((ch : ℕ) (s : Console) → SameInput s (cons_putc ch s))
    → SameInput s (cga_putc cons_putc flag parsing ch s)
unfolding cga_putc move_cursor scroll_screen put_cell
cga_putc-SameInput cons_putc flag parsing ch s keep =
    let s₁ = cons_putc b' ' s in
    let s₂ = cons_putc b' ' s₁ in
    let s₃ = cons_putc b' ' s₂ in
    let s₄ = cons_putc b' ' s₃ in
    ground (arith, keep b' ' s, keep b' ' s₁, keep b' ' s₂, keep b' ' s₃, keep b' ' s₄)
