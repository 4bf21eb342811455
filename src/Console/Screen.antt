-- ===== src/Console/Screen.antt =====
-- kern/console.c: the text-mode screen (cga_init and cga_putc).
pub mod Laws
use jos.Base.{
  ℕ, zero, suc, ◌+◌, ◌-◌, ◌*◌, ◌/◌, ◌%◌, ◌^◌, Bool, true, false, not, ◌==◌, ltb, leb, if◌then◌else◌,
  List, ◌++◌, bit_and, bit_or, u16, u32, get_or, set, take, drop, replicate,
}
use jos.Console.Ports.{Device, Ports, inb, outb}
use jos.Console.State.{Console, crt_size, crt_cols}

-- `c |= (color_flag << 8)`, and black on white where that leaves no attribute.
unfoldable pub attributed : ℕ → ℕ → ℕ
attributed flag ch =
    let c = bit_or ch (u32 (flag * 2 ^ 8)) in
    if bit_and c (2 ^ 32 - 2 ^ 8) == 0 then bit_or c 0x0700 else c

-- A blank cell, `0x0700 | ' '`.
abbrev pub blank_cell : ℕ
blank_cell = 0x0720

-- The lines move up by one, and the last is cleared.
unfoldable pub scroll : List ℕ → List ℕ
scroll cells = take (crt_size - crt_cols) (drop crt_cols cells) ++ replicate crt_cols blank_cell

-- `crt_pos >= CRT_SIZE`
unfoldable pub scroll_screen : Console → Console
scroll_screen c =
    if leb crt_size c.crt_pos
    then record c { crt_buf = scroll c.crt_buf; crt_pos = u16 (c.crt_pos + 2 ^ 16 - crt_cols) }
    else c

-- "move that little blinky thing"
unfoldable pub move_cursor : Console → Console
unfolding outb
move_cursor c = record c {
  io =
      outb (c.addr_6845 + 1) c.crt_pos (
        outb c.addr_6845 15
          (outb (c.addr_6845 + 1) (c.crt_pos / 2 ^ 8) (outb c.addr_6845 14 c.io)));
}

-- The branches of the `switch` on `c & 0xff`; `cons_putc` is the call of the case '\t'.
unfoldable pub put_cell : (ℕ → Console → Console) → ℕ → Console → Console
put_cell cons_putc c s =
    if bit_and c 0xFF == 8
    then (if ltb 0 s.crt_pos
        then record s {
          crt_pos = s.crt_pos - 1;
          crt_buf = set s.crt_buf (s.crt_pos - 1) (u16 (bit_or (bit_and c (2 ^ 32 - 2 ^ 8)) b' '));
        }
        else s)
    else if bit_and c 0xFF == 10
    then record s { crt_pos = u16 (s.crt_pos + crt_cols) - u16 (s.crt_pos + crt_cols) % crt_cols }
    else if bit_and c 0xFF == 13
    then record s { crt_pos = s.crt_pos - s.crt_pos % crt_cols }
    else if bit_and c 0xFF == 9
    then cons_putc b' ' (cons_putc b' ' (cons_putc b' ' (cons_putc b' ' (cons_putc b' ' s))))
    else record s { crt_buf = set s.crt_buf s.crt_pos (u16 c); crt_pos = u16 (s.crt_pos + 1) }

unfoldable pub cga_putc : (ℕ → Console → Console) → ℕ → ℕ → ℕ → Console → Console
cga_putc cons_putc flag parsing ch s =
    if not (parsing == 0)
    then s
    else move_cursor (scroll_screen (put_cell cons_putc (attributed flag ch) s))

-- `readback` is what the first cell of the colour buffer holds after 0xA55A was stored there; the
-- lists are the cells of the two buffers before the call.
unfoldable pub cga_init : Device → ℕ → List ℕ → List ℕ → Console → Console
unfolding inb outb
cga_init dev readback cga_cells mono_cells c =
    let mono = not (readback == 0xA55A) in
    let addr = if mono then 0x3B4 else 0x3D4 in
    let (high, io₁) = inb dev (addr + 1) (outb addr 14 c.io) in
    let (low, io₂) = inb dev (addr + 1) (outb addr 15 io₁) in
    record c {
      io = io₂;
      addr_6845 = addr;
      crt_buf = if mono then mono_cells else set cga_cells 0 (get_or cga_cells 0 0);
      crt_pos = u16 (bit_or (high * 2 ^ 8) low);
    }
