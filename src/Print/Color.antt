-- ===== src/Print/Color.antt =====
-- lib/printfmt.c: the colour escape sequences of vprintfmt.
pub mod Laws
use jos.Base.{
  ℕ, zero, suc, ◌+◌, ◌-◌, ◌*◌, ◌/◌, ◌^◌, true, false, ◌&&◌, ◌||◌, Option, none, some, ◌>>=◌, leb,
  ◌==◌, if◌then◌else◌, add32, sub32, bit_and, bit_or,
}
use jos.Base.Memory.{Memory}
use jos.Print.Terminal.{Terminal, Putch, emit}

-- The value of `color_fun(c)`: the macro's expression with nothing behind it.
color_fun : ℕ → ℕ
color_fun c = bit_or (bit_or (bit_and c 4 / 2 ^ 2) (bit_and c 2)) (bit_and c 1 * 2 ^ 2)

-- The value of `color_fun(c) << 4`. The macro's body has no parentheses round it, so the shift
-- belongs to its last operand alone.
color_fun_shifted : ℕ → ℕ
color_fun_shifted c =
    bit_or (bit_or (bit_and c 4 / 2 ^ 2) (bit_and c 2)) (bit_and c 1 * 2 ^ 2 * 2 ^ 4)

-- The new `color_flag` for one number of the sequence.
unfoldable pub interpret_color : ℕ → ℕ → ℕ
unfolding color_fun color_fun_shifted
interpret_color flag esc =
    if esc == 0
    then 0x07
    else if leb 30 esc && leb esc 37
    then bit_or (bit_and flag 0xf8) (color_fun (esc - 30))
    else if leb 40 esc && leb esc 47
    then bit_or (bit_and flag 0x8f) (color_fun_shifted (esc - 40))
    else flag

module _ {ℓ} {S : Type ℓ} (putch : Putch S) (mem : Memory) where
  -- `while (ch != ';' && ch != 'm')`, with `ch = *fmt`: the number that was read, and `fmt`.
  unfoldable pub read_number : ℕ → ℕ → ℕ → Terminal S → Option (ℕ × ℕ × Terminal S)
  read_number zero fmt esc t = none
  read_number (suc fuel) fmt esc t = elim ((mem fmt == b';') || (mem fmt == b'm')) [
    | true ↦ some (esc, fmt, t)
    | false ↦
        read_number fuel (fmt + 1) (sub32 (add32 (esc * 10) (mem fmt)) b'0')
          (emit putch (mem fmt) t)
  ]

  -- The loop over the numbers; `fmt` is the address before the next `*++fmt`.
  unfoldable pub read_colors : ℕ → ℕ → Terminal S → Option (ℕ × Terminal S)
  read_colors zero fmt t = none
  read_colors (suc fuel) fmt t = do
    (esc, fmt', t') ← read_number fuel (fmt + 1) 0 t
    let t'' = emit putch (mem fmt') (record t' { color_flag = interpret_color t'.color_flag esc })
    elim (mem fmt' == b'm') [ true ↦ some (fmt' + 1, t'') | false ↦ read_colors fuel fmt' t'' ]

  -- The whole sequence behind the escape character; `fmt` is the address behind it.
  unfoldable pub escape_sequence : ℕ → ℕ → Terminal S → Option (ℕ × Terminal S)
  escape_sequence fuel fmt t = do
    (fmt', t') ←
        read_colors fuel fmt (emit putch b'[' (emit putch 27 (record t { color_parsing = 1 })))
    some (fmt', record t' { color_parsing = 0 })
