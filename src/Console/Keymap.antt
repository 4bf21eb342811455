-- ===== src/Console/Keymap.antt =====
-- kern/console.c and inc/kbdreg.h: the tables of the keyboard. An entry that a table does not name
-- is 0, which is `NO`.
use jos.Base.{ℕ, ◌+◌, ◌-◌, ◌==◌, ltb, if◌then◌else◌, [], ◌∷◌, ◌++◌, Bytes, codes, get_or, replicate}

abbrev pub key_home : ℕ
key_home = 0xE0

abbrev pub key_end : ℕ
key_end = 0xE1

abbrev pub key_up : ℕ
key_up = 0xE2

abbrev pub key_dn : ℕ
key_dn = 0xE3

abbrev pub key_lf : ℕ
key_lf = 0xE4

abbrev pub key_rt : ℕ
key_rt = 0xE5

abbrev pub key_pgup : ℕ
key_pgup = 0xE6

abbrev pub key_pgdn : ℕ
key_pgdn = 0xE7

abbrev pub key_ins : ℕ
key_ins = 0xE8

abbrev pub key_del : ℕ
key_del = 0xE9

-- The modifier bits of `shift`.
abbrev pub shift_bit : ℕ
shift_bit = 1

abbrev pub ctl_bit : ℕ
ctl_bit = 2

abbrev pub alt_bit : ℕ
alt_bit = 4

abbrev pub capslock_bit : ℕ
capslock_bit = 8

abbrev pub numlock_bit : ℕ
numlock_bit = 16

abbrev pub scrolllock_bit : ℕ
scrolllock_bit = 32

abbrev pub e0esc_bit : ℕ
e0esc_bit = 64

unfoldable pub shiftcode : ℕ → ℕ
shiftcode code =
    if code == 0x1D
    then ctl_bit
    else if code == 0x2A
    then shift_bit
    else if code == 0x36
    then shift_bit
    else if code == 0x38
    then alt_bit
    else if code == 0x9D
    then ctl_bit
    else if code == 0xB8
    then alt_bit
    else 0

unfoldable pub togglecode : ℕ → ℕ
togglecode code =
    if code == 0x3A
    then capslock_bit
    else if code == 0x45
    then numlock_bit
    else if code == 0x46
    then scrolllock_bit
    else 0

-- The entries that the three maps share: the keys behind an E0 escape.
extended_key : ℕ → ℕ
extended_key code =
    if code == 0xC8
    then key_up
    else if code == 0xC9
    then key_pgup
    else if code == 0xCB
    then key_lf
    else if code == 0xCD
    then key_rt
    else if code == 0xCF
    then key_end
    else if code == 0xD0
    then key_dn
    else if code == 0xD1
    then key_pgdn
    else if code == 0xD2
    then key_ins
    else if code == 0xD3
    then key_del
    else 0

-- The rows 0x00 to 0x57 of normalmap and of shiftmap.
abbrev normal_rows : Bytes
normal_rows =
    (0 ∷ 0x1B ∷ codes "1234567890-=")
    ++ ((8 ∷ 9 ∷ codes "qwertyuiop[]")
        ++ ((10 ∷ 0 ∷ codes "asdfghjkl;'`")
            ++ ((0 ∷ codes "\\zxcvbnm,./")
                ++ ((0 ∷ b'*' ∷ 0 ∷ b' ' ∷ []) ++ (replicate 13 0 ++ codes "789-456+1230.")))))

abbrev shift_rows : Bytes
shift_rows =
    (0 ∷ 0x1B ∷ codes "!@#$%^&*()_+")
    ++ ((8 ∷ 9 ∷ codes "QWERTYUIOP{}")
        ++ ((10 ∷ 0 ∷ codes "ASDFGHJKL:\"~")
            ++ ((0 ∷ codes "|ZXCVBNM<>?")
                ++ ((0 ∷ b'*' ∷ 0 ∷ b' ' ∷ []) ++ (replicate 13 0 ++ codes "789-456+1230.")))))

-- C(x) is x - '@'; the rows 0x00 to 0x37 of ctlmap.
abbrev control : ℕ → ℕ
control x = x - b'@'

abbrev ctl_rows : Bytes
ctl_rows =
    replicate 16 0
    ++ ((control b'Q'
          ∷ control b'W'
          ∷ control b'E'
          ∷ control b'R'
          ∷ control b'T'
          ∷ control b'Y'
          ∷ control b'U'
          ∷ control b'I'
          ∷ [])
        ++ ((control b'O' ∷ control b'P' ∷ 0 ∷ 0 ∷ 13 ∷ 0 ∷ control b'A' ∷ control b'S' ∷ [])
            ++ ((control b'D'
                  ∷ control b'F'
                  ∷ control b'G'
                  ∷ control b'H'
                  ∷ control b'J'
                  ∷ control b'K'
                  ∷ control b'L'
                  ∷ 0
                  ∷ [])
                ++ ((0
                      ∷ 0
                      ∷ 0
                      ∷ control b'\\'
                      ∷ control b'Z'
                      ∷ control b'X'
                      ∷ control b'C'
                      ∷ control b'V'
                      ∷ [])
                    ++ (control b'B'
                        ∷ control b'N'
                        ∷ control b'M'
                        ∷ 0
                        ∷ 0
                        ∷ (b'/' + 256 - b'@')
                        ∷ 0
                        ∷ 0
                        ∷ [])))))

unfoldable pub normalmap : ℕ → ℕ
unfolding extended_key
normalmap code =
    if code == 0xC7
    then key_home
    else if code == 0x9C
    then 10
    else if code == 0xB5
    then b'/'
    else if ltb code 0x58
    then get_or normal_rows code 0
    else extended_key code

unfoldable pub shiftmap : ℕ → ℕ
unfolding extended_key
shiftmap code =
    if code == 0xC7
    then key_home
    else if code == 0x9C
    then 10
    else if code == 0xB5
    then b'/'
    else if ltb code 0x58
    then get_or shift_rows code 0
    else extended_key code

-- KEY_HOME stands at 0x97 here, and at 0xC7 in the other maps. `C('/')` is negative and is cut to
-- a byte.
unfoldable pub ctlmap : ℕ → ℕ
unfolding extended_key
ctlmap code =
    if code == 0x97
    then key_home
    else if code == 0xB5
    then b'/' + 256 - b'@'
    else if ltb code 0x38
    then get_or ctl_rows code 0
    else extended_key code

-- charcode[shift & (CTL | SHIFT)][data]
unfoldable pub charcode : ℕ → ℕ → ℕ
unfolding normalmap shiftmap ctlmap
charcode modifiers code =
    if modifiers == 0 then normalmap code else if modifiers == 1 then shiftmap code else ctlmap code
