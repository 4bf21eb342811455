-- ===== src/Print/Format/Safe.antt =====
-- Which formats vprintfmt reads to their end: an automaton over the characters of a format.
use jos.Base.{
  ℕ, true, false, ◌&&◌, ◌||◌, Bool, Option, none, some, leb, ◌==◌, if◌then◌else◌, [], ◌∷◌, Bytes,
}

-- Plain text; behind a '%'; behind an escape character; in the numbers of a colour sequence.
pub data Mode : Type 0 where
  plain : Mode
  sequence : Mode
  escape : Mode
  number : Mode

-- The flags, the width and the precision of a sequence.
abbrev pub is_flag : ℕ → Bool
is_flag c =
    c == b'-'
    || (c == b'0'
        || ((leb b'1' c && leb c b'9') || (c == b'*' || (c == b'.' || (c == b'#' || c == b'l')))))

-- The conversions other than `%e`.
abbrev pub is_conversion : ℕ → Bool
is_conversion c =
    c == b'c'
    || (c == b's'
        || (c == b'd' || (c == b'u' || (c == b'o' || (c == b'p' || (c == b'x' || c == b'%'))))))

-- The mode behind a character of plain text.
abbrev pub after_plain : ℕ → Mode
after_plain c = if c == b'%' then sequence else if c == 27 then escape else plain

-- The mode behind a character. A character that is no conversion is read again as plain text; `%e` is
-- left out.
unfoldable pub advance : Mode → ℕ → Option Mode
advance plain c = some (after_plain c)
advance sequence c =
    if is_flag c
    then some sequence
    else if c == b'e'
    then none
    else if is_conversion c
    then some plain
    else some (after_plain c)
advance escape c = some number
advance number c = if c == b'm' then some plain else some number

-- The format ends in plain text or in an unfinished sequence, not in a colour sequence.
unfoldable pub may_end : Mode → Bool
may_end plain = true
may_end sequence = true
may_end escape = false
may_end number = false

unfoldable pub safe : Mode → Bytes → Bool
unfolding advance may_end
safe mode [] = may_end mode
safe mode (c ∷ cs) = elim (advance mode c) [ none ↦ false | some mode' ↦ safe mode' cs ]
