-- ===== src/Print/Format/Render/Items.antt =====
-- The items of a format: how they are written, what arguments they take, and what they print.
use jos.Base.{
  ℕ, ◌+◌, ◌-◌, ◌^◌, ◌<◌, ◌≤◌, ◌≡◌, ◌≢◌, Bool, true, false, ◌&&◌, if◌then◌else◌, List, [], ◌∷◌, ◌++◌,
  Bytes, All, length, u32, u64, is_neg64,
}
use jos.Base.Memory.{Memory, CString}
use jos.Print.Terminal.{Terminal, Putch, emit, emit_times}
use jos.Print.Args.{Slots}
use jos.Print.Num.Laws.{positional, emit_digits, room_of, NoLeadingZero}
use jos.Print.Format.Plain.{emit_all}
use jos.Print.Format.Render.Width.{IsWidthText, width_of, shape_text}

-- The conversions %d, %o, %u and %x.
pub data Radix : Type 0 where
  signed_decimal : Radix
  signed_octal : Radix
  unsigned_decimal : Radix
  hexadecimal : Radix

abbrev pub letter : Radix → ℕ
letter signed_decimal = b'd'
letter signed_octal = b'o'
letter unsigned_decimal = b'u'
letter hexadecimal = b'x'

abbrev pub base : Radix → ℕ
base signed_decimal = 10
base signed_octal = 8
base unsigned_decimal = 10
base hexadecimal = 16

abbrev pub is_signed : Radix → Bool
is_signed signed_decimal = true
is_signed signed_octal = true
is_signed unsigned_decimal = false
is_signed hexadecimal = false

-- Text; a percent sign; a character; a string at an address; a number, with or without the flag 0, and
-- with the digits of a width.
pub data Item : Type 0 where
  verbatim : Bytes → Item
  percent : Item
  character : ℕ → Item
  string : ℕ → Bytes → Item
  number : Bool → Bytes → Radix → ℕ → Item

abbrev pub source : Item → Bytes
source (verbatim cs) = cs
source percent = b'%' ∷ b'%' ∷ []
source (character n) = b'%' ∷ b'c' ∷ []
source (string p s) = b'%' ∷ b's' ∷ []
source (number zeros w r n) = b'%' ∷ (shape_text zeros w ++ (letter r ∷ []))

abbrev pub sources : List Item → Bytes
sources [] = []
sources (i ∷ is) = source i ++ sources is

abbrev pub arguments : Item → ℕ
arguments (verbatim cs) = 0
arguments percent = 0
arguments (character n) = 1
arguments (string p s) = 1
arguments (number zeros w r n) = 1

-- The argument stands in its slot, and the item may be printed: text has neither a '%' nor an escape
-- character, and a string is of ASCII characters, at most `bound` of them.
abbrev pub Passed : Memory → Slots → ℕ → ℕ → Item → Type 0
Passed mem slots bound next (verbatim cs) = All (λ c. (c ≢ b'%') × (c ≢ 27)) cs
Passed mem slots bound next percent = Unit
Passed mem slots bound next (character n) = u32 (slots next) ≡ n
Passed mem slots bound next (string p s) =
    (u64 (slots next) ≡ p) × (p ≢ 0) × CString mem p s × All (λ c. c < 128) s × (length s ≤ bound)
Passed mem slots bound next (number zeros w r n) = (u64 (slots next) ≡ n) × IsWidthText w

abbrev pub AllPassed : Memory → Slots → ℕ → ℕ → List Item → Type 0
AllPassed mem slots bound next [] = Unit
AllPassed mem slots bound next (i ∷ is) =
    Passed mem slots bound next i × AllPassed mem slots bound (next + arguments i) is

module _ {ℓ} {S : Type ℓ} (putch : Putch S) where
  -- The digits of a number in a base, without leading zeros, with padding before them up to a width.
  abbrev pub PrintsNumber : ℕ → ℕ → ℕ → ℕ → Terminal S → Terminal S → Type ℓ
  PrintsNumber base n padc width t t' =
      (ds : List ℕ) × (positional base 0 ds ≡ n)
      × All (λ d. d < base) ds
      × (0 < length ds)
      × NoLeadingZero ds
      × (t' ≡ emit_digits putch ds (emit_times putch (width - length ds) padc t))

  -- What an item does to the terminal. A number with a sign is the 64 bits of a signed number.
  abbrev pub Prints : Item → Terminal S → Terminal S → Type ℓ
  Prints (verbatim cs) t t' = t' ≡ emit_all putch cs t
  Prints percent t t' = t' ≡ emit putch b'%' t
  Prints (character n) t t' = t' ≡ emit putch n t
  Prints (string p s) t t' = t' ≡ emit_all putch s t
  Prints (number zeros w r n) t t' =
      if is_signed r && is_neg64 n
      then PrintsNumber (base r) (2 ^ 64 - n) (if zeros then b'0' else b' ') (room_of (width_of w))
          (emit putch b'-' t) t'
      else PrintsNumber (base r) n (if zeros then b'0' else b' ') (room_of (width_of w)) t t'

  -- The items one after the other.
  abbrev pub Renders : List Item → Terminal S → Terminal S → Type ℓ
  Renders [] t t' = t' ≡ t
  Renders (i ∷ is) t t' = (t₁ : Terminal S) × Prints i t t₁ × Renders is t₁ t'
