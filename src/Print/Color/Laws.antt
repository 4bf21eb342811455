-- ===== src/Print/Color/Laws.antt =====
-- What a colour sequence does to the colours.
use jos.Base.{
  ℕ, zero, suc, ◌+◌, ◌*◌, ◌/◌, ◌%◌, ◌<◌, ◌≤◌, ◌≡◌, ◌⊎◌, inl, inr, refl, ap, ◌∙◌, true, false, ◌||◌,
  ◌==◌, some, ◌>>=◌, List, [], ◌∷◌, ◌++◌, Bytes, All, length, length-append, append_assoc, arith,
  ==_iff, add32, sub32, bit_or, ==_iff,
}
use jos.Base.Memory.{Memory, CString, CString-split}
use jos.Base.Bits.{all_below, all_below_sound}
use jos.Print.Format.Plain.{emit_all}
use jos.Print.Terminal.{Terminal, Putch, emit}
use jos.Print.Color.{interpret_color, read_number, read_colors, escape_sequence}

-- The three bits of a colour in the opposite order: ANSI has red in the lowest, the screen blue.
abbrev pub mirrored : ℕ → ℕ
mirrored n = n / 4 + n / 2 % 2 * 2 + n % 2 * 4

-- What a background number leaves: the red bit alone reaches the background, and the others are put on
-- the foreground.
abbrev pub spilled : ℕ → ℕ → ℕ
spilled flag n =
    flag / 128 * 128 + n % 2 * 64 + flag / 8 % 2 * 8 + bit_or (flag % 8) (n / 4 + n / 2 % 2 * 2)

foreground_table :
    (i : ℕ)
    → i < 2048
    → (interpret_color (i / 8) (30 + i % 8) == i / 8 / 8 * 8 + mirrored (i % 8)) ≡ true
unfolding all_below interpret_color
foreground_table i h =
    all_below_sound 2048
      (λ i. interpret_color (i / 8) (30 + i % 8) == i / 8 / 8 * 8 + mirrored (i % 8)) i refl h

background_table :
    (i : ℕ) → i < 2048 → (interpret_color (i / 8) (40 + i % 8) == spilled (i / 8) (i % 8)) ≡ true
unfolding all_below interpret_color
background_table i h =
    all_below_sound 2048 (λ i. interpret_color (i / 8) (40 + i % 8) == spilled (i / 8) (i % 8)) i
      refl h

-- On an attribute of eight bits and for n below 8: the number 30 + n sets the foreground to n with its
-- bits in the opposite order, and leaves the other bits; 40 + n leaves the two bits for brightness,
-- makes the background red where n is odd and black else, and adds the other bits of n
-- to the foreground.
pub interpret_color_lem :
    (flag n : ℕ)
    → flag < 256
    → n < 8
    → (interpret_color flag (30 + n) ≡ flag / 8 * 8 + mirrored n)
      × (interpret_color flag (40 + n) ≡ spilled flag n)
interpret_color_lem flag n small few =
    let high : (flag * 8 + n) / 8 ≡ flag = omega arith in
    let low : (flag * 8 + n) % 8 ≡ n = omega arith in
    let fore = foreground_table (flag * 8 + n) (omega arith) in
    let back = background_table (flag * 8 + n) (omega arith) in
    ((==_iff _ _).0 (rw (high, low) at fore), (==_iff _ _).0 (rw (high, low) at back))

-- The numbers of a sequence as they are written: digits, with semicolons between and an `m` at the end.
abbrev pub written : Bytes → List Bytes → Bytes
written ds [] = ds ++ (b'm' ∷ [])
written ds (es ∷ more) = ds ++ (b';' ∷ written es more)

-- What the loop over the digits computes.
unfoldable pub number_from : ℕ → Bytes → ℕ
number_from esc [] = esc
number_from esc (d ∷ ds) = number_from (sub32 (add32 (esc * 10) d) b'0') ds

-- The colours after the numbers, one after the other.
unfoldable pub colored : ℕ → Bytes → List Bytes → ℕ
colored flag ds [] = interpret_color flag (number_from 0 ds)
colored flag ds (es ∷ more) = colored (interpret_color flag (number_from 0 ds)) es more

abbrev pub IsDigit : ℕ → Type 0
IsDigit c = (b'0' ≤ c) × (c ≤ b'9')

module _ {ℓ} {S : Type ℓ} (putch : Putch S) where
  emit_all-color : (cs : Bytes) (t : Terminal S) → (emit_all putch cs t).color_flag ≡ t.color_flag
  unfolding emit_all emit
  emit_all-color [] t = refl
  emit_all-color (c ∷ cs) t = emit_all-color cs (emit putch c t)

  read_number_lem :
      (ds : Bytes) (fuel : ℕ) (mem : Memory) (fmt esc s : ℕ) (rest : Bytes) (t : Terminal S)
      → CString mem fmt (ds ++ (s ∷ rest))
      → All IsDigit ds
      → (s ≡ b';') ⊎ (s ≡ b'm')
      → length ds < fuel
      → read_number putch mem fuel fmt esc t
        ≡ some (number_from esc ds, fmt + length ds, emit_all putch ds t)
  unfolding read_number number_from emit_all
  read_number_lem ds zero mem fmt esc s rest t h digits end lt = absurd (omega arith)
  read_number_lem [] (suc fuel) mem fmt esc s rest t h digits end lt =
      let stop : ((mem fmt == b';') || (mem fmt == b'm')) ≡ true = ground arith in
      let here : fmt + 0 ≡ fmt = omega arith in rw (read_number, stop, here) refl
  read_number_lem (d ∷ ds) (suc fuel) mem fmt esc s rest t (hd, nz, h) (digit, digits) end lt =
      let go : ((mem fmt == b';') || (mem fmt == b'm')) ≡ false = ground arith in
      let on : fmt + suc (length ds) ≡ fmt + 1 + length ds = omega arith in
      rw (read_number, go, on)
        (ap
            (λ x.
              read_number putch mem fuel (fmt + 1) (sub32 (add32 (esc * 10) x) b'0')
                (emit putch x t))
            hd
          ∙ read_number_lem ds fuel mem (fmt + 1) _ s rest (emit putch d t) h digits end
              (omega arith))

  read_colors_lem :
      (more : List Bytes) (ds : Bytes) (fuel : ℕ) (mem : Memory) (fmt c : ℕ) (rest : Bytes)
      (t : Terminal S)
      → CString mem fmt (c ∷ (written ds more ++ rest))
      → All IsDigit ds
      → All (λ es. All IsDigit es) more
      → length (written ds more) < fuel
      → (t' : Terminal S) × (read_colors putch mem fuel fmt t
          ≡ some (fmt + 1 + length (written ds more), t'))
        × (t'.color_flag ≡ colored t.color_flag ds more)
  unfolding read_colors colored emit
  read_colors_lem more ds zero mem fmt c rest t h digits all lt = absurd (omega arith)
  read_colors_lem [] ds (suc fuel) mem fmt c rest t (hc, nc, h) digits all lt =
      let h' : CString mem (fmt + 1) (ds ++ (b'm' ∷ rest)) =
        (rw (append_assoc ds (b'm' ∷ []) rest) at h) in
      let size = length-append ds (b'm' ∷ []) in
      let run =
        read_number_lem ds fuel mem (fmt + 1) 0 b'm' rest t h' digits (inr refl)
          (omega (arith, size)) in
      let (_, (at, _, _)) = CString-split mem (fmt + 1) ds (b'm' ∷ rest) h' in
      let last : (mem (fmt + 1 + length ds) == b'm') ≡ true = ground arith in
      let place : fmt + 1 + length (ds ++ (b'm' ∷ [])) ≡ fmt + 1 + length ds + 1 =
        omega (arith, size) in
      let t₁ = emit_all putch ds t in
      let flag = interpret_color t₁.color_flag (number_from 0 ds) in
      (
        emit putch (mem (fmt + 1 + length ds)) (record t₁ { color_flag = flag }),
        rw (read_colors, run, ◌>>=◌, last, place) refl,
        ap (λ f. interpret_color f (number_from 0 ds)) (emit_all-color ds t),
      )
  read_colors_lem (es ∷ more) ds (suc fuel) mem fmt c rest t (hc, nc, h) digits (some_digits, all)
        lt =
      let tail = written es more in
      let h' : CString mem (fmt + 1) (ds ++ (b';' ∷ (tail ++ rest))) =
        (rw (append_assoc ds (b';' ∷ tail) rest) at h) in
      let size = length-append ds (b';' ∷ tail) in
      let run =
        read_number_lem ds fuel mem (fmt + 1) 0 b';' (tail ++ rest) t h' digits (inl refl)
          (omega (arith, size)) in
      let (_, behind) = CString-split mem (fmt + 1) ds (b';' ∷ (tail ++ rest)) h' in
      let last : (mem (fmt + 1 + length ds) == b'm') ≡ false = ground (arith, behind.0) in
      let t₁ = emit_all putch ds t in
      let flag = interpret_color t₁.color_flag (number_from 0 ds) in
      let t₂ = emit putch (mem (fmt + 1 + length ds)) (record t₁ { color_flag = flag }) in
      let (t', run', colors) =
        read_colors_lem more es fuel mem (fmt + 1 + length ds) b';' rest t₂ behind some_digits all
          (omega (arith, size)) in
      let place : fmt + 1 + length (ds ++ (b';' ∷ tail)) ≡ fmt + 1 + length ds + 1 + length tail =
        omega (arith, size) in
      (
        t',
        rw (read_colors, run, ◌>>=◌, last, place) run',
        colors
            ∙ ap (λ f. colored (interpret_color f (number_from 0 ds)) es more)
                (emit_all-color ds t),
      )

  -- A colour sequence of numbers of digits with semicolons between them and an `m` at the end,
  -- which stands behind the character that follows the escape character: with fuel above its
  -- length, it is read to its end and no further, the colour is what its numbers make of it one
  -- after the other, and color_parsing is 0 again.
  pub escape_sequence_lem :
      (ds : Bytes) (more : List Bytes) (fuel : ℕ) (mem : Memory) (fmt c : ℕ) (rest : Bytes)
      (t : Terminal S)
      → CString mem fmt (c ∷ (written ds more ++ rest))
      → All IsDigit ds
      → All (λ es. All IsDigit es) more
      → length (written ds more) < fuel
      → (t' : Terminal S) × (escape_sequence putch mem fuel fmt t
          ≡ some (fmt + 1 + length (written ds more), t'))
        × (t'.color_flag ≡ colored t.color_flag ds more)
        × (t'.color_parsing ≡ 0)
  unfolding escape_sequence emit
  escape_sequence_lem ds more fuel mem fmt c rest t h digits all lt =
      let (t', run, colors) =
        read_colors_lem more ds fuel mem fmt c rest
          (emit putch b'[' (emit putch 27 (record t { color_parsing = 1 }))) h digits all lt in
      (record t' { color_parsing = 0 }, rw (run, ◌>>=◌) refl, colors, refl)
