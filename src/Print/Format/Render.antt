-- ===== src/Print/Format/Render.antt =====
-- Formats as lists of items: a reference for vprintfmt.
pub mod Width
pub mod Items
pub mod Step
use jos.Base.{
  ℕ, zero, suc, ◌+◌, ◌-◌, ◌^◌, ◌<◌, ◌≤◌, ◌≡◌, ◌≢◌, refl, sym, ap, ◌∙◌, Bool, true, false, ◌==◌,
  Option, some, ◌>>=◌, List, [], ◌∷◌, ◌++◌, Bytes, All, length, length-append, append_assoc, arith,
}
use jos.Base.Memory.{Memory, CString, CString-split}
use jos.Print.Terminal.{Terminal, Putch, emit}
use jos.Print.Args.{Slots}
use jos.Print.Format.Plain.{emit_all}
use jos.Print.Format.{directive, vprintfmt}
use jos.Print.Format.Render.Items.{
  Item, letter, verbatim, percent, character, string, number, source, sources, arguments, Passed,
  AllPassed, Prints, Renders,
}
use jos.Print.Format.Render.Width.{shape_text}
use jos.Print.Format.Render.Step.{
  Converts, directive_percent, directive_character, directive_string, directive_number,
}

-- The rounds that an item takes.
abbrev cost : Item → ℕ
cost (verbatim cs) = length cs
cost percent = 1
cost (character n) = 1
cost (string p s) = 1
cost (number zeros w r n) = 1

shape_text-le : (zeros : Bool) (w : Bytes) → length w ≤ length (shape_text zeros w)
shape_text-le true w = omega arith
shape_text-le false w = omega arith

module _ {ℓ} {S : Type ℓ} (putch : Putch S) (mem : Memory) (slots : Slots) where
  vprintfmt_verbatim :
      (cs : Bytes) (fuel next fmt : ℕ) (rest : Bytes) (t : Terminal S)
      → CString mem fmt (cs ++ rest)
      → All (λ c. (c ≢ b'%') × (c ≢ 27)) cs
      → vprintfmt putch (length cs + fuel) mem slots next fmt t
        ≡ vprintfmt putch fuel mem slots next (fmt + length cs) (emit_all putch cs t)
  unfolding vprintfmt emit_all
  vprintfmt_verbatim [] fuel next fmt rest t h plain =
      let none_left : 0 + fuel ≡ fuel = omega arith in
      let here : fmt + 0 ≡ fmt = omega arith in rw (none_left, here) refl
  vprintfmt_verbatim (c ∷ cs) fuel next fmt rest t (hc, nz, h) ((np, ne), plain) =
      let more : suc (length cs) + fuel ≡ suc (length cs + fuel) = omega arith in
      let place : fmt + suc (length cs) ≡ fmt + 1 + length cs = omega arith in
      let a : (mem fmt == b'%') ≡ false = ground arith in
      let b : (mem fmt == 27) ≡ false = ground arith in
      let d : (mem fmt == 0) ≡ false = ground arith in
      rw (more, place)
        (rw (vprintfmt, a)
          (rw b (
            rw d (
              ap (λ x. vprintfmt putch (length cs + fuel) mem slots next (fmt + 1) (emit putch x t))
                hc
              ∙ vprintfmt_verbatim cs fuel next (fmt + 1) rest (emit putch c t) h plain))))

  -- A round that reads a sequence.
  vprintfmt_sequence :
      (i : Item) (fuel next fmt : ℕ) (t : Terminal S)
      → mem fmt ≡ b'%'
      → Converts putch fuel
          (λ mem' slots' t'. vprintfmt putch fuel mem' slots' 0 0 t')
          mem
          slots
          i
          next
          fmt
          t
      → (t' : Terminal S) × (vprintfmt putch (1 + fuel) mem slots next fmt t
          ≡ vprintfmt putch fuel mem slots (next + arguments i) (fmt + length (source i)) t')
        × Prints putch i t t'
  unfolding vprintfmt Converts
  vprintfmt_sequence i fuel next fmt t at (t', run, prints) =
      let one : 1 + fuel ≡ suc fuel = omega arith in
      let here : (mem fmt == b'%') ≡ true = ground arith in
      (
        t',
        rw one (
            rw (vprintfmt, here)
              (ap (λ o. o >>= λ r. vprintfmt putch fuel mem slots r.0 r.1 r.2) run)),
        prints,
      )

  item_lem :
      (i : Item) (bound fuel next fmt : ℕ) (rest : Bytes) (t : Terminal S)
      → CString mem fmt (source i ++ rest)
      → Passed mem slots bound next i
      → length (source i) + bound + 2 < cost i + fuel
      → bound < 2 ^ 31
      → (t' : Terminal S) × (vprintfmt putch (cost i + fuel) mem slots next fmt t
          ≡ vprintfmt putch fuel mem slots (next + arguments i) (fmt + length (source i)) t')
        × Prints putch i t t'
  item_lem (verbatim cs) bound fuel next fmt rest t h plain lt small =
      let same : next + 0 ≡ next = omega arith in
      (emit_all putch cs t, rw same (vprintfmt_verbatim cs fuel next fmt rest t h plain), refl)
  item_lem percent bound fuel next fmt rest t h passed lt small =
      vprintfmt_sequence percent fuel next fmt t h.0
        (directive_percent putch fuel _ mem slots next fmt rest t h (omega arith))
  item_lem (character n) bound fuel next fmt rest t h passed lt small =
      vprintfmt_sequence (character n) fuel next fmt t h.0
        (directive_character putch fuel _ mem slots n next fmt rest t h passed (omega arith))
  item_lem (string p s) bound fuel next fmt rest t h passed lt small =
      vprintfmt_sequence (string p s) fuel next fmt t h.0 (
        directive_string putch fuel _ mem slots p s bound next fmt rest t h passed (omega arith)
          small)
  item_lem (number zeros w r n) bound fuel next fmt rest t h passed lt small =
      vprintfmt_sequence (number zeros w r n) fuel next fmt t h.0 (
        directive_number putch fuel _ mem slots zeros w r n bound next fmt rest t h passed (
          omega (arith, length-append (shape_text zeros w) (letter r ∷ []), shape_text-le zeros w)))

  cost-le : (i : Item) → cost i ≤ length (source i)
  cost-le (verbatim cs) = omega arith
  cost-le percent = omega arith
  cost-le (character n) = omega arith
  cost-le (string p s) = omega arith
  cost-le (number zeros w r n) = omega arith

  -- A format that is written as items: text without '%' and escape characters, percent signs,
  -- characters, strings of ASCII characters, and numbers in four conversions with or without zero
  -- padding and with or without a width. With the arguments of the items in the slots, in order,
  -- strings shorter than 2^31, and fuel above the length of the format and of the longest string
  -- together and 3, vprintfmt returns, and has printed the items one after the other: text and
  -- strings as they stand, and for a number its digits in its base without leading zeros, with padding up to the width
  -- before them and, for a negative one, a minus sign before the padding.
  pub vprintfmt-Renders :
      (items : List Item) (bound fuel next fmt : ℕ) (t : Terminal S)
      → CString mem fmt (sources items)
      → AllPassed mem slots bound next items
      → length (sources items) + bound + 3 < fuel
      → bound < 2 ^ 31
      → (t' : Terminal S) × (vprintfmt putch fuel mem slots next fmt t ≡ some t')
        × Renders putch items t t'
  unfolding vprintfmt
  vprintfmt-Renders items bound zero next fmt t h passed lt small = absurd (omega arith)
  vprintfmt-Renders [] bound (suc fuel) next fmt t h passed lt small =
      let a : (mem fmt == b'%') ≡ false = ground arith in
      let b : (mem fmt == 27) ≡ false = ground arith in
      let d : (mem fmt == 0) ≡ true = ground arith in
      (t, rw (vprintfmt, a) (rw b (rw d refl)), refl)
  vprintfmt-Renders (i ∷ items) bound (suc fuel) next fmt t h (here, passed) lt small =
      let size = length-append (source i) (sources items) in
      let left = suc fuel - cost i in
      let split : suc fuel ≡ cost i + left = omega (arith, cost-le i) in
      let (t₁, run, prints) =
        item_lem i bound left next fmt (sources items) t h here (omega (arith, cost-le i)) small in
      let (t', rest, renders) =
        vprintfmt-Renders items bound left (next + arguments i) (fmt + length (source i)) t₁
          ((CString-split mem fmt (source i) (sources items) h).1) passed (omega (arith, cost-le i))
          small in
      (
        t',
        ap (λ f. vprintfmt putch f mem slots next fmt t) split ∙ (run ∙ rest),
        (t₁, prints, renders),
      )
