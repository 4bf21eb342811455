-- ===== src/Monitor/Live/Typed.antt =====
-- The line that readline hands over, as a string in memory.
use jos.Base.{
  ℕ, zero, suc, ◌+◌, ◌-◌, ◌<◌, ◌≤◌, ◌≡◌, ◌≢◌, refl, sym, ap, ◌∙◌, false, ltb, List, [], ◌∷◌, ◌++◌,
  Bytes, length, All, take, get_or, arith,
}
use jos.Base.Memory.{Memory, CString}
use jos.Readline.Laws.{IsLine, edited, drop_last}
use jos.Readline.Live.{typed_line}
use jos.Strings.Compare.Laws.{IsByte}
use jos.Monitor.{line_memory, buf_address}

-- What the editor makes of bytes are bytes.
drop_last-IsByte : (cs : Bytes) → All IsByte cs → All IsByte (drop_last cs)
unfolding drop_last
drop_last-IsByte [] h = tt
drop_last-IsByte (c ∷ []) h = tt
drop_last-IsByte (c ∷ d ∷ cs) (hc, h) = (hc, drop_last-IsByte (d ∷ cs) h)

snoc-IsByte : (cs : Bytes) (c : ℕ) → All IsByte cs → IsByte c → All IsByte (cs ++ (c ∷ []))
snoc-IsByte [] c h hc = (hc, tt)
snoc-IsByte (d ∷ cs) c (hd, h) hc = (hd, snoc-IsByte cs c h hc)

edited-IsByte : (c : ℕ) (cs : Bytes) → All IsByte cs → IsByte c → All IsByte (edited c cs)
unfolding edited
edited-IsByte c cs h hc = ground (arith, drop_last-IsByte cs h, snoc-IsByte cs c h hc)

pub typed_line-IsByte :
    (typed cs : Bytes) → All IsByte cs → All IsByte typed → All IsByte (typed_line cs typed)
unfolding typed_line
typed_line-IsByte [] cs h small = h
typed_line-IsByte (c ∷ typed) cs h (hc, small) =
    typed_line-IsByte typed (edited c cs) (edited-IsByte c cs h hc) small

-- The line in the buffer is a string in memory.
take_stands :
    (i : ℕ) (buf : List ℕ) (m : Memory) (p : ℕ)
    → ((j : ℕ) → m (p + j) ≡ get_or buf j 0)
    → i ≤ length buf
    → ((j : ℕ) → j < i → get_or buf j 0 ≢ 0)
    → get_or buf i 0 ≡ 0
    → CString m p (take i buf)
take_stands zero buf m p same le shown end =
    let e : p + 0 ≡ p = omega arith in ap m (sym e) ∙ (same 0 ∙ end)
take_stands (suc i) [] m p same le shown end = absurd (omega arith)
take_stands (suc i) (b ∷ buf) m p same le shown end =
    let e : p + 0 ≡ p = omega arith in
    (
      ap m (sym e) ∙ same 0,
      shown 0 (omega arith),
      take_stands i buf m (p + 1)
          (λ j. let f : p + 1 + j ≡ p + suc j = omega arith in ap m f ∙ same (suc j)) (omega arith)
          (λ j lt. shown (suc j) (omega arith)) end,
    )

pub line_stands :
    (i : ℕ) (buf : List ℕ)
    → IsLine i buf
    → get_or buf i 0 ≡ 0
    → CString (line_memory buf) buf_address (take i buf)
line_stands i buf is end =
    take_stands i buf (line_memory buf) buf_address
      (λ j.
        let e : 100 + j - 100 ≡ j = omega arith in
        let f : ltb (100 + j) 100 ≡ false = ground arith in rw (f, e) refl)
      (omega (arith, is.size, is.room)) (λ j lt. λ z. omega (arith, is.shown j lt, z)) end
