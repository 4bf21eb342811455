-- ===== src/Print/Format/Total/Behind.antt =====
-- What vprintfmt has read behind a '%': how the flags of a safe format lie, and where back_up leads.
use jos.Base.{
  ℕ, suc, ◌+◌, ◌-◌, ◌≤◌, ◌<◌, ◌≡◌, ◌≢◌, refl, sym, ap, ◌∙◌, true, false, ◌==◌, [], ◌∷◌, Bytes,
  length, arith, Bool-cases, inl, inr,
}
use jos.Base.Memory.{Memory, CString}
use jos.Print.Format.{back_up}
use jos.Print.Format.Safe.{plain, sequence, is_flag, is_conversion, advance, safe}
use jos.Print.Format.Total.Scan.{Left}

flag_safe :
    (c : ℕ) (cs : Bytes)
    → is_flag c ≡ true
    → (safe sequence (c ∷ cs) ≡ safe sequence cs) × (safe plain (c ∷ cs) ≡ safe plain cs)
unfolding safe advance
flag_safe c cs e =
    let a : (c == b'%') ≡ false = ground arith in
    let b : (c == 27) ≡ false = ground arith in
    (rw (safe, advance, e) refl, rw (safe, advance, a, b) refl)

pub conversion_safe :
    (c : ℕ) (cs : Bytes)
    → is_conversion c ≡ true
    → is_flag c ≡ false
    → safe plain cs ≡ safe sequence (c ∷ cs)
unfolding safe advance
conversion_safe c cs e f =
    let a : (c == b'e') ≡ false = ground arith in rw (safe, advance, f, a, e) refl

pub other_safe :
    (c : ℕ) (cs : Bytes)
    → is_conversion c ≡ false
    → is_flag c ≡ false
    → safe sequence (c ∷ cs) ≡ true
    → (safe plain (c ∷ cs) ≡ true) × (c ≢ b'e')
unfolding safe advance
other_safe c cs e f ok =
    let a : (c == b'e') ≡ false = (elim (Bool-cases (c == b'e')) [
      | inl q ↦
          let bad : safe sequence (c ∷ cs) ≡ false = (rw (safe, advance, f, q) refl) in ground arith
      | inr q ↦ q
    ]) in
    ((rw (safe, advance, f, a, e) at ok), ground arith)

back_up_step :
    (mem : Memory) (fmt : ℕ) → (mem fmt == b'%') ≡ false → back_up mem (fmt + 1) ≡ back_up mem fmt
unfolding back_up
back_up_step mem fmt e =
    let shape : fmt + 1 ≡ suc fmt = omega arith in
    let stepped : back_up mem (suc fmt) ≡ back_up mem fmt = rw (back_up, e) refl in
    ap (back_up mem) shape ∙ stepped

module _ (mem : Memory) (n start : ℕ) where
  -- The bytes behind the '%', which stands before `start`, up to `fmt` are flags; if what is left is
  -- safe as plain text, then so is all from `start` on.
  unfoldable pub Behind : ℕ → ℕ → Type 0
  unfolding Left
  Behind m fmt =
      (cs : Bytes) × CString mem fmt cs
      × (safe sequence cs ≡ true)
      × (length cs ≤ m)
      × (safe plain cs ≡ true → Left mem plain n start)
      × (back_up mem fmt ≡ start)

  pub Behind-weaken : (m k fmt : ℕ) → m ≤ k → Behind m fmt → Behind k fmt
  unfolding Behind
  Behind-weaken m k fmt le (cs, h, ok, small, resume, back) = (cs, h, ok, omega arith, resume, back)

  pub Behind-flag :
      (m fmt : ℕ) → Behind m fmt → is_flag (mem fmt) ≡ true → (0 < m) × Behind (m - 1) (fmt + 1)
  unfolding Behind
  Behind-flag m fmt ([], h, ok, le, resume, back) e = ground arith
  Behind-flag m fmt ((c ∷ cs), (hc, nc, h), ok, le, resume, back) e =
      let same = flag_safe c cs (ap is_flag (sym hc) ∙ e) in
      let other : (mem fmt == b'%') ≡ false = ground arith in
      (
        omega arith,
        (
          cs,
          h,
          sym same.0 ∙ ok,
          omega arith,
          (λ p. resume (same.1 ∙ p)),
          back_up_step mem fmt other ∙ back,
        ),
      )

back_up_start : (mem : Memory) (fmt : ℕ) → mem fmt ≡ b'%' → back_up mem (fmt + 1) ≡ fmt + 1
unfolding back_up
back_up_start mem fmt at =
    let shape : fmt + 1 ≡ suc fmt = omega arith in
    let here : (mem fmt == b'%') ≡ true = ground arith in
    let stepped : back_up mem (suc fmt) ≡ suc fmt = rw (back_up, here) refl in
    ap (back_up mem) shape ∙ (stepped ∙ sym shape)

-- At the byte behind the '%'.
pub Behind-start :
    (mem : Memory) (n fmt : ℕ)
    → mem fmt ≡ b'%'
    → Left mem sequence n (fmt + 1)
    → Behind mem n (fmt + 1) n (fmt + 1)
unfolding Behind Left back_up
Behind-start mem n fmt at (cs, h, ok, le) =
    (cs, h, ok, le, (λ p. (cs, h, p, le)), back_up_start mem fmt at)
