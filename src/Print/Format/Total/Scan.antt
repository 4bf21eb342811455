-- ===== src/Print/Format/Total/Scan.antt =====
-- What is left of a safe format, and the loops that read colour sequences, flags and widths.
use jos.Base.{
  ℕ, zero, suc, ◌+◌, ◌-◌, ◌≤◌, ◌<◌, ◌≡◌, ◌≢◌, refl, sym, ap, ◌∙◌, true, false, ◌||◌, some, ◌==◌, [],
  ◌∷◌, Bytes, length, arith, Yields, Yields-bind, Yields-case,
}
use jos.Base.Memory.{Memory, CString}
use jos.Print.Terminal.{Terminal, Putch}
use jos.Print.Color.{read_number, read_colors, escape_sequence}
use jos.Print.Format.Safe.{Mode, plain, escape, number, advance, safe, may_end}

safe_rest :
    (mode mode' : Mode) (c : ℕ) (cs : Bytes)
    → advance mode c ≡ some mode'
    → safe mode (c ∷ cs) ≡ true
    → safe mode' cs ≡ true
unfolding safe
safe_rest mode mode' c cs e ok = rw (safe, e) at ok

module _ (mem : Memory) where
  -- At most `n` bytes are left at `fmt`, and they are safe in this mode.
  unfoldable pub Left : Mode → ℕ → ℕ → Type 0
  Left mode n fmt = (cs : Bytes) × CString mem fmt cs × (safe mode cs ≡ true) × (length cs ≤ n)

  pub Left-advance :
      (mode mode' : Mode) (n fmt : ℕ)
      → Left mode n fmt
      → mem fmt ≢ 0
      → advance mode (mem fmt) ≡ some mode'
      → (0 < n) × Left mode' (n - 1) (fmt + 1)
  unfolding Left safe
  Left-advance mode mode' n fmt ([], h, ok, le) nz e = absurd (nz h)
  Left-advance mode mode' n fmt ((c ∷ cs), (hc, nc, h), ok, le) nz e = (
    omega arith,
    (cs, h, safe_rest mode mode' c cs (ap (advance mode) (sym hc) ∙ e) ok, omega arith),
  )

  -- A colour sequence goes on.
  pub Left-number : (n fmt : ℕ) → Left number n fmt → mem fmt ≢ 0
  unfolding Left safe may_end
  Left-number n fmt ([], h, ok, le) = ground arith
  Left-number n fmt ((c ∷ cs), (hc, nc, h), ok, le) = ground arith

  pub Left-escape : (n fmt : ℕ) → Left escape n fmt → mem fmt ≢ 0
  unfolding Left safe may_end
  Left-escape n fmt ([], h, ok, le) = ground arith
  Left-escape n fmt ((c ∷ cs), (hc, nc, h), ok, le) = ground arith

  pub Left-weaken : (mode : Mode) (n m fmt : ℕ) → n ≤ m → Left mode n fmt → Left mode m fmt
  unfolding Left
  Left-weaken mode n m fmt le (cs, h, ok, small) = (cs, h, ok, omega arith)

  -- A semicolon before the next number is skipped as the character behind an escape is.
  Left-again : (n fmt : ℕ) → Left number n fmt → (mem fmt == b'm') ≡ false → Left escape n fmt
  unfolding Left safe may_end advance
  Left-again n fmt ([], h, ok, le) e = ground arith
  Left-again n fmt ((c ∷ cs), (hc, nc, h), ok, le) e =
      let other : (c == b'm') ≡ false = ground arith in
      ((c ∷ cs), (hc, nc, h), (rw (safe, advance, other) at ok), le)

  module _ {ℓ} {S : Type ℓ} (putch : Putch S) where
    -- Where the digits end.
    Stopped : ℕ → ℕ × ℕ × Terminal S → Type 0
    Stopped n r = Left number n r.1 × (((mem r.1 == b';') || (mem r.1 == b'm')) ≡ true)

    read_number-Yields :
        (fuel n m fmt esc : ℕ) (t : Terminal S)
        → Left number n fmt
        → n < fuel
        → n ≤ m
        → Yields (Stopped m) (read_number putch mem fuel fmt esc t)
    unfolding read_number Stopped advance
    read_number-Yields zero n m fmt esc t left lt le = absurd (omega arith)
    read_number-Yields (suc fuel) n m fmt esc t left lt le =
        Yields-case (Stopped m) ((mem fmt == b';') || (mem fmt == b'm')) _ _
          (λ e. (Left-weaken number n m fmt le left, e))
          (λ e.
            let other : (mem fmt == b'm') ≡ false = ground arith in
            let on =
              Left-advance number number n fmt left (Left-number n fmt left) (rw other refl) in
            read_number-Yields fuel (n - 1) m (fmt + 1) _ _ on.1 (omega (arith, on.0))
              (omega arith))

    -- Where a colour sequence ends.
    abbrev pub Ended : ℕ → ℕ × Terminal S → Type 0
    Ended n r = Left plain n r.0

    read_colors-Yields :
        (fuel n m fmt : ℕ) (t : Terminal S)
        → Left escape n fmt
        → n < fuel
        → n ≤ m
        → Yields (Ended m) (read_colors putch mem fuel fmt t)
    unfolding read_colors Stopped advance
    read_colors-Yields zero n m fmt t left lt le = absurd (omega arith)
    read_colors-Yields (suc fuel) n m fmt t left lt le =
        let on = Left-advance escape number n fmt left (Left-escape n fmt left) refl in
        Yields-bind (Stopped (n - 1)) (Ended m) _ _
          (read_number-Yields fuel (n - 1) (n - 1) (fmt + 1) 0 t on.1 (omega (arith, on.0))
            (omega arith))
          λ r (here, stop).
            Yields-case (Ended m) (mem r.1 == b'm') _ _
              (λ e.
                let behind =
                  Left-advance number plain (n - 1) r.1 here (Left-number (n - 1) r.1 here)
                    (rw e refl) in
                Left-weaken plain _ m _ (omega (arith, le)) behind.1)
              (λ e.
                read_colors-Yields fuel (n - 1) m r.1 _ (Left-again (n - 1) r.1 here e)
                  (omega (arith, on.0)) (omega arith))

    pub escape_sequence-Yields :
        (fuel n fmt : ℕ) (t : Terminal S)
        → Left escape n fmt
        → n < fuel
        → Yields (Ended n) (escape_sequence putch mem fuel fmt t)
    unfolding escape_sequence
    escape_sequence-Yields fuel n fmt t left lt =
        Yields-bind (Ended n) (Ended n) _ _
          (read_colors-Yields fuel n n fmt _ left lt (omega arith)) (λ r h. h)
