-- ===== src/Print/Format/Total/Steps.antt =====
-- The flags, the width and the precision of a %-sequence in a safe format.
use jos.Base.{
  ℕ, zero, suc, ◌+◌, ◌-◌, ◌≤◌, ◌<◌, ◌≡◌, ◌≢◌, refl, sym, ap, ◌∙◌, Bool, true, false, ◌&&◌, ◌||◌,
  Option, none, some, ltb, leb, ◌==◌, if◌then◌else◌, [], ◌∷◌, arith, Yields, Yields-bind, Yields-if,
  Yields-case,
}
use jos.Base.Memory.{Memory}
use jos.Print.Args.{Slots}
use jos.Print.Format.{back_up}
use jos.Print.Format.Flags.{Spec, Parsed, initial, read_width, flag, reswitch, parse_flags}
use jos.Print.Format.Safe.{plain, is_flag, is_conversion, safe, may_end}
use jos.Print.Format.Total.Scan.{Left}
use jos.Print.Format.Total.Behind.{conversion_safe, other_safe, Behind, Behind-weaken, Behind-flag}

module _ (mem : Memory) (n start : ℕ) where
  read_width-Yields :
      (fuel m k ch fmt value : ℕ)
      → Behind mem n start m fmt
      → m < fuel
      → m ≤ k
      → Yields (λ (r : ℕ × ℕ). Behind mem n start k r.1) (read_width fuel mem ch fmt value)
  unfolding read_width
  read_width-Yields zero m k ch fmt value h lt le = absurd (omega arith)
  read_width-Yields (suc fuel) m k ch fmt value h lt le =
      Yields-case (λ (r : ℕ × ℕ). Behind mem n start k r.1)
        (ltb (mem fmt) b'0' || ltb b'9' (mem fmt)) _ _ (λ _. Behind-weaken mem n start m k fmt le h)
        (λ e.
          let (pos, on) = Behind-flag mem n start m fmt h (ground arith) in
          read_width-Yields fuel (m - 1) k (mem fmt) (fmt + 1) _ on (omega arith) (omega arith))

  -- What a flag character leads to; at another character the flags have ended.
  Flagged : ℕ → ℕ → Option (ℕ × ℕ × Spec) → Type 0
  Flagged m fmt none = is_flag (mem fmt) ≡ false
  Flagged m fmt (some r) = (0 < m) × Behind mem n start (m - 1) r.1

  flag-Yields :
      (fuel m fmt next : ℕ) (slots : Slots) (spec : Spec)
      → Behind mem n start m fmt
      → m ≤ fuel
      → Yields (Flagged m fmt) (flag fuel mem slots (mem fmt) next (fmt + 1) spec)
  unfolding flag Flagged
  flag-Yields fuel m fmt next slots spec h lt =
      one (mem fmt == b'-') _ _ (λ e. ground arith)
        (λ e₁.
          one (mem fmt == b'0') _ _ (λ e. ground arith)
            (λ e₂.
              Yields-if (Flagged m fmt) (leb b'1' (mem fmt) && leb (mem fmt) b'9') _ _
                (λ e.
                  let (pos, on) = Behind-flag mem n start m fmt h (ground arith) in
                  Yields-bind (λ (r : ℕ × ℕ). Behind mem n start (m - 1) r.1) (Flagged m fmt) _ _
                    (read_width-Yields fuel (m - 1) (m - 1) (mem fmt) (fmt + 1) 0 on (omega arith)
                      (omega arith))
                    (λ r k. (pos, k)))
                (λ e₃.
                  one (mem fmt == b'*') _ _ (λ e. ground arith)
                    (λ e₄.
                      one (mem fmt == b'.') _ _ (λ e. ground arith)
                        (λ e₅.
                          one (mem fmt == b'#') _ _ (λ e. ground arith)
                            (λ e₆.
                              one (mem fmt == b'l') _ (some none) (λ e. ground arith)
                                (λ e₇. ground arith)))))))
    where
      one :
          (b : Bool) (r : ℕ × ℕ × Spec) (rest : Option (Option (ℕ × ℕ × Spec)))
          → (b ≡ true → (is_flag (mem fmt) ≡ true) × (r.1 ≡ fmt + 1))
          → (b ≡ false → Yields (Flagged m fmt) rest)
          → Yields (Flagged m fmt) (if b then some (some r) else rest)
      one true r rest here after =
          let on = Behind-flag mem n start m fmt h (here refl).0 in (on.0, (rw (here refl).1 on.1))
      one false r rest here after = after refl

  -- The conversion character behind the flags.
  unfoldable pub Reached : ℕ → Parsed → Type 0
  unfolding Behind
  Reached m p =
      (fmt : ℕ) × (p.fmt ≡ fmt + 1)
      × (p.ch ≡ mem fmt)
      × (is_flag (mem fmt) ≡ false)
      × Behind mem n start m fmt

  reswitch-Yields :
      (fuel m k fmt next : ℕ) (slots : Slots) (spec : Spec)
      → Behind mem n start m fmt
      → m < fuel
      → m ≤ k
      → Yields (Reached k) (reswitch fuel mem slots next fmt spec)
  unfolding reswitch Reached Flagged
  reswitch-Yields zero m k fmt next slots spec h lt le = absurd (omega arith)
  reswitch-Yields (suc fuel) m k fmt next slots spec h lt le =
      Yields-bind (Flagged m fmt) (Reached k) _ _
        (flag-Yields fuel m fmt next slots spec h (omega arith))
        (go (λ r pos on.
          reswitch-Yields fuel (m - 1) k r.1 r.0 slots r.2 on (omega arith) (omega arith)))
    where
      go :
          ((r : ℕ × ℕ × Spec)
            → 0 < m
            → Behind mem n start (m - 1) r.1
            → Yields (Reached k) (reswitch fuel mem slots r.0 r.1 r.2))
          → (more : Option (ℕ × ℕ × Spec)) → Flagged m fmt more
          → Yields (Reached k) (elim more [
            | none ↦ some (record { ch = mem fmt; next = next; fmt = fmt + 1; spec = spec })
            | some (next', fmt', spec') ↦ reswitch fuel mem slots next' fmt' spec'
          ])
      go further none e = (fmt, refl, refl, e, Behind-weaken mem n start m k fmt le h)
      go further (some r) (pos, on) = further r pos on

  -- From the '%' on.
  pub parse_flags-Yields :
      (fuel m fmt next : ℕ) (slots : Slots)
      → Behind mem n start m fmt
      → m < fuel
      → Yields (Reached m) (parse_flags fuel mem slots next fmt)
  unfolding parse_flags
  parse_flags-Yields fuel m fmt next slots h lt =
      reswitch-Yields fuel m m fmt next slots initial h lt (omega arith)

  -- A conversion leads back to plain text.
  pub Reached-conversion :
      (m : ℕ) (p : Parsed) → Reached m p → is_conversion p.ch ≡ true → Left mem plain (m - 1) p.fmt
  unfolding Reached Behind Left
  Reached-conversion m p (fmt, behind, at, over, ([], h, ok, le, resume, back)) e = ground arith
  Reached-conversion m p (fmt, behind, at, over, ((c ∷ cs), (hc, nc, h), ok, le, resume, back)) e =
      rw behind (
        cs,
        h,
        conversion_safe c cs (ap is_conversion (sym hc ∙ sym at) ∙ e) (ap is_flag (sym hc) ∙ over)
            ∙ ok,
        omega arith,
      )

  -- A character that is no conversion leads back to the byte behind the '%'.
  pub Reached-other :
      (m : ℕ) (p : Parsed)
      → Reached m p
      → is_conversion p.ch ≡ false
      → Left mem plain n (back_up mem (p.fmt - 1)) × (p.ch ≢ b'e')
  unfolding Reached Behind safe may_end
  Reached-other m p (fmt, behind, at, over, ([], h, ok, le, resume, back)) e =
      let place : back_up mem (p.fmt - 1) ≡ start =
        (let q : p.fmt - 1 ≡ fmt = omega (arith, behind) in ap (back_up mem) q ∙ back) in
      (rw place (resume refl), ground arith)
  Reached-other m p (fmt, behind, at, over, ((c ∷ cs), (hc, nc, h), ok, le, resume, back)) e =
      let place : back_up mem (p.fmt - 1) ≡ start =
        (let q : p.fmt - 1 ≡ fmt = omega (arith, behind) in ap (back_up mem) q ∙ back) in
      let (same, none_e) =
        other_safe c cs (ap is_conversion (sym hc ∙ sym at) ∙ e) (ap is_flag (sym hc) ∙ over) ok in
      (rw place (resume same), λ q. none_e (sym hc ∙ sym at ∙ q))
