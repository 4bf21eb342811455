-- ===== src/Print/Format/Plain.antt =====
-- vprintfmt on text without sequences, and on the format "%s".
use jos.Base.{
  ℕ, zero, suc, ◌+◌, ◌-◌, ◌^◌, ◌<◌, ◌≤◌, ◌≡◌, ◌≢◌, refl, ap, ◌∙◌, ◌==◌, ◌||◌, true, false, some,
  ◌>>=◌, [], ◌∷◌, Bytes, All, length, arith, is_neg32, sub32, sign_extend8, minus_one,
}
use jos.Base.Memory.{Memory, CString}
use jos.Print.Terminal.{Terminal, Putch, emit, emit_times}
use jos.Print.Args.{Slots}
use jos.Print.Text.{shown, put_string, print_string}
use jos.Print.Format.{vprintfmt}

module _ {ℓ} {S : Type ℓ} (putch : Putch S) where
  -- The bytes printed one after the other.
  unfoldable pub emit_all : Bytes → Terminal S → Terminal S
  emit_all [] t = t
  emit_all (c ∷ cs) t = emit_all cs (emit putch c t)

  -- A format with neither a '%' nor an escape sequence is printed as it stands: with fuel above its
  -- length, vprintfmt returns, and putch has been called on each byte, in order.
  pub vprintfmt_plain :
      (cs : Bytes) (fuel : ℕ) (mem : Memory) (slots : Slots) (next fmt : ℕ) (t : Terminal S)
      → CString mem fmt cs
      → All (λ c. (c ≢ b'%') × (c ≢ 27)) cs
      → length cs < fuel
      → vprintfmt putch fuel mem slots next fmt t ≡ some (emit_all cs t)
  unfolding vprintfmt emit_all
  vprintfmt_plain cs zero mem slots next fmt t h plain lt = absurd (omega arith)
  vprintfmt_plain [] (suc fuel) mem slots next fmt t h plain lt =
      let a : (mem fmt == b'%') ≡ false = ground arith in
      let b : (mem fmt == 27) ≡ false = ground arith in
      let d : (mem fmt == 0) ≡ true = ground arith in rw (vprintfmt, a) (rw b (rw d refl))
  vprintfmt_plain (c ∷ cs) (suc fuel) mem slots next fmt t (hc, nz, h) ((pc, ec), plain) lt =
      let a : (mem fmt == b'%') ≡ false = ground arith in
      let b : (mem fmt == 27) ≡ false = ground arith in
      let d : (mem fmt == 0) ≡ false = ground arith in
      rw (vprintfmt, a)
        (rw b (
          rw d (
            ap (λ x. vprintfmt putch fuel mem slots next (fmt + 1) (emit putch x t)) hc
            ∙ vprintfmt_plain cs fuel mem slots next (fmt + 1) (emit putch c t) h plain
                (omega arith))))

  -- A string of ASCII characters is printed as it stands when neither a width nor a precision is given.
  put_string_plain :
      (cs : Bytes) (fuel : ℕ) (mem : Memory) (p width : ℕ) (t : Terminal S)
      → CString mem p cs
      → All (λ c. c < 128) cs
      → length cs < fuel
      → 2 ^ 31 + length cs ≤ width
      → width < 2 ^ 32
      → (left : ℕ) × (put_string putch mem fuel p width minus_one 0 t ≡ some (left, emit_all cs t))
        × (is_neg32 left ≡ true)
  unfolding put_string emit_all shown
  put_string_plain cs zero mem p width t h ascii lt wide small = absurd (omega arith)
  put_string_plain [] (suc fuel) mem p width t h ascii lt wide small =
      let stop : ((mem p == 0) || (minus_one == 0)) ≡ true = ground arith in
      (width, rw (put_string, stop) refl, ground arith)
  put_string_plain (c ∷ cs) (suc fuel) mem p width t (hc, nz, h) (ac, ascii) lt wide small =
      let go : ((mem p == 0) || (minus_one == 0)) ≡ false = ground arith in
      let same : sign_extend8 (mem p) ≡ c = ground arith in
      let next : sub32 width 1 ≡ width - 1 = omega arith in
      let (left, run, neg) =
        put_string_plain cs fuel mem (p + 1) (width - 1) (emit putch c t) h ascii (omega arith)
          (omega arith) (omega arith) in
      (
        left,
        rw (put_string, go)
            (ap
                (λ w.
                  put_string putch mem fuel (p + 1) w minus_one 0
                    (emit putch (sign_extend8 (mem p)) t))
                next
              ∙ ap (λ x. put_string putch mem fuel (p + 1) (width - 1) minus_one 0 (emit putch x t))
                  same
              ∙ run),
        neg,
      )

  pub print_string_plain :
      (cs : Bytes) (fuel : ℕ) (mem : Memory) (p : ℕ) (t : Terminal S)
      → CString mem p cs
      → All (λ c. c < 128) cs
      → length cs < fuel
      → length cs < 2 ^ 31
      → print_string putch mem fuel p minus_one minus_one b' ' 0 t ≡ some (emit_all cs t)
  unfolding print_string emit_times
  print_string_plain cs fuel mem p t h ascii lt small =
      let (left, run, neg) =
        put_string_plain cs fuel mem p minus_one t h ascii lt (omega arith) (omega arith) in
      rw (run, ◌>>=◌, neg) refl
