-- ===== src/Print/Terminal.antt =====
-- What a format run changes: the two colour globals of lib/printfmt.c, and the sink behind
-- `putch`/`putdat`. A `putch` sees the globals, since the console's reads them.
use jos.Base.{ℕ, zero, suc}

-- `color_flag`, `color_parsing`, and the state that `putdat` points to.
pub record Terminal {ℓ} (S : Type ℓ) : Type ℓ where
  pub color_flag : ℕ
  pub color_parsing : ℕ
  pub sink : S

-- The arguments are `color_flag`, `color_parsing` and the `int` character.
abbrev pub Putch {ℓ} : Type ℓ → Type ℓ
Putch S = ℕ → ℕ → ℕ → S → S

module _ {ℓ} {S : Type ℓ} (putch : Putch S) where
  -- One call `putch(ch, putdat)`.
  unfoldable pub emit : ℕ → Terminal S → Terminal S
  emit ch t = record t { sink = putch t.color_flag t.color_parsing ch t.sink }

  -- The same character a number of times.
  unfoldable pub emit_times : ℕ → ℕ → Terminal S → Terminal S
  emit_times zero ch t = t
  emit_times (suc n) ch t = emit_times n ch (emit ch t)
