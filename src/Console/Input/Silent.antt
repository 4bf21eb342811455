-- ===== src/Console/Input/Silent.antt =====
-- getchar while no device has anything to hand over: what it returns has been waiting.
use jos.Base.{
  ℕ, suc, ◌<◌, ◌≡◌, ◌≢◌, refl, ap, sym, ◌∙◌, inl, inr, ◌==◌, false, some, ◌>>=◌, ◌∷◌, Bytes,
  bit_and, u8, Bool-cases, Ensures-some, arith,
}
use jos.Console.Ports.{Device, inb}
use jos.Console.State.{Kernel}
use jos.Console.Serial.{serial_proc_data}
use jos.Console.Keyboard.{kbd_proc_data}
use jos.Console.Ring.{load}
use jos.Console.Ring.Laws.{pending, pending-load}
use jos.Console.Putc.Laws.{IsConsole}
use jos.Console.Input.{cons_intr, serial_intr, kbd_intr, cons_getc, getchar}
use jos.Console.Input.Laws.{cons_getc_keep}

-- The bits that say that a byte has arrived are clear, in the serial port's status and in the
-- keyboard's.
unfoldable pub Silent : Device → Type 0
Silent dev = (t : ℕ) → (bit_and (u8 (dev t 0x3FD)) 0x01 ≡ 0) × (bit_and (u8 (dev t 0x64)) 0x01 ≡ 0)

-- One reading of a port.
abbrev polled : Device → ℕ → Kernel → Kernel
polled dev port k = record k { sink = record (k.sink) { io = (inb dev port k.sink.io).1 } }

module _ (dev : Device) (silent : Silent dev) where
  serial_silent :
      (fuel : ℕ) (k : Kernel)
      → (k' : Kernel) × (serial_intr dev (suc fuel) k ≡ some k') × (k'.sink.cons ≡ k.sink.cons)
  unfolding serial_intr cons_intr serial_proc_data inb Silent
  serial_silent fuel k = elim (Bool-cases k.sink.serial_exists) [
    | inl e ↦ (polled dev 0x3FD k, rw (e, (silent k.sink.io.clock).0) refl, refl)
    | inr e ↦ (k, rw e refl, refl)
  ]

  kbd_silent :
      (fuel : ℕ) (k : Kernel)
      → (k' : Kernel) × (kbd_intr dev (suc fuel) k ≡ some k') × (k'.sink.cons ≡ k.sink.cons)
  unfolding kbd_intr cons_intr kbd_proc_data inb Silent
  kbd_silent fuel k = (polled dev 0x64 k, rw ((silent k.sink.io.clock).1) refl, refl)

  -- A character taken: what waited longest, or 0, without any time to wait.
  cons_getc_silent :
      (fuel : ℕ) (k : Kernel)
      → (k' : Kernel) × (cons_getc dev (suc fuel) k ≡ some ((load k.sink.cons).0, k'))
        × (k'.sink.cons ≡ (load k.sink.cons).1)
  unfolding cons_getc
  cons_getc_silent fuel k =
      let (k₁, run₁, same₁) = serial_silent fuel k in
      let (k₂, run₂, same₂) = kbd_silent fuel k₁ in
      let same : k₂.sink.cons ≡ k.sink.cons = same₂ ∙ same₁ in
      let k' : Kernel = record k₂ { sink = record (k₂.sink) { cons = (load k₂.sink.cons).1 } } in
      (
        k',
        rw (run₁, ◌>>=◌) (rw (run₂, ◌>>=◌) (ap (λ r. some ((load r).0, k')) same)),
        ap (λ r. (load r).1) same,
      )

  -- While no device has anything to hand over, and bytes wait of which the oldest, `c`, is not 0,
  -- getchar returns `c` at the first try, and leaves the others waiting; the console stays good.
  pub getchar_silent :
      (fuel : ℕ) (k : Kernel) (c : ℕ) (cs : Bytes)
      → IsConsole k.sink
      → pending k.sink.cons ≡ c ∷ cs
      → c ≢ 0
      → (k' : Kernel) × (getchar dev (suc (suc fuel)) k ≡ some (c, k'))
        × (pending k'.sink.cons ≡ cs)
        × IsConsole k'.sink
        × (c < 256)
  unfolding getchar
  getchar_silent fuel k c cs h wait nz =
      let (k', run, ring) = cons_getc_silent fuel k in
      let kept =
        Ensures-some (λ r. (r.0 < 256) × IsConsole r.1.sink) _ (cons_getc_keep dev (suc fuel) k h)
          run in
      elim (pending-load k.sink.cons h.ring) [
        | inl (e, stays) ↦ absurd (let z = sym e ∙ wait in ground arith)
        | inr e ↦
            let both : c ∷ cs ≡ (load k.sink.cons).0 ∷ pending (load k.sink.cons).1 =
              sym wait ∙ e in
            let first : (load k.sink.cons).0 ≡ c = ground arith in
            let rest : pending (load k.sink.cons).1 ≡ cs = ground arith in
            let test : (c == 0) ≡ false = ground arith in
            (
              k',
              rw (run ∙ ap (λ b. some (b, k')) first, ◌>>=◌, test) refl,
              ap pending ring ∙ rest,
              kept.1,
              rw first at kept.0,
            )
      ]
