-- ===== src/Console/Input/Serial.antt =====
-- What the serial port sends, and the input buffer.
use jos.Base.{
  ℕ, zero, suc, ◌+◌, ◌<◌, ◌≤◌, ◌≡◌, ◌≢◌, refl, sym, ap, ◌∙◌, true, false, ◌==◌, if◌then◌else◌,
  Option, some, ◌>>=◌, [], ◌∷◌, ◌++◌, Bytes, length, append-nil, append_assoc, bit_and, u8,
  Bool-cases, inl, inr, minus_one, arith,
}
use jos.Console.Ports.{Device, inb}
use jos.Console.State.{Kernel}
use jos.Console.Serial.{serial_proc_data}
use jos.Console.Ring.{store}
use jos.Console.Ring.Laws.{IsRing, store-IsRing, waiting, waiting-store, pending, pending-store}
use jos.Console.Input.{cons_intr, serial_intr}

-- The bytes that the serial port has from a time on: while the status says that one has arrived, the
-- data port has it at the next reading, and then the status is read again.
unfoldable pub Sends : Device → ℕ → Bytes → Type 0
Sends dev t [] = bit_and (u8 (dev t 0x3FD)) 0x01 ≡ 0
Sends dev t (b ∷ bs) =
    (bit_and (u8 (dev t 0x3FD)) 0x01 ≢ 0) × (u8 (dev (t + 1) 0x3F8) ≡ b) × Sends dev (t + 1 + 1) bs

-- The input buffer takes no zeros.
unfoldable pub received : Bytes → Bytes
received [] = []
received (b ∷ bs) = if b == 0 then received bs else b ∷ received bs

abbrev taken : ℕ → Kernel → Kernel
taken c k = if c == 0 then k else record k { sink = record (k.sink) { cons = store c k.sink.cons } }

taken-zero : (b : ℕ) (k : Kernel) → (b == 0) ≡ true → taken b k ≡ k
taken-zero b k e = rw e refl

taken-byte :
    (b : ℕ) (k : Kernel)
    → (b == 0) ≡ false
    → taken b k ≡ record k { sink = record (k.sink) { cons = store b k.sink.cons } }
taken-byte b k e = rw e refl

received-zero : (b : ℕ) (bs : Bytes) → (b == 0) ≡ true → received (b ∷ bs) ≡ received bs
unfolding received
received-zero b bs e = rw e refl

received-byte : (b : ℕ) (bs : Bytes) → (b == 0) ≡ false → received (b ∷ bs) ≡ b ∷ received bs
unfolding received
received-byte b bs e = rw e refl

-- The loop of cons_intr at its end, and at a character.
cons_intr-end :
    (proc : Kernel → Option (ℕ × Kernel)) (fuel : ℕ) (k k₁ : Kernel)
    → proc k ≡ some (minus_one, k₁)
    → cons_intr proc (suc fuel) k ≡ some k₁
unfolding cons_intr
cons_intr-end proc fuel k k₁ run = rw (cons_intr, run, ◌>>=◌) refl

cons_intr-byte :
    (proc : Kernel → Option (ℕ × Kernel)) (fuel c : ℕ) (k k₁ : Kernel)
    → proc k ≡ some (c, k₁)
    → (c == minus_one) ≡ false
    → cons_intr proc (suc fuel) k ≡ cons_intr proc fuel (taken c k₁)
unfolding cons_intr
cons_intr-byte proc fuel c k k₁ run e = rw (cons_intr, run, ◌>>=◌, e) refl

module _ (dev : Device) where
  abbrev serial : Kernel → Option (ℕ × Kernel)
  serial k = let (c, s) = serial_proc_data dev k.sink in some (c, record k { sink = s })

  -- The kernel after one reading of a port, and after two.
  abbrev once : Kernel → Kernel
  once k = record k { sink = record (k.sink) { io = (inb dev 0x3FD k.sink.io).1 } }

  abbrev twice : Kernel → Kernel
  twice k = record k {
    sink = record (k.sink) { io = (inb dev 0x3F8 (inb dev 0x3FD k.sink.io).1).1 };
  }

  serial-none :
      (k : Kernel)
      → bit_and (u8 (dev k.sink.io.clock 0x3FD)) 0x01 ≡ 0
      → serial k ≡ some (minus_one, once k)
  unfolding serial_proc_data inb
  serial-none k idle = rw idle refl

  serial_byte :
      (k : Kernel) (b : ℕ)
      → bit_and (u8 (dev k.sink.io.clock 0x3FD)) 0x01 ≢ 0
      → u8 (dev (k.sink.io.clock + 1) 0x3F8) ≡ b
      → serial k ≡ some (b, twice k)
  unfolding serial_proc_data inb
  serial_byte k b arrived is =
      let test : (bit_and (u8 (dev k.sink.io.clock 0x3FD)) 0x01 == 0) ≡ false = ground arith in
      rw test (ap (λ x. some (x, twice k)) is)

  drained :
      (bs : Bytes) (fuel : ℕ) (k : Kernel)
      → IsRing k.sink.cons
      → Sends dev k.sink.io.clock bs
      → waiting k.sink.cons + length (received bs) ≤ 511
      → length bs < fuel
      → (k' : Kernel) × (cons_intr serial fuel k ≡ some k')
        × (pending k'.sink.cons ≡ pending k.sink.cons ++ received bs)
        × IsRing k'.sink.cons
  unfolding Sends inb received
  drained bs zero k h sends room lt = absurd (omega arith)
  drained [] (suc fuel) k h sends room lt = (
    once k,
    cons_intr-end serial fuel k (once k) (serial-none k sends),
    sym (append-nil (pending k.sink.cons)),
    h,
  )
  drained (b ∷ bs) (suc fuel) k h (arrived, is, sends) room lt =
      let small : b < 256 = omega (arith, is) in
      let on : (b == minus_one) ≡ false = ground arith in
      let run = cons_intr-byte serial fuel b k (twice k) (serial_byte k b arrived is) on in
      elim (Bool-cases (b == 0)) [
        | inl z ↦
            let (k', rest, queue, ring) =
              drained bs fuel (twice k) h sends (omega (arith, ap length (received-zero b bs z)))
                (omega arith) in
            (
              k',
              run ∙ (ap (cons_intr serial fuel) (taken-zero b (twice k) z) ∙ rest),
              queue ∙ ap (λ q. pending k.sink.cons ++ q) (sym (received-zero b bs z)),
              ring,
            )
        | inr z ↦
            let k₁ : Kernel = record (twice k) {
              sink = record ((twice k).sink) { cons = store b k.sink.cons };
            } in
            let size = ap length (received-byte b bs z) in
            let (k', rest, queue, ring) =
              drained bs fuel k₁ (store-IsRing b k.sink.cons h) sends
                (omega (arith, waiting-store b k.sink.cons h (omega (arith, size)), size))
                (omega arith) in
            let byte : u8 b ≡ b = omega arith in
            (
              k',
              run ∙ (ap (cons_intr serial fuel) (taken-byte b (twice k) z) ∙ rest),
              queue
                  ∙ (ap (λ q. q ++ received bs)
                        (pending-store b k.sink.cons h (omega (arith, size))
                          ∙ ap (λ x. pending k.sink.cons ++ (x ∷ [])) byte)
                      ∙ (append_assoc (pending k.sink.cons) (b ∷ []) (received bs)
                          ∙ ap (λ q. pending k.sink.cons ++ q) (sym (received-byte b bs z)))),
              ring,
            )
      ]

  serial_intr-drained :
      (fuel : ℕ) (k : Kernel)
      → k.sink.serial_exists ≡ true
      → serial_intr dev fuel k ≡ cons_intr serial fuel k
  unfolding serial_intr
  serial_intr-drained fuel k there = rw there refl

  -- Where there is a serial port, and with an input buffer that keeps its invariant: the bytes that
  -- the port sends, up to its first pause, and for which there is room in the buffer, wait there
  -- after serial_intr, behind what waited before, in the order in which they came, except for
  -- zeros, which are left out. serial_intr returns with fuel above their number.
  pub serial_intr_lem :
      (bs : Bytes) (fuel : ℕ) (k : Kernel)
      → k.sink.serial_exists ≡ true
      → IsRing k.sink.cons
      → Sends dev k.sink.io.clock bs
      → waiting k.sink.cons + length (received bs) ≤ 511
      → length bs < fuel
      → (k' : Kernel) × (serial_intr dev fuel k ≡ some k')
        × (pending k'.sink.cons ≡ pending k.sink.cons ++ received bs)
        × IsRing k'.sink.cons
  serial_intr_lem bs fuel k there h sends room lt =
      let (k', run, queue, ring) = drained bs fuel k h sends room lt in
      (k', serial_intr-drained fuel k there ∙ run, queue, ring)
