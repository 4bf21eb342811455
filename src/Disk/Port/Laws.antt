-- ===== src/Disk/Port/Laws.antt =====
-- Which sector a call of readsect transfers, and the memory behind a run of such calls.
use jos.Base.{
  ℕ, zero, suc, ◌+◌, ◌*◌, ◌-◌, ◌/◌, ◌%◌, ◌^◌, ◌≤◌, ◌<◌, ◌≡◌, refl, ap, ◌∙◌, inl, inr, ◌==◌, ◌&&◌,
  ltb, leb, true, false, some, ◌>>=◌, bit_and, bit_or, u8, arith, Bool-cases,
}
use jos.Base.Bits.{all_below, all_below_sound}
use jos.Base.Memory.{Memory}
use jos.Console.Ports.{Device, Ports, inb}
use jos.Disk.Port.{Sectors, Machine, insl, selected, waitdisk, address_byte, command, readsect}

-- The disk is never busy: whenever the status is read, it is ready.
unfoldable pub IsReady : Device → Type 0
IsReady dev = (t : ℕ) → bit_and (u8 (dev t 0x1F7)) 0xC0 ≡ 0x40

top_bits : (n : ℕ) → n < 256 → (bit_and (u8 (bit_or n 0xE0)) 0x0F == n % 16) ≡ true
unfolding all_below
top_bits n h = all_below_sound 256 (λ n. bit_and (u8 (bit_or n 0xE0)) 0x0F == n % 16) n refl h

-- The address ports hold the low 28 bits of the sector number.
selected_lem :
    (dev : Device) (sectors : Sectors) (offset : ℕ)
    → offset < 2 ^ 32
    → selected
        (address_byte dev sectors offset 0)
        (address_byte dev sectors offset 1)
        (address_byte dev sectors offset 2)
        (address_byte dev sectors offset 3)
      ≡ offset % 2 ^ 28
unfolding selected address_byte
selected_lem dev sectors offset h =
    let top = top_bits (offset / 2 ^ 24) (omega arith) in ground arith

module _ (dev : Device) (sectors : Sectors) (ready : IsReady dev) where
  waitdisk_lem :
      (fuel : ℕ) (io : Ports) → (io' : Ports) × (waitdisk dev sectors (suc fuel) io ≡ some io')
  unfolding waitdisk IsReady inb
  waitdisk_lem fuel io = ((inb dev 0x1F7 io).1, rw (waitdisk, ready io.clock) refl)

  -- A disk that is ready transfers the sector whose number is the low 28 bits of `offset`.
  pub readsect_lem :
      (fuel dst offset : ℕ) (s : Machine)
      → 0 < fuel
      → offset < 2 ^ 32
      → (s' : Machine) × (readsect dev sectors fuel dst offset s ≡ some s')
        × (s'.mem ≡ insl (sectors (offset % 2 ^ 28)) dst s.mem)
  unfolding readsect
  readsect_lem zero dst offset s pos h = absurd (omega arith)
  readsect_lem (suc fuel) dst offset s pos h =
      let (io₁, run₁) = waitdisk_lem fuel s.io in
      let (io₂, run₂) = waitdisk_lem fuel (command dev sectors offset io₁) in
      (
        record {
          io = io₂;
          mem =
              insl
                (sectors (
                  selected (address_byte dev sectors offset 0) (address_byte dev sectors offset 1)
                    (address_byte dev sectors offset 2) (address_byte dev sectors offset 3)))
                dst s.mem;
        },
        rw (run₁, ◌>>=◌) (rw (run₂, ◌>>=◌) refl),
        ap (λ n. insl (sectors n) dst s.mem) (selected_lem dev sectors offset h),
      )

-- Where `m'` is `m` with `n` sectors, from number `o` on, put from `p` on.
pub record Loaded (sectors : Sectors) (o p n : ℕ) (m m' : Memory) : Type 0 where
  pub inside :
      (a : ℕ) → p ≤ a → a < p + n * 512 → m' a ≡ sectors (o + (a - p) / 512) ((a - p) % 512)
  pub below : (a : ℕ) → a < p → m' a ≡ m a
  pub above : (a : ℕ) → p + n * 512 ≤ a → m' a ≡ m a

pub Loaded-none : (sectors : Sectors) (o p : ℕ) (m : Memory) → Loaded sectors o p 0 m m
Loaded-none sectors o p m = record {
  inside = λ a lo hi. absurd (omega arith);
  below = λ a lt. refl;
  above = λ a le. refl;
}

insl_inside :
    (sector : ℕ → ℕ) (p a : ℕ) (m : Memory)
    → p ≤ a
    → a < p + 512
    → insl sector p m a ≡ sector (a - p)
insl_inside sector p a m lo hi =
    let e : (leb p a && ltb a (p + 512)) ≡ true = ground arith in rw e refl

insl_below : (sector : ℕ → ℕ) (p a : ℕ) (m : Memory) → a < p → insl sector p m a ≡ m a
insl_below sector p a m lt =
    let e : (leb p a && ltb a (p + 512)) ≡ false = ground arith in rw e refl

insl_above : (sector : ℕ → ℕ) (p a : ℕ) (m : Memory) → p + 512 ≤ a → insl sector p m a ≡ m a
insl_above sector p a m le =
    let e : (leb p a && ltb a (p + 512)) ≡ false = ground arith in rw e refl

-- One more sector in front.
pub Loaded-first :
    (sectors : Sectors) (o p n : ℕ) (m m' : Memory)
    → Loaded sectors (o + 1) (p + 512) n (insl (sectors o) p m) m'
    → Loaded sectors o p (suc n) m m'
Loaded-first sectors o p n m m' h = record {
  inside = λ a lo hi. elim (Bool-cases (ltb a (p + 512))) [
    | inl e ↦
        let first : o ≡ o + (a - p) / 512 = ground arith in
        let place : a - p ≡ (a - p) % 512 = ground arith in
        h.below a (ground arith)
        ∙ insl_inside (sectors o) p a m lo (ground arith)
        ∙ ap (λ q. sectors q (a - p)) first
        ∙ ap (sectors (o + (a - p) / 512)) place
    | inr e ↦
        let number : o + 1 + (a - (p + 512)) / 512 ≡ o + (a - p) / 512 = ground arith in
        let place : (a - (p + 512)) % 512 ≡ (a - p) % 512 = ground arith in
        h.inside a (ground arith) (ground arith)
        ∙ ap (λ q. sectors q ((a - (p + 512)) % 512)) number
        ∙ ap (sectors (o + (a - p) / 512)) place
  ];
  below = λ a lt. h.below a (omega arith) ∙ insl_below (sectors o) p a m lt;
  above = λ a le. h.above a (omega arith) ∙ insl_above (sectors o) p a m (omega arith);
}

-- One more sector behind.
pub Loaded-last :
    (sectors : Sectors) (o p n : ℕ) (m m' : Memory)
    → Loaded sectors o p n m m'
    → Loaded sectors o p (suc n) m (insl (sectors (o + n)) (p + n * 512) m')
Loaded-last sectors o p n m m' h = record {
  inside = λ a lo hi. elim (Bool-cases (ltb a (p + n * 512))) [
    | inl e ↦
        insl_below (sectors (o + n)) (p + n * 512) a m' (ground arith)
        ∙ h.inside a lo (ground arith)
    | inr e ↦
        let number : o + n ≡ o + (a - p) / 512 = ground arith in
        let place : a - (p + n * 512) ≡ (a - p) % 512 = ground arith in
        insl_inside (sectors (o + n)) (p + n * 512) a m' (ground arith) (ground arith)
        ∙ ap (λ q. sectors q (a - (p + n * 512))) number
        ∙ ap (sectors (o + (a - p) / 512)) place
  ];
  below = λ a lt. insl_below (sectors (o + n)) (p + n * 512) a m' (omega arith) ∙ h.below a lt;
  above = λ a le.
      insl_above (sectors (o + n)) (p + n * 512) a m' (omega arith) ∙ h.above a (omega arith);
}
