-- ===== src/Disk/Boot/Laws.antt =====
-- What the loader's readseg puts into memory.
use jos.Base.{
  ℕ, zero, suc, ◌+◌, ◌*◌, ◌-◌, ◌/◌, ◌%◌, ◌^◌, ◌≤◌, ◌<◌, ◌≡◌, refl, ap, ◌∙◌, ltb, true, false, some,
  ◌>>=◌, u32, arith, subst,
}
use jos.Console.Ports.{Device}
use jos.Disk.Port.{Sectors, Machine, insl}
use jos.Disk.Port.Laws.{IsReady, readsect_lem, Loaded, Loaded-none, Loaded-first}
use jos.Disk.Boot.{readseg_loop, readseg}

-- The byte at an offset of the kernel's image, which starts at sector 1.
abbrev pub image_byte : Sectors → ℕ → ℕ
image_byte sectors j = sectors (j / 512 + 1) (j % 512)

module _ (dev : Device) (sectors : Sectors) where
  readseg_loop_lem :
      (n fuel p end_pa o : ℕ) (s : Machine)
      → IsReady dev
      → n < fuel
      → end_pa ≤ p + n * 512
      → p + n * 512 < end_pa + 512
      → end_pa + 512 ≤ 2 ^ 32
      → o + n < 2 ^ 28
      → (s' : Machine) × (readseg_loop dev sectors fuel p end_pa o s ≡ some s')
        × Loaded sectors o p n s.mem s'.mem
  unfolding readseg_loop
  readseg_loop_lem n zero p end_pa o s ready lt low high wrap numbers = absurd (omega arith)
  readseg_loop_lem zero (suc fuel) p end_pa o s ready lt low high wrap numbers =
      let stop : ltb p end_pa ≡ false = ground arith in
      (s, rw (readseg_loop, stop) refl, Loaded-none sectors o p s.mem)
  readseg_loop_lem (suc n) (suc fuel) p end_pa o s ready lt low high wrap numbers =
      let go : ltb p end_pa ≡ true = ground arith in
      let (s₁, run₁, mem₁) =
        readsect_lem dev sectors ready fuel p o s (omega arith) (omega arith) in
      let here : o % 2 ^ 28 ≡ o = omega arith in
      let next_pa : u32 (p + 512) ≡ p + 512 = omega arith in
      let next_offset : u32 (o + 1) ≡ o + 1 = omega arith in
      let (s', run, loaded) =
        readseg_loop_lem n fuel (p + 512) end_pa (o + 1) s₁ ready (omega arith) (omega arith)
          (omega arith) wrap (omega arith) in
      let written : s₁.mem ≡ insl (sectors o) p s.mem =
        mem₁ ∙ ap (λ q. insl (sectors q) p s.mem) here in
      (
        s',
        rw (readseg_loop, go)
            (ap
                (λ r.
                  r >>= λ s₂. readseg_loop dev sectors fuel (u32 (p + 512)) end_pa (u32 (o + 1)) s₂)
                run₁
              ∙ ap (λ q. readseg_loop dev sectors fuel q end_pa (u32 (o + 1)) s₁) next_pa
              ∙ ap (λ q. readseg_loop dev sectors fuel (p + 512) end_pa q s₁) next_offset
              ∙ run),
        Loaded-first sectors o p n s.mem s'.mem
            (subst (λ m. Loaded sectors (o + 1) (p + 512) n m s'.mem) written loaded),
      )

  -- On a disk that is always ready, readseg with fuel of two more than the segment has sectors returns,
  -- if `pa` and `offset` lie equally far behind a sector's start, and neither the addresses pass the end
  -- of memory nor the sectors number 2^28: from `pa` on stand the `count` bytes of the kernel's image
  -- that start at `offset`, and what lies outside the sectors that hold them is unchanged.
  pub boot_readseg_lem :
      (fuel pa count offset : ℕ) (s : Machine)
      → IsReady dev
      → pa % 512 ≡ offset % 512
      → pa + count + 512 ≤ 2 ^ 32
      → offset + count < 2 ^ 36
      → offset < 2 ^ 32
      → count / 512 + 2 < fuel
      → (s' : Machine) × (readseg dev sectors fuel pa count offset s ≡ some s')
        × ((i : ℕ) → i < count → s'.mem (pa + i) ≡ image_byte sectors (offset + i))
        × ((a : ℕ) → a + 512 ≤ pa → s'.mem a ≡ s.mem a)
        × ((a : ℕ) → pa + count + 511 ≤ a → s'.mem a ≡ s.mem a)
  unfolding readseg
  boot_readseg_lem fuel pa count offset s ready aligned wrap size small enough =
      let p = pa - pa % 512 in
      let n = (pa % 512 + count + 511) / 512 in
      let (s', run, h) =
        readseg_loop_lem n fuel p (pa + count) (offset / 512 + 1) s ready (omega arith)
          (omega arith) (omega arith) wrap (omega arith) in
      let end : u32 (pa + count) ≡ pa + count = omega arith in
      let first : u32 (offset / 512 + 1) ≡ offset / 512 + 1 = omega arith in
      (
        s',
        ap (λ q. readseg_loop dev sectors fuel p q (u32 (offset / 512 + 1)) s) end
            ∙ ap (λ q. readseg_loop dev sectors fuel p (pa + count) q s) first
            ∙ run,
        (λ i lt.
            let number : offset / 512 + 1 + (pa + i - p) / 512 ≡ (offset + i) / 512 + 1 =
              omega arith in
            let place : (pa + i - p) % 512 ≡ (offset + i) % 512 = omega arith in
            h.inside (pa + i) (omega arith) (omega arith)
            ∙ ap (λ q. sectors q ((pa + i - p) % 512)) number
            ∙ ap (sectors ((offset + i) / 512 + 1)) place),
        (λ a le. h.below a (omega arith)),
        λ a le. h.above a (omega arith),
      )
