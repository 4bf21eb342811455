-- ===== src/Disk/Segment/Laws.antt =====
-- What the kernel's readseg puts into memory, and how far it moves `*kvoffset`.
use jos.Base.{
  ℕ, zero, suc, ◌+◌, ◌*◌, ◌-◌, ◌/◌, ◌%◌, ◌^◌, ◌≤◌, ◌<◌, ◌≡◌, refl, sym, ap, ◌∙◌, ltb, ◌==◌, true,
  false, some, ◌>>=◌, u64, arith, subst, Bool-cases, inl, inr, if◌then◌else◌,
}
use jos.Console.Ports.{Device}
use jos.Disk.Port.{Sectors, Machine, insl}
use jos.Disk.Port.Laws.{IsReady, readsect_lem, Loaded, Loaded-none, Loaded-first, Loaded-last}
use jos.Disk.Boot.Laws.{image_byte}
use jos.Disk.Segment.{read_sectors, read_last, readseg}

-- The sectors that a call reads: those of the loop, and the one behind them.
unfoldable pub sectors_read : ℕ → ℕ → ℕ
sectors_read count offset =
    if ltb 512 (offset % 512 + count) then (count + 511) / 512 + 1 else (count + 511) / 512

-- They hold the bytes.
sectors_hold : (count offset i : ℕ) → i < count → offset % 512 + i < sectors_read count offset * 512
unfolding sectors_read
sectors_hold count offset i lt = ground arith

module _ (dev : Device) (sectors : Sectors) where
  read_sectors_lem :
      (n fuel p end_pa o kvoffset : ℕ) (s : Machine)
      → IsReady dev
      → n < fuel
      → end_pa ≤ p + n * 512
      → p + n * 512 < end_pa + 512
      → end_pa + 512 ≤ 2 ^ 64
      → o + n < 2 ^ 28
      → kvoffset + n * 512 < 2 ^ 64
      → (s' : Machine) × (read_sectors dev sectors fuel p end_pa o kvoffset s
          ≡ some (s', p + n * 512, o + n, kvoffset + n * 512))
        × Loaded sectors o p n s.mem s'.mem
  unfolding read_sectors
  read_sectors_lem n zero p end_pa o kvoffset s ready lt low high wrap numbers room =
      absurd (omega arith)
  read_sectors_lem zero (suc fuel) p end_pa o kvoffset s ready lt low high wrap numbers room =
      let stop : ltb p end_pa ≡ false = ground arith in
      (s, rw (read_sectors, stop) (ground arith), Loaded-none sectors o p s.mem)
  read_sectors_lem (suc n) (suc fuel) p end_pa o kvoffset s ready lt low high wrap numbers room =
      let go : ltb p end_pa ≡ true = ground arith in
      let (s₁, run₁, mem₁) =
        readsect_lem dev sectors ready fuel p o s (omega arith) (omega arith) in
      let here : o % 2 ^ 28 ≡ o = omega arith in
      let next_pa : u64 (p + 512) ≡ p + 512 = omega arith in
      let next_offset : u64 (o + 1) ≡ o + 1 = omega arith in
      let next_kvoffset : u64 (kvoffset + 512) ≡ kvoffset + 512 = omega arith in
      let (s', run, loaded) =
        read_sectors_lem n fuel (p + 512) end_pa (o + 1) (kvoffset + 512) s₁ ready (omega arith)
          (omega arith) (omega arith) wrap (omega arith) (omega arith) in
      let written : s₁.mem ≡ insl (sectors o) p s.mem =
        mem₁ ∙ ap (λ q. insl (sectors q) p s.mem) here in
      let end_p : p + 512 + n * 512 ≡ p + suc n * 512 = omega arith in
      let end_o : o + 1 + n ≡ o + suc n = omega arith in
      let end_k : kvoffset + 512 + n * 512 ≡ kvoffset + suc n * 512 = omega arith in
      (
        s',
        rw (read_sectors, go)
            (ap
                (λ r. r >>= λ s₂.
                  read_sectors dev sectors fuel (u64 (p + 512)) end_pa (u64 (o + 1))
                    (u64 (kvoffset + 512)) s₂)
                run₁
              ∙ ap
                  (λ q.
                    read_sectors dev sectors fuel q end_pa (u64 (o + 1)) (u64 (kvoffset + 512)) s₁)
                  next_pa
              ∙ ap (λ q. read_sectors dev sectors fuel (p + 512) end_pa q (u64 (kvoffset + 512)) s₁)
                  next_offset
              ∙ ap (λ q. read_sectors dev sectors fuel (p + 512) end_pa (o + 1) q s₁) next_kvoffset
              ∙ run
              ∙ ap (λ q. some (s', q, o + 1 + n, kvoffset + 512 + n * 512)) end_p
              ∙ ap (λ q. some (s', p + suc n * 512, q, kvoffset + 512 + n * 512)) end_o
              ∙ ap (λ q. some (s', p + suc n * 512, o + suc n, q)) end_k),
        Loaded-first sectors o p n s.mem s'.mem
            (subst (λ m. Loaded sectors (o + 1) (p + 512) n m s'.mem) written loaded),
      )

  read_last_lem :
      (fuel n count orgoff p o kvoffset : ℕ) (s s₁ : Machine)
      → IsReady dev
      → 0 < fuel
      → n ≡ (count + 511) / 512
      → count + 512 < 2 ^ 64
      → o + n < 2 ^ 28
      → kvoffset + n * 512 + 512 < 2 ^ 64
      → Loaded sectors o p n s.mem s₁.mem
      → (s' : Machine) × (read_last dev sectors fuel count orgoff
            (s₁, p + n * 512, o + n, kvoffset + n * 512)
          ≡ some (s', kvoffset + sectors_read count orgoff * 512))
        × Loaded sectors o p (sectors_read count orgoff) s.mem s'.mem
  unfolding read_last sectors_read
  read_last_lem fuel n count orgoff p o kvoffset s s₁ ready pos e wrap numbers room loaded =
      let sum : u64 (orgoff % 512 + count) ≡ orgoff % 512 + count = omega arith in
      rw sum (elim (Bool-cases (ltb 512 (orgoff % 512 + count))) [
        | inl over ↦
            let (s', run, mem) =
              readsect_lem dev sectors ready fuel (p + n * 512) (o + n) s₁ pos (omega arith) in
            let here : (o + n) % 2 ^ 28 ≡ o + n = omega arith in
            let written : insl (sectors (o + n)) (p + n * 512) s₁.mem ≡ s'.mem =
              ap (λ q. insl (sectors q) (p + n * 512) s₁.mem) (sym here) ∙ sym mem in
            let moved : u64 (kvoffset + n * 512 + 512)
                ≡ kvoffset + ((count + 511) / 512 + 1) * 512 =
              omega arith in
            let total : suc n ≡ (count + 511) / 512 + 1 = omega arith in
            rw over (
              s',
              rw (run, ◌>>=◌) (ap (λ q. some (s', q)) moved),
              subst (λ t. Loaded sectors o p t s.mem s'.mem) total
                  (subst (Loaded sectors o p (suc n) s.mem) written
                    (Loaded-last sectors o p n s.mem s₁.mem loaded)),
            )
        | inr fits ↦ rw fits (
          s₁,
          ap (λ t. some (s₁, kvoffset + t * 512)) e,
          subst (λ t. Loaded sectors o p t s.mem s₁.mem) e loaded,
        )
      ])

  -- On a disk that is always ready, with `pa` and `*kvoffset` on sector bounds, fuel of two more than
  -- the bytes have sectors, and numbers that do not overflow, readseg passes its assertions and returns:
  -- the `count` bytes of the kernel's image from `offset` on stand as far behind `pa` as `offset` lies
  -- behind a sector's start, `*kvoffset` has grown by the bytes that were overwritten, and outside these
  -- nothing has changed.
  pub kernel_readseg_lem :
      (fuel pa count offset kvoffset : ℕ) (s : Machine)
      → IsReady dev
      → pa % 512 ≡ 0
      → kvoffset % 512 ≡ 0
      → count / 512 + 2 < fuel
      → pa + count + 512 ≤ 2 ^ 64
      → offset + count + 2048 < 2 ^ 36
      → kvoffset + count + 1024 < 2 ^ 64
      → (s' : Machine) × (readseg dev sectors fuel pa count offset kvoffset s
          ≡ some (s', kvoffset + sectors_read count offset * 512))
        × ((i : ℕ) → i < count → s'.mem (pa + offset % 512 + i) ≡ image_byte sectors (offset + i))
        × ((i : ℕ) → i < count → offset % 512 + i < sectors_read count offset * 512)
        × ((a : ℕ) → a < pa → s'.mem a ≡ s.mem a)
        × ((a : ℕ) → pa + sectors_read count offset * 512 ≤ a → s'.mem a ≡ s.mem a)
  unfolding readseg
  kernel_readseg_lem fuel pa count offset kvoffset s ready start_pa start_kv enough wrap size room =
      let n = (count + 511) / 512 in
      let o = offset / 512 + 1 in
      let (s₁, run₁, loaded₁) =
        read_sectors_lem n fuel pa (pa + count) o kvoffset s ready (omega arith) (omega arith)
          (omega arith) wrap (omega arith) (omega arith) in
      let (s', run₂, loaded) =
        read_last_lem fuel n count offset pa o kvoffset s s₁ ready (omega arith) refl (omega arith)
          (omega arith) (omega arith) loaded₁ in
      let entry : (pa % 512 == 0) ≡ true = ground arith in
      let exit : ((kvoffset + sectors_read count offset * 512) % 512 == 0) ≡ true = ground arith in
      let down : pa - pa % 512 ≡ pa = omega arith in
      let end : u64 (pa + count) ≡ pa + count = omega arith in
      let first : u64 (offset / 512 + 1) ≡ o = omega arith in
      let held = sectors_hold count offset in
      (
        s',
        rw (entry, down, end, first) (rw (run₁, ◌>>=◌) (rw (run₂, ◌>>=◌, exit) refl)),
        (λ i lt.
            let within = held i lt in
            let number : o + (pa + offset % 512 + i - pa) / 512 ≡ (offset + i) / 512 + 1 =
              omega arith in
            let place : (pa + offset % 512 + i - pa) % 512 ≡ (offset + i) % 512 = omega arith in
            loaded.inside (pa + offset % 512 + i) (omega arith) (omega arith)
            ∙ ap (λ q. sectors q ((pa + offset % 512 + i - pa) % 512)) number
            ∙ ap (sectors ((offset + i) / 512 + 1)) place),
        held,
        loaded.below,
        loaded.above,
      )
