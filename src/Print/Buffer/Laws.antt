-- ===== src/Print/Buffer/Laws.antt =====
-- vsnprintf stays inside its buffer, whatever the format and the arguments are.
use jos.Base.{
  u32, sym, ◌∙◌, ℕ, ◌+◌, ◌-◌, ◌<◌, ◌≤◌, ◌^◌, ◌≡◌, ◌≢◌, ◌⊎◌, refl, ◌||◌, true, false, Option, some,
  >>=-eq-some, ◌==◌, slt32, neg32, min, arith,
}
use jos.Base.Memory.{Memory, write}
use jos.Print.Terminal.{Terminal}
use jos.Print.Args.{Slots}
use jos.Print.Format.Preserve.{vprintfmt-keeps}
use jos.Print.Buffer.{SprintBuf, sprintputch, e_inval, vsnprintf}

-- What holds of the buffer between two calls of sprintputch: its pointer has moved once for each
-- character, up to `ebuf`, and no byte outside the buffer has changed.
pub record IsWithin (m : Memory) (start size : ℕ) (b : SprintBuf) : Type 0 where
  pub total : ℕ
  pub counted : b.cnt ≡ u32 total
  pub limit : b.ebuf ≡ start + size
  pub place : b.buf ≡ start + min total size
  pub outside : (a : ℕ) → (a < start) ⊎ (start + size ≤ a) → b.mem a ≡ m a

sprintputch_keep :
    (m : Memory) (start size flag parsing ch : ℕ) (b : SprintBuf)
    → IsWithin m start size b
    → IsWithin m start size (sprintputch flag parsing ch b)
unfolding sprintputch
sprintputch_keep m start size flag parsing ch b w = record {
  total = w.total + 1;
  counted = ground (arith, w.counted);
  limit = ground arith;
  place = ground arith;
  outside = λ a o. ground (arith, w.outside a o);
}

-- The terminating zero lands at the end of what was written, inside the buffer.
closed :
    (m : Memory) (buf n : ℕ) (r : Terminal SprintBuf) {cnt : ℕ} {t' : Terminal Memory}
    → IsWithin m buf (n - 1) r.sink
    → ◌≡◌ {A = Option (ℕ × Terminal Memory)}
        (some (
          r.sink.cnt,
          record {
            color_flag = r.color_flag;
            color_parsing = r.color_parsing;
            sink = write r.sink.mem r.sink.buf 0;
          },
        ))
        (some (cnt, t'))
    → 0 < n
    → (total : ℕ) × (cnt ≡ u32 total)
      × (t'.sink (buf + min total (n - 1)) ≡ 0)
      × ((a : ℕ) → (a < buf) ⊎ (buf + n ≤ a) → t'.sink a ≡ m a)
closed m buf n r {cnt} {t'} w e pos =
    let count : r.sink.cnt ≡ cnt = ground arith in
    let memory : write r.sink.mem r.sink.buf 0 ≡ t'.sink = ground arith in
    (
      w.total,
      sym count ∙ w.counted,
      rw (← memory) (ground (arith, w.place)),
      λ a o. rw (← memory) (ground (arith, w.outside a (ground arith))),
    )

-- Every run of vsnprintf with a buffer of `n` bytes, not at the address 0 and with `n` from 1 to below
-- 2^31, that returns has written only in
-- `[buf, buf + n)`. For some total, of which it returns the low 32 bits as an `int`, it has left a
-- zero at `buf + total`, or at the last byte of the buffer if the total is not below `n`.
pub vsnprintf-stays_inside :
    (fuel : ℕ) (slots : Slots) (buf n fmt : ℕ) (t : Terminal Memory) {cnt : ℕ}
    {t' : Terminal Memory}
    → buf ≢ 0
    → 0 < n
    → n < 2 ^ 31
    → vsnprintf fuel slots buf n fmt t ≡ some (cnt, t')
    → (total : ℕ) × (cnt ≡ u32 total)
      × (t'.sink (buf + min total (n - 1)) ≡ 0)
      × ((a : ℕ) → (a < buf) ⊎ (buf + n ≤ a) → t'.sink a ≡ t.sink a)
unfolding vsnprintf
vsnprintf-stays_inside fuel slots buf n fmt t {cnt} {t'} nz pos small h =
    let ok : ((buf == 0) || slt32 n 1) ≡ false = ground arith in
    let (r, run, result) = >>=-eq-some _ _ (rw ok at h) in
    let w =
      vprintfmt-keeps sprintputch (IsWithin t.sink buf (n - 1))
        (sprintputch_keep t.sink buf (n - 1)) fuel t.sink slots 0 fmt _
        (record {
          total = 0;
          counted = refl;
          limit = omega arith;
          place = omega arith;
          outside = λ a o. refl;
        })
        run in
    closed t.sink buf n r w result pos

-- A null buffer and a size below 1 are refused with -E_INVAL, and nothing is written or printed.
pub vsnprintf_refuses :
    (fuel : ℕ) (slots : Slots) (buf n fmt : ℕ) (t : Terminal Memory)
    → (buf ≡ 0) ⊎ (n ≡ 0) ⊎ (2 ^ 31 ≤ n)
    → n < 2 ^ 32
    → vsnprintf fuel slots buf n fmt t ≡ some (neg32 e_inval, t)
unfolding vsnprintf
vsnprintf_refuses fuel slots buf n fmt t h w =
    let bad : ((buf == 0) || slt32 n 1) ≡ true = ground arith in rw bad refl
