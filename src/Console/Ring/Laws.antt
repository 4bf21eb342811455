-- ===== src/Console/Ring/Laws.antt =====
-- The input buffer against a queue of bytes: what waits in it, oldest first.
use jos.Base.{
  replicate, length-replicate, ℕ, zero, suc, ◌+◌, ◌-◌, ◌%◌, ◌<◌, ◌≡◌, ◌≢◌, ◌⊎◌, inl, inr,
  Bool-cases, refl, ap, ◌==◌, ltb, if◌then◌else◌, u8, get_or, set, List, [], ◌∷◌, ◌++◌, Bytes,
  length, length-set, get_or-set_self, get_or-set_ne, arith,
}
use jos.Console.State.{Ring, empty_ring}
use jos.Console.Ring.{consbufsize, store, load}

pub record IsRing (r : Ring) : Type 0 where
  pub size : length r.buf ≡ consbufsize
  pub reader : r.rpos < consbufsize
  pub writer : r.wpos < consbufsize
  pub bytes : (i : ℕ) → get_or r.buf i 0 < 256

pub get_or-zeros : (n i : ℕ) → get_or (replicate n 0) i 0 < 256
get_or-zeros zero i = omega arith
get_or-zeros (suc n) zero = omega arith
get_or-zeros (suc n) (suc i) = get_or-zeros n i

pub empty_ring-IsRing : IsRing empty_ring
empty_ring-IsRing = record {
  size = length-replicate {A = ℕ} 512 0;
  reader = omega arith;
  writer = omega arith;
  bytes = get_or-zeros 512;
}

-- The number of bytes that wait.
abbrev pub waiting : Ring → ℕ
waiting r = (r.wpos + consbufsize - r.rpos) % consbufsize

-- The index behind `h`, and the index `n` places behind it.
abbrev next : ℕ → ℕ
next h = if h + 1 == consbufsize then 0 else h + 1

abbrev place : ℕ → ℕ → ℕ
place h n = if ltb (h + n) consbufsize then h + n else h + n - consbufsize

-- The `n` bytes from index `h` on, round the end of the buffer.
unfoldable pub stretch : List ℕ → ℕ → ℕ → Bytes
stretch buf h zero = []
stretch buf h (suc n) = get_or buf h 0 ∷ stretch buf (if h + 1 == consbufsize then 0 else h + 1) n

unfoldable pub pending : Ring → Bytes
unfolding stretch
pending r = stretch r.buf r.rpos (waiting r)

get_or-set :
    (buf : List ℕ) (i j v : ℕ)
    → i < length buf
    → get_or (set buf i v) j 0 ≡ (if i == j then v else get_or buf j 0)
get_or-set buf i j v h = elim (Bool-cases (i == j)) [
  | inl e ↦ let same : i ≡ j = ground arith in rw e (rw (← same) (get_or-set_self buf i v 0 h))
  | inr e ↦ rw e (get_or-set_ne buf i j v 0 (ground arith))
]

-- A store keeps both indices inside the buffer, its length, and its entries bytes.
pub store-IsRing : (c : ℕ) (r : Ring) → IsRing r → IsRing (store c r)
unfolding store
store-IsRing c r h = record {
  size = omega (arith, length-set r.buf r.wpos (u8 c));
  reader = h.reader;
  writer = ground arith;
  bytes = λ i. ground (arith, get_or-set r.buf r.wpos i (u8 c), h.bytes i);
}

-- A load keeps both indices inside the buffer, its length, and its entries bytes; what it returns is
-- below 256.
pub load-IsRing : (r : Ring) → IsRing r → IsRing (load r).1 × ((load r).0 < 256)
unfolding load
load-IsRing r h = elim (Bool-cases (r.rpos == r.wpos)) [
  | inl e ↦ rw e (h, omega arith)
  | inr e ↦ rw e (
    record { size = h.size; reader = ground arith; writer = h.writer; bytes = h.bytes },
    h.bytes r.rpos,
  )
]

-- A store behind a stretch that does not fill the buffer extends it.
stretch-set :
    (n : ℕ) (buf : List ℕ) (h v i : ℕ)
    → length buf ≡ consbufsize
    → h < consbufsize
    → n < consbufsize
    → i ≡ place h n
    → stretch (set buf i v) h (suc n) ≡ stretch buf h n ++ (v ∷ [])
unfolding stretch
stretch-set zero buf h v i size hh hn e =
    let at : i ≡ h = ground arith in
    rw at (ap (λ x. x ∷ []) (get_or-set_self buf h v 0 (omega arith)))
stretch-set (suc n) buf h v i size hh hn e =
    let other : i ≢ h = ground arith in
    ground (
      arith,
      get_or-set_ne buf i h v 0 other,
      stretch-set n buf (next h) v i size (ground arith) (omega arith) (ground arith),
    )

pub waiting-store :
    (c : ℕ) (r : Ring) → IsRing r → waiting r < 511 → waiting (store c r) ≡ suc (waiting r)
unfolding store
waiting-store c r h room = ground arith

-- In a buffer that keeps its invariant, with fewer than 511 bytes waiting, a store appends the byte to what waits.
pub pending-store :
    (c : ℕ) (r : Ring) → IsRing r → waiting r < 511 → pending (store c r) ≡ pending r ++ (u8 c ∷ [])
unfolding pending store
pending-store c r h room =
    let count = waiting-store c r h room in
    rw count (
      stretch-set (waiting r) r.buf r.rpos (u8 c) r.wpos h.size h.reader (omega arith)
        (ground arith))

-- With 511 bytes waiting, a store loses all of them: the indices meet, and nothing waits.
pub pending-store_full : (c : ℕ) (r : Ring) → IsRing r → waiting r ≡ 511 → pending (store c r) ≡ []
unfolding pending store stretch
pending-store_full c r h full =
    let none_wait : waiting (store c r) ≡ 0 = ground arith in rw none_wait refl

stretch_cons :
    (buf : List ℕ) (h n k : ℕ)
    → n ≡ suc k
    → stretch buf h n ≡ get_or buf h 0 ∷ stretch buf (next h) k
unfolding stretch
stretch_cons buf h n k e = rw e refl

-- A load takes the oldest byte, and returns 0 and changes nothing where none waits.
pub pending-load :
    (r : Ring)
    → IsRing r
    → ((pending r ≡ []) × (load r ≡ (0, r))) ⊎ (pending r ≡ (load r).0 ∷ pending (load r).1)
unfolding pending load
pending-load r h = elim (Bool-cases (r.rpos == r.wpos)) [
  | inl e ↦ let none_wait : waiting r ≡ 0 = ground arith in inl (rw none_wait refl, rw e refl)
  | inr e ↦ inr (rw e (stretch_cons r.buf r.rpos (waiting r) _ (ground arith)))
]
