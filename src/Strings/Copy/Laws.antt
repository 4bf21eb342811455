-- ===== src/Strings/Copy/Laws.antt =====
-- What strcpy, strcat, strlcpy and strncpy leave in memory.
use jos.Base.{
  ◌^◌, sign_extend32, u64, ◌>>=◌, ℕ, zero, suc, ◌+◌, ◌-◌, ◌<◌, ◌≤◌, ◌≡◌, ◌⊎◌, inl, refl, ◌∙◌, some,
  [], ◌∷◌, ◌++◌, arith, Bytes, length, take, get_or, min, ◌==◌, ltb, leb, ◌&&◌, true, if◌then◌else◌,
}
use jos.Base.Memory.{Memory, write, CString, CString-congr}
use jos.Strings.Length.{strlen_lem}
use jos.Strings.Copy.{strcpy_loop, strcpy, strcat, strncpy_loop, strncpy, strlcpy_loop, strlcpy}

-- The blocks of `n + 1` bytes at `p` and at `q` do not meet.
abbrev pub Apart : ℕ → ℕ → ℕ → Type 0
Apart p q n = (p + n < q) ⊎ (q + n < p)

-- `m'` differs from `m` at most in `[p, p + n]`.
abbrev pub SameOutside : Memory → Memory → ℕ → ℕ → Type 0
SameOutside m m' p n = (a : ℕ) → (a < p) ⊎ (p + n < a) → m' a ≡ m a

-- A copied string: where the copy stands, and what else changed.
abbrev pub Copied : Memory → Memory → ℕ → Bytes → ℕ → Type 0
Copied m m' dst cs n = CString m' dst cs × SameOutside m m' dst n

-- A string is still there after a write apart from it.
CString-write :
    (m : Memory) (dst v p : ℕ) (cs : Bytes)
    → (dst < p) ⊎ (p + length cs < dst)
    → CString m p cs
    → CString (write m dst v) p cs
CString-write m dst v p cs h c = CString-congr m (write m dst v) p cs (λ a lo hi. ground arith) c

strcpy_loop_lem :
    (fuel : ℕ) (m : Memory) (dst src : ℕ) (cs : Bytes)
    → CString m src cs
    → length cs < fuel
    → Apart dst src (length cs)
    → (m' : Memory) × (strcpy_loop fuel m dst src ≡ some m') × Copied m m' dst cs (length cs)
unfolding strcpy_loop
strcpy_loop_lem zero m dst src cs h lt apart = absurd (omega arith)
strcpy_loop_lem (suc fuel) m dst src [] h lt apart =
    (write m dst (m src), ground arith, (ground arith, λ a o. ground arith))
strcpy_loop_lem (suc fuel) m dst src (c ∷ cs) (hc, nz, rest) lt apart =
    let (m', e, done) =
      strcpy_loop_lem fuel (write m dst (m src)) (dst + 1) (src + 1) cs
        (CString-write m dst (m src) (src + 1) cs (ground arith) rest) (omega arith)
        (ground arith) in
    (
      m',
      ground arith,
      (
        (done.1 dst (inl (omega arith)) ∙ ground arith, nz, done.0),
        λ a o. done.1 a (ground arith) ∙ ground arith,
      ),
    )

-- strcpy returns, with more fuel than the string has bytes: the pointer is `dst`, the string stands
-- there with its zero, and no byte outside the copy has changed. The blocks must not overlap.
pub strcpy_lem :
    (fuel : ℕ) (m : Memory) (dst src : ℕ) (cs : Bytes)
    → CString m src cs
    → length cs < fuel
    → Apart dst src (length cs)
    → (m' : Memory) × (strcpy fuel m dst src ≡ some (m', dst)) × Copied m m' dst cs (length cs)
unfolding strcpy
strcpy_lem fuel m dst src cs h lt apart =
    let (m', e, done) = strcpy_loop_lem fuel m dst src cs h lt apart in (m', rw e, done)

-- A string is made of a prefix that stands before the rest.
CString-append :
    (m m' : Memory) (p : ℕ) (xs ys : Bytes)
    → CString m p xs
    → ((a : ℕ) → p ≤ a → a < p + length xs → m' a ≡ m a)
    → CString m' (p + length xs) ys
    → CString m' p (xs ++ ys)
CString-append m m' p [] ys h same rest = let e : p + 0 ≡ p = omega arith in rw e at rest
CString-append m m' p (a ∷ xs) ys (ha, nz, h) same rest = (
  same p (omega arith) (omega arith) ∙ ha,
  nz,
  CString-append m m' (p + 1) xs ys h (λ b lo hi. same b (omega arith) (omega arith))
      (let e : p + suc (length xs) ≡ p + 1 + length xs = omega arith in rw e at rest),
)

-- strcat leaves the first string followed by the second at `dst` and returns `dst`; only the bytes
-- from the first string's zero on are written. The second string must not meet the space for it. The first
-- string is shorter than 2^31 and ends below 2^64.
pub strcat_lem :
    (fuel : ℕ) (m : Memory) (dst src : ℕ) (xs ys : Bytes)
    → CString m dst xs
    → CString m src ys
    → length xs < fuel
    → length ys < fuel
    → length xs < 2 ^ 31
    → dst + length xs < 2 ^ 64
    → Apart (dst + length xs) src (length ys)
    → (m' : Memory) × (strcat fuel m dst src ≡ some (m', dst))
      × CString m' dst (xs ++ ys)
      × SameOutside m m' (dst + length xs) (length ys)
unfolding strcat
strcat_lem fuel m dst src xs ys ha hb la lb few small apart =
    let there : u64 (dst + sign_extend32 (length xs)) ≡ dst + length xs = ground arith in
    let (m', e, done) = strcpy_lem fuel m (dst + length xs) src ys hb lb apart in
    (
      m',
      rw (strlen_lem fuel m dst xs ha la (omega arith), ◌>>=◌, there) (rw e refl),
      CString-append m m' dst xs ys ha (λ a lo hi. done.1 a (inl hi)) done.0,
      done.1,
    )

strlcpy_loop_lem :
    (room : ℕ) (m : Memory) (dst src : ℕ) (cs : Bytes)
    → CString m src cs
    → Apart dst src (length cs)
    → (m' : Memory) × (end : ℕ) × (strlcpy_loop room m dst src ≡ (m', end))
      × (end ≡ dst + min (length cs) room)
      × CString (write m' end 0) dst (take room cs)
      × ((a : ℕ) → (a < dst) ⊎ (dst + room ≤ a) → m' a ≡ m a)
unfolding strlcpy_loop
strlcpy_loop_lem zero m dst src cs h apart = (m, dst, refl, omega arith, ground arith, λ a o. refl)
strlcpy_loop_lem (suc room) m dst src [] h apart =
    (m, dst, ground arith, omega arith, ground arith, λ a o. refl)
strlcpy_loop_lem (suc room) m dst src (c ∷ cs) (hc, nz, rest) apart =
    let (m', end, e, at, copy, same) =
      strlcpy_loop_lem room (write m dst (m src)) (dst + 1) (src + 1) cs
        (CString-write m dst (m src) (src + 1) cs (ground arith) rest) (ground arith) in
    (
      m',
      end,
      ground arith,
      omega arith,
      (ground (arith, same dst), nz, copy),
      λ a o. same a (ground arith) ∙ ground arith,
    )

-- strlcpy with room for at least the zero, of a string that does not overlap the place it is copied
-- to, for the string's length and its zero: the result is the number of bytes copied, the first
-- `size - 1` bytes of the string or all of it stand at `dst` with a zero behind them, and no byte
-- outside `[dst, dst + size)` has changed.
pub strlcpy_lem :
    (m : Memory) (dst src size : ℕ) (cs : Bytes)
    → CString m src cs
    → Apart dst src (length cs)
    → 0 < size
    → ((strlcpy m dst src size).1 ≡ min (length cs) (size - 1))
      × CString (strlcpy m dst src size).0 dst (take (size - 1) cs)
      × ((a : ℕ) → (a < dst) ⊎ (dst + size ≤ a) → (strlcpy m dst src size).0 a ≡ m a)
unfolding strlcpy
strlcpy_lem m dst src size cs h apart lt =
    let (m', end, e, at, copy, same) = strlcpy_loop_lem (size - 1) m dst src cs h apart in
    let room : ltb 0 size ≡ true = ground arith in
    rw (room, e) (omega arith, copy, λ a o. ground (arith, same a))

get_or-cons :
    (c : ℕ) (cs : Bytes) (i : ℕ) → get_or (c ∷ cs) i 0 ≡ (if i == 0 then c else get_or cs (i - 1) 0)
get_or-cons c cs zero = refl
get_or-cons c cs (suc i) = ground arith

strncpy_loop_lem :
    (rounds : ℕ) (m : Memory) (dst src a : ℕ) (cs : Bytes)
    → CString m src cs
    → (dst + rounds ≤ src) ⊎ (src + length cs < dst)
    → strncpy_loop rounds m dst src a
      ≡ (if leb dst a && ltb a (dst + rounds) then get_or cs (a - dst) 0 else m a)
unfolding strncpy_loop
strncpy_loop_lem zero m dst src a cs h apart = ground arith
strncpy_loop_lem (suc rounds) m dst src a [] h apart = ground (
  arith,
  strncpy_loop_lem rounds (write m dst (m src)) (dst + 1) src a [] (ground arith) (ground arith),
)
strncpy_loop_lem (suc rounds) m dst src a (c ∷ cs) (hc, nz, rest) apart =
    let ih =
      strncpy_loop_lem rounds (write m dst (m src)) (dst + 1) (src + 1) a cs
        (CString-write m dst (m src) (src + 1) cs (ground arith) rest) (ground arith) in
    let next = get_or-cons c cs (a - dst) in ground (arith, ih, next)

-- strncpy writes exactly `size` bytes: the string, cut at `size` and padded with zeros; every other
-- byte is kept.
pub strncpy_lem :
    (m : Memory) (dst src size a : ℕ) (cs : Bytes)
    → CString m src cs
    → (dst + size ≤ src) ⊎ (src + length cs < dst)
    → (strncpy m dst src size).0 a
      ≡ (if leb dst a && ltb a (dst + size) then get_or cs (a - dst) 0 else m a)
unfolding strncpy
strncpy_lem m dst src size a cs h apart = strncpy_loop_lem size m dst src a cs h apart
