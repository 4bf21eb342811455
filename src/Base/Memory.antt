-- ===== src/Base/Memory.antt =====
-- C memory: a byte at each address, and the strings that stand in it. Addresses are numbers; a
-- block that would wrap round the end of the address space is not considered.
use jos.Base.Tests.{if◌then◌else◌, ◌==◌, ltb}
use jos.Base.Lists.{length, get_or}
use jos.Base.Words.{Bytes}
use Prim.Native.Nat.{ℕ, zero, suc, ◌+◌, ◌-◌, ◌*◌, ◌^◌, ◌<◌, ◌≤◌}
use mathlib.Core.Path.{◌≡◌, ap}
use mathlib.Core.Logic.{◌≢◌}
use mathlib.Core.List.{[], ◌∷◌, ◌++◌}
use native.Mathlib.Omega.{arith}

abbrev pub Memory : Type 0
Memory = ℕ → ℕ

abbrev pub write : Memory → ℕ → ℕ → Memory
write m a v = λ b. if b == a then v else m b

-- A memory that holds a list of bytes from an address on, and zeros elsewhere.
abbrev pub memory_at : ℕ → Bytes → Memory
memory_at base bytes = λ a. if ltb a base then 0 else get_or bytes (a - base) 0

-- The bytes `cs`, none of them zero, stand from `p` on, with a zero behind them.
abbrev pub CString : Memory → ℕ → Bytes → Type 0
CString m p [] = m p ≡ 0
CString m p (c ∷ cs) = (m p ≡ c) × (c ≢ 0) × CString m (p + 1) cs

-- The `n` bytes from `p` on.
abbrev pub read_bytes : Memory → ℕ → ℕ → Bytes
read_bytes m p zero = []
read_bytes m p (suc n) = m p ∷ read_bytes m (p + 1) n

-- Numbers of 2, 4 and 8 bytes, least byte first.
abbrev pub le16 : Memory → ℕ → ℕ
le16 m a = m a + m (a + 1) * 2 ^ 8

abbrev pub le32 : Memory → ℕ → ℕ
le32 m a = le16 m a + le16 m (a + 2) * 2 ^ 16

abbrev pub le64 : Memory → ℕ → ℕ
le64 m a = le32 m a + le32 m (a + 4) * 2 ^ 32

-- `CString` looks at no address outside the string and its zero.
pub CString-congr :
    (m m' : Memory) (p : ℕ) (cs : Bytes)
    → ((a : ℕ) → p ≤ a → a ≤ p + length cs → m' a ≡ m a)
    → CString m p cs
    → CString m' p cs
CString-congr m m' p [] same h = rw (same p (omega arith) (omega arith)) h
CString-congr m m' p (c ∷ cs) same (hc, nz, rest) = (
  rw (same p (omega arith) (omega arith)) hc,
  nz,
  CString-congr m m' (p + 1) cs (λ a lo hi. same a (omega arith) (omega arith)) rest,
)

-- A byte inside a string is not zero.
pub CString-ne-zero :
    (m : Memory) (p : ℕ) (cs : Bytes) (i : ℕ) → CString m p cs → i < length cs → m (p + i) ≢ 0
CString-ne-zero m p [] i h lt = absurd (omega arith)
CString-ne-zero m p (c ∷ cs) zero (hc, nz, rest) lt =
    λ e. nz (omega (arith, ap m (let q : p + 0 ≡ p = omega arith in q)))
CString-ne-zero m p (c ∷ cs) (suc i) (hc, nz, rest) lt = λ e.
    CString-ne-zero m (p + 1) cs i rest (omega arith)
      (omega (arith, ap m (let q : p + 1 + i ≡ p + suc i = omega arith in q)))

-- The bytes `cs` stand from `p` on.
abbrev pub Stands : Memory → ℕ → Bytes → Type 0
Stands m p [] = Unit
Stands m p (c ∷ cs) = (m p ≡ c) × Stands m (p + 1) cs

pub CString-split :
    (m : Memory) (p : ℕ) (xs ys : Bytes)
    → CString m p (xs ++ ys)
    → Stands m p xs × CString m (p + length xs) ys
CString-split m p [] ys h = (tt, (let e : p + 0 ≡ p = omega arith in rw e h))
CString-split m p (x ∷ xs) ys (hx, nz, rest) =
    let (stands, after) = CString-split m (p + 1) xs ys rest in
    ((hx, stands), (let e : p + suc (length xs) ≡ p + 1 + length xs = omega arith in rw e after))
