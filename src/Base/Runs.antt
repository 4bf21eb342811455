-- ===== src/Base/Runs.antt =====
-- A run that returns, with a result that satisfies a property, and the rules for its steps.
use mathlib.Core.Path.{◌≡◌, refl}
use mathlib.Core.Bool.{Bool, true, false}
use mathlib.Core.Option.{Option, none, some}
use jos.Base.Tests.{if◌then◌else◌, ◌>>=◌}

abbrev pub Yields {ℓ} : {A : Type ℓ} → (A → Type 0) → Option A → Type 0
Yields P none = ⊥
Yields P (some a) = P a

-- The rule for a chain of steps.
pub Yields-bind {ℓ κ} :
    {A : Type ℓ} {B : Type κ} (P : A → Type 0) (Q : B → Type 0) (m : Option A) (f : A → Option B)
    → Yields P m
    → ((a : A) → P a → Yields Q (f a))
    → Yields Q (m >>= f)
Yields-bind P Q none f h k = absurd h
Yields-bind P Q (some a) f h k = k a h

-- The rules for a branch; each side knows how the test came out.
pub Yields-if {ℓ} :
    {A : Type ℓ} (P : A → Type 0) (b : Bool) (m n : Option A)
    → (b ≡ true → Yields P m)
    → (b ≡ false → Yields P n)
    → Yields P (if b then m else n)
Yields-if P true m n h k = h refl
Yields-if P false m n h k = k refl

pub Yields-case {ℓ} :
    {A : Type ℓ} (P : A → Type 0) (b : Bool) (m n : Option A)
    → (b ≡ true → Yields P m)
    → (b ≡ false → Yields P n)
    → Yields P (elim b [ true ↦ m | false ↦ n ])
Yields-case P true m n h k = h refl
Yields-case P false m n h k = k refl

-- The result of such a run.
pub Yields-some {ℓ} :
    {A : Type ℓ} (P : A → Type 0) (m : Option A) → Yields P m → (a : A) × (m ≡ some a) × P a
Yields-some P none h = absurd h
Yields-some P (some a) h = (a, refl, h)

pub Yields-of-some {ℓ} :
    {A : Type ℓ} (P : A → Type 0) (m : Option A) {a : A} → m ≡ some a → P a → Yields P m
Yields-of-some P m e h = rw e h
