-- ===== src/Strings/Search/Laws.antt =====
-- strchr, strfind and strstr against searches in a list of bytes.
use jos.Base.{
  ◌^◌, sign_extend32, ℕ, zero, suc, ◌+◌, ◌<◌, ◌≡◌, refl, Bool, true, false, ◌&&◌, Option, none,
  some, [], ◌∷◌, arith, Bytes, length, All, ◌==◌, if◌then◌else◌,
}
use mathlib.Core.Option
use jos.Base.Memory.{Memory, CString}
use jos.Strings.Compare.{strncmp}
use jos.Strings.Compare.Laws.{IsByte}
use jos.Strings.Length.{strlen_lem}
use jos.Strings.Search.{strchr, strfind, strstr_loop, strstr}

-- The first place of a byte.
unfoldable pub index_of : ℕ → Bytes → Option ℕ
index_of c [] = none
index_of c (x ∷ xs) = if x == c then some 0 else Option.map suc (index_of c xs)

-- The pointer to a place in the string at `s`, or what stands for "not found".
abbrev pub pointer_to : ℕ → ℕ → Option ℕ → ℕ
pointer_to s otherwise none = otherwise
pointer_to s otherwise (some i) = s + i

pointer_to-suc :
    (s otherwise : ℕ) (o : Option ℕ)
    → pointer_to (s + 1) otherwise o ≡ pointer_to s otherwise (Option.map suc o)
pointer_to-suc s otherwise none = refl
pointer_to-suc s otherwise (some i) = omega arith

-- strchr returns the pointer to the first `c`, or NULL where there is none.
pub strchr_lem :
    (fuel : ℕ) (m : Memory) (s c : ℕ) (cs : Bytes)
    → CString m s cs
    → length cs < fuel
    → strchr fuel m s c ≡ some (pointer_to s 0 (index_of c cs))
unfolding strchr index_of
strchr_lem zero m s c cs h lt = absurd (omega arith)
strchr_lem (suc fuel) m s c [] h lt = ground arith
strchr_lem (suc fuel) m s c (x ∷ xs) (hx, nz, rest) lt =
    ground
      (arith, strchr_lem fuel m (s + 1) c xs rest (omega arith), pointer_to-suc s 0 (index_of c xs))

-- strfind returns the pointer to the first `c`, or to the terminating zero where there is none.
pub strfind_lem :
    (fuel : ℕ) (m : Memory) (s c : ℕ) (cs : Bytes)
    → CString m s cs
    → length cs < fuel
    → strfind fuel m s c ≡ some (pointer_to s (s + length cs) (index_of c cs))
unfolding strfind index_of
strfind_lem zero m s c cs h lt = absurd (omega arith)
strfind_lem (suc fuel) m s c [] h lt = ground arith
strfind_lem (suc fuel) m s c (x ∷ xs) (hx, nz, rest) lt =
    let e : s + 1 + length xs ≡ s + suc (length xs) = omega arith in
    ground (
      arith,
      strfind_lem fuel m (s + 1) c xs rest (omega arith),
      pointer_to-suc s (s + suc (length xs)) (index_of c xs),
      e,
    )

unfoldable pub is_prefix : Bytes → Bytes → Bool
is_prefix [] xs = true
is_prefix (y ∷ ys) [] = false
is_prefix (y ∷ ys) (x ∷ xs) = (x == y) && is_prefix ys xs

-- The first place where a byte string stands in another.
unfoldable pub find_sub : Bytes → Bytes → Option ℕ
unfolding is_prefix
find_sub ys [] = if is_prefix ys [] then some 0 else none
find_sub ys (x ∷ xs) = if is_prefix ys (x ∷ xs) then some 0 else Option.map suc (find_sub ys xs)

find_sub-nil : (xs : Bytes) → find_sub [] xs ≡ some 0
unfolding find_sub
find_sub-nil [] = refl
find_sub-nil (x ∷ xs) = refl

strncmp-is_prefix :
    (m : Memory) (p q : ℕ) (xs ys : Bytes)
    → CString m p xs
    → CString m q ys
    → All IsByte xs
    → All IsByte ys
    → (strncmp m p q (length ys) == 0) ≡ is_prefix ys xs
unfolding strncmp is_prefix
strncmp-is_prefix m p q xs [] hx hy bx by = refl
strncmp-is_prefix m p q [] (y ∷ ys) hx hy bx by = ground arith
strncmp-is_prefix m p q (x ∷ xs) (y ∷ ys) hx hy bx by =
    ground (arith, strncmp-is_prefix m (p + 1) (q + 1) xs ys hx.2 hy.2 bx.1 by.1)

strstr_loop_lem :
    (fuel : ℕ) (m : Memory) (p c q : ℕ) (xs ys : Bytes)
    → CString m p xs
    → CString m q ys
    → All IsByte xs
    → All IsByte ys
    → length xs < fuel
    → strstr_loop fuel m p c q (length ys) ≡ some (pointer_to p 0 (find_sub (c ∷ ys) xs))
unfolding strstr_loop find_sub
strstr_loop_lem zero m p c q xs ys hx hy bx by lt = absurd (omega arith)
strstr_loop_lem (suc fuel) m p c q [] ys hx hy bx by lt = ground arith
strstr_loop_lem (suc fuel) m p c q (x ∷ xs) ys hx hy bx by lt = ground (
  arith,
  strstr_loop_lem fuel m (p + 1) c q xs ys hx.2 hy bx.1 by (omega arith),
  strncmp-is_prefix m (p + 1) q xs ys hx.2 hy bx.1 by,
  pointer_to-suc p 0 (find_sub (c ∷ ys) xs),
)

-- strstr returns the pointer to the first place where the second string stands in the first, and
-- NULL where it stands nowhere; for the empty second string that is the first string itself. It
-- returns whenever the fuel is above both lengths. The second string is shorter than 2^31.
pub strstr_lem :
    (fuel : ℕ) (m : Memory) (p q : ℕ) (xs ys : Bytes)
    → CString m p xs
    → CString m q ys
    → All IsByte xs
    → All IsByte ys
    → length xs < fuel
    → length ys < fuel
    → length ys < 2 ^ 31
    → strstr fuel m p q ≡ some (pointer_to p 0 (find_sub ys xs))
unfolding strstr
strstr_lem fuel m p q xs [] hx hy bx by lx ly small =
    let e : p + 0 ≡ p = omega arith in ground (arith, find_sub-nil xs, e)
strstr_lem fuel m p q xs (y ∷ ys) hx hy bx by lx ly small =
    let size : sign_extend32 (length ys) ≡ length ys = ground arith in
    ground (
      arith,
      size,
      strlen_lem fuel m (q + 1) ys hy.2 (omega arith) (omega arith),
      strstr_loop_lem fuel m p y (q + 1) xs ys hx hy.2 bx by.1 lx,
    )
