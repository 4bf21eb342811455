-- ===== src/Strings/Tests.antt =====
-- The string functions run on small memories.
use jos.Base.{ℕ, ◌-◌, ◌^◌, ◌<◌, ◌≤◌, ◌≡◌, ◌⊎◌, inl, inr, refl, some, ◌∷◌, ◌++◌, arith, codes, All}
use jos.Base.Memory.{Memory, memory_at, CString}
use jos.Strings.Copy.{strlcpy}
use jos.Strings.Copy.Laws.{strlcpy_lem}
use jos.Strings.Compare.{strcmp}
use jos.Strings.Compare.Laws.{IsByte, Compares, strcmp_lem}
use jos.Strings.Search.{memfind, strstr}
use jos.Strings.Search.Laws.{strstr_lem, find_sub}
use jos.Strings.Move.{memmove, memmove_c}
use jos.Strings.Move.Laws.{moved, memmove_lem, memmove-eq-memmove_c}
use jos.Strings.Number.{strtol, digit_of}
use jos.Strings.Number.Laws.{minus, value_of, strtol_lem}

-- "abab" at 10 and "ab" at 15
abbrev texts : Memory
texts = memory_at 10 (codes "abab" ++ (0 ∷ codes "ab"))

first_text : CString texts 10 (codes "abab")
first_text = ground arith

second_text : CString texts 15 (codes "ab")
second_text = ground arith

first_bytes : All IsByte (codes "abab")
first_bytes = ground arith

second_bytes : All IsByte (codes "ab")
second_bytes = ground arith

strlcpy_lem_example :
    ((strlcpy texts 30 10 3).1 ≡ 2)
    × CString (strlcpy texts 30 10 3).0 30 (codes "ab")
    × ((a : ℕ) → (a < 30) ⊎ (33 ≤ a) → (strlcpy texts 30 10 3).0 a ≡ texts a)
strlcpy_lem_example =
    strlcpy_lem texts 30 10 3 (codes "abab") first_text (inr (omega arith)) (omega arith)

strcmp_lem_example :
    (r : ℕ) × (strcmp 9 texts 10 15 ≡ some r) × Compares r (codes "abab") (codes "ab")
strcmp_lem_example =
    strcmp_lem 9 texts 10 15 (codes "abab") (codes "ab") first_text second_text first_bytes
      second_bytes (omega arith)

texts-IsByte : (a : ℕ) → IsByte (texts a)
texts-IsByte a = ground arith

strstr_lem_example : strstr 9 texts 10 15 ≡ some 10
unfolding find_sub
strstr_lem_example =
    strstr_lem 9 texts 10 15 (codes "abab") (codes "ab") first_text second_text first_bytes
      second_bytes (omega arith) (omega arith) (omega arith)

-- memfind stops at the byte, or behind the block.
memfind_run : (memfind texts 10 b'b' 4 ≡ 11) × (memfind texts 10 b'z' 4 ≡ 14)
unfolding memfind
memfind_run = (refl, refl)

-- The blocks overlap, and the copy runs down.
memmove_lem_example : ((memmove texts 12 10 4).0 13 ≡ b'b') × ((memmove texts 12 10 4).1 ≡ 12)
unfolding moved
memmove_lem_example = memmove_lem texts 12 10 4 13

memmove-eq-memmove_c_example :
    ((memmove texts 11 10 3).0 12 ≡ (memmove_c texts 11 10 3).0 12)
    × ((memmove texts 11 10 3).1 ≡ (memmove_c texts 11 10 3).1)
memmove-eq-memmove_c_example = memmove-eq-memmove_c texts 11 10 3 12

-- " -42" at 5
abbrev number : Memory
number = memory_at 5 (codes " -42")

number_text : CString number 5 (codes " -42")
number_text = ground arith

strtol_lem_example : strtol 9 number 5 10 ≡ some (2 ^ 64 - 42, 9)
unfolding value_of digit_of
strtol_lem_example =
    strtol_lem 9 number 5 10 (codes " ") minus (codes "42") number_text (inl refl, tt)
      ((4, refl, omega arith), ((2, refl, omega arith), tt)) (omega arith) (omega arith)
      (omega arith) (omega arith) (omega arith)
