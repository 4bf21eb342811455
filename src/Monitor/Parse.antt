-- ===== src/Monitor/Parse.antt =====
-- kern/monitor.c: the first half of runcmd, which cuts the command line into words in place.
pub mod Laws
pub mod Cut
use jos.Base.{
  ℕ, zero, suc, ◌+◌, ◌-◌, Bool, true, false, not, ◌&&◌, ◌||◌, ◌==◌, if◌then◌else◌, Option, none,
  some, ◌>>=◌, List, [], ◌∷◌, ◌++◌, Bytes, codes, length,
}
use jos.Base.Memory.{Memory, memory_at, write}
use jos.Strings.Search.{strchr}

-- WHITESPACE, "\t\r\n "
abbrev pub whitespace : Bytes
whitespace = 9 ∷ 13 ∷ 10 ∷ b' ' ∷ []

abbrev pub maxargs : ℕ
maxargs = 16

-- A pointer as a condition.
abbrev is_pointer : Option ℕ → Bool
is_pointer none = false
is_pointer (some p) = not (p == 0)

-- `strchr(WHITESPACE, c)` as a condition; the literal stands at the address 1.
unfoldable pub is_white : ℕ → Bool
unfolding strchr
is_white c = is_pointer (strchr 5 (memory_at 1 whitespace) 1 c)

-- "gobble whitespace"
unfoldable pub gobble : ℕ → Memory → ℕ → Option (Memory × ℕ)
unfolding is_white
gobble zero m buf = none
gobble (suc fuel) m buf = elim (not (m buf == 0) && is_white (m buf)) [
  | true ↦ gobble fuel (write m buf 0) (buf + 1)
  | false ↦ some (m, buf)
]

-- "scan past next arg"
unfoldable pub scan : ℕ → Memory → ℕ → Option ℕ
unfolding is_white
scan zero m buf = none
scan (suc fuel) m buf = elim (not (m buf == 0) && not (is_white (m buf))) [
  | true ↦ scan fuel m (buf + 1)
  | false ↦ some buf
]

-- The words' pointers and the memory, or more words than `argv` has room for.
pub data Parsed : Type 0 where
  parsed : List ℕ → Memory → Parsed
  too_many : Memory → Parsed

-- `while (1)`; `argv` has `argc` entries.
unfoldable pub parse_args : ℕ → Memory → ℕ → List ℕ → Option Parsed
unfolding gobble scan
parse_args zero m buf argv = none
parse_args (suc fuel) m buf argv = gobble fuel m buf >>= λ (m', buf'). elim (m' buf' == 0) [
  | true ↦ some (parsed argv m')
  | false ↦ elim (length argv == maxargs - 1) [
    | true ↦ some (too_many m')
    | false ↦ scan fuel m' buf' >>= λ buf''. parse_args fuel m' buf'' (argv ++ (buf' ∷ []))
  ]
]
