-- ===== src/Strings/Search.antt =====
-- lib/string.c: strchr, strfind, memfind and strstr. A pointer is an address, and NULL is 0.
pub mod Laws
use jos.Base.{
  ℕ, zero, suc, ◌+◌, ◌-◌, true, false, Option, none, some, ◌==◌, if◌then◌else◌, ◌>>=◌, u8,
  sign_extend32,
}
use jos.Base.Memory.{Memory}
use jos.Strings.Length.{strlen}
use jos.Strings.Compare.{strncmp}

unfoldable pub strchr : ℕ → Memory → ℕ → ℕ → Option ℕ
strchr zero m s c = none
strchr (suc fuel) m s c = elim (m s == 0) [
  | true ↦ some 0
  | false ↦ elim (m s == c) [ true ↦ some s | false ↦ strchr fuel m (s + 1) c ]
]

pub strfind : ℕ → Memory → ℕ → ℕ → Option ℕ
strfind zero m s c = none
strfind (suc fuel) m s c = elim (m s == 0) [
  | true ↦ some s
  | false ↦ elim (m s == c) [ true ↦ some s | false ↦ strfind fuel m (s + 1) c ]
]

-- The last argument is the bytes left, `ends - s`.
unfoldable pub memfind : Memory → ℕ → ℕ → ℕ → ℕ
memfind m s c zero = s
memfind m s c (suc n) = elim (m s == u8 c) [ true ↦ s | false ↦ memfind m (s + 1) c n ]

-- The two `do` loops: the inner one runs to a byte `c`, the outer one compares what follows it
-- with the `len` bytes of `str`. The result is `in - 1`, or 0 at the end of the string.
strstr_loop : ℕ → Memory → ℕ → ℕ → ℕ → ℕ → Option ℕ
unfolding strncmp
strstr_loop zero m in_ptr c str len = none
strstr_loop (suc fuel) m in_ptr c str len = elim (m in_ptr == 0) [
  | true ↦ some 0
  | false ↦ elim (m in_ptr == c) [
    | true ↦ elim (strncmp m (in_ptr + 1) str len == 0) [
      | true ↦ some (in_ptr + 1 - 1)
      | false ↦ strstr_loop fuel m (in_ptr + 1) c str len
    ]
    | false ↦ strstr_loop fuel m (in_ptr + 1) c str len
  ]
]

-- strlen returns an `int`, which is converted to `size_t`.
pub strstr : ℕ → Memory → ℕ → ℕ → Option ℕ
strstr fuel m in_ptr str = if m str == 0 then some in_ptr else (do
  len ← strlen fuel m (str + 1)
  strstr_loop fuel m in_ptr (m str) (str + 1) (sign_extend32 len))
