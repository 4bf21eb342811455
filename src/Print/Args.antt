-- ===== src/Print/Args.antt =====
-- lib/printfmt.c: getuint and getint. A `va_list` is the function of its 64-bit slots with the
-- index of the next one; each reading is the value with the next index.
use jos.Base.{sign_extend32, ℕ, ◌+◌, leb, ◌==◌, if◌then◌else◌, u32, u64}

abbrev pub Slots : Type 0
Slots = ℕ → ℕ

unfoldable pub getuint : Slots → ℕ → ℕ → ℕ × ℕ
getuint slots next lflag =
    if leb 2 lflag
    then (u64 (slots next), next + 1)
    else if lflag == 0
    then (u32 (slots next), next + 1)
    else (u64 (slots next), next + 1)

unfoldable pub getint : Slots → ℕ → ℕ → ℕ × ℕ
getint slots next lflag =
    if leb 2 lflag
    then (u64 (slots next), next + 1)
    else if lflag == 0
    then (sign_extend32 (u32 (slots next)), next + 1)
    else (u64 (slots next), next + 1)
