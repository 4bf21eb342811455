-- ===== src/Debug/Tests.antt =====
-- Runs with the library of Fixtures.
use jos.Base.{ℕ, ◌≡◌, refl, some, [], ◌∷◌, codes, arith, minus_one}
use jos.Debug.Library.{Dbg}
use jos.Debug.Fixtures.{library, blank, second_info, locals, section}
use jos.Debug.Function.{
  Ripdebuginfo, covers, list_func_die, list_args, further_args, type_size, describe, add_arg,
  next_size,
}
use jos.Debug.Function.Laws.{list_func_die_lem}
use jos.Debug.Lookup.{found, not_found, panics, unknown, debuginfo_rip}
use jos.Debug.Lookup.Dies.{first_cover}
use jos.Debug.Lookup.Laws.{
  CompiledUnit, Units, first_unit, debuginfo_rip_finds, debuginfo_rip_misses,
}

abbrev opened : ℕ → Dbg ℕ
opened r = record { info_offset_elf = 0x200000; info_size = 64; rest = r }

abbrev main_unit : CompiledUnit library
main_unit = record { dbg = opened 1; cu = 0; cudie = 1; dies = 2 ∷ 3 ∷ [] }

main_unit-Units : Units library (opened 0) (main_unit ∷ [])
main_unit-Units = (
  λ prev. (refl, refl, refl),
  λ prev. ((λ (e : ◌≡◌ {A = ℕ} 0 4). absurd (omega arith)), refl),
  (
    λ prev. ((λ (e : ◌≡◌ {A = ℕ} 0 4). absurd (omega arith)), refl),
    (λ prev. (refl, refl), λ prev. refl),
  ),
  λ prev. (λ (e : minus_one ≡ 0). absurd (omega arith)),
)

list_func_die_lem_example :
    (info' : Ripdebuginfo) × (list_func_die library 9 0 (opened 1) 0 1 3 0x8004000250 blank
      ≡ some (1, info'))
    × (info'.fn_narg ≡ 2)
    × (info'.file ≡ codes "main.c")
    × (info'.line ≡ 17)
    × (info'.fn_name ≡ codes "second")
    × (info'.fn_namelen ≡ 6)
    × (info'.fn_addr ≡ 0x8004000200)
unfolding covers type_size
list_func_die_lem_example =
    list_func_die_lem library 9 0 (opened 1) 0 1 3 0x8004000250 blank (4 ∷ 5 ∷ []) refl
      (
        (λ (e : ◌≡◌ {A = ℕ} 0 4). absurd (omega arith)),
        refl,
        refl,
        (4, refl),
        (refl, refl, refl, refl),
      )
      (omega arith)

second_run :
    list_func_die library 9 0 (opened 1) 0 1 3 0x8004000250 (unknown 0x8004000250 blank)
    ≡ some (1, second_info)
unfolding list_func_die list_args further_args type_size describe add_arg next_size covers unknown
second_run = refl

debuginfo_rip_finds_example :
    debuginfo_rip library 9 9 section locals 0x8004000250 blank ≡ some (found second_info)
unfolding first_unit first_cover covers
debuginfo_rip_finds_example =
    debuginfo_rip_finds library 9 9 section locals (main_unit ∷ []) 0x8004000250 blank second_info
      main_unit 3 (omega arith) (omega arith) main_unit-Units (omega arith) refl second_run

debuginfo_rip_misses_example :
    debuginfo_rip library 9 9 section locals 0x8004000300 blank
    ≡ some (not_found (unknown 0x8004000300 blank))
unfolding first_unit first_cover covers
debuginfo_rip_misses_example =
    debuginfo_rip_misses library 9 9 section locals (main_unit ∷ []) 0x8004000300 blank
      (omega arith) (omega arith) main_unit-Units (omega arith) refl

user_run :
    debuginfo_rip library 9 9 section locals 0x800000 blank ≡ some (panics (codes "User address"))
unfolding debuginfo_rip
user_run = refl
