-- ===== src/Debug/Library.antt =====
-- The calls of the DWARF library that kern/kdebug.c makes. An operation that fills a structure takes
-- what the structure held before, and gives what it holds then.
use jos.Base.{ℕ, Option, Bytes}

-- `struct _Dwarf_Debug`: the section's address and size, which kern/kdebug.c sets, and the rest.
pub record Dbg (Rest : Type 0) : Type 0 where
  pub info_offset_elf : ℕ
  pub info_size : ℕ
  pub rest : Rest

-- A result that is an `int` is its 32-bit pattern.
pub record Dwarf : Type 1 where
  pub Rest : Type 0
  pub Cu : Type 0
  pub Die : Type 0
  -- `cu_offset`, `die_tag` and the bytes of the string `die_name`
  pub cu_offset : Cu → ℕ
  pub tag : Die → ℕ
  pub name : Die → Bytes
  -- `u[0].u64` of the attribute that _dwarf_attr_find finds, or NULL
  pub attr_find : Die → ℕ → Option ℕ
  pub init : ℕ → Dbg Rest
  pub get_next_cu : Dbg Rest → Cu → ℕ × Cu × Dbg Rest
  -- `none` for the die stands for NULL
  pub siblingof : Dbg Rest → Option Die → Die → Cu → ℕ × Die
  pub child : Dbg Rest → Cu → Die → Die → ℕ × Die
  pub offdie : Dbg Rest → ℕ → Die → Cu → Die
  -- `ln_lineno` of a line record that held zeros, behind dwarf_srclines
  pub srclines : Die → ℕ → ℕ
