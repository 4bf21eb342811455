-- ===== src/Debug.antt =====
-- kern/kdebug.c: what the kernel knows of an instruction address. The DWARF library
-- (kern/libdwarf_rw.c and kern/libdwarf_lineno.c) is a parameter.
pub mod Library
pub mod Function
pub mod Lookup
pub mod Fixtures
mod Tests
