-- ===== src/Disk.antt =====
-- boot/main.c and kern/elf_rw.c: the IDE disk. Both files have waitdisk, readsect and readseg; the
-- loader's are 32 bits wide, the kernel's 64.
pub mod Port
pub mod Boot
pub mod Segment
pub mod Sections
pub mod Fixtures
mod Tests
