-- ===== src/Mmu.antt =====
-- inc/mmu.h: the parts of a linear address, page table entries, and segment and gate descriptors.
pub mod Address
pub mod Descriptor
pub mod Assembler
mod Tests
