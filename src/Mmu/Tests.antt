-- ===== src/Mmu/Tests.antt =====
-- Addresses and descriptors at concrete numbers.
use jos.Base.{[], ◌∷◌, refl}
use jos.Mmu.Descriptor.{seg, seg64}
use jos.Mmu.Assembler.{
  seg_null, seg_null_bytes, segment_bytes, seg_bytes, seg64_bytes, seg64user_bytes, layout,
  assembler-eq-layout,
}
use jos.Base.{ℕ, ◌≡◌, arith}
use jos.Mmu.Address.{pml4, pdpe, pdx, ptx, pgoff, pgaddr, pgaddr_of_parts}

-- The kernel's base address.
abbrev base_address : ℕ
base_address = 0x8004000000

pgaddr_of_parts_example :
    pgaddr
      (pml4 base_address)
      (pdpe base_address)
      (pdx base_address)
      (ptx base_address)
      (pgoff base_address)
    ≡ base_address
pgaddr_of_parts_example = pgaddr_of_parts base_address (omega arith)

assembler-eq-layout_example :
    (seg_bytes 0xA 0 0xFFFFFFFF ≡ layout (seg 0xA 0 0xFFFFFFFF 0))
    × (seg64_bytes 0xA 0 0xFFFFFFFF ≡ layout (seg64 0xA 0 0xFFFFFFFF 0))
    × (seg64user_bytes 0xA 0 0xFFFFFFFF ≡ layout (seg64 0xA 0 0xFFFFFFFF 3))
    × (seg_null_bytes ≡ layout seg_null)
assembler-eq-layout_example = assembler-eq-layout 0xA 0 0xFFFFFFFF (omega arith)

code_segment : seg64_bytes 0xA 0 0xFFFFFFFF ≡ 0xFF ∷ 0xFF ∷ 0 ∷ 0 ∷ 0 ∷ 0x9A ∷ 0xAF ∷ 0 ∷ []
unfolding seg64_bytes segment_bytes
code_segment = refl
