-- ===== src/Mmu/Address.antt =====
-- inc/mmu.h, part 1: linear addresses. An address is a `uintptr_t`, a number below 2^64; `& 0x1FF` is
-- the remainder by 2^9, `& ~0xFFF` takes the remainder by 2^12 away, and `|` of fields that share
-- no bit is their sum.
use jos.Base.{ℕ, ◌+◌, ◌-◌, ◌*◌, ◌/◌, ◌%◌, ◌^◌, ◌<◌, ◌≡◌, arith}

abbrev pub ptxshift : ℕ
ptxshift = 12

abbrev pub pdxshift : ℕ
pdxshift = 21

abbrev pub pdpeshift : ℕ
pdpeshift = 30

abbrev pub pml4shift : ℕ
pml4shift = 39

abbrev pub pgsize : ℕ
pgsize = 4096

abbrev pub nptentries : ℕ
nptentries = 512

abbrev pub ptsize : ℕ
ptsize = pgsize * nptentries

-- PPN, VPN and PGNUM
unfoldable pub ppn : ℕ → ℕ
ppn pa = pa / 2 ^ ptxshift

unfoldable pub vpd : ℕ → ℕ
vpd la = la / 2 ^ pdxshift

unfoldable pub vpdpe : ℕ → ℕ
vpdpe la = la / 2 ^ pdpeshift

unfoldable pub vpml4e : ℕ → ℕ
vpml4e la = la / 2 ^ pml4shift

unfoldable pub pdx : ℕ → ℕ
pdx la = la / 2 ^ pdxshift % 2 ^ 9

unfoldable pub pml4 : ℕ → ℕ
pml4 la = la / 2 ^ pml4shift % 2 ^ 9

unfoldable pub ptx : ℕ → ℕ
ptx la = la / 2 ^ ptxshift % 2 ^ 9

unfoldable pub pdpe : ℕ → ℕ
pdpe la = la / 2 ^ pdpeshift % 2 ^ 9

unfoldable pub pgoff : ℕ → ℕ
pgoff la = la % 2 ^ 12

-- PGADDR, of indexes below 512 and an offset below 4096
unfoldable pub pgaddr : ℕ → ℕ → ℕ → ℕ → ℕ → ℕ
pgaddr m p d t o = m * 2 ^ pml4shift + p * 2 ^ pdpeshift + d * 2 ^ pdxshift + t * 2 ^ ptxshift + o

unfoldable pub pte_addr : ℕ → ℕ
pte_addr pte = pte - pte % 2 ^ 12

-- PGADDR puts the five parts of a 48-bit address together again.
pub pgaddr_of_parts :
    (la : ℕ) → la < 2 ^ 48 → pgaddr (pml4 la) (pdpe la) (pdx la) (ptx la) (pgoff la) ≡ la
unfolding pgaddr pml4 pdpe pdx ptx pgoff
pgaddr_of_parts la h = omega arith

-- Each macro takes its own part out of what PGADDR puts together, and the sum is a 48-bit address.
pub parts_of_pgaddr :
    (m p d t o : ℕ)
    → m < 512
    → p < 512
    → d < 512
    → t < 512
    → o < 4096
    → (pgaddr m p d t o < 2 ^ 48)
      × (pml4 (pgaddr m p d t o) ≡ m)
      × (pdpe (pgaddr m p d t o) ≡ p)
      × (pdx (pgaddr m p d t o) ≡ d)
      × (ptx (pgaddr m p d t o) ≡ t)
      × (pgoff (pgaddr m p d t o) ≡ o)
unfolding pgaddr pml4 pdpe pdx ptx pgoff
parts_of_pgaddr m p d t o hm hp hd ht ho = omega arith

-- The page numbers at each level are the indexes above it, read as one number.
pub page_numbers :
    (la : ℕ)
    → la < 2 ^ 48
    → (vpml4e la ≡ pml4 la)
      × (vpdpe la ≡ vpml4e la * 512 + pdpe la)
      × (vpd la ≡ vpdpe la * 512 + pdx la)
      × (ppn la ≡ vpd la * 512 + ptx la)
      × (pte_addr la ≡ ppn la * pgsize)
unfolding vpml4e pml4 vpdpe pdpe vpd pdx ppn ptx pte_addr
page_numbers la h = omega arith
