-- ===== src/Disk/Boot/Load.antt =====
-- bootmain as a whole: the segments of the kernel, and where it is entered.
use jos.Base.{
  ℕ, ◌+◌, ◌-◌, ◌/◌, ◌%◌, ◌^◌, ◌≤◌, ◌<◌, ◌≡◌, ◌≢◌, ◌⊎◌, inl, inr, refl, sym, ap, ◌∙◌, ◌==◌, true,
  false, some, ◌>>=◌, List, [], ◌∷◌, length, u32, arith,
}
use jos.Base.Memory.{Memory, le16, le32, le64}
use jos.Console.Ports.{Device, outw}
use jos.Disk.Port.{Sectors, Machine}
use jos.Disk.Port.Laws.{IsReady}
use jos.Disk.Boot.{entered, bad, elfhdr, elf_magic, readseg, load_segments, boot_kernel, bootmain}
use jos.Disk.Boot.Laws.{image_byte, boot_readseg_lem}

-- A number in memory depends on its own bytes alone.
le16-window :
    (m m' : Memory) (a : ℕ) → ((b : ℕ) → a ≤ b → b < a + 2 → m' b ≡ m b) → le16 m' a ≡ le16 m a
le16-window m m' a same =
    rw (same a (omega arith) (omega arith), same (a + 1) (omega arith) (omega arith)) refl

le32-window :
    (m m' : Memory) (a : ℕ) → ((b : ℕ) → a ≤ b → b < a + 4 → m' b ≡ m b) → le32 m' a ≡ le32 m a
le32-window m m' a same =
    rw
      (
        le16-window m m' a (λ b lo hi. same b lo (omega arith)),
        le16-window m m' (a + 2) (λ b lo hi. same b (omega arith) (omega arith)),
      )
      refl

le64-window :
    (m m' : Memory) (a : ℕ) → ((b : ℕ) → a ≤ b → b < a + 8 → m' b ≡ m b) → le64 m' a ≡ le64 m a
le64-window m m' a same =
    rw
      (
        le32-window m m' a (λ b lo hi. same b lo (omega arith)),
        le32-window m m' (a + 4) (λ b lo hi. same b (omega arith) (omega arith)),
      )
      refl

-- What a program header says: where the segment goes, its bytes and their place in the image.
pub record Segment : Type 0 where
  pub pa : ℕ
  pub size : ℕ
  pub offset : ℕ

-- The program header stands at `ph` in the page of the ELF header, its segment goes behind that page,
-- and no number overflows.
pub record IsSegment (fuel ph : ℕ) (m : Memory) (x : Segment) : Type 0 where
  pub first : 0x10000 ≤ ph
  pub last : ph + 56 ≤ 0x11000
  pub has_pa : u32 (le64 m (ph + 24)) ≡ x.pa
  pub has_size : u32 (le64 m (ph + 40)) ≡ x.size
  pub has_offset : u32 (le64 m (ph + 8)) ≡ x.offset
  pub aligned : x.pa % 512 ≡ x.offset % 512
  pub behind : 0x11000 + 512 ≤ x.pa
  pub fits : x.pa + x.size + 512 ≤ 2 ^ 32
  pub enough : x.size / 512 + 2 < fuel

abbrev pub AreSegments : ℕ → ℕ → Memory → List Segment → Type 0
AreSegments fuel ph m [] = Unit
AreSegments fuel ph m (x ∷ xs) = IsSegment fuel ph m x × AreSegments fuel (ph + 56) m xs

-- The page of the ELF header is the same.
abbrev SamePage : Memory → Memory → Type 0
SamePage m m' = (a : ℕ) → 0x10000 ≤ a → a < 0x11000 → m' a ≡ m a

IsSegment-congr :
    (fuel ph : ℕ) (m m' : Memory) (x : Segment)
    → SamePage m m'
    → IsSegment fuel ph m x
    → IsSegment fuel ph m' x
IsSegment-congr fuel ph m m' x same g =
    let lo = g.first in
    let hi = g.last in
    record {
      first = lo;
      last = hi;
      has_pa =
          ap u32 (le64-window m m' (ph + 24) (λ b l h. same b (omega arith) (omega arith)))
          ∙ g.has_pa;
      has_size =
          ap u32 (le64-window m m' (ph + 40) (λ b l h. same b (omega arith) (omega arith)))
          ∙ g.has_size;
      has_offset =
          ap u32 (le64-window m m' (ph + 8) (λ b l h. same b (omega arith) (omega arith)))
          ∙ g.has_offset;
      aligned = g.aligned;
      behind = g.behind;
      fits = g.fits;
      enough = g.enough;
    }

AreSegments-congr :
    (fuel ph : ℕ) (m m' : Memory) (xs : List Segment)
    → SamePage m m'
    → AreSegments fuel ph m xs
    → AreSegments fuel ph m' xs
AreSegments-congr fuel ph m m' [] same g = tt
AreSegments-congr fuel ph m m' (x ∷ xs) same (g, gs) =
    (IsSegment-congr fuel ph m m' x same g, AreSegments-congr fuel (ph + 56) m m' xs same gs)

-- The address is in no sector that a segment is read to.
abbrev pub Outside : ℕ → List Segment → Type 0
Outside a [] = Unit
Outside a (x ∷ xs) = ((a + 512 ≤ x.pa) ⊎ (x.pa + x.size + 511 ≤ a)) × Outside a xs

-- No segment is overwritten by a later one.
abbrev pub AreApart : List Segment → Type 0
AreApart [] = Unit
AreApart (x ∷ xs) = ((i : ℕ) → i < x.size → Outside (x.pa + i) xs) × AreApart xs

-- The segments' bytes are in place.
abbrev pub AreLoaded : Sectors → Memory → List Segment → Type 0
AreLoaded sectors m [] = Unit
AreLoaded sectors m (x ∷ xs) =
    ((i : ℕ) → i < x.size → m (x.pa + i) ≡ image_byte sectors (x.offset + i))
    × AreLoaded sectors m xs

module _ (dev : Device) (sectors : Sectors) where
  load_segments_lem :
      (fuel ph : ℕ) (xs : List Segment) (s : Machine)
      → IsReady dev
      → AreSegments fuel ph s.mem xs
      → AreApart xs
      → (s' : Machine) × (load_segments dev sectors fuel (length xs) ph s ≡ some s')
        × AreLoaded sectors s'.mem xs
        × ((a : ℕ) → Outside a xs → s'.mem a ≡ s.mem a)
        × SamePage s.mem s'.mem
  unfolding load_segments
  load_segments_lem fuel ph [] s ready gs apart = (s, refl, tt, (λ a o. refl), λ a lo hi. refl)
  load_segments_lem fuel ph (x ∷ xs) s ready (g, gs) (clear, apart) =
      let behind = g.behind in
      let fits = g.fits in
      let (s₁, run₁, bytes, below, above) =
        boot_readseg_lem dev sectors fuel x.pa x.size x.offset s ready g.aligned fits
          (let e = g.has_offset in omega arith) (let e = g.has_offset in omega arith) g.enough in
      let page : SamePage s.mem s₁.mem = λ a lo hi. below a (omega arith) in
      let (s', run, loaded, others, kept) =
        load_segments_lem fuel (ph + 56) xs s₁ ready
          (AreSegments-congr fuel (ph + 56) s.mem s₁.mem xs page gs) apart in
      (
        s',
        rw (g.has_pa, g.has_size, g.has_offset)
            (ap (λ o. o >>= λ s₂. load_segments dev sectors fuel (length xs) (ph + 56) s₂) run₁
              ∙ run),
        ((λ i lt. others (x.pa + i) (clear i lt) ∙ bytes i lt), loaded),
        (λ a (here, rest). others a rest ∙ elim here [ inl l ↦ below a l | inr u ↦ above a u ]),
        λ a lo hi. kept a lo hi ∙ page a lo hi,
      )

-- The page of the ELF header as it stands in the image.
abbrev pub header_page : Sectors → Memory
header_page sectors = λ a. image_byte sectors (a - 0x10000)

-- An image whose ELF header says that `xs` are the segments and that the kernel starts at `entry`.
pub record IsKernel (sectors : Sectors) (fuel entry ph : ℕ) (xs : List Segment) : Type 0 where
  pub magic : le32 (header_page sectors) 0x10000 ≡ elf_magic
  pub starts : u32 (le64 (header_page sectors) (0x10000 + 24)) ≡ entry
  pub table : u32 (0x10000 + le64 (header_page sectors) (0x10000 + 32)) ≡ ph
  pub count : le16 (header_page sectors) (0x10000 + 56) ≡ length xs
  pub segments : AreSegments fuel ph (header_page sectors) xs
  pub apart : AreApart xs
  pub enough : 10 < fuel

module _ (dev : Device) (sectors : Sectors) where
  -- The ELF header's page is read first.
  page_lem :
      (fuel : ℕ) (s : Machine)
      → IsReady dev
      → 10 < fuel
      → (s₁ : Machine) × (readseg dev sectors fuel elfhdr 4096 0 s ≡ some s₁)
        × SamePage (header_page sectors) s₁.mem
  page_lem fuel s ready enough =
      let (s₁, run, bytes, below, above) =
        boot_readseg_lem dev sectors fuel elfhdr 4096 0 s ready refl (omega arith) (omega arith)
          (omega arith) (omega arith) in
      (
        s₁,
        run,
        λ a lo hi.
            let e : 0x10000 + (a - 0x10000) ≡ a = omega arith in
            let f : 0 + (a - 0x10000) ≡ a - 0x10000 = omega arith in
            ap s₁.mem (sym e) ∙ bytes (a - 0x10000) (omega arith) ∙ ap (image_byte sectors) f,
      )

  boot_kernel_lem :
      (fuel entry ph : ℕ) (xs : List Segment) (s : Machine)
      → IsReady dev
      → IsKernel sectors fuel entry ph xs
      → SamePage (header_page sectors) s.mem
      → (s' : Machine) × (boot_kernel dev sectors fuel s ≡ some (entered entry s'))
        × AreLoaded sectors s'.mem xs
        × ((a : ℕ) → Outside a xs → s'.mem a ≡ s.mem a)
  unfolding boot_kernel
  boot_kernel_lem fuel entry ph xs s ready g page =
      let table : u32 (0x10000 + le64 s.mem (0x10000 + 32)) ≡ ph =
        (ap (λ n. u32 (0x10000 + n))
            (le64-window (header_page sectors) s.mem (0x10000 + 32)
              (λ b lo hi. page b (omega arith) (omega arith)))
          ∙ g.table) in
      let count : le16 s.mem (0x10000 + 56) ≡ length xs =
        (le16-window (header_page sectors) s.mem (0x10000 + 56)
            (λ b lo hi. page b (omega arith) (omega arith))
          ∙ g.count) in
      let (s', run, loaded, others, kept) =
        load_segments_lem dev sectors fuel ph xs s ready
          (AreSegments-congr fuel ph (header_page sectors) s.mem xs page g.segments) g.apart in
      let starts : u32 (le64 s'.mem (0x10000 + 24)) ≡ entry =
        (ap u32 (
            le64-window (header_page sectors) s'.mem (0x10000 + 24)
              (λ b lo hi. kept b (omega arith) (omega arith) ∙ page b (omega arith) (omega arith)))
          ∙ g.starts) in
      (
        s',
        ap
              (λ n.
                load_segments dev sectors fuel n (u32 (0x10000 + le64 s.mem (0x10000 + 32))) s
                >>= λ q. some (entered (u32 (le64 q.mem (0x10000 + 24))) q))
              count
            ∙ ap
                (λ p. load_segments dev sectors fuel (length xs) p s >>= λ q.
                  some (entered (u32 (le64 q.mem (0x10000 + 24))) q))
                table
            ∙ ap (λ o. o >>= λ q. some (entered (u32 (le64 q.mem (0x10000 + 24))) q)) run
            ∙ ap (λ e. some (entered e s')) starts,
        loaded,
        others,
      )

  -- The disk always ready, and on it an image with an ELF header whose segments go behind the header's
  -- page, lie in memory as they lie in the image's sectors and do not overwrite each other, no number
  -- overflowing, and fuel enough for each: bootmain loads the bytes of every segment to its place and
  -- enters the kernel at the address of the header.
  pub bootmain_lem :
      (fuel entry ph : ℕ) (xs : List Segment) (s : Machine)
      → IsReady dev
      → IsKernel sectors fuel entry ph xs
      → (s' : Machine) × (bootmain dev sectors fuel s ≡ some (entered entry s'))
        × AreLoaded sectors s'.mem xs
  unfolding bootmain
  bootmain_lem fuel entry ph xs s ready g =
      let (s₁, read, page) = page_lem fuel s ready g.enough in
      let magic : (le32 s₁.mem 0x10000 == elf_magic) ≡ true =
        (let e =
            le32-window (header_page sectors) s₁.mem 0x10000
              (λ b lo hi. page b (omega arith) (omega arith))
            ∙ g.magic in
          ground arith) in
      let (s', run, loaded, others) = boot_kernel_lem fuel entry ph xs s₁ ready g page in
      (s', rw (read, ◌>>=◌) (rw magic run), loaded)

  -- On a disk that is always ready whose image does not start with the ELF magic number, bootmain, with
  -- fuel for the header's page, enters nothing: it ends in its loop at `bad`, with the two words written
  -- to port 0x8A00.
  pub bootmain_refuses :
      (fuel : ℕ) (s : Machine)
      → IsReady dev
      → le32 (header_page sectors) 0x10000 ≢ elf_magic
      → 10 < fuel
      → (s₁ : Machine) × (bootmain dev sectors fuel s
          ≡ some (bad (record s₁ { io = outw 0x8A00 0x8E00 (outw 0x8A00 0x8A00 s₁.io) })))
  unfolding bootmain
  bootmain_refuses fuel s ready ne enough =
      let (s₁, read, page) = page_lem fuel s ready enough in
      let magic : (le32 s₁.mem 0x10000 == elf_magic) ≡ false =
        (let e =
            le32-window (header_page sectors) s₁.mem 0x10000
              (λ b lo hi. page b (omega arith) (omega arith)) in
          ground arith) in
      (s₁, rw (read, ◌>>=◌) (rw magic refl))
