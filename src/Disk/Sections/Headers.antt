-- ===== src/Disk/Sections/Headers.antt =====
-- read_section_headers as a whole.
use jos.Base.{
  ℕ, ◌+◌, ◌*◌, ◌-◌, ◌/◌, ◌%◌, ◌^◌, ◌≤◌, ◌<◌, ◌≡◌, refl, sym, ap, ◌∙◌, ltb, false, Option, some,
  ◌>>=◌, List, [], ◌∷◌, u64, arith, length,
}
use jos.Base.Memory.{Memory, CString-congr, le16, le32, le64}
use jos.Console.Ports.{Device}
use jos.Disk.Port.{Sectors, Machine}
use jos.Disk.Port.Laws.{IsReady}
use jos.Disk.Boot.Laws.{image_byte}
use jos.Disk.Segment.{readseg}
use jos.Disk.Segment.Laws.{sectors_read, kernel_readseg_lem}
use jos.Rounding.{round_up, round_up_lem}
use jos.Disk.Sections.{
  Kind, Names, Table, Loading, sh_name, sh_offset, sh_size, kelfhdr, offset_correct, read_sections,
  read_headers, headers_read, read_section_headers,
}
use jos.Disk.Sections.Labels.{label}
use jos.Disk.Sections.Laws.{offset_correct_lem}
use jos.Disk.Sections.Loop.{Header, IsEntry, sectors_read-bound}
use jos.Disk.Sections.Installed.{AreNamesBelow, total, Installed, Absent, IsLast, IsEntry-widen}
use jos.Disk.Sections.NameTable.{AreListed, read_sections_lem}

le32-shift :
    (m m' : Memory) (a b : ℕ) → ((i : ℕ) → i < 4 → m' (b + i) ≡ m (a + i)) → le32 m' b ≡ le32 m a
le32-shift m m' a b same =
    let e₀ : m' b ≡ m a =
      (let p : b + 0 ≡ b = omega arith in
        let q : a + 0 ≡ a = omega arith in ap m' (sym p) ∙ same 0 (omega arith) ∙ ap m q) in
    let e₃ : m' (b + 2 + 1) ≡ m (a + 2 + 1) =
      (let p : b + 2 + 1 ≡ b + 3 = omega arith in
        let q : a + 3 ≡ a + 2 + 1 = omega arith in ap m' p ∙ same 3 (omega arith) ∙ ap m q) in
    rw (e₀, same 1 (omega arith), same 2 (omega arith), e₃) refl

-- The same number at another place, `k` bytes behind two places with the same bytes.
shifted :
    (m m' : Memory) (a b n k : ℕ)
    → ((i : ℕ) → i < n → m' (b + i) ≡ m (a + i))
    → (i : ℕ) → k + i < n
    → m' (b + k + i) ≡ m (a + k + i)
shifted m m' a b n k same i lt =
    let p : b + k + i ≡ b + (k + i) = omega arith in
    let q : a + (k + i) ≡ a + k + i = omega arith in ap m' p ∙ same (k + i) lt ∙ ap m q

le64-shift :
    (m m' : Memory) (a b n k : ℕ)
    → ((i : ℕ) → i < n → m' (b + i) ≡ m (a + i))
    → k + 8 ≤ n
    → le64 m' (b + k) ≡ le64 m (a + k)
le64-shift m m' a b n k same le =
    let at = shifted m m' a b n k same in
    let low : le32 m' (b + k) ≡ le32 m (a + k) =
      le32-shift m m' (a + k) (b + k) (λ i lt. at i (omega arith)) in
    let high : le32 m' (b + k + 4) ≡ le32 m (a + k + 4) =
      le32-shift m m' (a + k + 4) (b + k + 4)
        (λ i lt. shifted m m' (a + k) (b + k) 8 4 (λ j l. at j (omega arith)) i (omega arith)) in
    rw (low, high) refl

le16-below :
    (m m' : Memory) (a floor : ℕ)
    → a + 2 ≤ floor
    → ((b : ℕ) → b < floor → m' b ≡ m b)
    → le16 m' a ≡ le16 m a
le16-below m m' a floor le same = rw (same a (omega arith), same (a + 1) (omega arith)) refl

-- Headers that have been copied from `a` in `m` to `b` in `m'`, below `floor`.
relocated :
    (sectors : Sectors) (fuel floor floor' strings strings_size a b : ℕ) (m m' : Memory)
    (xs : List Header)
    → b + length xs * 64 ≤ floor'
    → ((i : ℕ) → i < length xs * 64 → m' (b + i) ≡ m (a + i))
    → AreListed sectors fuel floor strings strings_size a m xs
    → AreListed sectors fuel floor' strings strings_size b m' xs
relocated sectors fuel floor floor' strings strings_size a b m m' [] low same gs = tt
relocated sectors fuel floor floor' strings strings_size a b m m' (x ∷ xs) low same (g, gs) =
    let name' : sh_name m' b ≡ sh_name m a = le32-shift m m' a b (λ i lt. same i (omega arith)) in
    (
      record {
        low = omega arith;
        name = rw name' g.name;
        within = rw name' g.within;
        letters = g.letters;
        short = g.short;
        has_address =
            le64-shift m m' a b (length (x ∷ xs) * 64) 16 same (omega arith) ∙ g.has_address;
        has_offset =
            le64-shift m m' a b (length (x ∷ xs) * 64) 24 same (omega arith) ∙ g.has_offset;
        has_size = le64-shift m m' a b (length (x ∷ xs) * 64) 32 same (omega arith) ∙ g.has_size;
        enough = g.enough;
        disk = g.disk;
      },
      relocated sectors fuel floor floor' strings strings_size (a + 64) (b + 64) m m' xs
          (omega arith) (λ i lt. shifted m m' a b (length (x ∷ xs) * 64) 64 same i (omega arith))
          gs,
    )

-- The ELF header at `kelfhdr`, the image that it describes, and the numbers that are asked of them:
-- `xs` are the sections, of which the one with the number `index` is the table of names, of
-- `strings_size` bytes from `strings` on.
pub record IsImage (sectors : Sectors) (names : Names)
    (fuel to_va shoff index strings strings_size : ℕ) (m : Memory) (xs : List Header) : Type 0 where
  pub loaded : kelfhdr + 64 ≤ to_va
  pub offset : le64 m (kelfhdr + 40) ≡ shoff
  pub entry_size : le16 m (kelfhdr + 58) ≡ 64
  pub count : le16 m (kelfhdr + 60) ≡ length xs
  pub names_index : le16 m (kelfhdr + 62) ≡ index
  pub few : length xs ≤ 20
  pub inside : index < length xs
  pub names_offset : sh_offset (image_byte sectors) (shoff + index * 64) ≡ strings
  pub names_size : sh_size (image_byte sectors) (shoff + index * 64) ≡ strings_size
  pub named : 0 < strings_size
  pub enough : strings_size / 512 + 5 < fuel
  pub disk : shoff + 4096 < 2 ^ 36
  pub names_disk : strings + strings_size + 2048 < 2 ^ 36
  pub memory : to_va + strings_size + total xs + 16384 < 2 ^ 64
  pub literals : AreNamesBelow to_va m names
  pub headers :
      AreListed sectors fuel
        (shoff + length xs * 64)
        strings
        strings_size
        shoff
        (image_byte sectors)
        xs

module _ (dev : Device) (sectors : Sectors) (names : Names) where
  read_section_headers-eq :
      (fuel to_va kvbase shoff count kv' secthdr : ℕ) (s s' : Machine) (table : Table)
      (r : Option (ℕ × Loading))
      → round_up to_va 512 ≡ kvbase
      → le64 s.mem (kelfhdr + 40) ≡ shoff
      → le16 s.mem (kelfhdr + 60) ≡ count
      → le16 s.mem (kelfhdr + 58) ≡ 64
      → count ≤ 20
      → readseg dev sectors fuel kvbase (count * 64) shoff 0 s ≡ some (s', kv')
      → u64 (kvbase + offset_correct shoff) ≡ secthdr
      → read_sections dev sectors names fuel kelfhdr kvbase secthdr count
          (record { machine = s'; kvoffset = kv'; table = table })
        ≡ r
      → read_section_headers dev sectors names fuel kelfhdr to_va s table ≡ r
  unfolding read_section_headers read_headers headers_read
  read_section_headers-eq fuel to_va kvbase shoff count kv' secthdr s s' table r e_base e_off
        e_count e_size few run place rest =
      let small : ltb 20 count ≡ false = ground arith in
      rw (e_base, e_off, e_count, e_size) (rw small (rw (run, ◌>>=◌) (rw place rest)))

  -- From the headers in memory on.
  after_headers :
      (fuel to_va shoff index strings strings_size kvbase kv' : ℕ) (s s₁ : Machine) (table : Table)
      (xs : List Header)
      → IsReady dev
      → IsImage sectors names fuel to_va shoff index strings strings_size s.mem xs
      → kvbase % 512 ≡ 0
      → to_va ≤ kvbase
      → kvbase < to_va + 512
      → kv' % 512 ≡ 0
      → kv' ≤ length xs * 64 + 1024
      → shoff % 512 + length xs * 64 ≤ kv'
      → ((i : ℕ)
          → i < length xs * 64
          → s₁.mem (kvbase + shoff % 512 + i) ≡ image_byte sectors (shoff + i))
      → ((a : ℕ) → a < kvbase → s₁.mem a ≡ s.mem a)
      → (st₁ : Loading) × (st' : Loading) × (read_sections dev sectors names fuel kelfhdr kvbase
            (kvbase + shoff % 512)
            (length xs)
            (record { machine = s₁; kvoffset = kv'; table = table })
          ≡ some (kvbase + st'.kvoffset, st'))
        × (st₁.table ≡ table)
        × (kv' ≤ st₁.kvoffset)
        × ((a : ℕ) → a < kvbase + kv' → st₁.machine.mem a ≡ s₁.mem a)
        × Installed sectors kvbase xs st₁ st'
  unfolding AreNamesBelow
  after_headers fuel to_va shoff index strings strings_size kvbase kv' s s₁ table xs ready g base
        over near start bound fits bytes under =
      let few = g.few in
      let inside = g.inside in
      let memory = g.memory in
      let loaded = g.loaded in
      let enough = g.enough in
      let at = kvbase + shoff % 512 in
      let here : (i : ℕ)
          → i < 64
          → s₁.mem (at + index * 64 + i) ≡ image_byte sectors (shoff + index * 64 + i) =
        λ i lt.
          shifted (image_byte sectors) s₁.mem shoff at (length xs * 64) (index * 64) bytes i
            (omega arith) in
      read_sections_lem dev sectors names fuel kelfhdr kvbase at index strings strings_size xs
        (record { machine = s₁; kvoffset = kv'; table = table }) ready base start
        (le16-below s.mem s₁.mem (kelfhdr + 62) kvbase (omega arith) under ∙ g.names_index) inside
        (omega arith)
        (le64-shift (image_byte sectors) s₁.mem (shoff + index * 64) (at + index * 64) 64 24 here
            (omega arith)
          ∙ g.names_offset)
        (le64-shift (image_byte sectors) s₁.mem (shoff + index * 64) (at + index * 64) 64 32 here
            (omega arith)
          ∙ g.names_size)
        g.named (omega arith) g.names_disk (omega arith)
        (λ k.
          let b = (g.literals k).1 in
          (
            CString-congr s.mem s₁.mem (names k) (label k) (λ a lo hi. under a (omega arith))
                (g.literals k).0,
            omega arith,
          ))
        (relocated sectors fuel (shoff + length xs * 64) (kvbase + kv') strings strings_size shoff
          at (image_byte sectors) s₁.mem xs (omega arith) bytes g.headers)

  -- The kernel's ELF header is at its address, and the sections' headers and their names are in the
  -- image on a disk that is always ready; no number overflows, and the fuel is enough for each section.
  -- Then read_section_headers passes its assertions and returns the end of what it has written, behind
  -- `to_va`. The table's entry of a debug section is, by the last header with the section's name, its
  -- size and the address of a copy of its bytes, between `to_va` and the end, or, for .eh_frame, the
  -- address in the header; an entry whose name no header has stays, and so does the memory below
  -- `to_va`.
  pub read_section_headers_lem :
      (fuel to_va shoff index strings strings_size : ℕ) (s : Machine) (table : Table)
      (xs : List Header)
      → IsReady dev
      → IsImage sectors names fuel to_va shoff index strings strings_size s.mem xs
      → (end : ℕ) × (st' : Loading) × (read_section_headers dev sectors names fuel kelfhdr to_va s
            table
          ≡ some (end, st'))
        × ((k : Kind) (x : Header)
            → IsLast k x xs
            → IsEntry sectors k x to_va end st'.machine.mem (st'.table k))
        × ((k : Kind) → Absent k xs → st'.table k ≡ table k)
        × ((a : ℕ) → a < to_va → st'.machine.mem a ≡ s.mem a)
  read_section_headers_lem fuel to_va shoff index strings strings_size s table xs ready g =
      let n = length xs in
      let kvbase = round_up to_va 512 in
      let few = g.few in
      let inside = g.inside in
      let memory = g.memory in
      let disk = g.disk in
      let enough = g.enough in
      let (base, over, near) = round_up_lem to_va 512 (omega arith) (omega arith) in
      let bound = sectors_read-bound (n * 64) shoff in
      let (s₁, run₁, bytes, held, under, above) =
        kernel_readseg_lem dev sectors fuel kvbase (n * 64) shoff 0 s ready base (omega arith)
          (omega arith) (omega arith) (omega arith) (omega arith) in
      let last = held (n * 64 - 1) (omega arith) in
      let (st₁, st', run₂, same_table, up, kept, installed) =
        after_headers fuel to_va shoff index strings strings_size kvbase
          (0 + sectors_read (n * 64) shoff * 512) s s₁ table xs ready g base over near (omega arith)
          (omega arith) (omega arith) bytes under in
      let grown = installed.grows in
      (
        kvbase + st'.kvoffset,
        st',
        read_section_headers-eq fuel to_va kvbase shoff n (0 + sectors_read (n * 64) shoff * 512)
            (kvbase + shoff % 512) s s₁ table _ refl g.offset g.count g.entry_size few run₁
            (rw (offset_correct_lem shoff (omega arith)) (omega arith)) run₂,
        (λ k x l.
            IsEntry-widen sectors k x (kvbase + st₁.kvoffset) to_va (kvbase + st'.kvoffset)
              (kvbase + st'.kvoffset) st'.machine.mem st'.machine.mem (st'.table k) (omega arith)
              (omega arith) (λ a lt. refl) (installed.entry k x l)),
        (λ k gone. installed.others k gone ∙ ap (λ t. t k) same_table),
        λ a lt. installed.kept a (omega arith) ∙ kept a (omega arith) ∙ under a (omega arith),
      )
