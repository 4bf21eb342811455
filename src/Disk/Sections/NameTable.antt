-- ===== src/Disk/Sections/NameTable.antt =====
-- The second half of read_section_headers: from the headers in memory on, with the table of names.
use jos.Base.{
  ℕ, suc, ◌+◌, ◌*◌, ◌-◌, ◌/◌, ◌%◌, ◌^◌, ◌≤◌, ◌<◌, ◌≡◌, refl, sym, ap, ◌∙◌, ltb, true, some, ◌>>=◌,
  List, [], ◌∷◌, u64, arith, Bytes, length, All,
}
use jos.Base.Memory.{Memory, CString, CString-congr, le16}
use jos.Console.Ports.{Device}
use jos.Disk.Port.{Sectors, Machine}
use jos.Disk.Port.Laws.{IsReady}
use jos.Disk.Boot.Laws.{image_byte}
use jos.Disk.Segment.{readseg}
use jos.Disk.Segment.Laws.{sectors_read, kernel_readseg_lem}
use jos.Strings.Compare.Laws.{IsByte}
use jos.Disk.Sections.{
  Names, Table, Loading, sh_name, sh_addr, sh_offset, sh_size, secthdr_ptr, offset_correct,
  section_loop, names_read, read_names, read_sections,
}
use jos.Disk.Sections.Labels.{label}
use jos.Disk.Sections.Laws.{offset_correct_lem, le32-congr, le64-congr}
use jos.Disk.Sections.Loop.{Header, IsHeader, AreHeaders, sectors_read-bound}
use jos.Disk.Sections.Installed.{AreNamesBelow, total, Installed, section_loop_lem}

-- A string that stands in the same bytes elsewhere.
CString-shift :
    (m m' : Memory) (p q : ℕ) (cs : Bytes)
    → ((i : ℕ) → i ≤ length cs → m (p + i) ≡ m' (q + i))
    → CString m' q cs
    → CString m p cs
CString-shift m m' p q [] same h =
    let e : m (p + 0) ≡ m' (q + 0) = same 0 (omega arith) in
    let f : p + 0 ≡ p = omega arith in
    let g : q + 0 ≡ q = omega arith in ap m (sym f) ∙ e ∙ ap m' g ∙ h
CString-shift m m' p q (c ∷ cs) same (hc, nz, rest) =
    let e : m (p + 0) ≡ m' (q + 0) = same 0 (omega arith) in
    let f : p + 0 ≡ p = omega arith in
    let g : q + 0 ≡ q = omega arith in
    (
      ap m (sym f) ∙ e ∙ ap m' g ∙ hc,
      nz,
      CString-shift m m' (p + 1) (q + 1) cs
          (λ i le.
            let a : p + 1 + i ≡ p + suc i = omega arith in
            let b : q + 1 + i ≡ q + suc i = omega arith in
            ap m a ∙ same (suc i) (omega arith) ∙ ap m' (sym b))
          rest,
    )

-- A header that stands at `h` below `floor`, whose name stands in the image's table of names, of
-- `strings_size` bytes at `strings`.
pub record IsListed (sectors : Sectors) (fuel floor strings strings_size h : ℕ) (m : Memory)
    (x : Header) : Type 0 where
  pub low : h + 64 ≤ floor
  pub name : CString (image_byte sectors) (strings + sh_name m h) x.word
  pub within : sh_name m h + length x.word < strings_size
  pub letters : All IsByte x.word
  pub short : length x.word < fuel
  pub has_address : sh_addr m h ≡ x.address
  pub has_offset : sh_offset m h ≡ x.offset
  pub has_size : sh_size m h ≡ x.size
  pub enough : x.size / 512 + 2 < fuel
  pub disk : x.offset + x.size + 2048 < 2 ^ 36

abbrev pub AreListed : Sectors → ℕ → ℕ → ℕ → ℕ → ℕ → Memory → List Header → Type 0
AreListed sectors fuel floor strings strings_size h m [] = Unit
AreListed sectors fuel floor strings strings_size h m (x ∷ xs) =
    IsListed sectors fuel floor strings strings_size h m x
    × AreListed sectors fuel floor strings strings_size (h + 64) m xs

-- The table of names has been read behind `floor`, to `nametab`.
listed :
    (sectors : Sectors) (fuel floor high strings strings_size nametab h : ℕ) (m m' : Memory)
    (x : Header)
    → floor ≤ high
    → nametab + strings_size < 2 ^ 64
    → nametab + strings_size ≤ high
    → ((a : ℕ) → a < floor → m' a ≡ m a)
    → ((i : ℕ) → i < strings_size → m' (nametab + i) ≡ image_byte sectors (strings + i))
    → IsListed sectors fuel floor strings strings_size h m x
    → IsHeader fuel high nametab h m' x
listed sectors fuel floor high strings strings_size nametab h m m' x up room fit same bytes g =
    let low = g.low in
    let within = g.within in
    let name' : sh_name m' h ≡ sh_name m h = le32-congr m m' h (λ b lt. same b (omega arith)) in
    let place : u64 (nametab + sh_name m h) ≡ nametab + sh_name m h = omega arith in
    record {
      low = omega arith;
      name =
          rw (name', place)
            (CString-shift m' (image_byte sectors) (nametab + sh_name m h) (strings + sh_name m h)
              x.word
              (λ i le.
                let a : nametab + sh_name m h + i ≡ nametab + (sh_name m h + i) = omega arith in
                let b : strings + sh_name m h + i ≡ strings + (sh_name m h + i) = omega arith in
                ap m' a ∙ bytes (sh_name m h + i) (omega arith) ∙ ap (image_byte sectors) (sym b))
              g.name);
      name_low = rw (name', place) (omega arith);
      letters = g.letters;
      short = g.short;
      has_address = le64-congr m m' (h + 16) (λ b lt. same b (omega arith)) ∙ g.has_address;
      has_offset = le64-congr m m' (h + 24) (λ b lt. same b (omega arith)) ∙ g.has_offset;
      has_size = le64-congr m m' (h + 32) (λ b lt. same b (omega arith)) ∙ g.has_size;
      enough = g.enough;
      disk = g.disk;
    }

all_listed :
    (sectors : Sectors) (fuel floor high strings strings_size nametab h : ℕ) (m m' : Memory)
    (xs : List Header)
    → floor ≤ high
    → nametab + strings_size < 2 ^ 64
    → nametab + strings_size ≤ high
    → ((a : ℕ) → a < floor → m' a ≡ m a)
    → ((i : ℕ) → i < strings_size → m' (nametab + i) ≡ image_byte sectors (strings + i))
    → AreListed sectors fuel floor strings strings_size h m xs
    → AreHeaders fuel high nametab h m' xs
all_listed sectors fuel floor high strings strings_size nametab h m m' [] up room fit same bytes g =
    tt
all_listed sectors fuel floor high strings strings_size nametab h m m' (x ∷ xs) up room fit same
      bytes (g, gs) =
    (
      listed sectors fuel floor high strings strings_size nametab h m m' x up room fit same bytes g,
      all_listed sectors fuel floor high strings strings_size nametab (h + 64) m m' xs up room fit
          same bytes gs,
    )

-- The state after the table of names has been read.
unfoldable pub with_names : Loading → Machine → ℕ → Loading
with_names st s' kvoffset' = record { machine = s'; kvoffset = kvoffset'; table = st.table }

module _ (dev : Device) (sectors : Sectors) (names : Names) where
  names_read-eq :
      (fuel kvbase pa secthdr sec count strings nametab kv' : ℕ) (table : Table) (s' : Machine)
      (st' : Loading)
      → sh_offset s'.mem sec ≡ strings
      → u64 (pa + offset_correct strings) ≡ nametab
      → section_loop dev sectors names count fuel kvbase nametab secthdr
          (record { machine = s'; kvoffset = kv'; table = table })
        ≡ some st'
      → u64 (kvbase + st'.kvoffset) ≡ kvbase + st'.kvoffset
      → names_read dev sectors names fuel kvbase pa secthdr sec count table (s', kv')
        ≡ some (kvbase + st'.kvoffset, st')
  unfolding names_read
  names_read-eq fuel kvbase pa secthdr sec count strings nametab kv' table s' st' e_offset place run
        end =
      rw (e_offset, place) (rw (run, ◌>>=◌) (rw end refl))

  -- What follows when the table's address and the header's numbers are known.
  read_names-eq :
      (fuel kvbase pa secthdr sec count strings strings_size : ℕ) (st : Loading)
      → u64 (kvbase + st.kvoffset) ≡ pa
      → sh_offset st.machine.mem sec ≡ strings
      → sh_size st.machine.mem sec ≡ strings_size
      → read_names dev sectors names fuel kvbase secthdr count st sec ≡ (
          readseg dev sectors fuel pa strings_size strings st.kvoffset st.machine
          >>= names_read dev sectors names fuel kvbase pa secthdr sec count st.table)
  unfolding read_names
  read_names-eq fuel kvbase pa secthdr sec count strings strings_size st e_pa e_offset e_size =
      rw (e_pa, e_offset, e_size) refl

  read_sections-eq :
      (fuel elfhdr kvbase pa secthdr sec count strings strings_size nametab kv' : ℕ)
      (st st' : Loading) (s' : Machine)
      → secthdr_ptr secthdr count (le16 st.machine.mem (elfhdr + 62)) ≡ sec
      → u64 (kvbase + st.kvoffset) ≡ pa
      → sh_offset st.machine.mem sec ≡ strings
      → sh_size st.machine.mem sec ≡ strings_size
      → readseg dev sectors fuel pa strings_size strings st.kvoffset st.machine ≡ some (s', kv')
      → sh_offset s'.mem sec ≡ strings
      → u64 (pa + offset_correct strings) ≡ nametab
      → section_loop dev sectors names count fuel kvbase nametab secthdr (with_names st s' kv')
        ≡ some st'
      → u64 (kvbase + st'.kvoffset) ≡ kvbase + st'.kvoffset
      → read_sections dev sectors names fuel elfhdr kvbase secthdr count st
        ≡ some (kvbase + st'.kvoffset, st')
  unfolding read_sections with_names
  read_sections-eq fuel elfhdr kvbase pa secthdr sec count strings strings_size nametab kv' st st'
        s' header e_pa e_offset e_size run offset' place loop end =
      ap (read_names dev sectors names fuel kvbase secthdr count st) header
      ∙ read_names-eq fuel kvbase pa secthdr sec count strings strings_size st e_pa e_offset e_size
      ∙ ap (λ o. o >>= names_read dev sectors names fuel kvbase pa secthdr sec count st.table) run
      ∙ names_read-eq fuel kvbase pa secthdr sec count strings nametab kv' st.table s' st' offset'
          place loop end

  pub read_sections_lem :
      (fuel elfhdr kvbase secthdr index strings strings_size : ℕ) (xs : List Header) (st : Loading)
      → IsReady dev
      → kvbase % 512 ≡ 0
      → st.kvoffset % 512 ≡ 0
      → le16 st.machine.mem (elfhdr + 62) ≡ index
      → index < length xs
      → secthdr + length xs * 64 ≤ kvbase + st.kvoffset
      → sh_offset st.machine.mem (secthdr + index * 64) ≡ strings
      → sh_size st.machine.mem (secthdr + index * 64) ≡ strings_size
      → 0 < strings_size
      → strings_size / 512 + 2 < fuel
      → strings + strings_size + 2048 < 2 ^ 36
      → kvbase + st.kvoffset + strings_size + total xs + 4096 < 2 ^ 64
      → AreNamesBelow (kvbase + st.kvoffset) st.machine.mem names
      → AreListed sectors fuel (kvbase + st.kvoffset) strings strings_size secthdr st.machine.mem xs
      → (st₁ : Loading) × (st' : Loading) × (read_sections dev sectors names fuel elfhdr kvbase
            secthdr
            (length xs)
            st
          ≡ some (kvbase + st'.kvoffset, st'))
        × (st₁.table ≡ st.table)
        × (st.kvoffset ≤ st₁.kvoffset)
        × ((a : ℕ) → a < kvbase + st.kvoffset → st₁.machine.mem a ≡ st.machine.mem a)
        × Installed sectors kvbase xs st₁ st'
  unfolding read_sections AreNamesBelow with_names
  read_sections_lem fuel elfhdr kvbase secthdr index strings strings_size xs st ready base start
        e_index below fits e_offset e_size pos enough disk memory lits gs =
      let p = kvbase + st.kvoffset in
      let sec = secthdr + index * 64 in
      let kv' = st.kvoffset + sectors_read strings_size strings * 512 in
      let nametab = p + strings % 512 in
      let (s', run, bytes, held, under, over) =
        kernel_readseg_lem dev sectors fuel p strings_size strings st.kvoffset st.machine ready
          (omega arith) start enough (omega arith) disk (omega arith) in
      let last = held (strings_size - 1) (omega arith) in
      let bound = sectors_read-bound strings_size strings in
      let header : secthdr_ptr secthdr (length xs) (le16 st.machine.mem (elfhdr + 62)) ≡ sec =
        rw e_index (let e : ltb index (length xs) ≡ true = ground arith in rw e refl) in
      let offset' : sh_offset s'.mem sec ≡ strings =
        le64-congr st.machine.mem s'.mem (sec + 24) (λ b lt. under b (omega arith)) ∙ e_offset in
      let place : u64 (p + offset_correct strings) ≡ nametab =
        rw (offset_correct_lem strings (omega arith)) (omega arith) in
      let st₁ = with_names st s' kv' in
      let (st', loop, installed) =
        section_loop_lem dev sectors names fuel kvbase (kvbase + kv') nametab secthdr xs st₁ ready
          base (omega arith) (omega arith) (omega arith)
          (λ k.
            let b = (lits k).1 in
            (
              CString-congr st.machine.mem s'.mem (names k) (label k)
                  (λ a lo hi. under a (omega arith)) (lits k).0,
              omega arith,
            ))
          (all_listed sectors fuel p (kvbase + kv') strings strings_size nametab secthdr
            st.machine.mem s'.mem xs (omega arith) (omega arith) (omega arith) under
            (λ i lt. bytes i lt) gs) in
      (
        st₁,
        st',
        read_sections-eq fuel elfhdr kvbase p secthdr sec (length xs) strings strings_size nametab
            kv' st st' s' header (omega arith) e_offset e_size run offset' place loop
            (omega (arith, installed.bounded)),
        refl,
        omega arith,
        under,
        installed,
      )
