-- ===== src/Disk/Sections/Loop.antt =====
-- The loop of read_section_headers over all headers.
use jos.Base.{
  ℕ, ◌+◌, ◌*◌, ◌/◌, ◌%◌, ◌^◌, ◌≤◌, ◌<◌, ◌≡◌, ◌≢◌, refl, sym, ap, ◌∙◌, ◌==◌, Option, some, none,
  List, [], ◌∷◌, u64, arith, Bytes, length, All, if◌then◌else◌, subst,
}
use jos.Base.Memory.{Memory, CString, CString-congr}
use jos.Console.Ports.{Device}
use jos.Disk.Port.{Sectors}
use jos.Disk.Port.Laws.{IsReady}
use jos.Disk.Segment.Laws.{sectors_read}
use jos.Strings.Compare.Laws.{IsByte}
use jos.Disk.Sections.{
  Kind, debug_info, debug_abbrev, debug_frame, debug_line, debug_str, section_index, Section, Names,
  tested, set_section, sh_name, sh_addr, sh_offset, sh_size, Loading, load_section, keep_section,
  place_section,
}
use jos.Disk.Sections.Labels.{label, First, First-label}
use jos.Disk.Sections.Laws.{
  le32-congr, le64-congr, set_section-other, Holds, Room, load_section_lem,
}

-- A section header, with the name it refers to.
pub record Header : Type 0 where
  pub word : Bytes
  pub address : ℕ
  pub offset : ℕ
  pub size : ℕ

-- The header stands at `h` and its name in the strings from `nametab` on, both below `floor`, and its
-- numbers are such that nothing overflows.
pub record IsHeader (fuel floor nametab h : ℕ) (m : Memory) (x : Header) : Type 0 where
  pub low : h + 64 ≤ floor
  pub name : CString m (u64 (nametab + sh_name m h)) x.word
  pub name_low : u64 (nametab + sh_name m h) + length x.word < floor
  pub letters : All IsByte x.word
  pub short : length x.word < fuel
  pub has_address : sh_addr m h ≡ x.address
  pub has_offset : sh_offset m h ≡ x.offset
  pub has_size : sh_size m h ≡ x.size
  pub enough : x.size / 512 + 2 < fuel
  pub disk : x.offset + x.size + 2048 < 2 ^ 36

abbrev pub AreHeaders : ℕ → ℕ → ℕ → ℕ → Memory → List Header → Type 0
AreHeaders fuel floor nametab h m [] = Unit
AreHeaders fuel floor nametab h m (x ∷ xs) =
    IsHeader fuel floor nametab h m x × AreHeaders fuel floor nametab (h + 64) m xs

IsHeader-congr :
    (fuel floor nametab h : ℕ) (m m' : Memory) (x : Header)
    → ((a : ℕ) → a < floor → m' a ≡ m a)
    → IsHeader fuel floor nametab h m x
    → IsHeader fuel floor nametab h m' x
IsHeader-congr fuel floor nametab h m m' x same g =
    let low = g.low in
    let name' : sh_name m' h ≡ sh_name m h = le32-congr m m' h (λ b lt. same b (omega arith)) in
    record {
      low = low;
      name =
          rw name'
            (CString-congr m m' _ x.word (λ a lo hi. same a (omega (arith, g.name_low))) g.name);
      name_low = rw name' g.name_low;
      letters = g.letters;
      short = g.short;
      has_address = le64-congr m m' (h + 16) (λ b lt. same b (omega arith)) ∙ g.has_address;
      has_offset = le64-congr m m' (h + 24) (λ b lt. same b (omega arith)) ∙ g.has_offset;
      has_size = le64-congr m m' (h + 32) (λ b lt. same b (omega arith)) ∙ g.has_size;
      enough = g.enough;
      disk = g.disk;
    }

pub AreHeaders-congr :
    (fuel floor nametab h : ℕ) (m m' : Memory) (xs : List Header)
    → ((a : ℕ) → a < floor → m' a ≡ m a)
    → AreHeaders fuel floor nametab h m xs
    → AreHeaders fuel floor nametab h m' xs
AreHeaders-congr fuel floor nametab h m m' [] same g = tt
AreHeaders-congr fuel floor nametab h m m' (x ∷ xs) same (g, gs) = (
  IsHeader-congr fuel floor nametab h m m' x same g,
  AreHeaders-congr fuel floor nametab (h + 64) m m' xs same gs,
)

-- What the entry of a kind is for a header: .eh_frame stays where the loader put it, the others are
-- copied to memory at or above `low` and below `high`.
abbrev pub IsEntry : Sectors → Kind → Header → ℕ → ℕ → Memory → Section → Type 0
IsEntry sectors debug_frame x low high m e = (e.ds_data ≡ x.address) × (e.ds_size ≡ x.size)
IsEntry sectors debug_info x low high m e = Holds sectors x.offset x.size low high m e
IsEntry sectors debug_abbrev x low high m e = Holds sectors x.offset x.size low high m e
IsEntry sectors debug_line x low high m e = Holds sectors x.offset x.size low high m e
IsEntry sectors debug_str x low high m e = Holds sectors x.offset x.size low high m e

First-sound : (k : Kind) (word : Bytes) → First (some k) word tested → word ≡ label k
First-sound debug_info word h = ground arith
First-sound debug_abbrev word h = ground arith
First-sound debug_frame word h = ground arith
First-sound debug_line word h = ground arith
First-sound debug_str word h = ground arith

kind_at : ℕ → Kind
kind_at n =
    if n == 0
    then debug_info
    else if n == 1
    then debug_abbrev
    else if n == 2
    then debug_frame
    else if n == 3
    then debug_line
    else debug_str

kind_at-index : (k : Kind) → kind_at (section_index k) ≡ k
unfolding kind_at
kind_at-index debug_info = refl
kind_at-index debug_abbrev = refl
kind_at-index debug_frame = refl
kind_at-index debug_line = refl
kind_at-index debug_str = refl

section_index-injective : (j k : Kind) → section_index j ≡ section_index k → j ≡ k
section_index-injective j k e = sym (kind_at-index j) ∙ ap kind_at e ∙ kind_at-index k

same_kind : (j k : Kind) (word : Bytes) → First (some k) word tested → word ≡ label j → k ≡ j
same_kind j k word first e =
    let both = First-label (some k) j (subst (λ w. First (some k) w tested) e first) in ground arith

-- What a round does for the header `x`.
pub record Stepped (sectors : Sectors) (kvbase : ℕ) (x : Header) (st st' : Loading) : Type 0 where
  pub grows : st.kvoffset ≤ st'.kvoffset
  pub bounded : st'.kvoffset ≤ st.kvoffset + x.size + 1024
  pub start : st'.kvoffset % 512 ≡ 0
  pub kept : (a : ℕ) → a < kvbase + st.kvoffset → st'.machine.mem a ≡ st.machine.mem a
  pub others : (j : Kind) → x.word ≢ label j → st'.table j ≡ st.table j
  pub entry :
      (j : Kind)
      → x.word ≡ label j
      → IsEntry sectors j x
          (kvbase + st.kvoffset)
          (kvbase + st'.kvoffset)
          st'.machine.mem
          (st'.table j)

different :
    (j k : Kind) (word : Bytes)
    → First (some k) word tested
    → word ≢ label j
    → section_index j ≢ section_index k
different j k word first ne =
    λ e. ne (First-sound k word first ∙ ap label (sym (section_index-injective j k e)))

pub sectors_read-bound : (size offset : ℕ) → sectors_read size offset * 512 ≤ size + 1024
unfolding sectors_read
sectors_read-bound size offset = ground arith

module _ (dev : Device) (sectors : Sectors) (names : Names) where
  load_Stepped :
      (fuel kvbase floor nametab h : ℕ) (k : Kind) (x : Header) (st : Loading)
      → IsReady dev
      → kvbase % 512 ≡ 0
      → st.kvoffset % 512 ≡ 0
      → kvbase + st.kvoffset + x.size + 2048 < 2 ^ 64
      → IsHeader fuel floor nametab h st.machine.mem x
      → floor ≤ kvbase + st.kvoffset
      → First (some k) x.word tested
      → ((low high : ℕ) (m : Memory) (e : Section)
          → Holds sectors x.offset x.size low high m e
          → IsEntry sectors k x low high m e)
      → (st' : Loading) × (load_section dev sectors names fuel kvbase h k st ≡ some st')
        × Stepped sectors kvbase x st st'
  load_Stepped fuel kvbase floor nametab h k x st ready base start memory g fl first as_entry =
      let room : Room fuel kvbase st.kvoffset x.offset x.size = record {
        enough = g.enough;
        base = base;
        start = start;
        memory = memory;
        disk = g.disk;
      } in
      let (st', run, moved, holds, others, kept) =
        load_section_lem dev sectors names fuel kvbase h x.offset x.size k st ready room
          (omega (arith, g.low)) g.has_offset g.has_size in
      (
        st',
        run,
        record {
          grows = omega arith;
          bounded = omega (arith, sectors_read-bound x.size x.offset);
          start = omega arith;
          kept = kept;
          others = λ j ne. others j (different j k x.word first ne);
          entry = λ j e.
              subst
                (λ i.
                  IsEntry sectors i x (kvbase + st.kvoffset) (kvbase + st'.kvoffset) st'.machine.mem
                    (st'.table i))
                (same_kind j k x.word first e) (as_entry _ _ _ _ holds);
        },
      )

  pub place_Stepped :
      (fuel kvbase floor nametab h : ℕ) (f : Option Kind) (x : Header) (st : Loading)
      → IsReady dev
      → kvbase % 512 ≡ 0
      → st.kvoffset % 512 ≡ 0
      → kvbase + st.kvoffset + x.size + 2048 < 2 ^ 64
      → IsHeader fuel floor nametab h st.machine.mem x
      → floor ≤ kvbase + st.kvoffset
      → First f x.word tested
      → (st' : Loading) × (place_section dev sectors names fuel kvbase h f st ≡ some st')
        × Stepped sectors kvbase x st st'
  unfolding place_section keep_section set_section
  place_Stepped fuel kvbase floor nametab h none x st ready base start memory g fl first = (
    st,
    refl,
    record {
      grows = omega arith;
      bounded = omega arith;
      start = start;
      kept = λ a lt. refl;
      others = λ j ne. refl;
      entry = λ j e.
          absurd
            (let z = First-label none j (subst (λ w. First none w tested) e first) in ground arith);
    },
  )
  place_Stepped fuel kvbase floor nametab h (some debug_info) x st ready base start memory g fl
        first =
      load_Stepped fuel kvbase floor nametab h debug_info x st ready base start memory g fl first
        (λ low high m e holds. holds)
  place_Stepped fuel kvbase floor nametab h (some debug_abbrev) x st ready base start memory g fl
        first =
      load_Stepped fuel kvbase floor nametab h debug_abbrev x st ready base start memory g fl first
        (λ low high m e holds. holds)
  place_Stepped fuel kvbase floor nametab h (some debug_line) x st ready base start memory g fl
        first =
      load_Stepped fuel kvbase floor nametab h debug_line x st ready base start memory g fl first
        (λ low high m e holds. holds)
  place_Stepped fuel kvbase floor nametab h (some debug_str) x st ready base start memory g fl
        first =
      load_Stepped fuel kvbase floor nametab h debug_str x st ready base start memory g fl first
        (λ low high m e holds. holds)
  place_Stepped fuel kvbase floor nametab h (some debug_frame) x st ready base start memory g fl
        first =
      (
        keep_section dev sectors names h debug_frame st,
        refl,
        record {
          grows = omega arith;
          bounded = omega arith;
          start = start;
          kept = λ a lt. refl;
          others = λ j ne.
              set_section-other debug_frame j _ st.table (different j debug_frame x.word first ne);
          entry = λ j e.
              subst
                (λ i.
                  IsEntry sectors i x (kvbase + st.kvoffset) (kvbase + st.kvoffset) st.machine.mem
                    ((keep_section dev sectors names h debug_frame st).table i))
                (same_kind j debug_frame x.word first e) (g.has_address, g.has_size);
        },
      )
