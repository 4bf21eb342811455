-- ===== src/Disk/Sections/Laws.antt =====
-- What one round of read_section_headers puts into memory and into the table.
use jos.Base.{
  ℕ, ◌+◌, ◌*◌, ◌/◌, ◌%◌, ◌^◌, ◌≤◌, ◌<◌, ◌≡◌, ◌≢◌, refl, ap, ◌∙◌, ◌==◌, true, false, some, ◌>>=◌,
  u64, arith,
}
use jos.Base.Memory.{Memory, le32, le64}
use jos.Console.Ports.{Device}
use jos.Disk.Port.{Sectors, Machine}
use jos.Disk.Port.Laws.{IsReady}
use jos.Disk.Boot.Laws.{image_byte}
use jos.Disk.Segment.{readseg}
use jos.Disk.Segment.Laws.{sectors_read, kernel_readseg_lem}
use jos.Rounding.{round_down}
use jos.Disk.Sections.{
  Kind, section_index, Section, Table, Names, set_section, offset_correct, sh_offset, sh_size,
  Loading, load_section, note_loaded,
}

pub offset_correct_lem : (x : ℕ) → x < 2 ^ 64 → offset_correct x ≡ x % 512
unfolding offset_correct round_down
offset_correct_lem x h = omega arith

-- A number in memory depends on its bytes.
pub le32-congr : (m m' : Memory) (a : ℕ) → ((b : ℕ) → b < a + 4 → m' b ≡ m b) → le32 m' a ≡ le32 m a
le32-congr m m' a same =
    rw
      (
        same a (omega arith),
        same (a + 1) (omega arith),
        same (a + 2) (omega arith),
        same (a + 2 + 1) (omega arith),
      )
      refl

pub le64-congr : (m m' : Memory) (a : ℕ) → ((b : ℕ) → b < a + 8 → m' b ≡ m b) → le64 m' a ≡ le64 m a
le64-congr m m' a same =
    rw
      (
        le32-congr m m' a (λ b lt. same b (omega arith)),
        le32-congr m m' (a + 4) (λ b lt. same b (omega arith)),
      )
      refl

pub set_section-same :
    (k : Kind) (entry : Section) (table : Table) → set_section k entry table k ≡ entry
unfolding set_section
set_section-same k entry table =
    let e : (section_index k == section_index k) ≡ true = ground arith in rw e refl

pub set_section-other :
    (k j : Kind) (entry : Section) (table : Table)
    → section_index j ≢ section_index k
    → set_section k entry table j ≡ table j
unfolding set_section
set_section-other k j entry table ne =
    let e : (section_index j == section_index k) ≡ false = ground arith in rw e refl

-- The entry has the `size` bytes of the image from `offset` on, in memory at or above `low` and below
-- `high`.
pub record Holds (sectors : Sectors) (offset size low high : ℕ) (m : Memory) (entry : Section)
    : Type 0 where
  pub sized : entry.ds_size ≡ size
  pub placed : entry.ds_data ≡ entry.ds_addr
  pub above : low ≤ entry.ds_data
  pub below : (i : ℕ) → i < size → entry.ds_data + i < high
  pub bytes : (i : ℕ) → i < size → m (entry.ds_data + i) ≡ image_byte sectors (offset + i)

-- The bounds under which no number of a round overflows.
pub record Room (fuel kvbase kvoffset offset size : ℕ) : Type 0 where
  pub enough : size / 512 + 2 < fuel
  pub base : kvbase % 512 ≡ 0
  pub start : kvoffset % 512 ≡ 0
  pub memory : kvbase + kvoffset + size + 2048 < 2 ^ 64
  pub disk : offset + size + 2048 < 2 ^ 36

module _ (dev : Device) (sectors : Sectors) (names : Names) where
  note_loaded-eq :
      (p offset size h : ℕ) (s' : Machine) (kvoffset' : ℕ) (k : Kind) (table : Table)
      → sh_offset s'.mem h ≡ offset
      → sh_size s'.mem h ≡ size
      → u64 (p + offset_correct offset) ≡ p + offset % 512
      → note_loaded dev sectors names p h k table (s', kvoffset') ≡ record {
        machine = s';
        kvoffset = kvoffset';
        table =
            set_section k
              (record { ds_data = p + offset % 512; ds_addr = p + offset % 512; ds_size = size })
              table;
      }
  unfolding note_loaded
  note_loaded-eq p offset size h s' kvoffset' k table e_offset e_size place =
      rw (e_offset, e_size, place) refl

  -- What a branch that reads does, for a header that lies below the bytes it overwrites.
  pub load_section_lem :
      (fuel kvbase h offset size : ℕ) (k : Kind) (st : Loading)
      → IsReady dev
      → Room fuel kvbase st.kvoffset offset size
      → h + 64 ≤ kvbase + st.kvoffset
      → sh_offset st.machine.mem h ≡ offset
      → sh_size st.machine.mem h ≡ size
      → (st' : Loading) × (load_section dev sectors names fuel kvbase h k st ≡ some st')
        × (st'.kvoffset ≡ st.kvoffset + sectors_read size offset * 512)
        × Holds sectors offset size
            (kvbase + st.kvoffset)
            (kvbase + st'.kvoffset)
            st'.machine.mem
            (st'.table k)
        × ((j : Kind) → section_index j ≢ section_index k → st'.table j ≡ st.table j)
        × ((a : ℕ) → a < kvbase + st.kvoffset → st'.machine.mem a ≡ st.machine.mem a)
  unfolding load_section note_loaded
  load_section_lem fuel kvbase h offset size k st ready room low e_offset e_size =
      let p = kvbase + st.kvoffset in
      let m = st.machine.mem in
      let pa : u64 (kvbase + st.kvoffset) ≡ kvbase + st.kvoffset = omega (arith, room.memory) in
      let (s', run, bytes, held, under, over) =
        kernel_readseg_lem dev sectors fuel (kvbase + st.kvoffset) size offset st.kvoffset
          st.machine ready (omega (arith, room.base, room.start)) room.start room.enough
          (omega (arith, room.memory)) room.disk (omega (arith, room.memory)) in
      let offset' : sh_offset s'.mem h ≡ offset =
        le64-congr st.machine.mem s'.mem (h + 24) (λ b lt. under b (omega arith)) ∙ e_offset in
      let size' : sh_size s'.mem h ≡ size =
        le64-congr st.machine.mem s'.mem (h + 32) (λ b lt. under b (omega arith)) ∙ e_size in
      let place : u64 (kvbase + st.kvoffset + offset_correct offset)
          ≡ kvbase + st.kvoffset + offset % 512 =
        (rw (offset_correct_lem offset (omega (arith, room.disk))) (omega (arith, room.memory))) in
      let entry : Section = record {
        ds_data = kvbase + st.kvoffset + offset % 512;
        ds_addr = kvbase + st.kvoffset + offset % 512;
        ds_size = size;
      } in
      let same = set_section-same k entry st.table in
      (
        record {
          machine = s';
          kvoffset = st.kvoffset + sectors_read size offset * 512;
          table = set_section k entry st.table;
        },
        ap
              (λ q.
                readseg dev sectors fuel q (sh_size m h) (sh_offset m h) st.kvoffset st.machine
                >>= λ r. some (note_loaded dev sectors names q h k st.table r))
              pa
            ∙ ap
                (λ q. readseg dev sectors fuel p q (sh_offset m h) st.kvoffset st.machine >>= λ r.
                  some (note_loaded dev sectors names p h k st.table r))
                e_size
            ∙ ap
                (λ q. readseg dev sectors fuel p size q st.kvoffset st.machine >>= λ r.
                  some (note_loaded dev sectors names p h k st.table r))
                e_offset
            ∙ ap (λ o. o >>= λ r. some (note_loaded dev sectors names p h k st.table r)) run
            ∙ ap some (note_loaded-eq p offset size h s' _ k st.table offset' size' place),
        refl,
        rw same (record {
          sized = refl;
          placed = refl;
          above = omega arith;
          below = λ i lt. omega (arith, held i lt);
          bytes = bytes;
        }),
        (λ j ne. set_section-other k j entry st.table ne),
        under,
      )
