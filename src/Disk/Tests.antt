-- ===== src/Disk/Tests.antt =====
-- A disk that is ready, whose byte `i` of sector `n` is `n * 16 + i % 16`, cut to a byte.
use jos.Base.{[], List, ◌∷◌, ◌≤◌, ◌<◌, arith, ℕ, ◌+◌, ◌*◌, ◌%◌, ◌≡◌, refl, some, ◌>>=◌}
use jos.Console.Ports.{inb, outb, outw}
use jos.Disk.Fixtures.{kernel_disk}
use jos.Disk.Boot.Load.{Segment, IsKernel, AreLoaded, bootmain_lem}
use jos.Disk.Boot.Laws.{image_byte}
use jos.Disk.Segment.Laws.{sectors_read, kernel_readseg_lem}
use jos.Disk.Sections.{Kind, kelfhdr, section_info, Loading, read_section_headers}
use jos.Disk.Sections.Loop.{Header, IsEntry}
use jos.Disk.Sections.Installed.{Absent, IsLast}
use jos.Disk.Sections.Headers.{read_section_headers_lem}
use jos.Disk.Port.{Sectors, Machine, waitdisk, selected, address_byte, readsect, command}
use jos.Disk.Fixtures.{
  ready, ready-IsReady, fresh, disk, sections, kernel_names, kernel_memory, kernel-IsImage,
}
use jos.Disk.Segment
use jos.Disk.Boot
use jos.Disk.Boot.{entered, bad}

abbrev image : Sectors
image = λ n i. (n * 16 + i % 16) % 256

readsect_run : (readsect ready image 2 1000 3 fresh >>= λ s. some (s.mem 1005)) ≡ some 53
unfolding readsect command waitdisk inb outb address_byte selected
readsect_run = refl

-- 600 bytes from offset 0 of the kernel stand in the sectors 1 and 2.
readseg_run : (Boot.readseg ready image 5 1024 600 0 fresh >>= λ s. some (s.mem 1536)) ≡ some 32
unfolding Boot.readseg Boot.readseg_loop readsect command waitdisk inb outb address_byte selected
readseg_run = refl

kernel_readseg_run :
    (Segment.readseg ready image 5 1024 600 0 0 fresh >>= λ r. some (r.0.mem 1536 + r.1))
    ≡ some (32 + 1536)
unfolding Segment.readseg Segment.read_sectors Segment.read_last readsect command waitdisk inb outb
    address_byte selected
kernel_readseg_run = refl

-- No ELF header: the loader stops.
is_bad : Boot.Boot → ℕ
is_bad (entered entry s) = 0
is_bad (bad s) = 1

bootmain_run : (Boot.bootmain ready image 20 fresh >>= λ b. some (is_bad b)) ≡ some 1
unfolding is_bad Boot.bootmain Boot.boot_kernel Boot.load_segments Boot.readseg Boot.readseg_loop
    readsect command waitdisk inb outb outw address_byte selected
bootmain_run = refl

kernel_readseg_lem_example :
    (s' : Machine) × (Segment.readseg ready image 5 1024 600 513 0 fresh ≡ some (s', 0 + 3 * 512))
    × ((i : ℕ) → i < 600 → s'.mem (1024 + 1 + i) ≡ image_byte image (513 + i))
    × ((i : ℕ) → i < 600 → 1 + i < 3 * 512)
    × ((a : ℕ) → a < 1024 → s'.mem a ≡ 0)
    × ((a : ℕ) → 1024 + 3 * 512 ≤ a → s'.mem a ≡ 0)
unfolding sectors_read
kernel_readseg_lem_example =
    kernel_readseg_lem ready image 5 1024 600 513 0 fresh ready-IsReady refl refl (omega arith)
      (omega arith) (omega arith) (omega arith)

abbrev started : Machine
started = record fresh { mem = kernel_memory }

read_section_headers_lem_example :
    (end : ℕ) × (st' : Loading) × (read_section_headers ready disk kernel_names 2000 kelfhdr
        0x8004020000 started section_info
      ≡ some (end, st'))
    × ((k : Kind) (x : Header)
        → IsLast k x sections
        → IsEntry disk k x 0x8004020000 end st'.machine.mem (st'.table k))
    × ((k : Kind) → Absent k sections → st'.table k ≡ section_info k)
    × ((a : ℕ) → a < 0x8004020000 → st'.machine.mem a ≡ kernel_memory a)
read_section_headers_lem_example =
    read_section_headers_lem ready disk kernel_names 2000 0x8004020000 0 0 128 22 started
      section_info sections ready-IsReady kernel-IsImage

abbrev one_segment : List Segment
one_segment = record { pa = 0x20000; size = 3; offset = 512 } ∷ []

one_segment-IsKernel : IsKernel kernel_disk 20 0x100000 0x10040 one_segment
one_segment-IsKernel = record {
  magic = refl;
  starts = refl;
  table = refl;
  count = refl;
  segments = (
    record {
      first = omega arith;
      last = omega arith;
      has_pa = refl;
      has_size = refl;
      has_offset = refl;
      aligned = refl;
      behind = omega arith;
      fits = omega arith;
      enough = omega arith;
    },
    tt,
  );
  apart = ((λ i lt. tt), tt);
  enough = omega arith;
}

bootmain_lem_example :
    (s' : Machine) × (Boot.bootmain ready kernel_disk 20 fresh ≡ some (entered 0x100000 s'))
    × AreLoaded kernel_disk s'.mem one_segment
bootmain_lem_example =
    bootmain_lem ready kernel_disk 20 0x100000 0x10040 one_segment fresh ready-IsReady
      one_segment-IsKernel
