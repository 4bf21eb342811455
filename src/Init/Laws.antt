-- ===== src/Init/Laws.antt =====
-- What the kernel's start leaves in memory and in the table of debug sections.
use jos.Base.{
  false, ℕ, ◌-◌, ◌^◌, ◌≤◌, ◌<◌, ◌≡◌, refl, ap, ◌∙◌, some, ◌>>=◌, List, arith, minus64, Yields,
  Yields-bind, Yields-some,
}
use jos.Base.Memory.{Memory}
use jos.Console.Ports.{Device}
use jos.Console.State.{Kernel, Ring, empty_ring, zeroed}
use jos.Console.Ring.Laws.{empty_ring-IsRing}
use jos.Console.Putc.Laws.{IsConsole}
use jos.Console.Cprintf.Total.{Held, IsLiteral, print_args-Yields}
use jos.Console.Input.Start.{IsVideo, cons_init-Yields}
use jos.Print.Format.Safe.{safe, advance, may_end}
use jos.Disk.Port.{Sectors}
use jos.Disk.Port.Laws.{IsReady}
use jos.Disk.Sections.{Kind, Names, section_info}
use jos.Disk.Sections.Loop.{Header, IsEntry}
use jos.Disk.Sections.Installed.{Absent, IsLast}
use jos.Disk.Sections.Headers.{IsImage, read_section_headers_lem}
use jos.Strings.Fill.{memset}
use jos.Strings.Fill.Laws.{filled, memset_lem}
use jos.Init.{Start, Running, load_debug, set_up}

-- The memory once the variables without initial value are zero.
abbrev pub cleared : Start → Memory → Memory
cleared start mem = (memset mem start.edata 0 (minus64 start.end start.edata)).0

-- What the kernel's start promises of its memory and its table.
pub record IsSetUp (sectors : Sectors) (start : Start) (xs : List Header) (r : Running)
    : Type 0 where
  pub zeroed : (a : ℕ) → start.edata ≤ a → a < start.end → start.owned a ≡ false → r.mem a ≡ 0
  pub entries :
      (k : Kind) (x : Header)
      → IsLast k x xs
      → IsEntry sectors k x start.end r.end_debug r.mem (r.table k)
  pub absent : (k : Kind) → Absent k xs → r.table k ≡ section_info k

cleared-zero :
    (start : Start) (mem : Memory) (a : ℕ)
    → start.end < 2 ^ 64
    → start.edata ≤ a
    → a < start.end
    → cleared start mem a ≡ 0
unfolding filled
cleared-zero start mem a small lo hi =
    let size : minus64 start.end start.edata ≡ start.end - start.edata = omega arith in
    let value = (memset_lem mem start.edata 0 (start.end - start.edata) a).0 in
    let inside : filled mem start.edata 0 (start.end - start.edata) a ≡ 0 = ground arith in
    ap (λ n. (memset mem start.edata 0 n).0 a) size ∙ value ∙ inside

module _ (dev : Device) (sectors : Sectors) (names : Names) where
  load_debug-IsSetUp :
      (fuel : ℕ) (start : Start) (mem : Memory) (k : Kernel) (shoff index strings strings_size : ℕ)
      (xs : List Header) (ring : Ring)
      → IsReady dev
      → ((a : ℕ) → start.edata ≤ a → a < start.end → mem a ≡ 0)
      → IsImage sectors names fuel start.end shoff index strings strings_size mem xs
      → Held ring k
      → Yields
          (λ r. IsSetUp sectors start xs r × Held ring r.console)
          (load_debug dev sectors names fuel start mem k)
  unfolding load_debug Held
  load_debug-IsSetUp fuel start mem k shoff index strings strings_size xs ring ready zero image
        (good, same) =
      let (end, st, run, entries, absent, kept) =
        read_section_headers_lem dev sectors names fuel start.end shoff index strings strings_size
          (record { io = k.sink.io; mem = mem }) section_info xs ready image in
      rw (run, ◌>>=◌)
        (
          record {
            zeroed = λ a lo hi free. kept a hi ∙ zero a lo hi;
            entries = entries;
            absent = absent;
          },
          (
            record {
              screen = record { cells = good.screen.cells; cursor = good.screen.cursor };
              ring = good.ring;
              modifiers = good.modifiers;
            },
            same,
          ),
        )

  pub set_up-Yields :
      (fuel : ℕ) (start : Start) (mem : Memory) (k : Kernel) (shoff index strings strings_size : ℕ)
      (xs : List Header)
      → IsReady dev
      → IsVideo dev start.cga_cells start.mono_cells
      → start.end < 2 ^ 64
      → IsImage sectors names fuel start.end shoff index strings strings_size (cleared start mem) xs
      → 100 < fuel
      → Yields
          (λ r. IsSetUp sectors start xs r × Held empty_ring r.console)
          (set_up dev sectors names fuel start mem k)
  unfolding set_up zeroed IsLiteral safe advance may_end
  set_up-Yields fuel start mem k shoff index strings strings_size xs ready video small image lt =
      Yields-bind (Held empty_ring) (λ r. IsSetUp sectors start xs r × Held empty_ring r.console) _
        _
        (cons_init-Yields dev fuel start.readback start.cga_cells start.mono_cells (zeroed k) video
          empty_ring-IsRing (omega arith) lt)
        λ k₁ h₁.
          Yields-bind (Held empty_ring)
            (λ r. IsSetUp sectors start xs r × Held empty_ring r.console) _
            (load_debug dev sectors names fuel start (cleared start mem))
            (print_args-Yields dev empty_ring fuel _ _ k₁ (ground arith, refl) (omega arith) h₁)
            λ k₂ h₂.
              load_debug-IsSetUp fuel start (cleared start mem) k₂ shoff index strings strings_size
                xs empty_ring ready (λ a lo hi. cleared-zero start mem a small lo hi) image h₂

  -- The memory from edata to end cleared, let the ELF header and its image be as
  -- read_section_headers needs them, the disk always ready, and the cursor of the video adapter on
  -- its screen. With fuel above 100 and as the image needs it, the set-up of i386_init returns, with or
  -- without a serial port. Then the variables without initial value are still zero, but for those of
  -- the console, the keyboard and printing and end_debug, and the table has, for the last header of
  -- each debug section, a copy of the section's bytes between `end` and the address `end_debug`, or,
  -- for .eh_frame, the address in the header; it is empty where no header has the name. The console
  -- is good, and its input buffer is empty, whatever was there before the start.
  pub set_up_lem :
      (fuel : ℕ) (start : Start) (mem : Memory) (k : Kernel) (shoff index strings strings_size : ℕ)
      (xs : List Header)
      → IsReady dev
      → IsVideo dev start.cga_cells start.mono_cells
      → start.end < 2 ^ 64
      → IsImage sectors names fuel start.end shoff index strings strings_size (cleared start mem) xs
      → 100 < fuel
      → (r : Running) × (set_up dev sectors names fuel start mem k ≡ some r)
        × IsSetUp sectors start xs r
        × IsConsole r.console.sink
        × (r.console.sink.cons ≡ empty_ring)
  unfolding Held
  set_up_lem fuel start mem k shoff index strings strings_size xs ready video small image lt =
      let (r, run, (is, held)) =
        Yields-some (λ r. IsSetUp sectors start xs r × Held empty_ring r.console) _
          (set_up-Yields fuel start mem k shoff index strings strings_size xs ready video small
            image lt) in
      (r, run, is, held.0, held.1)
