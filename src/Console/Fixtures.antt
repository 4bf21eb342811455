-- ===== src/Console/Fixtures.antt =====
-- A blank console for the tests, and devices that answer.
use jos.Base.{ℕ, ◌<◌, true, ◌==◌, if◌then◌else◌, replicate, length-replicate, [], arith}
use jos.Console.Ports.{Device}
use jos.Console.State.{Ring, Console, Kernel}
use jos.Console.Screen.Laws.{IsScreen}
use jos.Console.Ring.Laws.{IsRing, get_or-zeros}
use jos.Console.Putc.Laws.{IsConsole}

-- The serial and the parallel port are ready, and no key waits.
abbrev pub device : Device
device = λ t port. if port == 0x3FD then 0x20 else if port == 0x379 then 0x80 else 0

-- A byte stands in the serial port at first.
abbrev pub typing : ℕ → Device
typing c = λ t port.
    if port == 0x3FD then (if t == 0 then 0x21 else 0x20) else if port == 0x3F8 then c else 0

abbrev pub blank_ring : ℕ → ℕ → Ring
blank_ring r w = record { buf = replicate 512 0; rpos = r; wpos = w }

abbrev pub console : ℕ → Console
console pos = record {
  io = record { clock = 0; log = [] };
  serial_exists = true;
  addr_6845 = 0x3D4;
  crt_buf = replicate 2000 0x720;
  crt_pos = pos;
  shift = 0;
  cons = blank_ring 0 0;
}

abbrev pub kernel : Kernel
kernel = record { color_flag = 7; color_parsing = 0; sink = console 0 }

pub blank_ring-IsRing : (r w : ℕ) → r < 512 → w < 512 → IsRing (blank_ring r w)
blank_ring-IsRing r w hr hw = record {
  size = length-replicate {A = ℕ} 512 0;
  reader = hr;
  writer = hw;
  bytes = get_or-zeros 512;
}

pub console-IsScreen : (pos : ℕ) → pos < 2000 → IsScreen (console pos)
console-IsScreen pos h = record { cells = length-replicate {A = ℕ} 2000 0x720; cursor = h }

pub console-IsConsole : (pos : ℕ) → pos < 2000 → IsConsole (console pos)
console-IsConsole pos h = record {
  screen = console-IsScreen pos h;
  ring = blank_ring-IsRing 0 0 (omega arith) (omega arith);
  modifiers = omega arith;
}

pub kernel-IsConsole : IsConsole kernel.sink
kernel-IsConsole = console-IsConsole 0 (omega arith)
