-- ===== src/Monitor/Fixtures.antt =====
-- A stack with one frame, and other data for the tests of the monitor.
use jos.Base.{ℕ, refl, List, [], ◌∷◌, codes, replicate}
use jos.Base.Memory.{memory_at}
use jos.Console.Fixtures.{device}
use jos.Console.Input.Silent.{Silent}
use jos.Monitor.{Symbols}
use jos.Debug.Fixtures.{second_info}
use jos.Debug.Function.{Ripdebuginfo}
use jos.Monitor.Backtrace.{Stack}
use jos.Monitor.Backtrace.Laws.{Frame}

abbrev pub symbols : Symbols
symbols = record { start = 0; entry = 0; etext = 0; edata = 0; end = 0 }

-- One frame, of `second`, whose return address is in `first`.
abbrev pub stack : Stack
stack = record {
  rbp = 0x1000;
  rip = 0x8004000250;
  mem = memory_at 0x1008 (0x50 ∷ 1 ∷ 0 ∷ 4 ∷ 0x80 ∷ []);
}

abbrev pub first_info : Ripdebuginfo
first_info = record {
  file = codes "main.c";
  line = 17;
  fn_name = codes "first";
  fn_namelen = 5;
  fn_addr = 0x8004000100;
  fn_narg = 0;
  size_fn_arg = 4 ∷ 4 ∷ replicate 8 0;
}

abbrev pub frame : Frame
frame = record { rbp = 0x1000; rip = 0x8004000250; info = second_info }

abbrev pub empty_buffer : List ℕ
empty_buffer = replicate 1024 0

pub device-Silent : Silent device
unfolding Silent
device-Silent t = (refl, refl)
