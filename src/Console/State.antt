-- ===== src/Console/State.antt =====
-- The static variables of kern/console.c, but for the colour globals, which belong to
-- lib/printfmt.c and stand in the `Terminal` round this state.
use jos.Base.{ℕ, Bool, false, List, [], replicate}
use jos.Console.Ports.{Ports}
use jos.Print.Terminal.{Terminal}

-- The anonymous struct `cons`: the circular input buffer.
pub record Ring : Type 0 where
  pub buf : List ℕ
  pub rpos : ℕ
  pub wpos : ℕ

-- The buffer of all zeros.
abbrev pub empty_ring : Ring
empty_ring = record { buf = replicate 512 0; rpos = 0; wpos = 0 }

-- `crt_buf` is the list of the screen's 16-bit cells.
pub record Console : Type 0 where
  pub io : Ports
  pub serial_exists : Bool
  pub addr_6845 : ℕ
  pub crt_buf : List ℕ
  pub crt_pos : ℕ
  pub shift : ℕ
  pub cons : Ring

abbrev pub Kernel : Type 0
Kernel = Terminal Console

-- The colours and the static variables once the memory from `edata` to `end` is cleared. All of
-- them lie there but `color_flag`, which has an initial value; the ports are no memory.
unfoldable pub zeroed : Kernel → Kernel
zeroed k = record {
  color_flag = k.color_flag;
  color_parsing = 0;
  sink = record {
    io = k.sink.io;
    serial_exists = false;
    addr_6845 = 0;
    crt_buf = [];
    crt_pos = 0;
    shift = 0;
    cons = empty_ring;
  };
}

abbrev pub crt_rows : ℕ
crt_rows = 25

abbrev pub crt_cols : ℕ
crt_cols = 80

abbrev pub crt_size : ℕ
crt_size = 2000
