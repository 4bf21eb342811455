-- ===== src/Print/Buffer.antt =====
-- lib/printfmt.c: sprintputch, vsnprintf and snprintf. The buffer must not overlap the format and
-- the string arguments, which are read from the memory before the call.
pub mod Laws
use jos.Base.{
  u32, ℕ, ◌+◌, ◌-◌, ◌||◌, Option, some, ◌>>=◌, ltb, ◌==◌, if◌then◌else◌, u8, slt32, neg32,
}
use jos.Base.Memory.{Memory, write}
use jos.Print.Terminal.{Terminal}
use jos.Print.Args.{Slots}
use jos.Print.Format.{vprintfmt}

-- `struct sprintbuf`, with the memory that `buf` points into. `cnt` is an `int`.
pub record SprintBuf : Type 0 where
  pub mem : Memory
  pub buf : ℕ
  pub ebuf : ℕ
  pub cnt : ℕ

unfoldable pub sprintputch : ℕ → ℕ → ℕ → SprintBuf → SprintBuf
sprintputch flag parsing ch b =
    if ltb b.buf b.ebuf
    then record {
      mem = write b.mem b.buf (u8 ch);
      buf = b.buf + 1;
      ebuf = b.ebuf;
      cnt = u32 (b.cnt + 1);
    }
    else record b { cnt = u32 (b.cnt + 1) }

-- E_INVAL of inc/error.h
abbrev pub e_inval : ℕ
e_inval = 3

-- The result is the `int` returned, with the memory and the colour globals.
unfoldable pub vsnprintf : ℕ → Slots → ℕ → ℕ → ℕ → Terminal Memory → Option (ℕ × Terminal Memory)
vsnprintf fuel slots buf n fmt t = if (buf == 0) || slt32 n 1 then some (neg32 e_inval, t) else (do
  t' ← vprintfmt sprintputch fuel t.sink slots 0 fmt (record {
    color_flag = t.color_flag;
    color_parsing = t.color_parsing;
    sink = record { mem = t.sink; buf = buf; ebuf = buf + n - 1; cnt = 0 };
  })
  some (
    t'.sink.cnt,
    record {
      color_flag = t'.color_flag;
      color_parsing = t'.color_parsing;
      sink = write t'.sink.mem t'.sink.buf 0;
    },
  ))

unfoldable pub snprintf : ℕ → Slots → ℕ → ℕ → ℕ → Terminal Memory → Option (ℕ × Terminal Memory)
snprintf fuel slots buf n fmt t = vsnprintf fuel slots buf n fmt t
