-- ===== src/Console/Ring.antt =====
-- kern/console.c: the circular input buffer `cons`, by its two accesses: the store in cons_intr and
-- the load in cons_getc.
pub mod Laws
use jos.Base.{ℕ, ◌+◌, ◌==◌, if◌then◌else◌, u8, get_or, set, Option, none, some}
use jos.Console.State.{Ring}

abbrev pub consbufsize : ℕ
consbufsize = 512

-- `cons.buf[cons.wpos++] = c; if (cons.wpos == CONSBUFSIZE) cons.wpos = 0;`
unfoldable pub store : ℕ → Ring → Ring
store c r = record {
  buf = set r.buf r.wpos (u8 c);
  rpos = r.rpos;
  wpos = if r.wpos + 1 == consbufsize then 0 else r.wpos + 1;
}

-- The character at `rpos`, or 0 where none waits, and the buffer without it.
unfoldable pub load : Ring → ℕ × Ring
load r = if r.rpos == r.wpos then (0, r) else (
  get_or r.buf r.rpos 0,
  record r { rpos = if r.rpos + 1 == consbufsize then 0 else r.rpos + 1 },
)
