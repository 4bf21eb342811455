-- ===== src/Console/Putc.antt =====
-- kern/console.c: cons_putc, cputchar and iscons.
pub mod Laws
use jos.Base.{ℕ, zero, suc}
use jos.Console.Ports.{Device}
use jos.Console.State.{Console, Kernel}
use jos.Console.Serial.{serial_putc, lpt_putc}
use jos.Console.Screen.{cga_putc}
use jos.Print.Terminal.{emit}

module _ (dev : Device) where
  -- cons_putc and cga_putc call each other, on '\t' alone, and then with ' '. The first argument
  -- bounds the depth of these calls.
  unfoldable pub putc_depth : ℕ → ℕ → ℕ → ℕ → Console → Console
  putc_depth zero flag parsing ch s = s
  putc_depth (suc depth) flag parsing ch s =
      cga_putc (putc_depth depth flag parsing) flag parsing ch
        (record s { io = lpt_putc dev ch (serial_putc dev ch s.io) })

  unfoldable pub cons_putc : ℕ → ℕ → ℕ → Console → Console
  cons_putc flag parsing ch s = putc_depth 2 flag parsing ch s

  unfoldable pub cputchar : ℕ → Kernel → Kernel
  unfolding emit
  cputchar ch k = emit cons_putc ch k

-- "used by readline": every descriptor is the console.
abbrev pub iscons : ℕ → ℕ
iscons fdnum = 1
