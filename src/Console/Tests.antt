-- ===== src/Console/Tests.antt =====
-- The console run on a blank screen, an empty input buffer and the fixture's devices.
use jos.Console.Input.Serial.{Sends, received, serial_intr_lem}
use jos.Base.{
  ℕ, ◌-◌, ◌≡◌, refl, true, [], ◌∷◌, some, ◌>>=◌, arith, set, codes, bit_and, bit_or, ◌⊎◌, ◌++◌,
}
use jos.Base.Memory.{memory_at}
use jos.Console.Ports.{outb, inb}
use jos.Console.State.{Kernel}
use jos.Console.Fixtures.{
  device, typing, blank_ring, blank_ring-IsRing, console, kernel, console-IsScreen,
  kernel-IsConsole,
}
use jos.Console.Screen.{cga_putc, cga_init}
use jos.Console.Screen.Laws.{IsScreen, cga_putc_plain, cell_of}
use jos.Console.Putc.{cons_putc, cputchar}
use jos.Console.Putc.Laws.{IsConsole, cons_putc-IsScreen}
use jos.Console.Cprintf.{cprintf, vcprintf, putch}
use jos.Print.Terminal.{emit}
use jos.Print.Format.{vprintfmt}
use jos.Console.Cprintf.Laws.{cprintf-IsConsole}
use jos.Console.Keymap.{capslock_bit}
use jos.Console.Keyboard.{key_byte, kbd_init, kbd_proc_data}
use jos.Console.Keyboard.Laws.{key_byte_capslock, OtherCase}
use jos.Console.Ring.{store, load}
use jos.Console.Ring.Laws.{IsRing, pending, pending-store, pending-store_full, pending-load}
use jos.Console.Serial.{serial_init, serial_proc_data, serial_putc, lpt_putc, wait_ready}
use jos.Console.Input.{cons_intr, serial_intr, kbd_intr, cons_getc, getchar, cons_init}

-- The store at the last index goes round to 0.
pending-store_example :
    pending (store 0x161 (blank_ring 511 511)) ≡ pending (blank_ring 511 511) ++ (0x61 ∷ [])
pending-store_example =
    pending-store 0x161 (blank_ring 511 511) (blank_ring-IsRing 511 511 (omega arith) (omega arith))
      (omega arith)

pending-store_full_example : pending (store 0x61 (blank_ring 1 0)) ≡ []
pending-store_full_example =
    pending-store_full 0x61 (blank_ring 1 0) (blank_ring-IsRing 1 0 (omega arith) (omega arith))
      (omega arith)

pending-load_example :
    ((pending (blank_ring 511 0) ≡ []) × (load (blank_ring 511 0) ≡ (0, blank_ring 511 0)))
    ⊎ (pending (blank_ring 511 0)
        ≡ (load (blank_ring 511 0)).0 ∷ pending (load (blank_ring 511 0)).1)
pending-load_example =
    pending-load (blank_ring 511 0) (blank_ring-IsRing 511 0 (omega arith) (omega arith))

cons_putc-IsScreen_example : IsScreen (cons_putc device 7 0 9 (console 1998))
cons_putc-IsScreen_example =
    cons_putc-IsScreen device 7 0 9 (console 1998) (console-IsScreen 1998 (omega arith))

cga_putc_plain_example :
    ((cga_putc (λ ch s. s) 7 0 b'a' (console 5)).crt_buf
      ≡ set (console 5).crt_buf 5 (cell_of 7 b'a'))
    × ((cga_putc (λ ch s. s) 7 0 b'a' (console 5)).crt_pos ≡ 6)
cga_putc_plain_example =
    cga_putc_plain (λ ch s. s) 7 b'a' (console 5) (omega arith) (ground arith) (omega arith)

key_byte_capslock_example :
    OtherCase
      (key_byte (bit_and 0 (127 - capslock_bit)) 0x1E).0
      (key_byte (bit_or 0 capslock_bit) 0x1E).0
key_byte_capslock_example = key_byte_capslock 0 0x1E (omega arith) (omega arith) (omega arith)

-- A byte from the serial port comes out of getchar.
getchar_run : (getchar (typing b'a') 5 kernel >>= λ (c, k). some c) ≡ some b'a'
unfolding getchar cons_getc serial_intr kbd_intr cons_intr serial_proc_data kbd_proc_data store load
    inb
getchar_run = refl

abbrev printed : Kernel
printed = record { color_flag = 7; color_parsing = 0; sink = cons_putc device 7 0 b'a' (console 0) }

cprintf_run : cprintf device 3 (memory_at 0 (codes "a")) (λ _. 0) 0 kernel ≡ some (0, printed)
unfolding cprintf vcprintf vprintfmt emit putch
cprintf_run = refl

cprintf-IsConsole_example : IsConsole (cons_putc device 7 0 b'a' (console 0)) × (◌≡◌ {A = ℕ} 0 0)
cprintf-IsConsole_example =
    cprintf-IsConsole device 3 (memory_at 0 (codes "a")) (λ _. 0) 0 kernel {ret = 0} {k' = printed}
      kernel-IsConsole cprintf_run

-- Writing where the screen is ready takes one reading of each status port.
ports_run :
    ((lpt_putc device 0x41 (serial_putc device 0x41 (console 0).io)).clock ≡ 6)
    × ((serial_init device (console 0)).serial_exists ≡ true)
    × ((kbd_init (console 4)).crt_pos ≡ 4)
unfolding lpt_putc serial_putc serial_init wait_ready inb outb kbd_init
ports_run = (refl, refl, refl)

cga_init_run : (cga_init device 0xA55A (7 ∷ []) (8 ∷ []) (console 0)).crt_buf ≡ 7 ∷ []
unfolding cga_init inb outb
cga_init_run = refl

cons_init_run :
    (cons_init device 3 0 (7 ∷ []) (8 ∷ []) kernel >>= λ k. some k.sink.addr_6845) ≡ some 0x3B4
unfolding cons_init serial_init kbd_init cga_init inb outb
cons_init_run = refl

cputchar_run : (cputchar device b'a' kernel).color_flag ≡ 7
unfolding cputchar emit
cputchar_run = refl

typing-Sends : Sends (typing b'a') 0 (b'a' ∷ [])
unfolding Sends
typing-Sends = ground arith

serial_intr_lem_example :
    (k' : Kernel) × (serial_intr (typing b'a') 5 kernel ≡ some k')
    × (pending k'.sink.cons ≡ pending kernel.sink.cons ++ received (b'a' ∷ []))
    × IsRing k'.sink.cons
unfolding received
serial_intr_lem_example =
    serial_intr_lem (typing b'a') (b'a' ∷ []) 5 kernel refl kernel-IsConsole.ring typing-Sends
      (omega arith) (omega arith)
