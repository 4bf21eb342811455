-- ===== src/Console.antt =====
-- kern/console.c, kern/console.h and kern/printf.c: serial and parallel ports, the text-mode screen,
-- the keyboard, the input buffer, and cprintf on top of them.
pub mod Ports
pub mod State
pub mod Serial
pub mod Screen
pub mod Putc
pub mod Cprintf
pub mod Keymap
pub mod Keyboard
pub mod Ring
pub mod Input
pub mod Fixtures
mod Tests
