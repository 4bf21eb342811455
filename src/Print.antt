-- ===== src/Print.antt =====
-- lib/printfmt.c: formatted printing. `putch` is a parameter: it acts on a sink of any type.
pub mod Terminal
pub mod Num
pub mod Args
pub mod Color
pub mod Text
pub mod Format
pub mod Buffer
mod Tests
