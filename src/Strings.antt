-- ===== src/Strings.antt =====
-- lib/string.c: the C string and memory routines, over a byte memory.
pub mod Length
pub mod Copy
pub mod Compare
pub mod Search
pub mod Fill
pub mod Move
pub mod Number
mod Tests
