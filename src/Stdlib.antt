-- ===== src/Stdlib.antt =====
-- The C library of the kernel: stdlib/.
pub mod Ctype
pub mod Number
pub mod Format
pub mod Strings
mod Tests
mod StringTests
