-- ===== src/Cpu.antt =====
-- What the processor reads from memory: segment descriptors and interrupt descriptors.
pub mod Segments
pub mod Interrupts
pub mod Controllers
mod Tests
