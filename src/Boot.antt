-- ===== src/Boot.antt =====
-- The boot loader: boot/boot.c and boot/lib.c, as far as they do not call the firmware.
pub mod Tables
pub mod Convert
pub mod Elf
mod Tests
