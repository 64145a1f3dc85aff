-- ===== src/Dev.antt =====
-- Devices: kern/dev.
pub mod Mboot
pub mod Keyboard
pub mod Console
