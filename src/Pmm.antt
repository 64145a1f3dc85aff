-- ===== src/Pmm.antt =====
-- Physical memory management: kern/pmm.
pub mod Table
pub mod Alloc
pub mod Init
pub mod Container
