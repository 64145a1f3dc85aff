-- ===== src/Vmm.antt =====
-- Virtual memory management: kern/vmm.
pub mod Table
pub mod Map
pub mod Boot
