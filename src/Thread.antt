-- ===== src/Thread.antt =====
-- Threads: kern/thread.
pub mod Tcb
pub mod Queue
pub mod Sched
