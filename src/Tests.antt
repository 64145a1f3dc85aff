-- ===== src/Tests.antt =====
-- Concrete states of the kernel, and its routines run on them.
mod Memory
mod Pages
mod Queues
mod Bytes
mod Paths
mod Disk
mod Printing
mod Buffers
mod Typing
mod Bitmaps
