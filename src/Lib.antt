-- ===== src/Lib.antt =====
-- A teaching kernel in the style of mCertiKOS, with a file system and an audio driver, in C.
--
-- The kernel is a tower of small layers. The boot code hands the multiboot memory map to
-- kern/dev/mboot.c, from which kern/pmm/MATInit fills the physical allocation table of MATIntro.
-- MATOp gives out single pages of that table, MContainer charges them to processes within a quota,
-- and the layers of kern/vmm enter them into page directories and page tables. Above these
-- stand the thread control blocks, the thread queues and the scheduler of kern/thread.
--
-- Each layer is a module here, with a record for its state that holds the state of the layer it
-- calls; a routine takes the state and returns its result with the new state:
--   Sync                 kern/lib/spinlock.c: spinlocks
--   Dev.Mboot            kern/dev/mboot.c: pmmap_insert, pmmap_merge, pmmap_init, get_mms, get_mml
--   Pmm.Table            kern/pmm/MATIntro/MATIntro.c: the table AT, the memory lock
--   Pmm.Alloc            kern/pmm/MATOp/MATOp.c: palloc, pfree
--   Pmm.Init             kern/pmm/MATInit/MATInit.c: pmem_init
--   Pmm.Container        kern/pmm/MContainer/MContainer.c: quotas
--   Vmm.Table            kern/vmm/MPTIntro/MPTIntro.c, MPTOp/MPTOp.c: directories and tables
--   Vmm.Map              kern/vmm/MPTComm/MPTComm.c, MPTKern/MPTKern.c, MPTNew/MPTNew.c: map_page,
--                        unmap_page, alloc_ptbl, free_ptbl, alloc_page
--   Vmm.Boot             pdir_init of MPTComm.c, pdir_init_kern of MPTKern.c, paging_init of
--                        kern/vmm/MPTInit/MPTInit.c
--   Thread.Tcb           kern/thread/PTCBIntro, PTCBInit, PTQueueIntro, PKCtxIntro, PKCtxNew, PCurID
--   Thread.Queue         kern/thread/PTQueueInit/PTQueueInit.c: tqueue_enqueue, tqueue_dequeue,
--                        tqueue_remove
--   Thread.Sched         kern/thread/PThread/PThread.c: thread_yield, thread_sleep, thread_wakeup,
--                        sched_update
--   Trap                 kern/trap/TSyscallArg/TSyscallArg.c: argument registers; sys_yield of
--                        TSyscall/TSyscall.c; pgflt_handler of TTrapHandler/TTrapHandler.c
--   Strings              kern/lib/string.c: memmove, memset, strcmp, strncpy
--   User                 user/lib/string.c and user/lib/atoi.c
--   Fs.Path              skipelem of kern/fs/path.c
--   Fs.Cache             kern/fs/bufcache.c: Search the walks over the list, Lookup the well-formed cache,
--                        Fetch and Outcome bufcache_read, Store bufcache_write,
--                        Init bufcache_init
--   Fs.Log               kern/fs/log.c: Redo what an installation makes of a disk, Recovery the meaning
--                        of a disk with a log, Commit the routines cut off after any write, Write the
--                        pending transaction, Mutex the threads that begin and end one,
--                        statement by statement
--   Fs.Bitmap            kern/fs/block.c in a transaction of the log: Bits the bits of a byte, Alloc
--                        one block, First the loops
--                        of block_alloc, Free block_free
--   Print                kern/lib/printfmt.c and the buffers of user/lib/printfmt.c: Number the digits,
--                        Format the conversions, Buffer and Bounds the buffer of vsnprintf, Decimal atoi of the result
--   Dev.Keyboard         kbd_proc_data of kern/dev/keyboard.c and its tables
--   Dev.Console          cons_intr and cons_getc of kern/dev/console.c, the input of kern/dev/serial.c
-- Base holds the vocabulary of all of them, Tests concrete machines on which the routines run.
--
-- Conventions. An `unsigned int` is a natural number with its wrap-around written out; a static
-- array is a function of the index; physical memory is the 32-bit word at each address. A loop is a
-- recursion on the exact number of rounds that its test leaves, so that no bound is assumed. `none`
-- is a panic or failed assertion, or a spinlock that is waited for and never becomes free: one
-- routine runs at a time, on one CPU, whose number is a field of the state (in Fs.Log.Mutex the
-- statements of several threads interleave). A routine that runs to
-- the end of a string takes fuel, and its theorem says how much is enough. kctx_switch is written
-- in assembly: the routines that call it return the two threads between which it switches.
--
-- The log is modelled as a client of the buffer cache: by the content that bufcache_read shows for a
-- sector and by the sectors that bufcache_write has put on the disk, each of them whole, in order. The
-- panic of bufcache_get for want of a buffer is not part of it. A crash keeps a prefix of the writes.
-- Printing is modelled on whatever sink the caller passes; the arguments are 32-bit words.
-- The format and the strings are read from the memory that the sink shows, its buffer included.
--
-- Of the disk driver (kern/dev/disk/ide.c) the panics of ide_rw are modelled, the drive and the
-- sector that ide_start commands, and what ide_intr does for the buffer; its queue and the waiting
-- are not. Which reads succeed is part of the state. The bytes of a block are a parameter of the
-- bitmap, with the laws that an assignment of a byte keeps the lowest eight bits and changes no
-- other byte.
--
-- The console's devices are the lists of bytes that they will deliver; the bound on the characters
-- that wait is that of its ring.
--
-- Not modelled: the other drivers for devices (port and memory-mapped I/O), the boot loader, assembly, printing
-- to the console and the debug variants of the spinlocks; the file system but for path elements,
-- the buffer cache, the log and the block bitmap; the loading of programs (kern/proc), the other system calls and interrupts; the tests
-- (test.c) of the layers.
pub mod Base
pub mod Dev
pub mod Fs
pub mod Pmm
pub mod Print
pub mod Strings
pub mod Sync
pub mod Tests
pub mod Thread
pub mod Trap
pub mod User
pub mod Vmm
