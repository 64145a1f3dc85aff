-- ===== src/Fs/Log.antt =====
-- The redo log of kern/fs/log.c. A block is the 128 `int`s that it consists of, as the header block
-- is read and written, and all blocks are those of the device ROOTDEV. The buffer cache is taken by
-- what it shows: the content that bufcache_read gives for a sector, whether the sector's buffer is
-- marked B_DIRTY, and the sectors that bufcache_write has put on the disk, in order.
pub mod Redo
pub mod Install
pub mod Recovery
pub mod Commit
pub mod Slot
pub mod Write
pub mod Mutex
use os_audio.Base.{
  ℕ, zero, suc, ◌+◌, ◌-◌, ◌||◌, Bool, true, false, Option, none, some, update, leb, ltb, ◌==◌, not,
  if◌then◌else◌, List, [], ◌∷◌, ◌++◌,
}

abbrev pub Block : Type 0
Block = ℕ → ℕ

-- LOGSIZE
abbrev pub log_size : ℕ
log_size = 10

pub record LogHeader : Type 0 where
  pub n : ℕ
  pub sector : ℕ → ℕ

-- struct log, with what its routines see of the buffer cache.
pub record Log : Type 0 where
  pub start : ℕ
  pub size : ℕ
  pub busy : Bool
  pub lh : LogHeader
  pub cache : ℕ → Block
  pub dirty : ℕ → Bool
  pub writes : List (ℕ × Block)

-- bufcache_write of the buffer of a sector, whose data are then `content`.
unfoldable pub write_sector : Log → (sector : ℕ) (content : Block) → Log
write_sector l sector content = record l {
  cache = update l.cache sector content;
  dirty = update l.dirty sector false;
  writes = l.writes ++ ((sector, content) ∷ []);
}

-- `for (tail ...; tail < log.lh.n; tail++)`, with `k` blocks to go.
unfoldable pub install_loop : (k tail : ℕ) → Log → Log
install_loop zero tail l = l
install_loop (suc k) tail l =
    let content = l.cache (l.start + tail + 1) in
    install_loop k (tail + 1) (write_sector l (l.lh.sector tail) content)

-- Copy committed blocks from log to their home location
unfoldable pub install_trans : Log → Log
install_trans l = install_loop l.lh.n 0 l

-- The sector numbers of a header block, the first `k` of them, over those of before.
unfoldable pub read_sectors : (k : ℕ) (block : Block) (sector : ℕ → ℕ) → ℕ → ℕ
read_sectors zero block sector = sector
read_sectors (suc k) block sector = update (read_sectors k block sector) k (block (k + 1))

-- Read the log header from disk into the in-memory log header
unfoldable pub read_head : Log → Log
read_head l =
    let block = l.cache l.start in
    record l { lh = record { n = block 0; sector = read_sectors (block 0) block l.lh.sector } }

-- The block with the first `k` sector numbers in it.
unfoldable pub write_sectors : (k : ℕ) (sector : ℕ → ℕ) (block : Block) → Block
write_sectors zero sector block = block
write_sectors (suc k) sector block = update (write_sectors k sector block) (k + 1) (sector k)

-- Write in-memory log header to disk.
unfoldable pub write_head : Log → Log
write_head l =
    write_sector l l.start (write_sectors l.lh.n l.lh.sector (update (l.cache l.start) 0 l.lh.n))

-- `log.lh.n = 0;`
unfoldable pub clear : Log → Log
clear l = record l { lh = record l.lh { n = 0 } }

unfoldable pub recover_from_log : Log → Log
recover_from_log l = write_head (clear (install_trans (read_head l)))

-- struct superblock
pub record Superblock : Type 0 where
  pub size : ℕ
  pub nblocks : ℕ
  pub ninodes : ℕ
  pub nlog : ℕ

unfoldable pub read_superblock : Log → Superblock
read_superblock l = record {
  size = l.cache 1 0;
  nblocks = l.cache 1 1;
  ninodes = l.cache 1 2;
  nlog = l.cache 1 3;
}

unfoldable pub log_init : Log → Log
log_init l =
    let sb = read_superblock l in
    recover_from_log (record l { start = sb.size - sb.nlog; size = sb.nlog })

-- The writes of commit_trans, and the end of the transaction.
unfoldable pub commit_writes : Log → Log
commit_writes l = if ltb 0 l.lh.n then write_head (clear (install_trans (write_head l))) else l

unfoldable pub commit_trans : Log → Log
commit_trans l = record (commit_writes l) { busy = false }

-- `for (i = 0; i < log.lh.n; i++)` up to the `break`, from `i` on with `k` to go.
unfoldable pub find_slot : (k i : ℕ) (sector : ℕ → ℕ) (b : ℕ) → ℕ
find_slot zero i sector b = i
find_slot (suc k) i sector b =
    let rest = find_slot k (i + 1) sector b in if sector i == b then i else rest

-- log_write of the buffer of the sector `b`, whose data its caller has changed in the cache;
-- `none` is KERN_PANIC.
unfoldable pub log_write : Log → (b : ℕ) → Option Log
log_write l b =
    if leb log_size l.lh.n || leb (l.size - 1) l.lh.n
    then none
    else if not l.busy
    then none
    else let i = find_slot l.lh.n 0 l.lh.sector b in
      let n = if i == l.lh.n then l.lh.n + 1 else l.lh.n in
      let l1 = record l { lh = record { n = n; sector = update l.lh.sector i b } } in
      let l2 = write_sector l1 (l.start + i + 1) (l.cache b) in
      some (record l2 { dirty = update l2.dirty b true })
