-- ===== src/Fs/Bitmap.antt =====
-- block_zero, block_alloc and block_free of kern/fs/block.c, in a transaction of the log. `byte` and
-- `set_byte` are the machine's: the `uint8_t` at a place of a block of `int`s, and its assignment. `none`
-- is a panic.
pub mod Bits
pub mod Alloc
pub mod First
pub mod Free
use os_audio.Base.{
  ℕ, zero, suc, ◌+◌, ◌-◌, ◌*◌, ◌/◌, ◌%◌, ◌^◌, min, Bool, Option, none, some, update, ltb, leb, ◌==◌,
  if◌then◌else◌, ◌>>=◌,
}
use os_audio.Fs.Log.{Block, Log, Superblock, read_superblock, log_write}

-- BPB, and the inodes in a block (IPB).
abbrev pub bpb : ℕ
bpb = 4096

abbrev pub ipb : ℕ
ipb = 8

-- BBLOCK(b, ninodes)
abbrev pub bblock : (b ninodes : ℕ) → ℕ
bblock b ninodes = b / bpb + ninodes / ipb + 3

-- New data in the buffer of a sector, which only the cache sees.
abbrev pub modify : Log → (sector : ℕ) → Block → Log
modify l sector v = record l { cache = update l.cache sector v }

unfoldable pub block_zero : Log → (bno : ℕ) → Option Log
block_zero l bno = log_write (modify l bno (λ w. 0)) bno

-- A block and the log, or the end of block_alloc, which returns nothing.
pub data Allocation : Type 0 where
  block : (b : ℕ) → Log → Allocation
  out_of_blocks : Allocation

module _ (byte : Block → ℕ → ℕ) (set_byte : Block → (k v : ℕ) → Block) where
  -- `(bp->data[bi/8] & m) == 0`, for `m = 1 << (bi % 8)`
  unfoldable pub is_free : Block → (bi : ℕ) → Bool
  is_free v bi = byte v (bi / 8) / 2 ^ (bi % 8) % 2 == 0

  -- `bp->data[bi/8] |= m` where the bit is clear, and `bp->data[bi/8] &= ~m` where it is set.
  unfoldable pub mark : Block → (bi : ℕ) → Block
  mark v bi = set_byte v (bi / 8) (byte v (bi / 8) + 2 ^ (bi % 8))

  unfoldable pub unmark : Block → (bi : ℕ) → Block
  unmark v bi = set_byte v (bi / 8) (byte v (bi / 8) - 2 ^ (bi % 8))

  -- The inner loop, with `k` bits to go: the first one that is free.
  unfoldable pub find_free : (k bi : ℕ) → Block → Option ℕ
  find_free zero bi v = none
  find_free (suc k) bi v =
      let rest = find_free k (bi + 1) v in if is_free v bi then some bi else rest

  unfoldable pub take_block : Log → (sector b bi : ℕ) → Option Allocation
  take_block l sector b bi = do
    l ← log_write (modify l sector (mark (l.cache sector) bi)) sector
    l ← block_zero l (b + bi)
    some (Allocation.block (b + bi) l)

  -- The outer loop, with `k` blocks of the bitmap to go.
  unfoldable pub alloc_loop : (k b : ℕ) → Superblock → Log → Option Allocation
  alloc_loop zero b sb l = some Allocation.out_of_blocks
  alloc_loop (suc k) b sb l =
      let sector = bblock b sb.ninodes in
      elim (find_free (min bpb (sb.size - b)) 0 (l.cache sector)) [
        | none ↦ alloc_loop k (b + bpb) sb l
        | some bi ↦ take_block l sector b bi
      ]

  unfoldable pub block_alloc : Log → Option Allocation
  block_alloc l = let sb = read_superblock l in alloc_loop ((sb.size + (bpb - 1)) / bpb) 0 sb l

  unfoldable pub block_free : Log → (b : ℕ) → Option Log
  block_free l b =
      let sb = read_superblock l in
      let sector = bblock b sb.ninodes in
      let bi = b % bpb in
      if is_free (l.cache sector) bi
      then none
      else log_write (modify l sector (unmark (l.cache sector) bi)) sector
