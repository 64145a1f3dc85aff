-- ===== src/Fs/Cache.antt =====
-- The buffer cache of kern/fs/bufcache.c. Buffers are named by their places in bcache.buf, and the
-- list head is behind the last of them. ide_rw of kern/dev/disk/ide.c is modelled by its panics and by
-- what ide_start and ide_intr have done for the buffer once it returns: the drive is the lowest bit of
-- the device, the sector has 28 bits, and a read that fails leaves the data and marks them valid. `none` is a panic or a walk longer than the list can be.
pub mod Search
pub mod Lookup
pub mod Fetch
pub mod Outcome
pub mod Store
pub mod Init
use os_audio.Base.{
  ℕ, zero, suc, ◌+◌, ◌-◌, ◌%◌, ◌^◌, Bool, true, false, not, ◌&&◌, ◌||◌, Option, none, some, update,
  ◌==◌, if◌then◌else◌, ◌>>=◌,
}
use os_audio.Fs.Log.{Block}

-- NBUF, and the list head.
abbrev pub num_bufs : ℕ
num_bufs = 10

abbrev pub head : ℕ
head = num_bufs

-- struct buf: `busy`, `valid` and `dirty` are the bits of `flags`.
pub record Buf : Type 0 where
  pub busy : Bool
  pub valid : Bool
  pub dirty : Bool
  pub dev : ℕ
  pub sector : ℕ
  pub prev : ℕ
  pub next : ℕ
  pub content : Block

-- bcache, the sectors of the two drives, `havedisk1` of the driver, and whether a drive reads a sector
-- without an error (ide_wait).
pub record Cache : Type 0 where
  pub buf : ℕ → Buf
  pub disk : (dev sector : ℕ) → Block
  pub havedisk1 : Bool
  pub faultless : (dev sector : ℕ) → Bool

unfoldable pub set_next : (ℕ → Buf) → (b v : ℕ) → ℕ → Buf
set_next buf b v = update buf b (record (buf b) { next = v })

unfoldable pub set_prev : (ℕ → Buf) → (b v : ℕ) → ℕ → Buf
set_prev buf b v = update buf b (record (buf b) { prev = v })

-- The four assignments that put `b` behind the head.
unfoldable pub push_front : (ℕ → Buf) → (b : ℕ) → ℕ → Buf
push_front buf b =
    let buf = set_next buf b (buf head).next in
    let buf = set_prev buf b head in let buf = set_prev buf (buf head).next b in set_next buf head b

-- The loop of bufcache_init, with `k` buffers to go.
unfoldable pub init_loop : (k b : ℕ) → (ℕ → Buf) → ℕ → Buf
init_loop zero b buf = buf
init_loop (suc k) b buf =
    init_loop k (b + 1) (push_front (update buf b (record (buf b) { dev = 2 ^ 32 - 1 })) b)

unfoldable pub bufcache_init : Cache → Cache
bufcache_init c = record c {
  buf = init_loop num_bufs 0 (set_next (set_prev c.buf head head) head head);
}

-- `for (b = ...; b != &bcache.head; b = ...)`, up to a buffer that passes the test, or the head.
unfoldable pub search : (fuel : ℕ) (step : ℕ → ℕ) (test : ℕ → Bool) (b : ℕ) → Option ℕ
search zero step test b = none
search (suc fuel) step test b =
    let rest = search fuel step test (step b) in
    if b == head then some head else if test b then some b else rest

unfoldable pub is_cached : (ℕ → Buf) → (dev sector b : ℕ) → Bool
is_cached buf dev sector b = ((buf b).dev == dev) && ((buf b).sector == sector)

unfoldable pub is_free : (ℕ → Buf) → (b : ℕ) → Bool
is_free buf b = not (buf b).busy && not (buf b).dirty

-- bufcache_get returns a buffer, or sleeps on one; `none` is its panic.
pub data Get : Type 0 where
  got : (b : ℕ) → (ℕ → Buf) → Get
  sleeps : (b : ℕ) → Get

unfoldable pub bufcache_get : (ℕ → Buf) → (dev sector : ℕ) → Option Get
bufcache_get buf dev sector = do
  b ← search (num_bufs + 1) (λ b. (buf b).next) (is_cached buf dev sector) (buf head).next
  if b == head
      then (do
        c ← search (num_bufs + 1) (λ b. (buf b).prev) (is_free buf) (buf head).prev
        if c == head
            then none
            else some (
                Get.got c (
                  update buf c (record (buf c) {
                    dev = dev;
                    sector = sector;
                    busy = true;
                    valid = false;
                    dirty = false;
                  }))))
      else some (
          if not (buf b).busy
          then Get.got b (update buf b (record (buf b) { busy = true }))
          else Get.sleeps b)

-- The drive and the sector that ide_start commands: one bit of `dev` and 28 bits of `sector`.
abbrev pub drive : Buf → ℕ
drive r = r.dev % 2

abbrev pub lba : Buf → ℕ
lba r = r.sector % 2 ^ 28

-- What ide_intr does for the buffer of a request that ide_start began: the drive has taken the data,
-- or they are read unless the drive reports an error, and the buffer is valid and clean.
abbrev pub serve : Cache → (b : ℕ) → Cache
serve c b =
    let r = c.buf b in
    let done = record r { valid = true; dirty = false } in
    if r.dirty
    then record c {
      buf = update c.buf b done;
      disk = λ d s. if (d == drive r) && (s == lba r) then r.content else c.disk d s;
    }
    else record c {
      buf = update c.buf b (record done {
        content = if c.faultless (drive r) (lba r) then c.disk (drive r) (lba r) else r.content;
      });
    }

unfoldable pub ide_rw : Cache → (b : ℕ) → Option Cache
ide_rw c b =
    let r = c.buf b in
    if not r.busy || (r.valid && not r.dirty)
    then none
    else if not (r.dev == 0) && not c.havedisk1
    then none
    else some (serve c b)

-- The buffer and the cache, or the buffer that is waited for.
pub data Read : Type 0 where
  read : (b : ℕ) → Cache → Read
  waits : (b : ℕ) → Read

unfoldable pub bufcache_read : Cache → (dev sector : ℕ) → Option Read
bufcache_read c dev sector = do
  g ← bufcache_get c.buf dev sector
  elim g [
    | Get.sleeps b ↦ some (Read.waits b)
    | Get.got b buf ↦
        let c = record c { buf = buf } in
        if not (buf b).valid
        then (do c ← ide_rw c b; some (Read.read b c))
        else some (Read.read b c)
  ]

unfoldable pub bufcache_write : Cache → (b : ℕ) → Option Cache
bufcache_write c b =
    if not (c.buf b).busy
    then none
    else ide_rw (record c { buf = update c.buf b (record (c.buf b) { dirty = true }) }) b

unfoldable pub bufcache_release : Cache → (b : ℕ) → Option Cache
bufcache_release c b =
    if not (c.buf b).busy
    then none
    else let buf = set_prev c.buf (c.buf b).next (c.buf b).prev in
      let buf = set_next buf (buf b).prev (buf b).next in
      let buf = push_front buf b in
      some (record c { buf = update buf b (record (buf b) { busy = false }) })
