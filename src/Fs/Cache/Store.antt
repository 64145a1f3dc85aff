-- ===== src/Fs/Cache/Store.antt =====
-- bufcache_write of kern/fs/bufcache.c on a well-formed cache.
use os_audio.Base.{ℕ, true, false, ◌&&◌, ◌==◌, update, if◌then◌else◌}
use os_audio.Fs.Log.{Block}
use os_audio.Fs.Cache.{Cache}
use os_audio.Fs.Cache.Lookup.{with_buf}

-- The disk with a new content of one sector.
abbrev pub with_sector : ((dev sector : ℕ) → Block) → (dev sector : ℕ) → Block → (d s : ℕ) → Block
with_sector disk dev sector v d s = if (d == dev) && (s == sector) then v else disk d s

abbrev marked : Cache → (b : ℕ) → Cache
marked c b = with_buf c b (record (c.buf b) { dirty = true })

-- The cache after the write.
abbrev pub stored : Cache → (b : ℕ) → Cache
stored c b =
    let r = record (c.buf b) { dirty = true } in
    record c {
      disk = with_sector c.disk r.dev r.sector r.content;
      buf = update (update c.buf b r) b (record r { valid = true; dirty = false });
    }
