-- ===== src/Fs/Cache/Fetch.antt =====
-- bufcache_get, ide_rw and bufcache_read of kern/fs/bufcache.c, branch by branch.
use os_audio.Base.{
  ℕ, ◌+◌, ◌%◌, ◌^◌, ◌≡◌, ◌≢◌, ◌⊎◌, inl, inr, refl, ap, fun_ext, arith, Bool, true, false, not, ◌&&◌,
  Option, none, some, List, has, ◌==◌, eq_true, eq_false, update,
}
use native.Mathlib.Decide.{ℕ_discrete}
use os_audio.Fs.Cache.{
  num_bufs, head, Buf, Cache, search, is_cached, is_free, Get, bufcache_get, ide_rw, Read,
  bufcache_read,
}
use os_audio.Fs.Cache.Search.{Found}
use os_audio.Fs.Cache.Lookup.{with_buf}

pub Found-cases :
    {test : ℕ → Bool} {xs : List ℕ} {o : Option ℕ}
    → Found test xs o
    → ((o ≡ some head) × ((a : ℕ) → has a xs ≡ true → test a ≡ false))
      ⊎ ((b : ℕ) × (o ≡ some b) × (has b xs ≡ true) × (b ≢ head) × (test b ≡ true))
Found-cases (Found.nowhere off) = inl (refl, off)
Found-cases (Found.here b there ne passes) = inr (b, refl, there, ne, passes)

module _ (buf : ℕ → Buf) (dev sector : ℕ) where
  abbrev pub find_cached : Option ℕ
  find_cached = search (num_bufs + 1) (λ b. (buf b).next) (is_cached buf dev sector) (buf head).next

  abbrev pub find_free : Option ℕ
  find_free = search (num_bufs + 1) (λ b. (buf b).prev) (is_free buf) (buf head).prev

  pub get-hit :
      (b : ℕ)
      → find_cached ≡ some b
      → b ≢ head
      → (buf b).busy ≡ false
      → bufcache_get buf dev sector
        ≡ some (Get.got b (update buf b (record (buf b) { busy = true })))
  unfolding bufcache_get
  get-hit b e ne free = rw (e, eq_false ne, free) refl

  pub get-wait :
      (b : ℕ)
      → find_cached ≡ some b
      → b ≢ head
      → (buf b).busy ≡ true
      → bufcache_get buf dev sector ≡ some (Get.sleeps b)
  unfolding bufcache_get
  get-wait b e ne busy = rw (e, eq_false ne, busy) refl

  abbrev pub recycled : (b : ℕ) → Buf
  recycled b = record (buf b) {
    dev = dev;
    sector = sector;
    busy = true;
    valid = false;
    dirty = false;
  }

  pub get-new :
      (b : ℕ)
      → find_cached ≡ some head
      → find_free ≡ some b
      → b ≢ head
      → bufcache_get buf dev sector ≡ some (Get.got b (update buf b (recycled b)))
  unfolding bufcache_get
  get-new b e f ne = rw (e, f, eq_false ne) refl

  pub get-none :
      find_cached ≡ some head → find_free ≡ some head → bufcache_get buf dev sector ≡ none
  unfolding bufcache_get
  get-none e f = rw (e, f) refl

update-update : (f : ℕ → Buf) (b : ℕ) (r r' : Buf) → update (update f b r) b r' ≡ update f b r'
update-update f b r r' =
    fun_ext (λ x. elim (ℕ_discrete x b) [
      | yes e ↦ rw (e, eq_true b) refl
      | no ne ↦ rw (eq_false ne) refl
    ])

-- The buffer after a read of its sector.
abbrev pub loaded : Cache → Buf → Buf
loaded c r = record r { valid = true; dirty = false; content = c.disk r.dev r.sector }

pub and-false : (x : Bool) → (x && false) ≡ false
and-false true = refl
and-false false = refl

pub not_both : {x : Bool} → x ≡ false → x ≢ true
not_both f t = cc

pub ide_read :
    (c : Cache) (b : ℕ) (r : Buf)
    → r.busy ≡ true
    → r.valid ≡ false
    → r.dirty ≡ false
    → (r.dev ≡ 0) ⊎ (c.havedisk1 ≡ true)
    → r.dev % 2 ≡ r.dev
    → r.sector % 2 ^ 28 ≡ r.sector
    → c.faultless r.dev r.sector ≡ true
    → ide_rw (with_buf c b r) b ≡ some (with_buf c b (loaded c r))
unfolding ide_rw
ide_read c b r busy invalid clean disk drive lba works =
    let t : (not (r.dev == 0) && not c.havedisk1) ≡ false = elim disk [
      | inl e ↦ rw e refl
      | inr e ↦ rw e (and-false (not (r.dev == 0)))
    ] in
    rw (eq_true b, drive, lba, works, t)
      (simp (busy, invalid, clean)
        (ap (λ u. some (record c { buf = u }))
          (update-update c.buf b r (record (loaded c r) { busy = true }))))

pub free_idle : (buf : ℕ → Buf) (b : ℕ) → is_free buf b ≡ true → (buf b).busy ≡ false
unfolding is_free
free_idle buf b h = ground arith

pub free_clean : (buf : ℕ → Buf) (b : ℕ) → is_free buf b ≡ true → (buf b).dirty ≡ false
unfolding is_free
free_clean buf b h = ground arith

module _ (c : Cache) (dev sector : ℕ) where
  pub read-wait :
      (b : ℕ)
      → bufcache_get c.buf dev sector ≡ some (Get.sleeps b)
      → bufcache_read c dev sector ≡ some (Read.waits b)
  unfolding bufcache_read
  read-wait b e = rw e refl

  pub read-none : bufcache_get c.buf dev sector ≡ none → bufcache_read c dev sector ≡ none
  unfolding bufcache_read
  read-none e = rw e refl

module _ (c : Cache) (dev sector b : ℕ) (r : Buf) where
  pub read-valid :
      bufcache_get c.buf dev sector ≡ some (Get.got b (update c.buf b r))
      → r.valid ≡ true
      → bufcache_read c dev sector ≡ some (Read.read b (with_buf c b r))
  unfolding bufcache_read
  read-valid e valid = rw (e, eq_true b, valid) refl

  pub read-invalid :
      bufcache_get c.buf dev sector ≡ some (Get.got b (update c.buf b r))
      → r.valid ≡ false
      → ide_rw (with_buf c b r) b ≡ some (with_buf c b (loaded c r))
      → bufcache_read c dev sector ≡ some (Read.read b (with_buf c b (loaded c r)))
  unfolding bufcache_read
  read-invalid e invalid done = rw (e, eq_true b) (simp (invalid, done) refl)
