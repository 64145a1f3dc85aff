-- ===== src/Tests/Buffers.antt =====
-- The buffer cache as bufcache_init leaves it (kern/fs/bufcache.c).
use os_audio.Base.{ℕ, ◌+◌, ◌-◌, ◌^◌, ◌<◌, ◌≡◌, inl, refl, arith, true, false, ◌==◌, if◌then◌else◌}
use os_audio.Fs.Cache.{num_bufs, Buf, Cache, is_cached, is_free, bufcache_init, bufcache_read}
use os_audio.Fs.Cache.Init.{newest, oldest, bufcache_init_lem}
use os_audio.Fs.Cache.Lookup.{IsCache}
use os_audio.Fs.Cache.Outcome.{ReadOutcome, bufcache_read_lem}

abbrev buffers : ℕ → Buf
buffers b = record {
  busy = false;
  valid = false;
  dirty = false;
  dev = 2 ^ 32 - 1;
  sector = 0;
  prev = if b == 10 then 0 else b + 1;
  next = if b == 0 then 10 else b - 1;
  content = λ w. 0;
}

abbrev empty : Cache
empty = record { buf = buffers; disk = λ d s w. s + w; havedisk1 = true; faultless = λ d s. true }

empty-IsCache : IsCache empty newest oldest
unfolding is_cached
empty-IsCache = record {
  forward = (
    refl,
    omega arith,
    (
      refl,
      omega arith,
      (
        refl,
        omega arith,
        (
          refl,
          omega arith,
          (
            refl,
            omega arith,
            (
              refl,
              omega arith,
              (
                refl,
                omega arith,
                (refl, omega arith, (refl, omega arith, (refl, omega arith, refl))),
              ),
            ),
          ),
        ),
      ),
    ),
  );
  backward = (
    refl,
    omega arith,
    (
      refl,
      omega arith,
      (
        refl,
        omega arith,
        (
          refl,
          omega arith,
          (
            refl,
            omega arith,
            (
              refl,
              omega arith,
              (
                refl,
                omega arith,
                (refl, omega arith, (refl, omega arith, (refl, omega arith, refl))),
              ),
            ),
          ),
        ),
      ),
    ),
  );
  few = omega arith;
  few_back = omega arith;
  listed = λ b lt. ground arith;
  listed_back = λ b lt. ground arith;
  bufs = λ b h. ground arith;
  bufs_back = λ b h. ground arith;
  unique = λ a b dev sector la lb used ha hb. ground arith;
  real = λ b lt valid. cc;
  filled = λ b lt dirty. cc;
  coherent = λ b lt valid clean. cc;
}

bufcache_read_lem_example : ReadOutcome empty newest oldest 0 5 (bufcache_read empty 0 5)
bufcache_read_lem_example =
    bufcache_read_lem empty newest oldest 0 5 empty-IsCache (omega arith) (omega arith) (inl refl)
      refl

-- Buffer 0 is taken and holds sector 7 of disk 0.
abbrev holding : ℕ → Buf
holding b = record {
  busy = b == 0;
  valid = b == 0;
  dirty = false;
  dev = if b == 0 then 0 else 2 ^ 32 - 1;
  sector = if b == 0 then 7 else 0;
  prev = if b == 10 then 0 else b + 1;
  next = if b == 0 then 10 else b - 1;
  content = λ w. 7 + w;
}

abbrev one_taken : Cache
one_taken = record {
  buf = holding;
  disk = λ d s w. s + w;
  havedisk1 = true;
  faultless = λ d s. true;
}

-- The buffers before the boot, all zero.
abbrev at_boot : Cache
at_boot = record {
  buf = λ b. record {
    busy = false;
    valid = false;
    dirty = false;
    dev = 0;
    sector = 0;
    prev = 0;
    next = 0;
    content = λ w. 0;
  };
  disk = λ d s w. s + w;
  havedisk1 = true;
  faultless = λ d s. true;
}

bufcache_init_lem_example :
    IsCache (bufcache_init at_boot) newest oldest
    × ((b : ℕ) → b < num_bufs → is_free (bufcache_init at_boot).buf b ≡ true)
    × ((b dev sector : ℕ)
        → b < num_bufs
        → dev < 2 ^ 32 - 1
        → is_cached (bufcache_init at_boot).buf dev sector b ≡ false)
    × ((dev sector : ℕ) → (bufcache_init at_boot).disk dev sector ≡ at_boot.disk dev sector)
bufcache_init_lem_example =
    bufcache_init_lem at_boot
      (record { busy = λ b lt. refl; valid = λ b lt. refl; dirty = λ b lt. refl })
