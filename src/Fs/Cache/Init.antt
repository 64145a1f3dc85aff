-- ===== src/Fs/Cache/Init.antt =====
-- bufcache_init of kern/fs/bufcache.c.
use os_audio.Base.{
  ℕ, zero, suc, ◌-◌, ◌^◌, ◌<◌, ◌≡◌, ◌≢◌, refl, inl, inr, Bool-cases, arith, true, false, List, [],
  ◌∷◌,
}
use os_audio.Fs.Cache.{
  num_bufs, Cache, is_cached, is_free, set_next, set_prev, push_front, init_loop, bufcache_init,
}
use os_audio.Fs.Cache.Lookup.{IsCache, cached_fields}

-- The buffers from the head on, and in the other direction.
abbrev pub newest : List ℕ
newest = 9 ∷ 8 ∷ 7 ∷ 6 ∷ 5 ∷ 4 ∷ 3 ∷ 2 ∷ 1 ∷ 0 ∷ []

abbrev pub oldest : List ℕ
oldest = 0 ∷ 1 ∷ 2 ∷ 3 ∷ 4 ∷ 5 ∷ 6 ∷ 7 ∷ 8 ∷ 9 ∷ []

-- What the loop leaves in a buffer.
abbrev Unused : Cache → (b : ℕ) → Type 0
Unused c b =
    (((bufcache_init c).buf b).dev ≡ 2 ^ 32 - 1)
    × (((bufcache_init c).buf b).busy ≡ (c.buf b).busy)
    × (((bufcache_init c).buf b).valid ≡ (c.buf b).valid)
    × (((bufcache_init c).buf b).dirty ≡ (c.buf b).dirty)

init-Unused : (c : Cache) (b : ℕ) → b < num_bufs → Unused c b
unfolding set_next set_prev push_front init_loop bufcache_init
init-Unused c zero lt = (refl, refl, refl, refl)
init-Unused c (suc zero) lt = (refl, refl, refl, refl)
init-Unused c (suc (suc zero)) lt = (refl, refl, refl, refl)
init-Unused c (suc (suc (suc zero))) lt = (refl, refl, refl, refl)
init-Unused c (suc (suc (suc (suc zero)))) lt = (refl, refl, refl, refl)
init-Unused c (suc (suc (suc (suc (suc zero))))) lt = (refl, refl, refl, refl)
init-Unused c (suc (suc (suc (suc (suc (suc zero)))))) lt = (refl, refl, refl, refl)
init-Unused c (suc (suc (suc (suc (suc (suc (suc zero))))))) lt = (refl, refl, refl, refl)
init-Unused c (suc (suc (suc (suc (suc (suc (suc (suc zero)))))))) lt = (refl, refl, refl, refl)
init-Unused c (suc (suc (suc (suc (suc (suc (suc (suc (suc zero))))))))) lt =
    (refl, refl, refl, refl)
init-Unused c (suc (suc (suc (suc (suc (suc (suc (suc (suc (suc b)))))))))) lt =
    absurd (omega (arith, lt))

no_sector :
    (c : Cache) (dev sector b : ℕ)
    → b < num_bufs
    → dev < 2 ^ 32 - 1
    → is_cached (bufcache_init c).buf dev sector b ≢ true
no_sector c dev sector b lt small h =
    let (d, s) = cached_fields (bufcache_init c).buf dev sector b h in
    omega (arith, small, (init-Unused c b lt).0, d)

no_flag :
    (c : Cache) (b : ℕ)
    → (c.buf b).valid ≡ false
    → Unused c b
    → ((bufcache_init c).buf b).valid ≢ true
no_flag c b off (dev, busy, valid, dirty) on = cc

no_dirt :
    (c : Cache) (b : ℕ)
    → (c.buf b).dirty ≡ false
    → Unused c b
    → ((bufcache_init c).buf b).dirty ≢ true
no_dirt c b off (dev, busy, valid, dirty) on = cc

-- The buffers as the loader leaves them, cleared.
pub record Cleared (c : Cache) : Type 0 where
  pub busy : (b : ℕ) → b < num_bufs → (c.buf b).busy ≡ false
  pub valid : (b : ℕ) → b < num_bufs → (c.buf b).valid ≡ false
  pub dirty : (b : ℕ) → b < num_bufs → (c.buf b).dirty ≡ false

free_again : (c : Cache) (b : ℕ) → Cleared c → b < num_bufs → is_free (bufcache_init c).buf b ≡ true
unfolding is_free
free_again c b clear lt =
    let (dev, busy, valid, dirty) = init-Unused c b lt in
    rw (busy, dirty, clear.busy b lt, clear.dirty b lt) refl

init-IsCache : (c : Cache) → Cleared c → IsCache (bufcache_init c) newest oldest
unfolding set_next set_prev push_front init_loop bufcache_init
init-IsCache c clear = record {
  forward = (
    refl,
    omega arith,
    (
      refl,
      omega arith,
      (
        refl,
        omega arith,
        (
          refl,
          omega arith,
          (
            refl,
            omega arith,
            (
              refl,
              omega arith,
              (
                refl,
                omega arith,
                (refl, omega arith, (refl, omega arith, (refl, omega arith, refl))),
              ),
            ),
          ),
        ),
      ),
    ),
  );
  backward = (
    refl,
    omega arith,
    (
      refl,
      omega arith,
      (
        refl,
        omega arith,
        (
          refl,
          omega arith,
          (
            refl,
            omega arith,
            (
              refl,
              omega arith,
              (
                refl,
                omega arith,
                (refl, omega arith, (refl, omega arith, (refl, omega arith, refl))),
              ),
            ),
          ),
        ),
      ),
    ),
  );
  few = omega arith;
  few_back = omega arith;
  listed = λ b lt. ground arith;
  listed_back = λ b lt. ground arith;
  bufs = λ b h. ground arith;
  bufs_back = λ b h. ground arith;
  unique = λ a b dev sector la lb used ha hb. absurd (no_sector c dev sector a la used ha);
  real = λ b lt valid. absurd (no_flag c b (clear.valid b lt) (init-Unused c b lt) valid);
  filled = λ b lt dirty. absurd (no_dirt c b (clear.dirty b lt) (init-Unused c b lt) dirty);
  coherent = λ b lt valid clean. absurd (no_flag c b (clear.valid b lt) (init-Unused c b lt) valid);
}

-- `bufcache_init` of cleared buffers makes a well-formed cache, in which the last buffer of the
-- array is the first on the list. Every buffer is free, no buffer holds a sector of a device below
-- 2^32 - 1, and the disk is as before.
pub bufcache_init_lem :
    (c : Cache)
    → Cleared c
    → IsCache (bufcache_init c) newest oldest
      × ((b : ℕ) → b < num_bufs → is_free (bufcache_init c).buf b ≡ true)
      × ((b dev sector : ℕ)
          → b < num_bufs
          → dev < 2 ^ 32 - 1
          → is_cached (bufcache_init c).buf dev sector b ≡ false)
      × ((dev sector : ℕ) → (bufcache_init c).disk dev sector ≡ c.disk dev sector)
unfolding bufcache_init
bufcache_init_lem c clear = (
  init-IsCache c clear,
  λ b lt. free_again c b clear lt,
  λ b dev sector lt small. elim (Bool-cases (is_cached (bufcache_init c).buf dev sector b)) [
    | inl held ↦ absurd (no_sector c dev sector b lt small held)
    | inr free ↦ free
  ],
  λ dev sector. refl,
)
