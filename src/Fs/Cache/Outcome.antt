-- ===== src/Fs/Cache/Outcome.antt =====
-- bufcache_read of kern/fs/bufcache.c: the buffer that it returns, waits for, or cannot find.
use os_audio.Base.{
  ℕ, ◌+◌, ◌-◌, ◌^◌, ◌<◌, ◌≡◌, ◌≢◌, ◌⊎◌, inl, inr, refl, ap, ◌∙◌, arith, true, false, Option, none,
  some, List, Bool-cases, update, update_self, update_ne,
}
use native.Mathlib.Decide.{ℕ_discrete}
use native.Mathlib.Nat.{mod-eq_of_lt}
use os_audio.Fs.Cache.{
  num_bufs, head, Buf, Cache, is_cached, is_free, Get, bufcache_get, Read, bufcache_read,
}
use os_audio.Fs.Cache.Search.{search_lem}
use os_audio.Fs.Cache.Lookup.{
  IsCache, with_buf, Fits, with_buf-IsCache, cached_fields, uncached_fields,
}
use os_audio.Fs.Cache.Fetch.{
  Found-cases, get-hit, get-wait, get-new, get-none, not_both, ide_read, free_idle, free_clean,
  read-wait, read-none, read-valid, read-invalid, find_cached, recycled, loaded,
}

-- The buffer that bufcache_read returns, `b` in the cache `c'`.
pub record IsRead (c : Cache) (xs ys : List ℕ) (dev sector b : ℕ) (c' : Cache) : Type 0 where
  pub place : b < num_bufs
  pub was_free : (c.buf b).busy ≡ false
  pub busy : (c'.buf b).busy ≡ true
  pub valid : (c'.buf b).valid ≡ true
  pub dev_same : (c'.buf b).dev ≡ dev
  pub sector_same : (c'.buf b).sector ≡ sector
  pub hit :
      is_cached c.buf dev sector b ≡ true
      → (c.buf b).valid ≡ true
      → (c'.buf b).content ≡ (c.buf b).content
  pub miss :
      ((a : ℕ) → a < num_bufs → (c.buf a).valid ≡ true → is_cached c.buf dev sector a ≡ false)
      → (c'.buf b).content ≡ c.disk dev sector
  pub unlost : is_cached c.buf dev sector b ≡ false → (c.buf b).dirty ≡ false
  pub others : (a : ℕ) → a ≢ b → c'.buf a ≡ c.buf a
  pub disk : c'.disk ≡ c.disk
  pub again : IsCache c' xs ys

module _ (c : Cache) (xs ys : List ℕ) (dev sector b : ℕ) (used : dev < 2 ^ 32 - 1)
    (wf : IsCache c xs ys) where
  fit-IsRead :
      (r : Buf)
      → (c.buf b).busy ≡ false
      → Fits c b dev sector r
      → (is_cached c.buf dev sector b ≡ true
          → (c.buf b).valid ≡ true
          → r.content ≡ (c.buf b).content)
      → (((a : ℕ) → a < num_bufs → (c.buf a).valid ≡ true → is_cached c.buf dev sector a ≡ false)
          → r.content ≡ c.disk dev sector)
      → (is_cached c.buf dev sector b ≡ false → (c.buf b).dirty ≡ false)
      → IsRead c xs ys dev sector b (with_buf c b r)
  fit-IsRead r free fits hit miss unlost =
      let self : update c.buf b r b ≡ r = update_self c.buf b r in
      record {
        place = fits.place;
        was_free = free;
        busy = ap Buf.busy self ∙ fits.busy;
        valid = ap Buf.valid self ∙ fits.valid;
        dev_same = ap Buf.dev self ∙ fits.dev_same;
        sector_same = ap Buf.sector self ∙ fits.sector_same;
        hit = λ e v. ap Buf.content self ∙ hit e v;
        miss = λ m. ap Buf.content self ∙ miss m;
        unlost = unlost;
        others = λ a ne. update_ne c.buf r ne;
        disk = refl;
        again = with_buf-IsCache c xs ys b dev sector r used wf fits;
      }

  hit-IsRead :
      b < num_bufs
      → is_cached c.buf dev sector b ≡ true
      → (c.buf b).busy ≡ false
      → (c.buf b).valid ≡ true
      → IsRead c xs ys dev sector b (with_buf c b (record (c.buf b) { busy = true }))
  hit-IsRead place cached free valid =
      let (d, s) = cached_fields c.buf dev sector b cached in
      fit-IsRead (record (c.buf b) { busy = true }) free
        (record {
          place = place;
          busy = refl;
          valid = valid;
          dev_same = d;
          sector_same = s;
          next = refl;
          prev = refl;
          alone = λ a lt e. wf.unique a b dev sector lt place used e cached;
          real = rw (d, s) at (wf.real b place valid);
          coherent = λ clean.
              wf.coherent b place valid clean
              ∙ (ap (λ x. c.disk x (c.buf b).sector) d ∙ ap (c.disk dev) s);
        })
        (λ e v. refl)
        (λ none_valid. absurd (
          let x : is_cached c.buf dev sector b ≡ false = none_valid b place valid in
          not_both x cached))
        (λ x. absurd (not_both x cached))

  load-IsRead :
      (r : Buf)
      → b < num_bufs
      → (c.buf b).busy ≡ false
      → r.busy ≡ true
      → r.dev ≡ dev
      → r.sector ≡ sector
      → r.next ≡ (c.buf b).next
      → r.prev ≡ (c.buf b).prev
      → ((a : ℕ) → a < num_bufs → is_cached c.buf dev sector a ≡ true → a ≡ b)
      → (is_cached c.buf dev sector b ≡ true → (c.buf b).valid ≢ true)
      → (is_cached c.buf dev sector b ≡ false → (c.buf b).dirty ≡ false)
      → (dev < 2) × (sector < 2 ^ 28)
      → IsRead c xs ys dev sector b (with_buf c b (loaded c r))
  load-IsRead r place free busy d s next prev alone never unlost real =
      let from_disk : c.disk r.dev r.sector ≡ c.disk dev sector =
        ap (λ x. c.disk x r.sector) d ∙ ap (c.disk dev) s in
      fit-IsRead (loaded c r) free
        (record {
          place = place;
          busy = busy;
          valid = refl;
          dev_same = d;
          sector_same = s;
          next = next;
          prev = prev;
          alone = alone;
          real = real;
          coherent = λ clean. from_disk;
        })
        (λ e v. absurd (never e v)) (λ m. from_disk) unlost

elsewhere_cached :
    (buf : ℕ → Buf) (dev sector a : ℕ)
    → is_cached buf dev sector a ≡ false
    → ((buf a).dev ≢ dev) ⊎ ((buf a).sector ≢ sector)
elsewhere_cached buf dev sector a off = elim (ℕ_discrete (buf a).dev dev) [
  | no ne ↦ inl ne
  | yes d ↦ inr (λ s. not_both off (uncached_fields buf dev sector a d s))
]

unfree_cases :
    (buf : ℕ → Buf) (a : ℕ) → is_free buf a ≡ false → ((buf a).busy ≡ true) ⊎ ((buf a).dirty ≡ true)
unfolding is_free
unfree_cases buf a h = elim (Bool-cases (buf a).busy) [
  | inl busy ↦ inl busy
  | inr idle ↦ elim (Bool-cases (buf a).dirty) [
    | inl dirty ↦ inr dirty
    | inr clean ↦ absurd (not_both (rw (idle, clean) at h) refl)
  ]
]

-- Every outcome of bufcache_read.
abbrev pub ReadOutcome : (c : Cache) (xs ys : List ℕ) (dev sector : ℕ) → Option Read → Type 0
ReadOutcome c xs ys dev sector o =
    ((b : ℕ) × (c' : Cache) × (o ≡ some (Read.read b c')) × IsRead c xs ys dev sector b c')
    ⊎ (((b : ℕ) × (o ≡ some (Read.waits b))
          × ((c.buf b).dev ≡ dev)
          × ((c.buf b).sector ≡ sector)
          × ((c.buf b).busy ≡ true))
        ⊎ ((o ≡ none)
            × ((a : ℕ)
                → a < num_bufs
                → (((c.buf a).dev ≢ dev) ⊎ ((c.buf a).sector ≢ sector))
                  × (((c.buf a).busy ≡ true) ⊎ ((c.buf a).dirty ≡ true)))))

module _ (c : Cache) (xs ys : List ℕ) (dev sector : ℕ) (wf : IsCache c xs ys)
    (used : dev < 2 ^ 32 - 1) (there : (dev ≡ 0) ⊎ (c.havedisk1 ≡ true))
    (real : (dev < 2) × (sector < 2 ^ 28)) (works : c.faultless dev sector ≡ true) where
  loaded_read :
      (b : ℕ) (r : Buf)
      → bufcache_get c.buf dev sector ≡ some (Get.got b (update c.buf b r))
      → r.busy ≡ true
      → r.valid ≡ false
      → r.dirty ≡ false
      → r.dev ≡ dev
      → r.sector ≡ sector
      → IsRead c xs ys dev sector b (with_buf c b (loaded c r))
      → ReadOutcome c xs ys dev sector (bufcache_read c dev sector)
  loaded_read b r e busy invalid clean d s out =
      let disk : (r.dev ≡ 0) ⊎ (c.havedisk1 ≡ true) = elim there [
        | inl z ↦ inl (d ∙ z)
        | inr h ↦ inr h
      ] in
      inl (
        b,
        with_buf c b (loaded c r),
        read-invalid c dev sector b r e invalid (
            ide_read c b r busy invalid clean disk (rw d (mod-eq_of_lt real.0))
              (rw s (mod-eq_of_lt real.1)) (rw (d, s) works)),
        out,
      )

  cached_read :
      (b : ℕ)
      → find_cached c.buf dev sector ≡ some b
      → b < num_bufs
      → b ≢ head
      → is_cached c.buf dev sector b ≡ true
      → ReadOutcome c xs ys dev sector (bufcache_read c dev sector)
  cached_read b e place ne cached =
      let (d, s) = cached_fields c.buf dev sector b cached in
      elim (Bool-cases (c.buf b).busy) [
        | inl busy ↦
            inr (
              inl (b, read-wait c dev sector b (get-wait c.buf dev sector b e ne busy), d, s, busy))
        | inr free ↦
            let r : Buf = record (c.buf b) { busy = true } in
            let taken = get-hit c.buf dev sector b e ne free in
            elim (Bool-cases (c.buf b).valid) [
              | inl valid ↦ inl (
                b,
                with_buf c b r,
                read-valid c dev sector b r taken valid,
                hit-IsRead c xs ys dev sector b used wf place cached free valid,
              )
              | inr invalid ↦
                  let clean : (c.buf b).dirty ≡ false = elim (Bool-cases (c.buf b).dirty) [
                    | inl dirty ↦ absurd (not_both invalid (wf.filled b place dirty))
                    | inr clean ↦ clean
                  ] in
                  loaded_read b r taken refl invalid clean d s (
                    load-IsRead c xs ys dev sector b used wf r place free refl d s refl refl
                      (λ a lt h. wf.unique a b dev sector lt place used h cached)
                      (λ h. not_both invalid) (λ x. absurd (not_both x cached)) real)
            ]
      ]

  uncached_read :
      find_cached c.buf dev sector ≡ some head
      → ((a : ℕ) → a < num_bufs → is_cached c.buf dev sector a ≡ false)
      → ReadOutcome c xs ys dev sector (bufcache_read c dev sector)
  uncached_read e uncached =
      elim (Found-cases (
        search_lem (num_bufs + 1) (λ b. (c.buf b).prev) (is_free c.buf) (c.buf head).prev ys
          wf.backward (omega (arith, wf.few_back)))) [
            | inr (b, f, on_list, ne, free) ↦
                let place : b < num_bufs = wf.bufs_back b on_list in
                loaded_read b (recycled c.buf dev sector b) (get-new c.buf dev sector b e f ne) refl
                  refl refl refl refl
                  (load-IsRead c xs ys dev sector b used wf (recycled c.buf dev sector b) place
                    (free_idle c.buf b free) refl refl refl refl refl
                    (λ a lt h. absurd (not_both (uncached a lt) h))
                    (λ h. absurd (not_both (uncached b place) h)) (λ h. free_clean c.buf b free)
                    real)
            | inl (f, taken) ↦ inr (
                inr (
                  read-none c dev sector (get-none c.buf dev sector e f),
                  λ a lt. (
                    elsewhere_cached c.buf dev sector a (uncached a lt),
                    unfree_cases c.buf a (taken a (wf.listed_back a lt)),
                  ),
                ))
          ]

-- `bufcache_read` of a sector below 2^28, on a well-formed cache and one of the two drives, which is
-- there and reads the sector without an error. It returns a buffer
-- that no one had taken, now taken and valid, with the content that was cached for the sector or, if
-- none was, that of the disk, and if the buffer held another sector, it was not dirty; the disk and all other buffers are unchanged and the cache well formed.
-- Or the sector's buffer is taken, and it waits for it. Or it panics, where no buffer has the
-- sector and every one is taken or dirty.
pub bufcache_read_lem :
    (c : Cache) (xs ys : List ℕ) (dev sector : ℕ)
    → IsCache c xs ys
    → dev < 2
    → sector < 2 ^ 28
    → (dev ≡ 0) ⊎ (c.havedisk1 ≡ true)
    → c.faultless dev sector ≡ true
    → ReadOutcome c xs ys dev sector (bufcache_read c dev sector)
bufcache_read_lem c xs ys dev sector wf small low there works =
    let used : dev < 2 ^ 32 - 1 = omega arith in
    elim (Found-cases (
      search_lem (num_bufs + 1) (λ b. (c.buf b).next) (is_cached c.buf dev sector) (c.buf head).next
        xs wf.forward (omega (arith, wf.few)))) [
          | inr (b, e, on_list, ne, cached) ↦
              cached_read c xs ys dev sector wf used there (small, low) works b e
                (wf.bufs b on_list) ne cached
          | inl (e, uncached) ↦
              uncached_read c xs ys dev sector wf used there (small, low) works e
                (λ a lt. uncached a (wf.listed a lt))
        ]
