-- ===== src/Fs/Cache/Lookup.antt =====
-- bufcache_read of kern/fs/bufcache.c on a well-formed cache.
use os_audio.Base.{
  ℕ, ◌-◌, ◌^◌, ◌≤◌, ◌<◌, ◌≡◌, ◌≢◌, ◌⊎◌, inl, inr, refl, sym, ap, ◌∙◌, subst, fun_ext, arith, true,
  false, List, length, has, eq_true, update, update_self, update_ne,
}
use native.Mathlib.Decide.{ℕ_discrete}
use os_audio.Fs.Cache.{num_bufs, head, Buf, Cache, is_cached}
use os_audio.Fs.Cache.Search.{Walk}

-- The buffers are on the list, in both directions; two never hold the same sector; and a valid one
-- is of a sector that a drive has, and one that
-- is not dirty holds what is on the disk.
pub record IsCache (c : Cache) (xs ys : List ℕ) : Type 0 where
  pub forward : Walk (λ b. (c.buf b).next) (c.buf head).next xs
  pub backward : Walk (λ b. (c.buf b).prev) (c.buf head).prev ys
  pub few : length xs ≤ num_bufs
  pub few_back : length ys ≤ num_bufs
  pub listed : (b : ℕ) → b < num_bufs → has b xs ≡ true
  pub listed_back : (b : ℕ) → b < num_bufs → has b ys ≡ true
  pub bufs : (b : ℕ) → has b xs ≡ true → b < num_bufs
  pub bufs_back : (b : ℕ) → has b ys ≡ true → b < num_bufs
  pub unique :
      (a b dev sector : ℕ)
      → a < num_bufs
      → b < num_bufs
      → dev < 2 ^ 32 - 1
      → is_cached c.buf dev sector a ≡ true
      → is_cached c.buf dev sector b ≡ true
      → a ≡ b
  pub real :
      (b : ℕ)
      → b < num_bufs
      → (c.buf b).valid ≡ true
      → ((c.buf b).dev < 2) × ((c.buf b).sector < 2 ^ 28)
  pub filled : (b : ℕ) → b < num_bufs → (c.buf b).dirty ≡ true → (c.buf b).valid ≡ true
  pub coherent :
      (b : ℕ)
      → b < num_bufs
      → (c.buf b).valid ≡ true
      → (c.buf b).dirty ≡ false
      → (c.buf b).content ≡ c.disk (c.buf b).dev (c.buf b).sector

-- The cache in which the buffer `b` is `r`.
abbrev pub with_buf : Cache → (b : ℕ) → Buf → Cache
with_buf c b r = record c { buf = update c.buf b r }

-- A buffer that may replace `b`, as the one of a sector.
pub record Fits (c : Cache) (b dev sector : ℕ) (r : Buf) : Type 0 where
  pub place : b < num_bufs
  pub busy : r.busy ≡ true
  pub valid : r.valid ≡ true
  pub dev_same : r.dev ≡ dev
  pub sector_same : r.sector ≡ sector
  pub next : r.next ≡ (c.buf b).next
  pub prev : r.prev ≡ (c.buf b).prev
  pub real : (dev < 2) × (sector < 2 ^ 28)
  pub alone : (a : ℕ) → a < num_bufs → is_cached c.buf dev sector a ≡ true → a ≡ b
  pub coherent : r.dirty ≡ false → r.content ≡ c.disk dev sector

update_field {ℓ} :
    {A : Type ℓ} (f : ℕ → Buf) (b : ℕ) (r : Buf) (g : Buf → A)
    → g r ≡ g (f b)
    → ◌≡◌ {A = ℕ → A} (λ x. g (update f b r x)) (λ x. g (f x))
update_field f b r g e = fun_ext (λ x. elim (ℕ_discrete x b) [
  | yes same ↦ rw same (ap g (update_self f b r) ∙ e)
  | no ne ↦ ap g (update_ne f r ne)
])

pub cached_fields :
    (f : ℕ → Buf) (dev sector a : ℕ)
    → is_cached f dev sector a ≡ true
    → ((f a).dev ≡ dev) × ((f a).sector ≡ sector)
unfolding is_cached
cached_fields f dev sector a h = ground arith

pub uncached_fields :
    (f : ℕ → Buf) (dev sector a : ℕ)
    → (f a).dev ≡ dev
    → (f a).sector ≡ sector
    → is_cached f dev sector a ≡ true
unfolding is_cached
uncached_fields f dev sector a d s = rw (d, s, eq_true dev, eq_true sector) refl

-- What a cached buffer is after the change.
was_cached :
    (c : Cache) (b dev sector : ℕ) (r : Buf) (a d s : ℕ)
    → Fits c b dev sector r
    → is_cached (update c.buf b r) d s a ≡ true
    → ((a ≡ b) × (d ≡ dev) × (s ≡ sector)) ⊎ ((a ≢ b) × (is_cached c.buf d s a ≡ true))
was_cached c b dev sector r a d s fits h =
    let (hd, hs) = cached_fields (update c.buf b r) d s a h in
    elim (ℕ_discrete a b) [
      | yes e ↦
          let same : update c.buf b r a ≡ r = rw e (update_self c.buf b r) in
          inl (
            e,
            sym hd ∙ (ap Buf.dev same ∙ fits.dev_same),
            sym hs ∙ (ap Buf.sector same ∙ fits.sector_same),
          )
      | no ne ↦
          let same : update c.buf b r a ≡ c.buf a = update_ne c.buf r ne in
          inr (
            ne,
            uncached_fields c.buf d s a (sym (ap Buf.dev same) ∙ hd)
                (sym (ap Buf.sector same) ∙ hs),
          )
    ]

with_buf_unique :
    (c : Cache) (xs ys : List ℕ) (b dev sector : ℕ) (r : Buf)
    → IsCache c xs ys
    → Fits c b dev sector r
    → (a e d s : ℕ) → a < num_bufs
    → e < num_bufs
    → d < 2 ^ 32 - 1
    → is_cached (update c.buf b r) d s a ≡ true
    → is_cached (update c.buf b r) d s e ≡ true
    → a ≡ e
with_buf_unique c xs ys b dev sector r wf fits a e d s la le used ha he =
    elim (was_cached c b dev sector r a d s fits ha) [
      | inl (ab, dd, ss) ↦ elim (was_cached c b dev sector r e d s fits he) [
        | inl (eb, de, se) ↦ ab ∙ sym eb
        | inr (ne, old) ↦ absurd (ne (fits.alone e le (rw (dd, ss) at old)))
      ]
      | inr (na, old) ↦ elim (was_cached c b dev sector r e d s fits he) [
        | inl (eb, dd, ss) ↦ absurd (na (fits.alone a la (rw (dd, ss) at old)))
        | inr (ne, olde) ↦ wf.unique a e d s la le used old olde
      ]
    ]

pub with_buf-IsCache :
    (c : Cache) (xs ys : List ℕ) (b dev sector : ℕ) (r : Buf)
    → dev < 2 ^ 32 - 1
    → IsCache c xs ys
    → Fits c b dev sector r
    → IsCache (with_buf c b r) xs ys
with_buf-IsCache c xs ys b dev sector r used wf fits = record {
  forward =
      subst (λ f. Walk f (f head) xs) (sym (update_field c.buf b r Buf.next fits.next)) wf.forward;
  backward =
      subst (λ f. Walk f (f head) ys) (sym (update_field c.buf b r Buf.prev fits.prev)) wf.backward;
  few = wf.few;
  few_back = wf.few_back;
  listed = wf.listed;
  listed_back = wf.listed_back;
  bufs = wf.bufs;
  bufs_back = wf.bufs_back;
  unique = with_buf_unique c xs ys b dev sector r wf fits;
  real = λ a lt valid. elim (ℕ_discrete a b) [
    | yes e ↦
        let same : update c.buf b r a ≡ r = rw e (update_self c.buf b r) in
        rw (same, fits.dev_same, fits.sector_same) fits.real
    | no ne ↦
        let same : update c.buf b r a ≡ c.buf a = update_ne c.buf r ne in
        rw same (wf.real a lt (rw same at valid))
  ];
  filled = λ a lt dirty. elim (ℕ_discrete a b) [
    | yes e ↦ rw (e, update_self c.buf b r) fits.valid
    | no ne ↦
        let same : update c.buf b r a ≡ c.buf a = update_ne c.buf r ne in
        rw same (wf.filled a lt (rw same at dirty))
  ];
  coherent = λ a lt valid clean. elim (ℕ_discrete a b) [
    | yes e ↦
        let same : update c.buf b r a ≡ r = rw e (update_self c.buf b r) in
        rw (same, fits.dev_same, fits.sector_same) (fits.coherent (rw same at clean))
    | no ne ↦
        let same : update c.buf b r a ≡ c.buf a = update_ne c.buf r ne in
        rw same (wf.coherent a lt (rw same at valid) (rw same at clean))
  ];
}
