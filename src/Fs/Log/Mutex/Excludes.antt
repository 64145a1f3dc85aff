-- ===== src/Fs/Log/Mutex/Excludes.antt =====
-- The places of begin_trans and commit_trans (kern/fs/log.c) that at most one thread is at.
use os_audio.Base.{
  ℕ, update, update_self, update_ne, Bool, true, false, ◌≡◌, ◌≢◌, ◌⊎◌, inl, inr, refl, sym, ap, ◌∙◌,
}
use native.Mathlib.Decide.{ℕ_discrete}
use os_audio.Fs.Log.Mutex.{Place, Shared}

-- The places with log.lock held, and those between `log.busy = 1` and `log.busy = 0`.
abbrev pub holds : Place → Bool
holds Place.outside = false
holds Place.begins = false
holds Place.tests = true
holds Place.sets = true
holds Place.unlocks = true
holds Place.sleeping = false
holds Place.awake = false
holds Place.inside = false
holds Place.ends = false
holds Place.clears = true
holds Place.wakes = true
holds Place.leaves = true

abbrev pub in_trans : Place → Bool
in_trans Place.outside = false
in_trans Place.begins = false
in_trans Place.tests = false
in_trans Place.sets = false
in_trans Place.unlocks = true
in_trans Place.sleeping = false
in_trans Place.awake = false
in_trans Place.inside = true
in_trans Place.ends = true
in_trans Place.clears = true
in_trans Place.wakes = false
in_trans Place.leaves = false

pub not_both : {b : Bool} → b ≡ true → b ≢ false
not_both h e = cc

-- A thread moved, and the others stayed.
pub moved :
    (f : ℕ → Place) (t : ℕ) (p : Place) (u : ℕ)
    → ((u ≡ t) × (update f t p u ≡ p)) ⊎ ((u ≢ t) × (update f t p u ≡ f u))
moved f t p u = elim (ℕ_discrete u t) [
  | yes e ↦ inl (e, rw e (update_self f t p))
  | no ne ↦ inr (ne, update_ne f p ne)
]

-- At most one thread is at a place that `g` names, and then `flag` is set.
pub record Excludes (g : Place → Bool) (f : ℕ → Place) (flag : Bool) : Type 0 where
  pub marked : (t : ℕ) → g (f t) ≡ true → flag ≡ true
  pub one : (t u : ℕ) → g (f t) ≡ true → g (f u) ≡ true → t ≡ u

module _ (g : Place → Bool) (f : ℕ → Place) (flag : Bool) (x : Excludes g f flag) (t : ℕ)
    (p : Place) where
  -- Where the thread is among them afterwards as before.
  was_there : (u : ℕ) → g p ≡ g (f t) → g (update f t p u) ≡ true → g (f u) ≡ true
  was_there u same h = elim (moved f t p u) [
    | inl (e, at) ↦ ap (λ v. g (f v)) e ∙ (sym same ∙ rw at at h)
    | inr (ne, at) ↦ rw at at h
  ]

  pub stay-Excludes : g p ≡ g (f t) → Excludes g (update f t p) flag
  stay-Excludes same = record {
    marked = λ u h. x.marked u (was_there u same h);
    one = λ u v h k. x.one u v (was_there u same h) (was_there v same k);
  }

  only_mover : (u : ℕ) → flag ≡ false → g (update f t p u) ≡ true → u ≡ t
  only_mover u clear h = elim (moved f t p u) [
    | inl (e, at) ↦ e
    | inr (ne, at) ↦ absurd (not_both (x.marked u (rw at at h)) clear)
  ]

  pub enter-Excludes : flag ≡ false → Excludes g (update f t p) true
  enter-Excludes clear = record {
    marked = λ u h. refl;
    one = λ u v h k. only_mover u clear h ∙ sym (only_mover v clear k);
  }

  nobody_left : (u : ℕ) → g (f t) ≡ true → g p ≡ false → g (update f t p u) ≢ true
  nobody_left u here off h = elim (moved f t p u) [
    | inl (e, at) ↦ not_both (rw at at h) off
    | inr (ne, at) ↦ ne (x.one u t (rw at at h) here)
  ]

  pub exit-Excludes :
      (flag' : Bool) → g (f t) ≡ true → g p ≡ false → Excludes g (update f t p) flag'
  exit-Excludes flag' here off = record {
    marked = λ u h. absurd (nobody_left u here off h);
    one = λ u v h k. absurd (nobody_left u here off h);
  }

-- A thread that is about to set `log.busy` finds it clear, and where it is clear no thread sleeps
-- that is not about to be woken.
pub record Waits (f : ℕ → Place) (busy : Bool) : Type 0 where
  pub clear : (t : ℕ) → f t ≡ Place.sets → busy ≡ false
  pub woken : (t : ℕ) → f t ≡ Place.sleeping → (busy ≡ true) ⊎ ((u : ℕ) × (f u ≡ Place.wakes))

pub record IsExclusive (s : Shared) : Type 0 where
  pub lock : Excludes holds s.place s.lock
  pub trans : Excludes in_trans s.place s.busy
  pub waits : Waits s.place s.busy

module _ (f : ℕ → Place) (busy : Bool) (w : Waits f busy) (t : ℕ) (p : Place) where
  pub still_clear : (u : ℕ) → p ≢ Place.sets → update f t p u ≡ Place.sets → busy ≡ false
  still_clear u ne h = elim (moved f t p u) [
    | inl (e, at) ↦ absurd (ne (sym at ∙ h))
    | inr (other, at) ↦ w.clear u (sym at ∙ h)
  ]

  pub still_woken :
      (u : ℕ)
      → p ≢ Place.sleeping
      → f t ≢ Place.wakes
      → update f t p u ≡ Place.sleeping
      → (busy ≡ true) ⊎ ((v : ℕ) × (update f t p v ≡ Place.wakes))
  still_woken u ne off h = elim (moved f t p u) [
    | inl (e, at) ↦ absurd (ne (sym at ∙ h))
    | inr (other, at) ↦ elim (w.woken u (sym at ∙ h)) [
      | inl set ↦ inl set
      | inr (v, waker) ↦
          let apart : v ≢ t = λ e. off (ap f (sym e) ∙ waker) in
          inr (v, update_ne f p apart ∙ waker)
    ]
  ]

  pub stay-Waits :
      p ≢ Place.sets → p ≢ Place.sleeping → f t ≢ Place.wakes → Waits (update f t p) busy
  stay-Waits a b c = record { clear = λ u h. still_clear u a h; woken = λ u h. still_woken u b c h }
