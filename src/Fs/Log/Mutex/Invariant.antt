-- ===== src/Fs/Log/Mutex/Invariant.antt =====
-- Mutual exclusion between begin_trans and commit_trans of kern/fs/log.c.
use os_audio.Base.{
  ℕ, Bool, true, false, none, some, if◌then◌else◌, ◌≡◌, ◌≢◌, ◌⊎◌, inl, inr, refl, sym, ap, ◌∙◌,
  subst, Bool-cases, eq_of_some,
}
use os_audio.Fs.Log.Mutex.{Place, Shared, goto, begin_trans, wakeup, end_trans, Step, Reach}
use os_audio.Fs.Log.Mutex.Excludes.{
  holds, in_trans, not_both, moved, Excludes, stay-Excludes, IsExclusive,
}
use os_audio.Fs.Log.Mutex.Statements.{
  quiet, take_lock, unlock, acquire_tests, sleep-IsExclusive, found_clear, set-IsExclusive,
  clear-IsExclusive,
}

chosen {ℓ} : {A : Type ℓ} (b : Bool) (x y r : A) → (if b then x else y) ≡ r → b ≡ true → x ≡ r
chosen true x y r h e = h
chosen false x y r h e = cc

passed {ℓ} : {A : Type ℓ} (b : Bool) (x y r : A) → (if b then x else y) ≡ r → b ≡ false → y ≡ r
passed true x y r h e = cc
passed false x y r h e = h

-- The result of an acquisition.
acquired {ℓ} :
    {A : Type ℓ} (b : Bool) (x y : A)
    → (if b then none else some x) ≡ some y
    → (b ≡ false) × (x ≡ y)
acquired true x y h = cc
acquired false x y h = (refl, eq_of_some h)

wakeup-cases :
    (p : Place)
    → ((p ≡ Place.sleeping) × (wakeup p ≡ Place.awake)) ⊎ ((p ≢ Place.sleeping) × (wakeup p ≡ p))
unfolding wakeup
wakeup-cases Place.sleeping = inl (refl, refl)
wakeup-cases Place.outside = inr (λ h. cc, refl)
wakeup-cases Place.begins = inr (λ h. cc, refl)
wakeup-cases Place.tests = inr (λ h. cc, refl)
wakeup-cases Place.sets = inr (λ h. cc, refl)
wakeup-cases Place.unlocks = inr (λ h. cc, refl)
wakeup-cases Place.awake = inr (λ h. cc, refl)
wakeup-cases Place.inside = inr (λ h. cc, refl)
wakeup-cases Place.ends = inr (λ h. cc, refl)
wakeup-cases Place.clears = inr (λ h. cc, refl)
wakeup-cases Place.wakes = inr (λ h. cc, refl)
wakeup-cases Place.leaves = inr (λ h. cc, refl)

-- No thread comes to such a place by being woken.
wakeup-same :
    (g : Place → Bool) → g Place.awake ≡ g Place.sleeping → (p : Place) → g (wakeup p) ≡ g p
wakeup-same g even p = elim (wakeup-cases p) [
  | inl (e, to) ↦ ap g to ∙ (even ∙ sym (ap g e))
  | inr (ne, to) ↦ ap g to
]

wakeup-Excludes :
    (g : Place → Bool) (f : ℕ → Place) (flag : Bool)
    → g Place.awake ≡ g Place.sleeping
    → Excludes g f flag
    → Excludes g (λ u. wakeup (f u)) flag
wakeup-Excludes g f flag even x = record {
  marked = λ t h. x.marked t (sym (wakeup-same g even (f t)) ∙ h);
  one = λ t u h k.
      x.one t u (sym (wakeup-same g even (f t)) ∙ h) (sym (wakeup-same g even (f u)) ∙ k);
}

wakeup-sets : (p : Place) → wakeup p ≡ Place.sets → p ≡ Place.sets
wakeup-sets p h = elim (wakeup-cases p) [
  | inl (e, to) ↦ absurd (let x = sym to ∙ h in cc)
  | inr (ne, to) ↦ sym to ∙ h
]

wakeup-sleeping : (p : Place) → wakeup p ≢ Place.sleeping
wakeup-sleeping p h = elim (wakeup-cases p) [
  | inl (e, to) ↦ let x = sym to ∙ h in cc
  | inr (ne, to) ↦ ne (sym to ∙ h)
]

wake-IsExclusive :
    (s : Shared) (t : ℕ)
    → IsExclusive s
    → s.place t ≡ Place.wakes
    → IsExclusive (goto t Place.leaves (record s { place = λ u. wakeup (s.place u) }))
wake-IsExclusive s t inv e =
    let f : ℕ → Place = λ u. wakeup (s.place u) in
    let lock_there : holds (f t) ≡ true = wakeup-same holds refl (s.place t) ∙ ap holds e in
    let trans_there : in_trans (f t) ≡ false =
      wakeup-same in_trans refl (s.place t) ∙ ap in_trans e in
    record {
      lock =
          stay-Excludes holds f s.lock (wakeup-Excludes holds s.place s.lock refl inv.lock) t
            Place.leaves (sym lock_there);
      trans =
          stay-Excludes in_trans f s.busy (wakeup-Excludes in_trans s.place s.busy refl inv.trans) t
            Place.leaves (sym trans_there);
      waits = record {
        clear = λ u h. elim (moved f t Place.leaves u) [
          | inl (same, at) ↦ absurd (let x = sym at ∙ h in cc)
          | inr (ne, at) ↦ inv.waits.clear u (wakeup-sets (s.place u) (sym at ∙ h))
        ];
        woken = λ u h. elim (moved f t Place.leaves u) [
          | inl (same, at) ↦ absurd (let x = sym at ∙ h in cc)
          | inr (ne, at) ↦ absurd (wakeup-sleeping (s.place u) (sym at ∙ h))
        ];
      };
    }

begin-IsExclusive :
    (p : Place) (t : ℕ) (s s' : Shared)
    → s.place t ≡ p
    → begin_trans p t s ≡ some s'
    → IsExclusive s
    → IsExclusive s'
unfolding begin_trans
begin-IsExclusive Place.outside t s s' e h inv =
    subst IsExclusive (eq_of_some h)
      (quiet s inv t Place.begins Place.outside e refl refl (λ k. cc) (λ k. cc) (λ k. cc))
begin-IsExclusive Place.begins t s s' e h inv =
    let (free, to) = acquired s.lock _ s' h in
    subst IsExclusive to (acquire_tests s inv t Place.begins e refl (λ k. cc) free)
begin-IsExclusive Place.tests t s s' e h inv = elim (Bool-cases s.busy) [
  | inl set ↦
      subst IsExclusive (eq_of_some (chosen s.busy _ _ _ h set)) (sleep-IsExclusive s inv t e set)
  | inr free ↦
      subst IsExclusive (eq_of_some (passed s.busy _ _ _ h free)) (found_clear s inv t e free)
]
begin-IsExclusive Place.awake t s s' e h inv =
    let (free, to) = acquired s.lock _ s' h in
    subst IsExclusive to (acquire_tests s inv t Place.awake e refl (λ k. cc) free)
begin-IsExclusive Place.sets t s s' e h inv =
    subst IsExclusive (eq_of_some h) (set-IsExclusive s inv t e)
begin-IsExclusive Place.unlocks t s s' e h inv =
    subst IsExclusive (eq_of_some h)
      (unlock s inv t Place.inside Place.unlocks e refl refl refl (λ k. cc) (λ k. cc) (λ k. cc))
begin-IsExclusive Place.sleeping t s s' e h inv = cc
begin-IsExclusive Place.inside t s s' e h inv = cc
begin-IsExclusive Place.ends t s s' e h inv = cc
begin-IsExclusive Place.clears t s s' e h inv = cc
begin-IsExclusive Place.wakes t s s' e h inv = cc
begin-IsExclusive Place.leaves t s s' e h inv = cc

end-IsExclusive :
    (p : Place) (t : ℕ) (s s' : Shared)
    → s.place t ≡ p
    → end_trans p t s ≡ some s'
    → IsExclusive s
    → IsExclusive s'
unfolding end_trans
end-IsExclusive Place.inside t s s' e h inv =
    subst IsExclusive (eq_of_some h)
      (quiet s inv t Place.ends Place.inside e refl refl (λ k. cc) (λ k. cc) (λ k. cc))
end-IsExclusive Place.ends t s s' e h inv =
    let (free, to) = acquired s.lock _ s' h in
    subst IsExclusive to
      (take_lock s inv t Place.clears Place.ends e free refl (λ k. cc) (λ k. cc) (λ k. cc))
end-IsExclusive Place.clears t s s' e h inv =
    subst IsExclusive (eq_of_some h) (clear-IsExclusive s inv t e)
end-IsExclusive Place.wakes t s s' e h inv =
    subst IsExclusive (eq_of_some h) (wake-IsExclusive s t inv e)
end-IsExclusive Place.leaves t s s' e h inv =
    subst IsExclusive (eq_of_some h)
      (unlock s inv t Place.outside Place.leaves e refl refl refl (λ k. cc) (λ k. cc) (λ k. cc))
end-IsExclusive Place.outside t s s' e h inv = cc
end-IsExclusive Place.begins t s s' e h inv = cc
end-IsExclusive Place.tests t s s' e h inv = cc
end-IsExclusive Place.sets t s s' e h inv = cc
end-IsExclusive Place.unlocks t s s' e h inv = cc
end-IsExclusive Place.sleeping t s s' e h inv = cc
end-IsExclusive Place.awake t s s' e h inv = cc

Reach-IsExclusive : {s : Shared} → Reach s → IsExclusive s
Reach-IsExclusive Reach.start = record {
  lock = record { marked = λ t h. cc; one = λ t u h k. cc };
  trans = record { marked = λ t h. cc; one = λ t u h k. cc };
  waits = record { clear = λ t h. cc; woken = λ t h. cc };
}
Reach-IsExclusive (Reach.later {s = s} {s' = s'} r (Step.begin_step t e)) =
    begin-IsExclusive (s.place t) t s s' refl e (Reach-IsExclusive r)
Reach-IsExclusive (Reach.later {s = s} {s' = s'} r (Step.end_step t e)) =
    end-IsExclusive (s.place t) t s s' refl e (Reach-IsExclusive r)

-- However the statements of the threads interleave: at most one thread is in a transaction, and
-- `log.busy` is then set; and while log.lock is free, no thread sleeps on a log that is not busy, so
-- that no wakeup is lost.
pub begin_trans-exclusive :
    {s : Shared}
    → Reach s
    → ((t u : ℕ) → s.place t ≡ Place.inside → s.place u ≡ Place.inside → t ≡ u)
      × ((t : ℕ) → s.place t ≡ Place.inside → s.busy ≡ true)
      × ((t : ℕ) → s.place t ≡ Place.sleeping → s.lock ≡ false → s.busy ≡ true)
begin_trans-exclusive {s} r =
    let inv = Reach-IsExclusive r in
    (
      λ t u h k. inv.trans.one t u (ap in_trans h) (ap in_trans k),
      λ t h. inv.trans.marked t (ap in_trans h),
      λ t h free. elim (inv.waits.woken t h) [
        | inl set ↦ set
        | inr (u, waker) ↦ absurd (not_both (inv.lock.marked u (ap holds waker)) free)
      ],
    )
