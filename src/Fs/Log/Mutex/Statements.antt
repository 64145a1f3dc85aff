-- ===== src/Fs/Log/Mutex/Statements.antt =====
-- The statements of begin_trans and commit_trans (kern/fs/log.c), one by one.
use os_audio.Base.{ℕ, update, update_self, true, false, ◌≡◌, ◌≢◌, inl, inr, refl, sym, ap, ◌∙◌}
use os_audio.Fs.Log.Mutex.{Place, Shared, goto}
use os_audio.Fs.Log.Mutex.Excludes.{
  holds, in_trans, moved, stay-Excludes, enter-Excludes, exit-Excludes, Waits, IsExclusive,
  still_clear, still_woken, stay-Waits,
}

module _ (s : Shared) (inv : IsExclusive s) (t : ℕ) (p q : Place) (e : s.place t ≡ q) where
  apart_from : (r : Place) → q ≢ r → s.place t ≢ r
  apart_from r ne h = ne (sym e ∙ h)

  pub quiet :
      holds p ≡ holds q
      → in_trans p ≡ in_trans q
      → p ≢ Place.sets
      → p ≢ Place.sleeping
      → q ≢ Place.wakes
      → IsExclusive (goto t p s)
  quiet a b c d f = record {
    lock = stay-Excludes holds s.place s.lock inv.lock t p (a ∙ sym (ap holds e));
    trans = stay-Excludes in_trans s.place s.busy inv.trans t p (b ∙ sym (ap in_trans e));
    waits = stay-Waits s.place s.busy inv.waits t p c d (apart_from Place.wakes f);
  }

  pub take_lock :
      s.lock ≡ false
      → in_trans p ≡ in_trans q
      → p ≢ Place.sets
      → p ≢ Place.sleeping
      → q ≢ Place.wakes
      → IsExclusive (goto t p (record s { lock = true }))
  take_lock free b c d f = record {
    lock = enter-Excludes holds s.place s.lock inv.lock t p free;
    trans = stay-Excludes in_trans s.place s.busy inv.trans t p (b ∙ sym (ap in_trans e));
    waits = stay-Waits s.place s.busy inv.waits t p c d (apart_from Place.wakes f);
  }

  drop_lock :
      holds q ≡ true
      → holds p ≡ false
      → in_trans p ≡ in_trans q
      → Waits (update s.place t p) s.busy
      → IsExclusive (goto t p (record s { lock = false }))
  drop_lock a off b w = record {
    lock = exit-Excludes holds s.place s.lock inv.lock t p false (ap holds e ∙ a) off;
    trans = stay-Excludes in_trans s.place s.busy inv.trans t p (b ∙ sym (ap in_trans e));
    waits = w;
  }

  pub unlock :
      holds q ≡ true
      → holds p ≡ false
      → in_trans p ≡ in_trans q
      → p ≢ Place.sets
      → p ≢ Place.sleeping
      → q ≢ Place.wakes
      → IsExclusive (goto t p (record s { lock = false }))
  unlock a off b c d f =
      drop_lock a off b (stay-Waits s.place s.busy inv.waits t p c d (apart_from Place.wakes f))

module _ (s : Shared) (inv : IsExclusive s) (t : ℕ) where
  pub acquire_tests :
      (q : Place)
      → s.place t ≡ q
      → in_trans q ≡ false
      → q ≢ Place.wakes
      → s.lock ≡ false
      → IsExclusive (goto t Place.tests (record s { lock = true }))
  acquire_tests q e out ne free =
      take_lock s inv t Place.tests q e free (sym out) (λ h. cc) (λ h. cc) ne

  -- thread_sleep, where log.busy is set.
  pub sleep-IsExclusive :
      s.place t ≡ Place.tests
      → s.busy ≡ true
      → IsExclusive (goto t Place.sleeping (record s { lock = false }))
  sleep-IsExclusive e set = drop_lock s inv t Place.sleeping Place.tests e refl refl refl (record {
    clear = λ u h. still_clear s.place s.busy inv.waits t Place.sleeping u (λ k. cc) h;
    woken = λ u h. inl set;
  })

  pub found_clear : s.place t ≡ Place.tests → s.busy ≡ false → IsExclusive (goto t Place.sets s)
  found_clear e free = record {
    lock = stay-Excludes holds s.place s.lock inv.lock t Place.sets (sym (ap holds e));
    trans = stay-Excludes in_trans s.place s.busy inv.trans t Place.sets (sym (ap in_trans e));
    waits = record {
      clear = λ u h. free;
      woken = λ u h. still_woken s.place s.busy inv.waits t Place.sets u (λ k. cc) (λ k. cc) h;
    };
  }

  pub set-IsExclusive :
      s.place t ≡ Place.sets → IsExclusive (goto t Place.unlocks (record s { busy = true }))
  set-IsExclusive e = record {
    lock = stay-Excludes holds s.place s.lock inv.lock t Place.unlocks (sym (ap holds e));
    trans = enter-Excludes in_trans s.place s.busy inv.trans t Place.unlocks (inv.waits.clear t e);
    waits = record {
      clear = λ u h. elim (moved s.place t Place.unlocks u) [
        | inl (same, at) ↦ absurd (let x = sym at ∙ h in cc)
        | inr (ne, at) ↦ absurd (ne (inv.lock.one u t (ap holds (sym at ∙ h)) (ap holds e)))
      ];
      woken = λ u h. inl refl;
    };
  }

  pub clear-IsExclusive :
      s.place t ≡ Place.clears → IsExclusive (goto t Place.wakes (record s { busy = false }))
  clear-IsExclusive e = record {
    lock = stay-Excludes holds s.place s.lock inv.lock t Place.wakes (sym (ap holds e));
    trans =
        exit-Excludes in_trans s.place s.busy inv.trans t Place.wakes false (ap in_trans e) refl;
    waits = record {
      clear = λ u h. refl;
      woken = λ u h. inr (t, update_self s.place t Place.wakes);
    };
  }
