-- ===== src/Thread/Sched/Wakeup.antt =====
-- thread_wakeup of PThread.c: the sleepers on a channel join the ready queue.
use os_audio.Base.{
  ℕ, zero, suc, ◌+◌, ◌<◌, ◌≤◌, ◌≡◌, refl, sym, ◌∙◌, arith, Bool, true, false, ◌&&◌, List, [], ◌∷◌,
  ◌++◌, has, some, ◌==◌, if◌then◌else◌, Bool-cases, inl, inr, subst, ap, append-nil, append_assoc,
  eq_false,
}
use os_audio.Pmm.Container.{num_ids}
use os_audio.Thread.Tcb.{
  Threads, tcb_set_state, tcb_get_state, tcb_get_chan, tstate_ready, tstate_sleep,
}
use os_audio.Thread.Queue.Chain.{has-append}
use os_audio.Thread.Queue.Refine.{IsQueue, tqueue_enqueue_lem}
use os_audio.Thread.Sched.{wake, wakeup_loop, thread_wakeup}
use os_audio.Thread.Sched.Yield.{
  IsQueue-set_state, IsQueue-set_lock, set_state-state, set_state-chan, lock, unlock,
}

abbrev pub asleep : Threads → (chan pid : ℕ) → Bool
asleep s chan pid = (tcb_get_state s pid == tstate_sleep) && (tcb_get_chan s pid == chan)

-- The threads among `pid`, ..., `pid + k - 1` of which `f` holds, in order.
abbrev pub picked : (f : ℕ → Bool) (k pid : ℕ) → List ℕ
picked f zero pid = []
picked f (suc k) pid = if f pid then pid ∷ picked f k (pid + 1) else picked f k (pid + 1)

picked-ext :
    (f g : ℕ → Bool) (k pid : ℕ) → ((a : ℕ) → pid ≤ a → f a ≡ g a) → picked f k pid ≡ picked g k pid
picked-ext f g zero pid same = refl
picked-ext f g (suc k) pid same =
    rw (same pid (omega arith), picked-ext f g k (pid + 1) (λ a h. same a (omega arith))) refl

picked_here :
    (f : ℕ → Bool) (k pid : ℕ) → f pid ≡ true → picked f (suc k) pid ≡ pid ∷ picked f k (pid + 1)
picked_here f k pid h = rw h refl

-- `s'` is `s` once the threads `ps` were woken.
record Woken (s : Threads) (xs ps : List ℕ) (s' : Threads) : Type 0 where
  pub queue : IsQueue s' num_ids (xs ++ ps)
  pub states : (a : ℕ) → tcb_get_state s' a ≡ (if has a ps then tstate_ready else tcb_get_state s a)
  pub channels : (a : ℕ) → tcb_get_chan s' a ≡ tcb_get_chan s a
  pub current : s'.curid ≡ s.curid

set_state-curid : (s : Threads) (p v : ℕ) → (tcb_set_state s p v).curid ≡ s.curid
unfolding tcb_set_state
set_state-curid s p v = refl

wake_lem :
    (s : Threads) (chan pid : ℕ) (xs : List ℕ)
    → IsQueue s num_ids xs
    → pid < num_ids
    → asleep s chan pid ≡ true
    → has pid xs ≡ false
    → Woken s xs (pid ∷ []) (wake s chan pid)
unfolding wake
wake_lem s chan pid xs q below sleeps out =
    let s1 : Threads = tcb_set_state s pid tstate_ready in
    let (q', only, _, _) =
      tqueue_enqueue_lem s1 num_ids pid xs (IsQueue-set_state pid tstate_ready q) below out in
    rw sleeps (record {
      queue = q';
      states = λ a. only.states a ∙ (set_state-state s pid tstate_ready a ∙ ground arith);
      channels = λ a. only.channels a ∙ set_state-chan s pid tstate_ready a;
      current = only.curid ∙ set_state-curid s pid tstate_ready;
    })

wake_awake : (s : Threads) (chan pid : ℕ) → asleep s chan pid ≡ false → wake s chan pid ≡ s
unfolding wake
wake_awake s chan pid wakes = rw wakes refl

wakeup_loop_lem :
    (s : Threads) (chan k pid : ℕ) (xs : List ℕ)
    → IsQueue s num_ids xs
    → pid + k ≤ num_ids
    → ((a : ℕ) → pid ≤ a → asleep s chan a ≡ true → has a xs ≡ false)
    → Woken s xs (picked (asleep s chan) k pid) (wakeup_loop k pid chan s)
unfolding wakeup_loop
wakeup_loop_lem s chan zero pid xs q below out = (record {
  queue = rw (append-nil xs) q;
  states = λ a. refl;
  channels = λ a. refl;
  current = refl;
})
wakeup_loop_lem s chan (suc k) pid xs q below out = elim (Bool-cases (asleep s chan pid)) [
  | inr wakes ↦
      rw (wake_awake s chan pid wakes, wakes)
        (wakeup_loop_lem s chan k (pid + 1) xs q (omega arith) (λ a h. out a (omega arith)))
  | inl sleeps ↦
      let s1 : Threads = wake s chan pid in
      let w = wake_lem s chan pid xs q (omega arith) sleeps (out pid (omega arith) sleeps) in
      let same : (a : ℕ) → pid + 1 ≤ a → asleep s1 chan a ≡ asleep s chan a = λ a h.
        let ne : (a == pid) ≡ false = eq_false (omega arith) in
        rw (w.states a, w.channels a, ne) refl in
      let rest =
        wakeup_loop_lem s1 chan k (pid + 1) (xs ++ pid ∷ []) w.queue (omega arith) (λ a h y.
          let ne : (a == pid) ≡ false = eq_false (omega arith) in
          rw (has-append a xs (pid ∷ []), ne, out a (omega arith) (sym (same a h) ∙ y)) refl) in
      let ps : List ℕ = picked (asleep s chan) k (pid + 1) in
      let e : picked (asleep s1 chan) k (pid + 1) ≡ ps =
        picked-ext (asleep s1 chan) (asleep s chan) k (pid + 1) same in
      subst (λ l. Woken s xs l (wakeup_loop k (pid + 1) chan s1))
        (sym (picked_here (asleep s chan) k pid sleeps))
        (record {
          queue =
              subst (λ l. IsQueue (wakeup_loop k (pid + 1) chan s1) num_ids l)
                (append_assoc xs (pid ∷ []) _ ∙ ap (λ l. xs ++ pid ∷ l) e) rest.queue;
          states = λ a. rest.states a ∙ rw (e, w.states a) (ground arith);
          channels = λ a. rest.channels a ∙ w.channels a;
          current = rest.current ∙ w.current;
        })
]

thread_wakeup-eq :
    (s : Threads) (chan : ℕ)
    → s.sched_lk.lock ≡ 0
    → thread_wakeup s chan ≡ some (unlock (wakeup_loop num_ids 0 chan (lock s)))
unfolding thread_wakeup
thread_wakeup-eq s chan free = rw free refl

-- `thread_wakeup` with the scheduler's lock free, and no thread that sleeps on `chan` in the ready
-- queue: the threads that slept on it, and no others, are READY and stand at the back of the queue
-- in the order of their ids. No other state changes, no channel and not the running thread, and the
-- lock is free again.
pub thread_wakeup_lem :
    (s : Threads) (chan : ℕ) (xs : List ℕ)
    → s.sched_lk.lock ≡ 0
    → IsQueue s num_ids xs
    → ((a : ℕ) → asleep s chan a ≡ true → has a xs ≡ false)
    → let ps = picked (asleep s chan) 64 0 in
      (s' : Threads) × (thread_wakeup s chan ≡ some s')
      × IsQueue s' num_ids (xs ++ ps)
      × ((a : ℕ) → tcb_get_state s' a ≡ (if has a ps then tstate_ready else tcb_get_state s a))
      × ((a : ℕ) → tcb_get_chan s' a ≡ tcb_get_chan s a)
      × (s'.curid ≡ s.curid)
      × (s'.sched_lk.lock ≡ 0)
thread_wakeup_lem s chan xs free q out =
    let w =
      wakeup_loop_lem (lock s) chan num_ids 0 xs (IsQueue-set_lock (lock s).sched_lk q)
        (omega arith) (λ a _. out a) in
    let s1 : Threads = wakeup_loop num_ids 0 chan (lock s) in
    (
      unlock s1,
      thread_wakeup-eq s chan free,
      IsQueue-set_lock (unlock s1).sched_lk w.queue,
      w.states,
      w.channels,
      w.current,
      refl,
    )
