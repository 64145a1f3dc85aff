-- ===== src/Thread/Sched/Yield.antt =====
-- thread_yield and thread_sleep of PThread.c against the list of ready threads.
use os_audio.Base.{
  ℕ, ◌+◌, ◌<◌, ◌≡◌, refl, ◌∙◌, arith, false, List, [], ◌∷◌, ◌++◌, has, none, some, ◌==◌,
  if◌then◌else◌, update_self, subst,
}
use os_audio.Sync.{Spinlock, num_cpus}
use os_audio.Pmm.Container.{num_ids}
use os_audio.Thread.Tcb.{
  Threads, get_pcpu_idx, tqueue_get_head, tqueue_get_tail, tcb_set_state, tcb_set_chan, get_curid,
  set_curid, tcb_get_state, tcb_get_chan, tstate_ready, tstate_run, tstate_sleep,
}
use os_audio.Thread.Queue.{tqueue_enqueue, tqueue_dequeue}
use os_audio.Thread.Queue.Chain.{Same, Linked-frame}
use os_audio.Thread.Queue.Refine.{IsQueue, tqueue_enqueue_lem, tqueue_dequeue_lem}
use os_audio.Thread.Sched.{run_next, thread_yield, thread_sleep}

-- A queue depends on its two ends and the links only.
pub IsQueue-frame :
    {s s' : Threads} {chid : ℕ} {xs : List ℕ}
    → tqueue_get_head s' chid ≡ tqueue_get_head s chid
    → tqueue_get_tail s' chid ≡ tqueue_get_tail s chid
    → ((a : ℕ) → Same s.tcb_pool s'.tcb_pool a)
    → IsQueue s chid xs
    → IsQueue s' chid xs
IsQueue-frame {s} {s'} {chid} {xs} h t same q = record {
  head = h ∙ q.head;
  tail = t ∙ q.tail;
  linked = Linked-frame s.tcb_pool s'.tcb_pool num_ids num_ids xs (λ a _. same a) q.linked;
  distinct = q.distinct;
}

pub IsQueue-set_state :
    {s : Threads} {chid : ℕ} {xs : List ℕ} (pid state : ℕ)
    → IsQueue s chid xs
    → IsQueue (tcb_set_state s pid state) chid xs
unfolding tcb_set_state
IsQueue-set_state {s} pid state q =
    IsQueue-frame {s = s} refl refl (λ a. (ground arith, ground arith)) q

pub IsQueue-set_chan :
    {s : Threads} {chid : ℕ} {xs : List ℕ} (pid chan : ℕ)
    → IsQueue s chid xs
    → IsQueue (tcb_set_chan s pid chan) chid xs
unfolding tcb_set_chan
IsQueue-set_chan {s} pid chan q =
    IsQueue-frame {s = s} refl refl (λ a. (ground arith, ground arith)) q

pub IsQueue-set_lock :
    {s : Threads} {chid : ℕ} {xs : List ℕ} (lk : Spinlock)
    → IsQueue s chid xs
    → IsQueue (record s { sched_lk = lk }) chid xs
IsQueue-set_lock {s} lk q = IsQueue-frame {s = s} refl refl (λ a. (refl, refl)) q

IsQueue-set_curid :
    {s : Threads} {chid : ℕ} {xs : List ℕ} (pid : ℕ)
    → IsQueue s chid xs
    → IsQueue (set_curid s pid) chid xs
unfolding set_curid
IsQueue-set_curid {s} pid q = IsQueue-frame {s = s} refl refl (λ a. (refl, refl)) q

pub set_state-state :
    (s : Threads) (p v a : ℕ)
    → tcb_get_state (tcb_set_state s p v) a ≡ (if a == p then v else tcb_get_state s a)
unfolding tcb_set_state
set_state-state s p v a = ground arith

pub set_state-chan :
    (s : Threads) (p v a : ℕ) → tcb_get_chan (tcb_set_state s p v) a ≡ tcb_get_chan s a
unfolding tcb_set_state
set_state-chan s p v a = ground arith

set_curid-current : (s : Threads) (p : ℕ) → get_curid (set_curid s p) ≡ p
unfolding set_curid
set_curid-current s p = update_self s.curid (get_pcpu_idx s) p

-- The state `s'` in which the thread `y` was chosen to run in `s`.
record IsNext (s : Threads) (y : ℕ) (ys : List ℕ) (s' : Threads) : Type 0 where
  pub queue : IsQueue s' num_ids ys
  pub current : get_curid s' ≡ y
  pub states : (a : ℕ) → tcb_get_state s' a ≡ (if a == y then tstate_run else tcb_get_state s a)
  pub channels : (a : ℕ) → tcb_get_chan s' a ≡ tcb_get_chan s a

run_next_lem :
    (s : Threads) (y : ℕ) (ys : List ℕ)
    → IsQueue s num_ids (y ∷ ys)
    → (s' : Threads) × (run_next s ≡ (y, s')) × IsNext s y ys s'
unfolding run_next
run_next_lem s y ys q =
    let (e, q', only, _, _, _) = tqueue_dequeue_lem s num_ids y ys q in
    let s1 : Threads = (tqueue_dequeue s num_ids).1 in
    (
      set_curid (tcb_set_state s1 y tstate_run) y,
      rw e refl,
      record {
        queue = IsQueue-set_curid y (IsQueue-set_state y tstate_run q');
        current = set_curid-current (tcb_set_state s1 y tstate_run) y;
        states = λ a. set_state-state s1 y tstate_run a ∙ rw (only.states a) refl;
        channels = λ a. set_state-chan s1 y tstate_run a ∙ only.channels a;
      },
    )

abbrev pub lock : Threads → Threads
lock s = record s { sched_lk = record { lock_holder = get_pcpu_idx s; lock = 1 } }

abbrev pub unlock : Threads → Threads
unlock s = record s { sched_lk = record { lock_holder = num_cpus + 1; lock = 0 } }

-- The running thread at the back of the ready queue.
abbrev yielding : Threads → Threads
yielding s = let c = get_curid s in tqueue_enqueue (tcb_set_state (lock s) c tstate_ready) num_ids c

thread_yield-eq :
    (s : Threads)
    → s.sched_lk.lock ≡ 0
    → thread_yield s
      ≡ some (
          let (y, s') = run_next (yielding s) in
          (if get_curid s == y then none else some (get_curid s, y), unlock s'))
unfolding thread_yield
thread_yield-eq s free = rw free refl

-- `thread_yield` with the scheduler's lock free, and the running thread not in the ready queue,
-- returns: the running thread joins the queue, the thread at the head leaves it and becomes the
-- running one, with a switch of contexts exactly if it is another thread. It is RUN, the thread that
-- yielded is READY unless it runs again, and no other state and no channel changes; the lock is
-- free again.
pub thread_yield_lem :
    (s : Threads) (y : ℕ) (xs ys : List ℕ)
    → s.sched_lk.lock ≡ 0
    → IsQueue s num_ids xs
    → get_curid s < num_ids
    → has (get_curid s) xs ≡ false
    → xs ++ get_curid s ∷ [] ≡ y ∷ ys
    → (s' : Threads) × (thread_yield s
        ≡ some (if get_curid s == y then none else some (get_curid s, y), s'))
      × IsQueue s' num_ids ys
      × (get_curid s' ≡ y)
      × ((a : ℕ)
          → tcb_get_state s' a ≡ (
              if a == y
              then tstate_run
              else if a == get_curid s
              then tstate_ready
              else tcb_get_state s a))
      × ((a : ℕ) → tcb_get_chan s' a ≡ tcb_get_chan s a)
      × (s'.sched_lk.lock ≡ 0)
thread_yield_lem s y xs ys free q below out e =
    let c : ℕ = get_curid s in
    let s1 : Threads = tcb_set_state (lock s) c tstate_ready in
    let q1 : IsQueue s1 num_ids xs =
      IsQueue-set_state c tstate_ready (IsQueue-set_lock (lock s).sched_lk q) in
    let (q2, only, _, _) = tqueue_enqueue_lem s1 num_ids c xs q1 below out in
    let (s3, run, next) =
      run_next_lem (yielding s) y ys (subst (λ l. IsQueue (yielding s) num_ids l) e q2) in
    (
      unlock s3,
      thread_yield-eq s free ∙ rw run refl,
      IsQueue-set_lock (unlock s3).sched_lk next.queue,
      next.current,
      λ a. next.states a ∙ rw (only.states a, set_state-state (lock s) c tstate_ready a) refl,
      λ a. next.channels a ∙ (only.channels a ∙ set_state-chan (lock s) c tstate_ready a),
      refl,
    )

-- The running thread asleep on `chan`.
abbrev sleeping : Threads → (chan : ℕ) → Threads
sleeping s chan = let c = get_curid s in tcb_set_state (tcb_set_chan (lock s) c chan) c tstate_sleep

thread_sleep-eq :
    (s : Threads) (chan : ℕ) (lk : Spinlock)
    → s.sched_lk.lock ≡ 0
    → thread_sleep s chan (some lk)
      ≡ some (
          let (y, s') = run_next (sleeping s chan) in
          ((get_curid s, y), unlock s', record { lock_holder = num_cpus + 1; lock = 0 }))
unfolding thread_sleep
thread_sleep-eq s chan lk free = rw free refl

sleep-null : (s : Threads) (chan : ℕ) → thread_sleep s chan none ≡ none
unfolding thread_sleep
sleep-null s chan = refl

set_chan-chan :
    (s : Threads) (p v a : ℕ)
    → tcb_get_chan (tcb_set_chan s p v) a ≡ (if a == p then v else tcb_get_chan s a)
unfolding tcb_set_chan
set_chan-chan s p v a = ground arith

set_chan-state :
    (s : Threads) (p v a : ℕ) → tcb_get_state (tcb_set_chan s p v) a ≡ tcb_get_state s a
unfolding tcb_set_chan
set_chan-state s p v a = ground arith

-- `thread_sleep` panics without a lock. With the scheduler's lock free and some thread ready it gives up the caller's lock and
-- switches to the head of the ready queue, which leaves the queue and is RUN. The caller sleeps on
-- `chan`, unless it is itself the head; no other state and no other channel changes, and the
-- scheduler's lock is free again.
pub thread_sleep_lem :
    (s : Threads) (chan y : ℕ) (ys : List ℕ) (lk : Spinlock)
    → s.sched_lk.lock ≡ 0
    → IsQueue s num_ids (y ∷ ys)
    → (thread_sleep s chan none ≡ none)
      × (s' : Threads) × (lk' : Spinlock) × (thread_sleep s chan (some lk)
          ≡ some ((get_curid s, y), s', lk'))
      × (lk'.lock ≡ 0)
      × IsQueue s' num_ids ys
      × (get_curid s' ≡ y)
      × ((a : ℕ)
          → tcb_get_state s' a ≡ (
              if a == y
              then tstate_run
              else if a == get_curid s
              then tstate_sleep
              else tcb_get_state s a))
      × ((a : ℕ) → tcb_get_chan s' a ≡ (if a == get_curid s then chan else tcb_get_chan s a))
      × (s'.sched_lk.lock ≡ 0)
thread_sleep_lem s chan y ys lk free q =
    let c : ℕ = get_curid s in
    let s1 : Threads = tcb_set_chan (lock s) c chan in
    let q1 : IsQueue (sleeping s chan) num_ids (y ∷ ys) =
      IsQueue-set_state c tstate_sleep
        (IsQueue-set_chan c chan (IsQueue-set_lock (lock s).sched_lk q)) in
    let (s2, run, next) = run_next_lem (sleeping s chan) y ys q1 in
    (
      sleep-null s chan,
      unlock s2,
      record { lock_holder = num_cpus + 1; lock = 0 },
      thread_sleep-eq s chan lk free ∙ rw run refl,
      refl,
      IsQueue-set_lock (unlock s2).sched_lk next.queue,
      next.current,
      λ a.
          next.states a
          ∙ rw (set_state-state s1 c tstate_sleep a, set_chan-state (lock s) c chan a) refl,
      λ a. next.channels a ∙ (set_state-chan s1 c tstate_sleep a ∙ set_chan-chan (lock s) c chan a),
      refl,
    )
