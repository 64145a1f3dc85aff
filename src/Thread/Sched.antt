-- ===== src/Thread/Sched.antt =====
-- kern/thread/PThread/PThread.c: the scheduler.
pub mod Yield
pub mod Wakeup
pub mod Start
use os_audio.Pmm.Table.{Pmm}
use os_audio.Base.{
  ℕ, zero, suc, ◌+◌, ◌%◌, ◌/◌, Option, none, some, update, u32_mod, ltb, ◌&&◌, ◌==◌, if◌then◌else◌,
  ◌>>=◌,
}
use os_audio.Sync.{Spinlock, num_cpus, spinlock_init, spinlock_acquire, spinlock_release}
use os_audio.Pmm.Container.{num_ids}
use os_audio.Thread.Tcb.{
  Threads, get_pcpu_idx, tcb_get_state, tcb_set_state, tcb_get_chan, tcb_set_chan, get_curid,
  set_curid, kctx_new, tstate_ready, tstate_run, tstate_sleep,
}
use os_audio.Thread.Queue.{tqueue_init, tqueue_enqueue, tqueue_dequeue}

unfoldable pub sched_acquire : Threads → Option Threads
unfolding spinlock_acquire
sched_acquire s = do
  lk ← spinlock_acquire (get_pcpu_idx s) s.sched_lk
  some (record s { sched_lk = lk })

unfoldable pub sched_release : Threads → Threads
unfolding spinlock_release
sched_release s = record s { sched_lk = spinlock_release s.sched_lk }

unfoldable pub thread_init : (root : ℕ) (pmm : Pmm) → Threads → Option Threads
unfolding spinlock_init set_curid tcb_set_state
thread_init root pmm s = do
  s ← tqueue_init root pmm (record s {
    sched_ticks = λ i. if ltb i num_cpus then 0 else s.sched_ticks i;
    sched_lk = spinlock_init;
  })
  some (tcb_set_state (set_curid s 0) 0 tstate_run)

unfoldable pub thread_spawn :
    (kstack_hi : ℕ → ℕ) → Threads → (entry id quota : ℕ) → Option (ℕ × Threads)
unfolding sched_acquire sched_release kctx_new tcb_set_state tqueue_enqueue
thread_spawn kstack_hi s entry id quota = do
  s ← sched_acquire s
  let (pid, s1) = kctx_new kstack_hi s entry id quota
  let s2 = tqueue_enqueue (tcb_set_state s1 pid tstate_ready) num_ids pid
  some (pid, sched_release s2)

-- The choice of the next thread, which thread_yield and thread_sleep share: the head of the ready
-- queue becomes the running thread.
unfoldable pub run_next : Threads → ℕ × Threads
unfolding tcb_set_state set_curid tqueue_dequeue
run_next s =
    let (new_pid, s1) = tqueue_dequeue s num_ids in
    (new_pid, set_curid (tcb_set_state s1 new_pid tstate_run) new_pid)

-- The result says between which threads kctx_switch then switches, if it is called.
unfoldable pub thread_yield : Threads → Option (Option (ℕ × ℕ) × Threads)
unfolding sched_acquire sched_release tcb_set_state tqueue_enqueue run_next
thread_yield s = do
  s ← sched_acquire s
  let old_cur_pid = get_curid s
  let s1 = tqueue_enqueue (tcb_set_state s old_cur_pid tstate_ready) num_ids old_cur_pid
  let (new_cur_pid, s2) = run_next s1
  some (
    if old_cur_pid == new_cur_pid then none else some (old_cur_pid, new_cur_pid),
    sched_release s2,
  )

-- `1000 / LAPIC_TIMER_INTR_FREQ` and SCHED_SLICE
abbrev pub tick : ℕ
tick = 1000 / 1000

abbrev pub sched_slice : ℕ
sched_slice = 5

unfoldable pub sched_update : Threads → Option (Option (ℕ × ℕ) × Threads)
unfolding sched_acquire sched_release thread_yield
sched_update s = do
  s ← sched_acquire s
  let cpu = get_pcpu_idx s
  let ticks = (s.sched_ticks cpu + tick) % u32_mod
  if ltb sched_slice ticks
      then thread_yield (sched_release (record s { sched_ticks = update s.sched_ticks cpu 0 }))
      else some (none, sched_release (record s { sched_ticks = update s.sched_ticks cpu ticks }))

-- The first half of thread_sleep, up to the switch to another thread; `lk` is the lock handed
-- over, or `none` for NULL, which is a panic.
unfoldable pub thread_sleep :
    Threads → (chan : ℕ) → Option Spinlock → Option ((ℕ × ℕ) × Threads × Spinlock)
unfolding sched_acquire sched_release spinlock_release tcb_set_chan tcb_set_state run_next
thread_sleep s chan lk = do
  lk ← lk
  s ← sched_acquire s
  let lk' = spinlock_release lk
  let pid = get_curid s
  let s1 = tcb_set_state (tcb_set_chan s pid chan) pid tstate_sleep
  let (new_pid, s2) = run_next s1
  some ((pid, new_pid), sched_release s2, lk')

-- The second half, when the sleeper `pid` runs again.
unfoldable pub thread_sleep_resume : Threads → (pid : ℕ) → Spinlock → Option (Threads × Spinlock)
unfolding sched_acquire sched_release spinlock_acquire tcb_set_chan
thread_sleep_resume s pid lk = do
  s ← sched_acquire s
  let s1 = sched_release (tcb_set_chan s pid 0)
  lk' ← spinlock_acquire (get_pcpu_idx s1) lk
  some (s1, lk')

-- The body of thread_wakeup's loop.
unfoldable pub wake : Threads → (chan pid : ℕ) → Threads
unfolding tcb_set_state tqueue_enqueue
wake s chan pid =
    if (tcb_get_state s pid == tstate_sleep) && (tcb_get_chan s pid == chan)
    then tqueue_enqueue (tcb_set_state s pid tstate_ready) num_ids pid
    else s

-- The loop, on the `NUM_IDS - pid` rounds left.
unfoldable pub wakeup_loop : (rounds pid chan : ℕ) → Threads → Threads
unfolding wake
wakeup_loop zero pid chan s = s
wakeup_loop (suc k) pid chan s = wakeup_loop k (pid + 1) chan (wake s chan pid)

unfoldable pub thread_wakeup : Threads → (chan : ℕ) → Option Threads
unfolding sched_acquire sched_release wakeup_loop
thread_wakeup s chan = do s ← sched_acquire s; some (sched_release (wakeup_loop num_ids 0 chan s))
