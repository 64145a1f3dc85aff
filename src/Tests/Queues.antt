-- ===== src/Tests/Queues.antt =====
-- Threads 2 and 3 ready and thread 1 running (kern/thread).
use os_audio.Base.{
  ◌%◌, ◌<◌, ◌≤◌, ◌⊎◌, ℕ, ◌≡◌, ◌≢◌, refl, arith, false, true, none, some, [], ◌∷◌, ◌++◌, has, ◌==◌,
  if◌then◌else◌,
}
use os_audio.Sync.{Spinlock}
use os_audio.Pmm.Container.{num_ids}
use os_audio.Thread.Tcb.{
  Tcb, Threads, get_curid, tcb_get_state, tcb_get_chan, tstate_ready, tstate_run, tstate_sleep,
  tstate_dead,
}
use os_audio.Thread.Queue.{tqueue_enqueue, tqueue_dequeue, tqueue_remove}
use os_audio.Thread.Queue.Links.{OnlyLinks}
use os_audio.Thread.Queue.Refine.{IsQueue, tqueue_enqueue_lem, tqueue_dequeue_lem}
use os_audio.Thread.Queue.Remove.{tqueue_remove_lem}
use os_audio.Thread.Sched.{thread_init, thread_yield, thread_sleep, thread_wakeup}
use os_audio.Thread.Sched.Yield.{thread_yield_lem, thread_sleep_lem}
use os_audio.Thread.Sched.Wakeup.{asleep, picked, thread_wakeup_lem}
use os_audio.Pmm.Alloc.Scan.{IsFree}
use os_audio.Pmm.Alloc.Palloc.{IsReady}
use os_audio.Pmm.Container.Quota.{IsSound}
use os_audio.Vmm.Table.{Paging, get_ptbl_entry_by_va}
use os_audio.Vmm.Table.Entry.{AreWords}
use os_audio.Vmm.Map.{magic_number, alloc_page}
use os_audio.Vmm.Map.Page.{pte}
use os_audio.Trap.{pgflt_handler}
use os_audio.Vmm.Map.Alloc.{Unmappable, Entered}
use os_audio.Trap.Fault.{pgflt_handler_lem}
use os_audio.Thread.Sched.Start.{thread_init_lem}
use os_audio.Tests.Memory.{machine, pages, containers, accounts-IsSound, machine-IsReady}

abbrev thread : (state prev next channel : ℕ) → Tcb
thread state prev next channel = record {
  state = state;
  prev = prev;
  next = next;
  channel = channel;
  openfiles = λ fd. 0;
  cwd = 0;
}

-- Thread 4 sleeps on channel 9.
abbrev tcbs : ℕ → Tcb
tcbs pid =
    if pid == 1
    then thread tstate_run 64 64 0
    else if pid == 2
    then thread tstate_ready 64 3 0
    else if pid == 3
    then thread tstate_ready 2 64 0
    else if pid == 4
    then thread tstate_sleep 64 64 9
    else thread 3 64 64 0

abbrev threads : Threads
threads = record {
  paging = record {
    containers = containers;
    pdir_pool = λ p d. 0;
    memory = λ a. 0;
    idptbl = 0x200000;
    pt_lk = record { lock_holder = 9; lock = 0 };
    pdir_base = 0;
  };
  tcb_pool = tcbs;
  tqueue_pool = λ cpu chid.
      if chid == 64 then record { head = 2; tail = 3 } else record { head = 64; tail = 64 };
  kctx_pool = λ pid. record { esp = 0; eip = 0 };
  curid = λ cpu. 1;
  sched_lk = record { lock_holder = 9; lock = 0 };
  sched_ticks = λ cpu. 0;
}

threads-IsQueue : IsQueue threads 64 (2 ∷ 3 ∷ [])
threads-IsQueue = record {
  head = refl;
  tail = refl;
  linked = (omega arith, refl, refl, (omega arith, refl, refl, tt));
  distinct = refl;
}

tqueue_enqueue_lem_example :
    let s' = tqueue_enqueue threads 64 1 in
    IsQueue s' 64 ((2 ∷ 3 ∷ []) ++ 1 ∷ [])
    × OnlyLinks threads 64 s'
    × ((a : ℕ) → a ≢ 1 → a ≢ 3 → s'.tcb_pool a ≡ threads.tcb_pool a)
    × ((a : ℕ) → a ≢ 1 → (s'.tcb_pool a).prev ≡ (threads.tcb_pool a).prev)
tqueue_enqueue_lem_example =
    tqueue_enqueue_lem threads 64 1 (2 ∷ 3 ∷ []) threads-IsQueue (omega arith) refl

tqueue_dequeue_lem_example :
    let (pid, s') = tqueue_dequeue threads 64 in
    (pid ≡ 2)
    × IsQueue s' 64 (3 ∷ [])
    × OnlyLinks threads 64 s'
    × ((s'.tcb_pool 2).prev ≡ num_ids)
    × ((s'.tcb_pool 2).next ≡ num_ids)
    × ((a : ℕ) → has a (2 ∷ 3 ∷ []) ≡ false → s'.tcb_pool a ≡ threads.tcb_pool a)
tqueue_dequeue_lem_example = tqueue_dequeue_lem threads 64 2 (3 ∷ []) threads-IsQueue

tqueue_remove_lem_example :
    let s' = tqueue_remove threads 64 3 in
    IsQueue s' 64 ((2 ∷ []) ++ [])
    × OnlyLinks threads 64 s'
    × ((s'.tcb_pool 3).prev ≡ num_ids)
    × ((s'.tcb_pool 3).next ≡ num_ids)
    × ((a : ℕ) → has a ((2 ∷ []) ++ 3 ∷ []) ≡ false → s'.tcb_pool a ≡ threads.tcb_pool a)
tqueue_remove_lem_example = tqueue_remove_lem threads 64 3 (2 ∷ []) [] threads-IsQueue

thread_yield_lem_example :
    (s' : Threads) × (thread_yield threads
      ≡ some (if get_curid threads == 2 then none else some (get_curid threads, 2), s'))
    × IsQueue s' num_ids (3 ∷ 1 ∷ [])
    × (get_curid s' ≡ 2)
    × ((a : ℕ)
        → tcb_get_state s' a ≡ (
            if a == 2
            then tstate_run
            else if a == get_curid threads
            then tstate_ready
            else tcb_get_state threads a))
    × ((a : ℕ) → tcb_get_chan s' a ≡ tcb_get_chan threads a)
    × (s'.sched_lk.lock ≡ 0)
thread_yield_lem_example =
    thread_yield_lem threads 2 (2 ∷ 3 ∷ []) (3 ∷ 1 ∷ []) refl threads-IsQueue (omega arith) refl
      refl

thread_sleep_lem_example :
    (thread_sleep threads 7 none ≡ none)
    × (s' : Threads) × (lk' : Spinlock) × (thread_sleep threads 7
          (some (record { lock_holder = 0; lock = 1 }))
        ≡ some ((get_curid threads, 2), s', lk'))
    × (lk'.lock ≡ 0)
    × IsQueue s' num_ids (3 ∷ [])
    × (get_curid s' ≡ 2)
    × ((a : ℕ)
        → tcb_get_state s' a ≡ (
            if a == 2
            then tstate_run
            else if a == get_curid threads
            then tstate_sleep
            else tcb_get_state threads a))
    × ((a : ℕ) → tcb_get_chan s' a ≡ (if a == get_curid threads then 7 else tcb_get_chan threads a))
    × (s'.sched_lk.lock ≡ 0)
thread_sleep_lem_example =
    thread_sleep_lem threads 7 2 (3 ∷ []) (record { lock_holder = 0; lock = 1 }) refl
      threads-IsQueue

sleepers_out : (a : ℕ) → asleep threads 9 a ≡ true → has a (2 ∷ 3 ∷ []) ≡ false
sleepers_out a h = ground arith

thread_wakeup_lem_example :
    let ps = picked (asleep threads 9) 64 0 in
    (s' : Threads) × (thread_wakeup threads 9 ≡ some s')
    × IsQueue s' num_ids ((2 ∷ 3 ∷ []) ++ ps)
    × ((a : ℕ) → tcb_get_state s' a ≡ (if has a ps then tstate_ready else tcb_get_state threads a))
    × ((a : ℕ) → tcb_get_chan s' a ≡ tcb_get_chan threads a)
    × (s'.curid ≡ threads.curid)
    × (s'.sched_lk.lock ≡ 0)
thread_wakeup_lem_example =
    thread_wakeup_lem threads 9 (2 ∷ 3 ∷ []) refl threads-IsQueue sleepers_out

-- Thread 4 is the one that wakes.
picked_four : picked (asleep threads 9) 64 0 ≡ 4 ∷ []
picked_four = refl

threads-AreWords : AreWords threads.paging
threads-AreWords p d = omega arith

pgflt_handler_lem_example :
    ((pgflt_handler threads 4 0x40000000 ≡ none)
      × ((4 % 2 ≡ 1)
          ⊎ ((p : Paging) × (alloc_page threads.paging 1 0x40000000 7 ≡ some (magic_number, p))
              × Unmappable threads.paging 1 0x40000000)))
    ⊎ ((4 % 2 ≡ 0)
        × (p : Paging) × (pgflt_handler threads 4 0x40000000 ≡ some (record threads { paging = p }))
        × IsSound p.containers.container
        × IsReady p.containers.pmm
        × ((page : ℕ) × IsFree pages page
            × (get_ptbl_entry_by_va p 1 0x40000000 ≡ pte page 7)
            × ((result : ℕ) × Entered threads.paging 1 0x40000000 result p)))
pgflt_handler_lem_example =
    pgflt_handler_lem threads 4 0x40000000 refl threads-AreWords accounts-IsSound machine-IsReady
      (omega arith)

thread_init_lem_example :
    (s' : Threads) × (thread_init 5 (machine 1) threads ≡ some s')
    × (s'.sched_lk.lock ≡ 0)
    × (get_curid s' ≡ 0)
    × ((i : ℕ) → i < 8 → s'.sched_ticks i ≡ 0)
    × ((i c : ℕ) → i < 8 → c ≤ 64 → s'.tqueue_pool i c ≡ record { head = 64; tail = 64 })
    × ((p : ℕ)
        → p < 64
        → s'.tcb_pool p ≡ record {
          state = if p == 0 then tstate_run else tstate_dead;
          prev = 64;
          next = 64;
          channel = 0;
          openfiles = λ fd. 0;
          cwd = 5;
        })
thread_init_lem_example = thread_init_lem 5 (machine 1) threads refl (omega arith)
