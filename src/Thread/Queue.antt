-- ===== src/Thread/Queue.antt =====
-- kern/thread/PTQueueInit/PTQueueInit.c: the thread queues, doubly linked through the TCBs.
pub mod Links
pub mod Chain
pub mod Refine
pub mod Remove
use os_audio.Pmm.Table.{Pmm}
use os_audio.Base.{Option, some, ◌>>=◌, ℕ, zero, suc, ◌+◌, not, ◌==◌, if◌then◌else◌}
use os_audio.Sync.{num_cpus}
use os_audio.Pmm.Container.{num_ids}
use os_audio.Thread.Tcb.{
  Threads, tcb_init, tcb_get_prev, tcb_get_next, tcb_set_prev, tcb_set_next, tqueue_get_head,
  tqueue_get_tail, tqueue_set_head, tqueue_set_tail, tqueue_init_at_id,
}

-- The inner loop of tqueue_init, on the `NUM_IDS + 1 - chid` rounds left.
unfoldable pub tqueue_init_row : (rounds cpu_idx chid : ℕ) → Threads → Threads
unfolding tqueue_init_at_id
tqueue_init_row zero cpu_idx chid s = s
tqueue_init_row (suc k) cpu_idx chid s =
    tqueue_init_row k cpu_idx (chid + 1) (tqueue_init_at_id s cpu_idx chid)

-- The outer loop behind tcb_init, on the `NUM_CPUS - cpu_idx` rounds left.
unfoldable pub tqueue_init_loop : (rounds cpu_idx : ℕ) → Threads → Threads
tqueue_init_loop zero cpu_idx s = s
tqueue_init_loop (suc k) cpu_idx s =
    tqueue_init_loop k (cpu_idx + 1) (tqueue_init_row (num_ids + 1) cpu_idx 0 s)

unfoldable pub tqueue_init : (root : ℕ) (pmm : Pmm) → Threads → Option Threads
tqueue_init root pmm s = do s ← tcb_init root pmm s; some (tqueue_init_loop num_cpus 0 s)

unfoldable pub tqueue_enqueue : Threads → (chid pid : ℕ) → Threads
tqueue_enqueue s chid pid =
    let tail = tqueue_get_tail s chid in
    if tail == num_ids
    then (let s1 = tcb_set_prev s pid num_ids in
        let s2 = tcb_set_next s1 pid num_ids in
        let s3 = tqueue_set_head s2 chid pid in tqueue_set_tail s3 chid pid)
    else let s1 = tcb_set_next s tail pid in
      let s2 = tcb_set_prev s1 pid tail in
      let s3 = tcb_set_next s2 pid num_ids in tqueue_set_tail s3 chid pid

unfoldable pub tqueue_dequeue : Threads → (chid : ℕ) → ℕ × Threads
tqueue_dequeue s chid =
    let head = tqueue_get_head s chid in
    if head == num_ids
    then (num_ids, s)
    else let next = tcb_get_next s head in
      let unhooked =
        if next == num_ids
        then tqueue_set_tail (tqueue_set_head s chid num_ids) chid num_ids
        else tqueue_set_head (tcb_set_prev s next num_ids) chid next in
      (head, tcb_set_next (tcb_set_prev unhooked head num_ids) head num_ids)

unfoldable pub tqueue_remove : Threads → (chid pid : ℕ) → Threads
tqueue_remove s chid pid =
    let prev = tcb_get_prev s pid in
    let next = tcb_get_next s pid in
    let unhooked =
      if prev == num_ids
      then (if next == num_ids
          then tqueue_set_tail (tqueue_set_head s chid num_ids) chid num_ids
          else tqueue_set_head (tcb_set_prev s next num_ids) chid next)
      else (if next == num_ids
          then tqueue_set_tail (tcb_set_next s prev num_ids) chid prev
          else tcb_set_prev (if not (prev == next) then tcb_set_next s prev next else s) next
              prev) in
    tcb_set_next (tcb_set_prev unhooked pid num_ids) pid num_ids
