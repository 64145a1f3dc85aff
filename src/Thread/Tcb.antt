-- ===== src/Thread/Tcb.antt =====
-- kern/thread/PTCBIntro/PTCBIntro.c, PTCBInit, PTQueueIntro, PKCtxIntro, PKCtxNew and PCurID: thread
-- control blocks, the heads of the thread queues, kernel contexts and the running thread of a CPU.
-- Pointers are the numbers of their addresses, with 0 for NULL.
use os_audio.Pmm.Table.{Pmm}
use os_audio.Vmm.Boot.{paging_init}
use os_audio.Base.{Option, some, ◌>>=◌, ℕ, zero, suc, ◌+◌, update}
use os_audio.Sync.{Spinlock}
use os_audio.Pmm.Container.{num_ids}
use os_audio.Vmm.Table.{Paging}
use os_audio.Vmm.Map.{alloc_mem_quota}

-- `t_state`
abbrev pub tstate_ready : ℕ
tstate_ready = 0

abbrev pub tstate_run : ℕ
tstate_run = 1

abbrev pub tstate_sleep : ℕ
tstate_sleep = 2

abbrev pub tstate_dead : ℕ
tstate_dead = 3

-- `struct TCB`
pub record Tcb : Type 0 where
  pub state : ℕ
  pub prev : ℕ
  pub next : ℕ
  pub channel : ℕ
  pub openfiles : ℕ → ℕ
  pub cwd : ℕ

-- `struct TQueue`
pub record TQueue : Type 0 where
  pub head : ℕ
  pub tail : ℕ

-- The two fields of `struct kctx` that C code sets.
pub record Kctx : Type 0 where
  pub esp : ℕ
  pub eip : ℕ

pub record Threads : Type 0 where
  pub paging : Paging
  pub tcb_pool : ℕ → Tcb
  pub tqueue_pool : ℕ → ℕ → TQueue
  pub kctx_pool : ℕ → Kctx
  pub curid : ℕ → ℕ
  pub sched_lk : Spinlock
  pub sched_ticks : ℕ → ℕ

abbrev pub get_pcpu_idx : Threads → ℕ
get_pcpu_idx s = s.paging.containers.pmm.cpu_idx

abbrev pub tcb_get_state : Threads → ℕ → ℕ
tcb_get_state s pid = (s.tcb_pool pid).state

abbrev pub write_tcb : Threads → ℕ → Tcb → Threads
write_tcb s pid t = record s { tcb_pool = update s.tcb_pool pid t }

unfoldable pub tcb_set_state : Threads → (pid state : ℕ) → Threads
tcb_set_state s pid state = write_tcb s pid (record (s.tcb_pool pid) { state = state })

abbrev pub tcb_get_prev : Threads → ℕ → ℕ
tcb_get_prev s pid = (s.tcb_pool pid).prev

unfoldable pub tcb_set_prev : Threads → (pid prev_pid : ℕ) → Threads
tcb_set_prev s pid prev_pid = write_tcb s pid (record (s.tcb_pool pid) { prev = prev_pid })

abbrev pub tcb_get_next : Threads → ℕ → ℕ
tcb_get_next s pid = (s.tcb_pool pid).next

unfoldable pub tcb_set_next : Threads → (pid next_pid : ℕ) → Threads
tcb_set_next s pid next_pid = write_tcb s pid (record (s.tcb_pool pid) { next = next_pid })

-- `root` is what `namei("/")` returns.
unfoldable pub tcb_init_at_id : (root : ℕ) → Threads → (pid : ℕ) → Threads
tcb_init_at_id root s pid = write_tcb s pid (record {
  state = tstate_dead;
  prev = num_ids;
  next = num_ids;
  channel = 0;
  openfiles = λ fd. 0;
  cwd = root;
})

abbrev pub tcb_get_chan : Threads → ℕ → ℕ
tcb_get_chan s pid = (s.tcb_pool pid).channel

unfoldable pub tcb_set_chan : Threads → (pid chan : ℕ) → Threads
tcb_set_chan s pid chan = write_tcb s pid (record (s.tcb_pool pid) { channel = chan })

abbrev pub tcb_get_openfiles : Threads → ℕ → ℕ → ℕ
tcb_get_openfiles s pid = (s.tcb_pool pid).openfiles

unfoldable pub tcb_set_openfiles : Threads → (pid fd f : ℕ) → Threads
tcb_set_openfiles s pid fd f =
    write_tcb s pid (record (s.tcb_pool pid) { openfiles = update (s.tcb_pool pid).openfiles fd f })

abbrev pub tcb_get_cwd : Threads → ℕ → ℕ
tcb_get_cwd s pid = (s.tcb_pool pid).cwd

unfoldable pub tcb_set_cwd : Threads → (pid d : ℕ) → Threads
tcb_set_cwd s pid d = write_tcb s pid (record (s.tcb_pool pid) { cwd = d })

-- The loop of tcb_init behind paging_init, on the `NUM_IDS - pid` rounds left.
unfoldable pub tcb_init_loop : (root rounds pid : ℕ) → Threads → Threads
unfolding tcb_init_at_id
tcb_init_loop root zero pid s = s
tcb_init_loop root (suc k) pid s = tcb_init_loop root k (pid + 1) (tcb_init_at_id root s pid)

-- `pmm` is what pmem_init leaves.
unfoldable pub tcb_init : (root : ℕ) (pmm : Pmm) → Threads → Option Threads
tcb_init root pmm s = do
  paging ← paging_init pmm s.paging
  some (tcb_init_loop root num_ids 0 (record s { paging = paging }))

abbrev pub tqueue_get_head : Threads → ℕ → ℕ
tqueue_get_head s chid = (s.tqueue_pool (get_pcpu_idx s) chid).head

abbrev pub write_tqueue : Threads → (cpu_idx chid : ℕ) → TQueue → Threads
write_tqueue s cpu_idx chid q = record s {
  tqueue_pool = update s.tqueue_pool cpu_idx (update (s.tqueue_pool cpu_idx) chid q);
}

unfoldable pub tqueue_set_head : Threads → (chid head : ℕ) → Threads
tqueue_set_head s chid head =
    let cpu = get_pcpu_idx s in
    write_tqueue s cpu chid (record (s.tqueue_pool cpu chid) { head = head })

abbrev pub tqueue_get_tail : Threads → ℕ → ℕ
tqueue_get_tail s chid = (s.tqueue_pool (get_pcpu_idx s) chid).tail

unfoldable pub tqueue_set_tail : Threads → (chid tail : ℕ) → Threads
tqueue_set_tail s chid tail =
    let cpu = get_pcpu_idx s in
    write_tqueue s cpu chid (record (s.tqueue_pool cpu chid) { tail = tail })

unfoldable pub tqueue_init_at_id : Threads → (cpu_idx chid : ℕ) → Threads
tqueue_init_at_id s cpu_idx chid =
    write_tqueue s cpu_idx chid (record { head = num_ids; tail = num_ids })

abbrev pub get_curid : Threads → ℕ
get_curid s = s.curid (get_pcpu_idx s)

unfoldable pub set_curid : Threads → ℕ → Threads
set_curid s curid = record s { curid = update s.curid (get_pcpu_idx s) curid }

unfoldable pub kctx_set_esp : Threads → (pid esp : ℕ) → Threads
kctx_set_esp s pid esp = record s {
  kctx_pool = update s.kctx_pool pid (record (s.kctx_pool pid) { esp = esp });
}

unfoldable pub kctx_set_eip : Threads → (pid eip : ℕ) → Threads
kctx_set_eip s pid eip = record s {
  kctx_pool = update s.kctx_pool pid (record (s.kctx_pool pid) { eip = eip });
}

-- `kstack_hi pid` is the address of `proc_kstack[pid].kstack_hi`.
unfoldable pub kctx_new : (kstack_hi : ℕ → ℕ) → Threads → (entry id quota : ℕ) → ℕ × Threads
unfolding alloc_mem_quota kctx_set_esp kctx_set_eip
kctx_new kstack_hi s entry id quota =
    let (pid, paging) = alloc_mem_quota s.paging id quota in
    let s' : Threads = record s { paging = paging } in
    (pid, kctx_set_eip (kctx_set_esp s' pid (kstack_hi pid)) pid entry)
