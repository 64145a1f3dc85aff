-- ===== src/Thread/Sched/Start.antt =====
-- The tables that thread_init of PThread.c leaves, with tcb_init and tqueue_init below it.
use os_audio.Base.{
  ℕ, zero, suc, ◌+◌, ◌%◌, ◌^◌, ◌≤◌, ◌<◌, ◌≡◌, ◌≢◌, refl, ap, ◌∙◌, arith, u32_mod, some, update,
  update_self, update_ne, ltb, ◌==◌, if◌then◌else◌, lt→ltb, false,
}
use native.Mathlib.Decide.{ℕ_discrete}
use os_audio.Sync.{Spinlock, num_cpus}
use os_audio.Pmm.Table.{Pmm}
use os_audio.Pmm.Container.{num_ids}
use os_audio.Vmm.Boot.Identity.{paging_init_lem}
use os_audio.Thread.Tcb.{
  Tcb, TQueue, Threads, tcb_init_at_id, tcb_init_loop, tcb_init, tqueue_init_at_id, tcb_set_state,
  get_curid, set_curid, tstate_run, tstate_dead,
}
use os_audio.Thread.Queue.{tqueue_init_row, tqueue_init_loop, tqueue_init}
use os_audio.Thread.Sched.{thread_init}

-- A thread that does not exist yet, and an empty queue.
abbrev dead : (root : ℕ) → Tcb
dead root = record {
  state = tstate_dead;
  prev = 64;
  next = 64;
  channel = 0;
  openfiles = λ fd. 0;
  cwd = root;
}

abbrev empty : TQueue
empty = record { head = 64; tail = 64 }

-- What the two initialisations leave alone.
record Kept (s s' : Threads) : Type 0 where
  pub paging : s'.paging ≡ s.paging
  pub sched_lk : s'.sched_lk ≡ s.sched_lk
  pub sched_ticks : s'.sched_ticks ≡ s.sched_ticks

Kept-trans : {s t u : Threads} → Kept s t → Kept t u → Kept s u
Kept-trans a b = record {
  paging = b.paging ∙ a.paging;
  sched_lk = b.sched_lk ∙ a.sched_lk;
  sched_ticks = b.sched_ticks ∙ a.sched_ticks;
}

record Dead (root : ℕ) (s : Threads) (pid k : ℕ) (s' : Threads) : Type 0 where
  pub kept : Kept s s'
  pub inside : (p : ℕ) → pid ≤ p → p < pid + k → s'.tcb_pool p ≡ dead root
  pub before : (p : ℕ) → p < pid → s'.tcb_pool p ≡ s.tcb_pool p

tcb_init_loop-Dead : (root k pid : ℕ) (s : Threads) → Dead root s pid k (tcb_init_loop root k pid s)
unfolding tcb_init_loop tcb_init_at_id
tcb_init_loop-Dead root zero pid s = record {
  kept = record { paging = refl; sched_lk = refl; sched_ticks = refl };
  inside = λ p from below. absurd (omega arith);
  before = λ p h. refl;
}
tcb_init_loop-Dead root (suc k) pid s =
    let rest = tcb_init_loop-Dead root k (pid + 1) (tcb_init_at_id root s pid) in
    record {
      kept = record {
        paging = rest.kept.paging;
        sched_lk = rest.kept.sched_lk;
        sched_ticks = rest.kept.sched_ticks;
      };
      inside = λ p from below. elim (ℕ_discrete p pid) [
        | yes e ↦ rw e (rest.before pid (omega arith) ∙ update_self s.tcb_pool pid (dead root))
        | no ne ↦ rest.inside p (omega arith) (omega arith)
      ];
      before = λ p h. rest.before p (omega arith) ∙ update_ne s.tcb_pool (dead root) (omega arith);
    }

record EmptyRow (s : Threads) (cpu chid k : ℕ) (s' : Threads) : Type 0 where
  pub kept : Kept s s'
  pub tcbs : s'.tcb_pool ≡ s.tcb_pool
  pub inside : (c : ℕ) → chid ≤ c → c < chid + k → s'.tqueue_pool cpu c ≡ empty
  pub before : (c : ℕ) → c < chid → s'.tqueue_pool cpu c ≡ s.tqueue_pool cpu c
  pub others : (i c : ℕ) → i ≢ cpu → s'.tqueue_pool i c ≡ s.tqueue_pool i c

tqueue_init_row-EmptyRow :
    (k cpu chid : ℕ) (s : Threads) → EmptyRow s cpu chid k (tqueue_init_row k cpu chid s)
unfolding tqueue_init_row tqueue_init_at_id
tqueue_init_row-EmptyRow zero cpu chid s = record {
  kept = record { paging = refl; sched_lk = refl; sched_ticks = refl };
  tcbs = refl;
  inside = λ c from below. absurd (omega arith);
  before = λ c h. refl;
  others = λ i c ne. refl;
}
tqueue_init_row-EmptyRow (suc k) cpu chid s =
    let row : ℕ → TQueue = update (s.tqueue_pool cpu) chid empty in
    let here = update_self s.tqueue_pool cpu row in
    let rest = tqueue_init_row-EmptyRow k cpu (chid + 1) (tqueue_init_at_id s cpu chid) in
    record {
      kept = record {
        paging = rest.kept.paging;
        sched_lk = rest.kept.sched_lk;
        sched_ticks = rest.kept.sched_ticks;
      };
      tcbs = rest.tcbs;
      inside = λ c from below. elim (ℕ_discrete c chid) [
        | yes e ↦ rw e (
            rest.before chid (omega arith)
            ∙ (ap (λ (f : ℕ → TQueue). f chid) here ∙ update_self (s.tqueue_pool cpu) chid empty))
        | no ne ↦ rest.inside c (omega arith) (omega arith)
      ];
      before = λ c h.
          rest.before c (omega arith)
          ∙ (ap (λ (f : ℕ → TQueue). f c) here ∙ update_ne (s.tqueue_pool cpu) empty (omega arith));
      others = λ i c ne.
          rest.others i c ne ∙ ap (λ (f : ℕ → TQueue). f c) (update_ne s.tqueue_pool row ne);
    }

record Empty (s : Threads) (cpu k : ℕ) (s' : Threads) : Type 0 where
  pub kept : Kept s s'
  pub tcbs : s'.tcb_pool ≡ s.tcb_pool
  pub inside : (i c : ℕ) → cpu ≤ i → i < cpu + k → c ≤ 64 → s'.tqueue_pool i c ≡ empty
  pub before : (i c : ℕ) → i < cpu → s'.tqueue_pool i c ≡ s.tqueue_pool i c

tqueue_init_loop-Empty : (k cpu : ℕ) (s : Threads) → Empty s cpu k (tqueue_init_loop k cpu s)
unfolding tqueue_init_loop
tqueue_init_loop-Empty zero cpu s = record {
  kept = record { paging = refl; sched_lk = refl; sched_ticks = refl };
  tcbs = refl;
  inside = λ i c from below small. absurd (omega arith);
  before = λ i c h. refl;
}
tqueue_init_loop-Empty (suc k) cpu s =
    let s1 : Threads = tqueue_init_row 65 cpu 0 s in
    let row = tqueue_init_row-EmptyRow 65 cpu 0 s in
    let rest = tqueue_init_loop-Empty k (cpu + 1) s1 in
    record {
      kept = Kept-trans row.kept rest.kept;
      tcbs = rest.tcbs ∙ row.tcbs;
      inside = λ i c from below small. elim (ℕ_discrete i cpu) [
        | yes e ↦ rw e (rest.before cpu c (omega arith) ∙ row.inside c (omega arith) (omega arith))
        | no ne ↦ rest.inside i c (omega arith) (omega arith) small
      ];
      before = λ i c h. rest.before i c (omega arith) ∙ row.others i c (omega arith);
    }

-- `thread_init`, with IDPTbl on a page boundary and below the end of the address space, returns with
-- the scheduler's lock free and all ticks at 0. Every queue of every CPU is empty, thread 0 runs, and
-- every other thread is dead, in no queue and on no channel.
pub thread_init_lem :
    (root : ℕ) (pmm : Pmm) (s : Threads)
    → s.paging.idptbl % 4096 ≡ 0
    → s.paging.idptbl + 2 ^ 22 ≤ u32_mod
    → (s' : Threads) × (thread_init root pmm s ≡ some s')
      × (s'.sched_lk.lock ≡ 0)
      × (get_curid s' ≡ 0)
      × ((i : ℕ) → i < 8 → s'.sched_ticks i ≡ 0)
      × ((i c : ℕ) → i < 8 → c ≤ 64 → s'.tqueue_pool i c ≡ record { head = 64; tail = 64 })
      × ((p : ℕ)
          → p < 64
          → s'.tcb_pool p ≡ record {
            state = if p == 0 then tstate_run else tstate_dead;
            prev = 64;
            next = 64;
            channel = 0;
            openfiles = λ fd. 0;
            cwd = root;
          })
unfolding thread_init tqueue_init tcb_init set_curid tcb_set_state
thread_init_lem root pmm s aligned fits =
    let (p', e, _, _, _, _, _) = paging_init_lem pmm s.paging aligned fits in
    let s1 : Threads = record s {
      sched_ticks = λ i. if ltb i num_cpus then 0 else s.sched_ticks i;
      sched_lk = record { lock_holder = num_cpus + 1; lock = 0 };
      paging = p';
    } in
    let s2 : Threads = tcb_init_loop root num_ids 0 s1 in
    let none_yet = tcb_init_loop-Dead root num_ids 0 s1 in
    let s3 : Threads = tqueue_init_loop num_cpus 0 s2 in
    let queues = tqueue_init_loop-Empty num_cpus 0 s2 in
    let kept = Kept-trans none_yet.kept queues.kept in
    let threads : (p : ℕ) → p < 64 → s3.tcb_pool p ≡ dead root = λ p h.
      ap (λ (t : ℕ → Tcb). t p) queues.tcbs ∙ none_yet.inside p (omega arith) (omega arith) in
    (
      tcb_set_state (set_curid s3 0) 0 tstate_run,
      rw e refl,
      ap (λ (l : Spinlock). l.lock) kept.sched_lk,
      update_self s3.curid s3.paging.containers.pmm.cpu_idx 0,
      λ i h. ap (λ (t : ℕ → ℕ). t i) kept.sched_ticks ∙ rw (lt→ltb i 8 h) refl,
      λ i c h small. queues.inside i c (omega arith) h small,
      λ p h. elim (ℕ_discrete p 0) [
        | yes z ↦ rw z (rw (threads 0 (omega arith)) refl)
        | no ne ↦ let other : (p == 0) ≡ false = ground arith in rw other (threads p h)
      ],
    )
