-- ===== src/Thread/Queue/Links.antt =====
-- What each setter of PTCBIntro.c and PTQueueIntro.c does to the links of a thread and to the ends
-- of a queue: the laws by which the queue routines are stepped with the setters shut.
use os_audio.Base.{ℕ, ◌≡◌, ◌≢◌, refl, arith, ◌==◌, ◌∙◌, if◌then◌else◌, update_ne}
use os_audio.Thread.Tcb.{
  Threads, get_pcpu_idx, tqueue_get_head, tqueue_get_tail, tcb_set_prev, tcb_set_next,
  tqueue_set_head, tqueue_set_tail,
}

-- Two states that differ at most in the links of threads and in the queue `chid` of the CPU.
pub record OnlyLinks (s : Threads) (chid : ℕ) (s' : Threads) : Type 0 where
  pub queues :
      (c : ℕ) → c ≢ chid → s'.tqueue_pool (get_pcpu_idx s) c ≡ s.tqueue_pool (get_pcpu_idx s) c
  pub cpus : (k : ℕ) → k ≢ get_pcpu_idx s → s'.tqueue_pool k ≡ s.tqueue_pool k
  pub states : (a : ℕ) → (s'.tcb_pool a).state ≡ (s.tcb_pool a).state
  pub channels : (a : ℕ) → (s'.tcb_pool a).channel ≡ (s.tcb_pool a).channel
  pub openfiles : (a : ℕ) → (s'.tcb_pool a).openfiles ≡ (s.tcb_pool a).openfiles
  pub cwd : (a : ℕ) → (s'.tcb_pool a).cwd ≡ (s.tcb_pool a).cwd
  pub kctx_pool : s'.kctx_pool ≡ s.kctx_pool
  pub sched_ticks : s'.sched_ticks ≡ s.sched_ticks
  pub paging : s'.paging ≡ s.paging
  pub curid : s'.curid ≡ s.curid
  pub sched_lk : s'.sched_lk ≡ s.sched_lk

pub OnlyLinks-trans :
    {s t u : Threads} {chid : ℕ} → OnlyLinks s chid t → OnlyLinks t chid u → OnlyLinks s chid u
OnlyLinks-trans a b = record {
  queues = λ c ne. rw a.paging at (b.queues c ne) ∙ a.queues c ne;
  cpus = λ k ne. b.cpus k (rw a.paging ne) ∙ a.cpus k ne;
  states = λ x. b.states x ∙ a.states x;
  channels = λ x. b.channels x ∙ a.channels x;
  openfiles = λ x. b.openfiles x ∙ a.openfiles x;
  cwd = λ x. b.cwd x ∙ a.cwd x;
  kctx_pool = b.kctx_pool ∙ a.kctx_pool;
  sched_ticks = b.sched_ticks ∙ a.sched_ticks;
  paging = b.paging ∙ a.paging;
  curid = b.curid ∙ a.curid;
  sched_lk = b.sched_lk ∙ a.sched_lk;
}

module _ (s : Threads) (p v : ℕ) where
  module _ (a : ℕ) where
    pub set_prev-prev :
        ((tcb_set_prev s p v).tcb_pool a).prev ≡ (if a == p then v else (s.tcb_pool a).prev)
    unfolding tcb_set_prev
    set_prev-prev = ground arith

    pub set_prev-next : ((tcb_set_prev s p v).tcb_pool a).next ≡ (s.tcb_pool a).next
    unfolding tcb_set_prev
    set_prev-next = ground arith

    pub set_next-prev : ((tcb_set_next s p v).tcb_pool a).prev ≡ (s.tcb_pool a).prev
    unfolding tcb_set_next
    set_next-prev = ground arith

    pub set_next-next :
        ((tcb_set_next s p v).tcb_pool a).next ≡ (if a == p then v else (s.tcb_pool a).next)
    unfolding tcb_set_next
    set_next-next = ground arith

    pub set_prev-other : a ≢ p → (tcb_set_prev s p v).tcb_pool a ≡ s.tcb_pool a
    unfolding tcb_set_prev
    set_prev-other ne = ground arith

    pub set_next-other : a ≢ p → (tcb_set_next s p v).tcb_pool a ≡ s.tcb_pool a
    unfolding tcb_set_next
    set_next-other ne = ground arith

    pub set_head-head :
        tqueue_get_head (tqueue_set_head s p v) a ≡ (if a == p then v else tqueue_get_head s a)
    unfolding tqueue_set_head
    set_head-head = ground arith

    pub set_head-tail : tqueue_get_tail (tqueue_set_head s p v) a ≡ tqueue_get_tail s a
    unfolding tqueue_set_head
    set_head-tail = ground arith

    pub set_tail-head : tqueue_get_head (tqueue_set_tail s p v) a ≡ tqueue_get_head s a
    unfolding tqueue_set_tail
    set_tail-head = ground arith

    pub set_tail-tail :
        tqueue_get_tail (tqueue_set_tail s p v) a ≡ (if a == p then v else tqueue_get_tail s a)
    unfolding tqueue_set_tail
    set_tail-tail = ground arith

    pub set_head-prev : ((tqueue_set_head s p v).tcb_pool a).prev ≡ (s.tcb_pool a).prev
    unfolding tqueue_set_head
    set_head-prev = refl

    pub set_head-next : ((tqueue_set_head s p v).tcb_pool a).next ≡ (s.tcb_pool a).next
    unfolding tqueue_set_head
    set_head-next = refl

    pub set_tail-prev : ((tqueue_set_tail s p v).tcb_pool a).prev ≡ (s.tcb_pool a).prev
    unfolding tqueue_set_tail
    set_tail-prev = refl

    pub set_tail-next : ((tqueue_set_tail s p v).tcb_pool a).next ≡ (s.tcb_pool a).next
    unfolding tqueue_set_tail
    set_tail-next = refl

    pub set_head-other : (tqueue_set_head s p v).tcb_pool a ≡ s.tcb_pool a
    unfolding tqueue_set_head
    set_head-other = refl

    pub set_tail-other : (tqueue_set_tail s p v).tcb_pool a ≡ s.tcb_pool a
    unfolding tqueue_set_tail
    set_tail-other = refl

    pub set_prev-head : tqueue_get_head (tcb_set_prev s p v) a ≡ tqueue_get_head s a
    unfolding tcb_set_prev
    set_prev-head = refl

    pub set_prev-tail : tqueue_get_tail (tcb_set_prev s p v) a ≡ tqueue_get_tail s a
    unfolding tcb_set_prev
    set_prev-tail = refl

    pub set_next-head : tqueue_get_head (tcb_set_next s p v) a ≡ tqueue_get_head s a
    unfolding tcb_set_next
    set_next-head = refl

    pub set_next-tail : tqueue_get_tail (tcb_set_next s p v) a ≡ tqueue_get_tail s a
    unfolding tcb_set_next
    set_next-tail = refl

  set_prev-only : (chid : ℕ) → OnlyLinks s chid (tcb_set_prev s p v)
  unfolding tcb_set_prev
  set_prev-only chid = record {
    queues = λ c ne. refl;
    cpus = λ k ne. refl;
    states = λ a. ground arith;
    channels = λ a. ground arith;
    openfiles = λ a. ground arith;
    cwd = λ a. ground arith;
    kctx_pool = refl;
    sched_ticks = refl;
    paging = refl;
    curid = refl;
    sched_lk = refl;
  }

  set_next-only : (chid : ℕ) → OnlyLinks s chid (tcb_set_next s p v)
  unfolding tcb_set_next
  set_next-only chid = record {
    queues = λ c ne. refl;
    cpus = λ k ne. refl;
    states = λ a. ground arith;
    channels = λ a. ground arith;
    openfiles = λ a. ground arith;
    cwd = λ a. ground arith;
    kctx_pool = refl;
    sched_ticks = refl;
    paging = refl;
    curid = refl;
    sched_lk = refl;
  }

  set_head-only : OnlyLinks s p (tqueue_set_head s p v)
  unfolding tqueue_set_head
  set_head-only = record {
    queues = λ c ne. ground arith;
    cpus = λ k ne. update_ne s.tqueue_pool _ ne;
    states = λ a. refl;
    channels = λ a. refl;
    openfiles = λ a. refl;
    cwd = λ a. refl;
    kctx_pool = refl;
    sched_ticks = refl;
    paging = refl;
    curid = refl;
    sched_lk = refl;
  }

  set_tail-only : OnlyLinks s p (tqueue_set_tail s p v)
  unfolding tqueue_set_tail
  set_tail-only = record {
    queues = λ c ne. ground arith;
    cpus = λ k ne. update_ne s.tqueue_pool _ ne;
    states = λ a. refl;
    channels = λ a. refl;
    openfiles = λ a. refl;
    cwd = λ a. refl;
    kctx_pool = refl;
    sched_ticks = refl;
    paging = refl;
    curid = refl;
    sched_lk = refl;
  }

module _ {s0 s : Threads} {chid : ℕ} (before : OnlyLinks s0 chid s) where
  pub set_prev-OnlyLinks : (p v : ℕ) → OnlyLinks s0 chid (tcb_set_prev s p v)
  set_prev-OnlyLinks p v = OnlyLinks-trans before (set_prev-only s p v chid)

  pub set_next-OnlyLinks : (p v : ℕ) → OnlyLinks s0 chid (tcb_set_next s p v)
  set_next-OnlyLinks p v = OnlyLinks-trans before (set_next-only s p v chid)

  pub set_head-OnlyLinks : (v : ℕ) → OnlyLinks s0 chid (tqueue_set_head s chid v)
  set_head-OnlyLinks v = OnlyLinks-trans before (set_head-only s chid v)

  pub set_tail-OnlyLinks : (v : ℕ) → OnlyLinks s0 chid (tqueue_set_tail s chid v)
  set_tail-OnlyLinks v = OnlyLinks-trans before (set_tail-only s chid v)

pub OnlyLinks-refl : (s : Threads) (chid : ℕ) → OnlyLinks s chid s
OnlyLinks-refl s chid = record {
  queues = λ c ne. refl;
  cpus = λ k ne. refl;
  states = λ a. refl;
  channels = λ a. refl;
  openfiles = λ a. refl;
  cwd = λ a. refl;
  kctx_pool = refl;
  sched_ticks = refl;
  paging = refl;
  curid = refl;
  sched_lk = refl;
}

pub ruleset link_laws = (
  set_prev-prev, set_prev-next, set_next-prev, set_next-next, set_head-head, set_head-tail,
  set_tail-head, set_tail-tail, set_prev-head, set_prev-tail, set_next-head, set_next-tail,
  set_head-prev, set_head-next, set_tail-prev, set_tail-next,
)

-- A queue routine is a chain of setters.
pub ruleset only_links =
    (OnlyLinks-refl, set_prev-OnlyLinks, set_next-OnlyLinks, set_head-OnlyLinks, set_tail-OnlyLinks)
