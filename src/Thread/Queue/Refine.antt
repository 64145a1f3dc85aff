-- ===== src/Thread/Queue/Refine.antt =====
-- The queue routines of PTQueueInit.c against lists of threads: joining and taking the head.
use os_audio.Base.{
  ℕ, ◌<◌, ◌≡◌, ◌≢◌, refl, arith, true, false, ◌==◌, List, [], ◌∷◌, ◌++◌, has, distinct, sym, ◌∙◌,
  eq_false, eq_true,
}
use os_audio.Pmm.Container.{num_ids}
use os_audio.Thread.Tcb.{
  Threads, tqueue_get_head, tqueue_get_tail, tcb_set_prev, tcb_set_next, tqueue_set_head,
  tqueue_set_tail,
}
use os_audio.Thread.Queue.{tqueue_enqueue, tqueue_dequeue}
use os_audio.Thread.Queue.Links.{
  OnlyLinks, link_laws, only_links, set_tail-other, set_head-other, set_next-other, set_prev-other,
}
use os_audio.Thread.Queue.Chain.{
  first, last, Linked, has_here, has_later, ne_of_has, distinct_cons, has-append, has-last, last_lt,
  Linked-start, Linked-end, Linked-append, last-append,
}

-- The queue `chid` of the running CPU holds the threads `xs`, in this order.
pub record IsQueue (s : Threads) (chid : ℕ) (xs : List ℕ) : Type 0 where
  pub head : tqueue_get_head s chid ≡ first num_ids xs
  pub tail : tqueue_get_tail s chid ≡ last num_ids xs
  pub linked : Linked s.tcb_pool num_ids num_ids xs
  pub distinct : distinct xs ≡ true

distinct-append_one :
    (xs : List ℕ) (x : ℕ) → distinct xs ≡ true → has x xs ≡ false → distinct (xs ++ x ∷ []) ≡ true
distinct-append_one [] x d out = refl
distinct-append_one (y ∷ ys) x d out =
    let (fresh, rest) = distinct_cons y ys d in
    ground (arith, distinct-append_one ys x rest, has-append y ys (x ∷ []), fresh)

pub ne_of_out : (a y : ℕ) (xs : List ℕ) → has a xs ≡ false → has y xs ≡ true → a ≢ y
ne_of_out a y xs out there e = ne_of_has y a xs out there (sym e)

-- `tqueue_enqueue` of a thread below NUM_IDS that the queue does not hold puts it behind the others. Of the other
-- threads it changes at most the `next` of the one that was last, and of no thread the state, the
-- channel, the open files or the directory; no other queue changes, and nothing outside the TCBs and
-- this queue.
pub tqueue_enqueue_lem :
    (s : Threads) (chid pid : ℕ) (xs : List ℕ)
    → IsQueue s chid xs
    → pid < num_ids
    → has pid xs ≡ false
    → let s' = tqueue_enqueue s chid pid in
      IsQueue s' chid (xs ++ pid ∷ [])
      × OnlyLinks s chid s'
      × ((a : ℕ) → a ≢ pid → a ≢ last num_ids xs → s'.tcb_pool a ≡ s.tcb_pool a)
      × ((a : ℕ) → a ≢ pid → (s'.tcb_pool a).prev ≡ (s.tcb_pool a).prev)
unfolding tqueue_enqueue
tqueue_enqueue_lem s chid pid [] q lt out =
    let e : (tqueue_get_tail s chid == num_ids) ≡ true = ground (arith, q.tail) in
    rw e (
      record {
        head = simp link_laws (ground arith);
        tail = simp link_laws (ground arith);
        linked = (lt, simp link_laws (ground arith), simp link_laws (ground arith), tt);
        distinct = refl;
      },
      search only_links depth 6,
      λ a ne out'.
          set_tail-other _ chid pid a
          ∙ (set_head-other _ chid pid a
              ∙ (set_next-other _ pid num_ids a ne ∙ set_prev-other s pid num_ids a ne)),
      λ a ne. simp (link_laws, eq_false ne),
    )
tqueue_enqueue_lem s chid pid (x ∷ xs) q lt out =
    let y : ℕ = last x xs in
    let small : y < num_ids = last_lt s.tcb_pool num_ids num_ids x xs q.linked in
    let there : has y (x ∷ xs) ≡ true = has-last x xs in
    let ne : y ≢ pid = ne_of_has y pid (x ∷ xs) out there in
    let e : (tqueue_get_tail s chid == num_ids) ≡ false = ground (arith, q.tail, small) in
    let s' : Threads =
      tqueue_set_tail (tcb_set_next (tcb_set_prev (tcb_set_next s y pid) pid y) pid num_ids) chid
        pid in
    rw (e, q.tail)
      (
        record {
          head = simp link_laws q.head;
          tail = simp (link_laws, last-append) (ground arith);
          linked =
              Linked-append s'.tcb_pool num_ids num_ids (x ∷ xs) (pid ∷ [])
                (Linked-end s.tcb_pool s'.tcb_pool num_ids num_ids pid x xs q.distinct
                  (λ a h n.
                    let other : a ≢ pid = ne_of_has a pid (x ∷ xs) out h in
                    (
                      simp (link_laws, eq_false other),
                      simp (link_laws, eq_false other, eq_false n),
                    ))
                  (simp (link_laws, eq_false ne)) (simp (link_laws, eq_false ne, eq_true y))
                  q.linked)
                (lt, simp link_laws (ground arith), simp link_laws (ground arith), tt);
          distinct = distinct-append_one (x ∷ xs) pid q.distinct out;
        },
        search only_links depth 6,
        λ a n not_last.
            set_tail-other _ chid pid a
            ∙ (set_next-other _ pid num_ids a n
                ∙ (set_prev-other _ pid y a n ∙ set_next-other s y pid a not_last)),
        λ a n. simp (link_laws, eq_false n),
      )

-- `tqueue_dequeue` returns the head of the queue, leaves the rest in order, and unlinks the head.
-- No thread outside the queue changes, of no thread the state, the channel, the open files or the
-- directory; no other queue changes, and nothing outside the TCBs and this queue.
pub tqueue_dequeue_lem :
    (s : Threads) (chid x : ℕ) (xs : List ℕ)
    → IsQueue s chid (x ∷ xs)
    → let (pid, s') = tqueue_dequeue s chid in
      (pid ≡ x)
      × IsQueue s' chid xs
      × OnlyLinks s chid s'
      × ((s'.tcb_pool x).prev ≡ num_ids)
      × ((s'.tcb_pool x).next ≡ num_ids)
      × ((a : ℕ) → has a (x ∷ xs) ≡ false → s'.tcb_pool a ≡ s.tcb_pool a)
unfolding tqueue_dequeue
tqueue_dequeue_lem s chid x [] q =
    let some_head : (tqueue_get_head s chid == num_ids) ≡ false =
      ground (arith, q.head, q.linked.0) in
    let no_next : ((s.tcb_pool x).next == num_ids) ≡ true = ground (arith, q.linked.2) in
    rw (some_head, q.head, no_next)
      (
        refl,
        record {
          head = simp link_laws (ground arith);
          tail = simp link_laws (ground arith);
          linked = tt;
          distinct = refl;
        },
        search only_links depth 6,
        simp link_laws (ground arith),
        simp link_laws (ground arith),
        λ a out.
            let ne : a ≢ x = ne_of_out a x (x ∷ []) out (has_here x []) in
            set_next-other _ x num_ids a ne
            ∙ (set_prev-other _ x num_ids a ne
                ∙ (set_tail-other _ chid num_ids a ∙ set_head-other s chid num_ids a)),
      )
tqueue_dequeue_lem s chid x (y ∷ ys) q =
    let some_head : (tqueue_get_head s chid == num_ids) ≡ false =
      ground (arith, q.head, q.linked.0) in
    let next_y : (s.tcb_pool x).next ≡ y = q.linked.2 in
    let a_next : (y == num_ids) ≡ false = ground (arith, q.linked.3.0) in
    let (out, d) = distinct_cons x (y ∷ ys) q.distinct in
    let y_ne : y ≢ x = ne_of_has y x (y ∷ ys) out (has_here y ys) in
    let (y_out, d') = distinct_cons y ys d in
    let s' : Threads =
      tcb_set_next (tcb_set_prev (tqueue_set_head (tcb_set_prev s y num_ids) chid y) x num_ids) x
        num_ids in
    rw (some_head, q.head, next_y, a_next)
      (
        refl,
        record {
          head = simp link_laws (ground arith);
          tail = simp link_laws q.tail;
          linked =
              Linked-start s.tcb_pool s'.tcb_pool x num_ids num_ids y ys
                (λ a h.
                  let ne : a ≢ x = ne_of_has a x (y ∷ ys) out (has_later a y ys h) in
                  let ne' : a ≢ y = ne_of_has a y ys y_out h in
                  (simp (link_laws, eq_false ne, eq_false ne'), simp (link_laws, eq_false ne)))
                (simp link_laws (ground arith)) (simp link_laws (ground arith)) q.linked.3;
          distinct = d;
        },
        search only_links depth 6,
        simp link_laws (ground arith),
        simp link_laws (ground arith),
        λ a o.
            let ne : a ≢ x = ne_of_out a x (x ∷ y ∷ ys) o (has_here x (y ∷ ys)) in
            let ne' : a ≢ y =
              ne_of_out a y (x ∷ y ∷ ys) o (has_later y x (y ∷ ys) (has_here y ys)) in
            set_next-other _ x num_ids a ne
            ∙ (set_prev-other _ x num_ids a ne
                ∙ (set_head-other _ chid y a ∙ set_prev-other s y num_ids a ne')),
      )

pub dequeue_empty :
    (s : Threads) (chid : ℕ) → IsQueue s chid [] → tqueue_dequeue s chid ≡ (num_ids, s)
unfolding tqueue_dequeue
dequeue_empty s chid q = ground (arith, q.head)
