-- ===== src/Thread/Queue/Remove.antt =====
-- tqueue_remove of PTQueueInit.c: taking a thread out of the middle of its queue.
use os_audio.Base.{
  ℕ, ◌<◌, ◌≡◌, ◌≢◌, refl, arith, true, false, ◌==◌, List, [], ◌∷◌, ◌++◌, has, distinct, sym, ◌∙◌,
  Bool-cases, inl, inr, eq_false, eq_true, append-nil,
}
use os_audio.Pmm.Container.{num_ids}
use os_audio.Thread.Tcb.{Threads, tcb_set_prev, tcb_set_next, tqueue_set_head, tqueue_set_tail}
use os_audio.Thread.Queue.{tqueue_remove}
use os_audio.Thread.Queue.Links.{
  OnlyLinks, link_laws, only_links, set_tail-other, set_head-other, set_next-other, set_prev-other,
}
use os_audio.Thread.Queue.Chain.{
  first, last, Linked, has_here, has_later, ne_of_has, distinct_cons, has-append, has-last, last_lt,
  Linked-start, Linked-end, Linked-split, Linked-append, last-append,
}
use os_audio.Thread.Queue.Refine.{IsQueue, ne_of_out}

-- A list without repetition, cut in two.
pub distinct-split :
    (xs ys : List ℕ)
    → distinct (xs ++ ys) ≡ true
    → (distinct xs ≡ true) × (distinct ys ≡ true) × ((a : ℕ) → has a xs ≡ true → has a ys ≡ false)
distinct-split [] ys d = (refl, d, λ a h. cc)
distinct-split (x ∷ xs) ys d =
    let (out, rest) = distinct_cons x (xs ++ ys) d in
    let (dx, dy, apart) = distinct-split xs ys rest in
    (ground (arith, has-append x xs ys, dx), dy, λ a h. ground (arith, has-append x xs ys, apart a))

pub distinct-join :
    (xs ys : List ℕ)
    → distinct xs ≡ true
    → distinct ys ≡ true
    → ((a : ℕ) → has a xs ≡ true → has a ys ≡ false)
    → distinct (xs ++ ys) ≡ true
distinct-join [] ys dx dy apart = dy
distinct-join (x ∷ xs) ys dx dy apart =
    let (out, rest) = distinct_cons x xs dx in
    let new : has x ys ≡ false = apart x (has_here x xs) in
    let ih = distinct-join xs ys rest dy (λ a h. apart a (has_later a x xs h)) in
    ground (arith, has-append x xs ys, out, ih, new)

not_none : (a : ℕ) → a < num_ids → (a == num_ids) ≡ false
not_none a h = ground arith

-- What the queue with `pid` between `ys` and `zs` says.
record Around (s : Threads) (chid pid : ℕ) (ys zs : List ℕ) : Type 0 where
  pub front : Linked s.tcb_pool num_ids pid ys
  pub prev : (s.tcb_pool pid).prev ≡ last num_ids ys
  pub next : (s.tcb_pool pid).next ≡ first num_ids zs
  pub back : Linked s.tcb_pool pid num_ids zs
  pub pid_ys : has pid ys ≡ false
  pub pid_zs : has pid zs ≡ false
  pub distinct_ys : distinct ys ≡ true
  pub distinct_zs : distinct zs ≡ true
  pub apart : (a : ℕ) → has a ys ≡ true → has a zs ≡ false

Around_lem :
    (s : Threads) (chid pid : ℕ) (ys zs : List ℕ)
    → IsQueue s chid (ys ++ pid ∷ zs)
    → Around s chid pid ys zs
Around_lem s chid pid ys zs q =
    let (front, back) = Linked-split s.tcb_pool num_ids num_ids ys (pid ∷ zs) q.linked in
    let (dy, dz, apart) = distinct-split ys (pid ∷ zs) q.distinct in
    let (pid_zs, dz') = distinct_cons pid zs dz in
    record {
      front = front;
      prev = back.1;
      next = back.2;
      back = back.3;
      pid_ys = elim (Bool-cases (has pid ys)) [
        | inl there ↦ absurd (let h = apart pid there in let h' = has_here pid zs in cc)
        | inr out ↦ out
      ];
      pid_zs = pid_zs;
      distinct_ys = dy;
      distinct_zs = dz';
      apart = λ a h. ground (arith, apart a h);
    }

-- A thread that is not in the queue.
outside_of :
    (a pid : ℕ) (ys zs : List ℕ)
    → has a (ys ++ pid ∷ zs) ≡ false
    → (a ≢ pid) × (has a ys ≡ false) × (has a zs ≡ false)
outside_of a pid ys zs out =
    let split : (has a ys ≡ false) × (has a (pid ∷ zs) ≡ false) =
      ground (arith, has-append a ys (pid ∷ zs)) in
    let ne : a ≢ pid = ne_of_out a pid (pid ∷ zs) split.1 (has_here pid zs) in
    (ne, split.0, ground (arith, eq_false ne))

-- `tqueue_remove` of a thread that stands anywhere in a queue leaves the others, in order, and
-- unlinks the thread. No thread outside the queue changes, of no thread the state, the channel, the
-- open files or the directory; no other queue changes, and nothing outside the TCBs and this queue.
pub tqueue_remove_lem :
    (s : Threads) (chid pid : ℕ) (ys zs : List ℕ)
    → IsQueue s chid (ys ++ pid ∷ zs)
    → let s' = tqueue_remove s chid pid in
      IsQueue s' chid (ys ++ zs)
      × OnlyLinks s chid s'
      × ((s'.tcb_pool pid).prev ≡ num_ids)
      × ((s'.tcb_pool pid).next ≡ num_ids)
      × ((a : ℕ) → has a (ys ++ pid ∷ zs) ≡ false → s'.tcb_pool a ≡ s.tcb_pool a)
unfolding tqueue_remove
tqueue_remove_lem s chid pid [] [] q =
    rw (q.linked.1, q.linked.2)
      (
        record {
          head = simp link_laws (ground arith);
          tail = simp link_laws (ground arith);
          linked = tt;
          distinct = refl;
        },
        search only_links depth 6,
        simp (link_laws, eq_true pid),
        simp (link_laws, eq_true pid),
        λ a out.
            let (ne, _, _) = outside_of a pid [] [] out in
            set_next-other _ pid num_ids a ne
            ∙ (set_prev-other _ pid num_ids a ne
                ∙ (set_tail-other _ chid num_ids a ∙ set_head-other s chid num_ids a)),
      )
tqueue_remove_lem s chid pid [] (z ∷ zs) q =
    let r = Around_lem s chid pid [] (z ∷ zs) q in
    let a_next : (z == num_ids) ≡ false = not_none z r.back.0 in
    let (z_out, d) = distinct_cons z zs r.distinct_zs in
    let z_ne : z ≢ pid = ne_of_has z pid (z ∷ zs) r.pid_zs (has_here z zs) in
    let s' : Threads =
      tcb_set_next (tcb_set_prev (tqueue_set_head (tcb_set_prev s z num_ids) chid z) pid num_ids)
        pid num_ids in
    rw (r.prev, r.next, a_next)
      (
        record {
          head = simp link_laws (ground arith);
          tail = simp link_laws q.tail;
          linked =
              Linked-start s.tcb_pool s'.tcb_pool pid num_ids num_ids z zs
                (λ a h.
                  let ne : a ≢ pid = ne_of_has a pid (z ∷ zs) r.pid_zs (has_later a z zs h) in
                  let ne' : a ≢ z = ne_of_has a z zs z_out h in
                  (simp (link_laws, eq_false ne, eq_false ne'), simp (link_laws, eq_false ne)))
                (simp link_laws (ground arith)) (simp (link_laws, eq_false z_ne)) r.back;
          distinct = r.distinct_zs;
        },
        search only_links depth 6,
        simp (link_laws, eq_true pid),
        simp (link_laws, eq_true pid),
        λ a out.
            let (ne, _, out_z) = outside_of a pid [] (z ∷ zs) out in
            let nz : a ≢ z = ne_of_out a z (z ∷ zs) out_z (has_here z zs) in
            set_next-other _ pid num_ids a ne
            ∙ (set_prev-other _ pid num_ids a ne
                ∙ (set_head-other _ chid z a ∙ set_prev-other s z num_ids a nz)),
      )
tqueue_remove_lem s chid pid (y ∷ ys) [] q =
    let r = Around_lem s chid pid (y ∷ ys) [] q in
    let w : ℕ = last y ys in
    let small : w < num_ids = last_lt s.tcb_pool num_ids pid y ys r.front in
    let some_prev : (w == num_ids) ≡ false = not_none w small in
    let w_ne : w ≢ pid = ne_of_has w pid (y ∷ ys) r.pid_ys (has-last y ys) in
    let s' : Threads =
      tcb_set_next (tcb_set_prev (tqueue_set_tail (tcb_set_next s w num_ids) chid w) pid num_ids)
        pid num_ids in
    rw (append-nil ys, r.prev, r.next, some_prev)
      (
        record {
          head = simp link_laws q.head;
          tail = simp link_laws (ground arith);
          linked =
              Linked-end s.tcb_pool s'.tcb_pool num_ids pid num_ids y ys r.distinct_ys
                (λ a h n.
                  let ne : a ≢ pid = ne_of_has a pid (y ∷ ys) r.pid_ys h in
                  (simp (link_laws, eq_false ne), simp (link_laws, eq_false ne, eq_false n)))
                (simp (link_laws, eq_false w_ne)) (simp (link_laws, eq_false w_ne, eq_true w))
                r.front;
          distinct = r.distinct_ys;
        },
        search only_links depth 6,
        simp (link_laws, eq_true pid),
        simp (link_laws, eq_true pid),
        λ a out.
            let (ne, out_y, _) = outside_of a pid (y ∷ ys) [] out in
            let nw : a ≢ w = ne_of_out a w (y ∷ ys) out_y (has-last y ys) in
            set_next-other _ pid num_ids a ne
            ∙ (set_prev-other _ pid num_ids a ne
                ∙ (set_tail-other _ chid w a ∙ set_next-other s w num_ids a nw)),
      )
tqueue_remove_lem s chid pid (y ∷ ys) (z ∷ zs) q =
    let r = Around_lem s chid pid (y ∷ ys) (z ∷ zs) q in
    let w : ℕ = last y ys in
    let small : w < num_ids = last_lt s.tcb_pool num_ids pid y ys r.front in
    let some_prev : (w == num_ids) ≡ false = not_none w small in
    let some_next : (z == num_ids) ≡ false = not_none z r.back.0 in
    let w_there : has w (y ∷ ys) ≡ true = has-last y ys in
    let w_ne : w ≢ pid = ne_of_has w pid (y ∷ ys) r.pid_ys w_there in
    let z_ne : z ≢ pid = ne_of_has z pid (z ∷ zs) r.pid_zs (has_here z zs) in
    let w_out : has w (z ∷ zs) ≡ false = r.apart w w_there in
    let z_w : z ≢ w = ne_of_has z w (z ∷ zs) w_out (has_here z zs) in
    let (z_out, d) = distinct_cons z zs r.distinct_zs in
    let differ : (w == z) ≡ false = eq_false (λ e. z_w (sym e)) in
    let s' : Threads =
      tcb_set_next (tcb_set_prev (tcb_set_prev (tcb_set_next s w z) z w) pid num_ids) pid num_ids in
    rw (r.prev, r.next, some_prev, some_next, differ)
      (
        record {
          head = simp link_laws q.head;
          tail = simp (link_laws, last-append) (q.tail ∙ last-append y ys (pid ∷ z ∷ zs));
          linked =
              Linked-append s'.tcb_pool num_ids num_ids (y ∷ ys) (z ∷ zs)
                (Linked-end s.tcb_pool s'.tcb_pool num_ids pid z y ys r.distinct_ys
                  (λ a h n.
                    let ne : a ≢ pid = ne_of_has a pid (y ∷ ys) r.pid_ys h in
                    let ne' : a ≢ z =
                      λ e. ne_of_has z a (z ∷ zs) (r.apart a h) (has_here z zs) (sym e) in
                    (
                      simp (link_laws, eq_false ne, eq_false ne'),
                      simp (link_laws, eq_false ne, eq_false n),
                    ))
                  (simp (link_laws, eq_false w_ne, differ))
                  (simp (link_laws, eq_false w_ne, eq_true w)) r.front)
                (Linked-start s.tcb_pool s'.tcb_pool pid w num_ids z zs
                  (λ a h.
                    let there : has a (z ∷ zs) ≡ true = has_later a z zs h in
                    let ne : a ≢ pid = ne_of_has a pid (z ∷ zs) r.pid_zs there in
                    let ne' : a ≢ z = ne_of_has a z zs z_out h in
                    let ne_w : a ≢ w = ne_of_has a w (z ∷ zs) w_out there in
                    (
                      simp (link_laws, eq_false ne, eq_false ne'),
                      simp (link_laws, eq_false ne, eq_false ne_w),
                    ))
                  (simp (link_laws, eq_false z_ne, eq_true z))
                  (simp (link_laws, eq_false z_ne, eq_false z_w)) r.back);
          distinct = distinct-join (y ∷ ys) (z ∷ zs) r.distinct_ys r.distinct_zs r.apart;
        },
        search only_links depth 6,
        simp (link_laws, eq_true pid),
        simp (link_laws, eq_true pid),
        λ a out.
            let (ne, out_y, out_z) = outside_of a pid (y ∷ ys) (z ∷ zs) out in
            let nw : a ≢ w = ne_of_out a w (y ∷ ys) out_y w_there in
            let nz : a ≢ z = ne_of_out a z (z ∷ zs) out_z (has_here z zs) in
            set_next-other _ pid num_ids a ne
            ∙ (set_prev-other _ pid num_ids a ne
                ∙ (set_prev-other _ z w a nz ∙ set_next-other s w z a nw)),
      )
