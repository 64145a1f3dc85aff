-- ===== src/Pmm/Alloc/Palloc.antt =====
-- palloc and pfree of MATOp.c: which page is given out, and what changes.
use os_audio.Base.{
  ℕ, ◌+◌, ◌-◌, ◌%◌, ◌≤◌, ◌<◌, ◌≡◌, ◌≢◌, ◌⊎◌, inl, inr, refl, sym, ◌∙◌, subst, arith, ◌==◌, ==_iff,
  eq_of_some, ap, if◌then◌else◌, Bool-cases, false, some, update, u32_mod,
}
use native.Mathlib.Nat.{mod-eq_of_lt}
use os_audio.Pmm.Table.{AtStruct, Pmm}
use os_audio.Pmm.Alloc.{palloc_loop, palloc, pfree}
use os_audio.Pmm.Alloc.Scan.{IsFree, NoneFree, IsFirst, Scanned, palloc_loop_lem}

-- The lock is free, and the table is not empty and fits an `unsigned int`.
pub record IsReady (s : Pmm) : Type 0 where
  pub unlocked : s.mem_lk.lock ≡ 0
  pub pages : 0 < s.num_pages
  pub small : s.num_pages < u32_mod
  pub last_in : s.last_palloc_index + 1 < u32_mod

-- Where palloc starts to look.
abbrev pub start : Pmm → ℕ
start s = s.last_palloc_index + 1

-- What a call of palloc that found page `r` has done to the state.
pub record Allocated (s : Pmm) (r : ℕ) (s' : Pmm) : Type 0 where
  pub first : IsFirst s.table (start s) s.num_pages r
  pub table : s'.table ≡ update s.table r (record (s.table r) { allocated = 1 })
  pub last : s'.last_palloc_index ≡ r
  pub ready : IsReady s'
  pub pages : s'.num_pages ≡ s.num_pages

-- And one that found none.
pub record Exhausted (s s' : Pmm) : Type 0 where
  pub none_free : NoneFree s.table (start s) s.num_pages
  pub table : s'.table ≡ s.table
  pub last : s'.last_palloc_index ≡ 0
  pub ready : IsReady s'
  pub pages : s'.num_pages ≡ s.num_pages

abbrev pub Outcome : Pmm → ℕ → Pmm → Type 0
Outcome s r s' = ((r ≢ 0) × Allocated s r s') ⊎ ((r ≡ 0) × Exhausted s s')

-- The state inside the critical section.
abbrev locked : Pmm → Pmm
locked s = record s { mem_lk = record { lock_holder = s.cpu_idx; lock = 1 } }

abbrev found : Pmm → ℕ
found s = palloc_loop (locked s) s.num_pages (s.num_pages - start s) (start s) s.num_pages

abbrev finish : Pmm → ℕ → ℕ × Pmm
finish s r =
    let s' = record s { mem_lk = record { lock_holder = 9; lock = 0 } } in
    if r == s.num_pages then (0, record s' { last_palloc_index = 0 }) else (
      r,
      record s' {
        table = update s.table r (record (s.table r) { allocated = 1 });
        last_palloc_index = r % s.num_pages;
      },
    )

palloc-finish : (s : Pmm) → IsReady s → palloc s ≡ some (finish s (found s))
unfolding palloc
palloc-finish s v =
    let e : (s.last_palloc_index + 1) % u32_mod ≡ start s = omega arith in
    rw v.unlocked (rw e (ground arith))

finish-Outcome :
    (s : Pmm)
    → IsReady s
    → (r : ℕ) → Scanned s.table (start s) s.num_pages r
    → Outcome s (finish s r).0 (finish s r).1
finish-Outcome s v r (inl (e, none_free)) = rw ((==_iff r s.num_pages).1 e) (
    inr (
      refl,
      record {
        none_free = none_free;
        table = refl;
        last = refl;
        pages = refl;
        ready = record { unlocked = refl; pages = v.pages; small = v.small; last_in = omega arith };
      },
    ))
finish-Outcome s v r (inr first) =
    let ne : (r == s.num_pages) ≡ false = ground (arith, first.below) in
    let e : r % s.num_pages ≡ r = mod-eq_of_lt first.below in
    rw (ne, e)
      (inl (
        omega (arith, first.from),
        record {
          first = first;
          table = refl;
          last = refl;
          pages = refl;
          ready = record {
            unlocked = refl;
            pages = v.pages;
            small = v.small;
            last_in = omega (arith, first.below);
          };
        },
      ))

-- On a table with at least one page and with the memory lock free, `palloc` returns, and drops the
-- lock. Either it returns the first free page behind the page it gave out last, which is then
-- marked allocated and remembered, no other entry of the table having changed; or it returns 0,
-- no page from there to the end of the table being free, the table is as before, and the next
-- search starts from page 1.
pub palloc_lem :
    (s : Pmm) → IsReady s → (r : ℕ) × (s' : Pmm) × (palloc s ≡ some (r, s')) × Outcome s r s'
palloc_lem s v = (
  (finish s (found s)).0,
  (finish s (found s)).1,
  palloc-finish s v,
  finish-Outcome s v (found s)
      (palloc_loop_lem (locked s) s.num_pages (s.num_pages - start s) (start s) refl),
)

pub Outcome-IsReady : {s : Pmm} {r : ℕ} {s' : Pmm} → Outcome s r s' → IsReady s'
Outcome-IsReady (inl (_, done)) = done.ready
Outcome-IsReady (inr (_, out)) = out.ready

-- The outcome of a call, from the equation that it returned.
pub palloc-Outcome :
    {s : Pmm} {r : ℕ} {s' : Pmm} → IsReady s → palloc s ≡ some (r, s') → Outcome s r s'
palloc-Outcome {s} v h =
    let (r, s', e, out) = palloc_lem s v in
    subst (λ (x : ℕ × Pmm). Outcome s x.0 x.1) (eq_of_some (sym e ∙ h)) out

-- A search that meets a free page does not fail.
not-Exhausted :
    {s s' : Pmm} (p : ℕ) → start s ≤ p → p < s.num_pages → IsFree s.table p → ¬ Exhausted s s'
not-Exhausted p from below free out = out.none_free p from below free

retry :
    {s' : Pmm} (p : ℕ)
    → s'.last_palloc_index ≡ 0
    → IsReady s'
    → 1 ≤ p
    → p < s'.num_pages
    → IsFree s'.table p
    → (r : ℕ) × (s'' : Pmm) × (palloc s' ≡ some (r, s'')) × (r ≢ 0) × IsFree s'.table r
retry {s'} p last v from below free =
    let (r, s'', e, out) = palloc_lem s' v in
    let (ne, page) = given r s'' out in (r, s'', e, ne, page)
  where
    given : (r : ℕ) (s'' : Pmm) → Outcome s' r s'' → (r ≢ 0) × IsFree s'.table r
    given r s'' (inl (ne, done)) = (ne, done.first.free)
    given r s'' (inr (e, out)) = absurd (not-Exhausted p (omega arith) below free out)

-- `palloc` looks only behind the page that it gave out last, so it may return 0 while an earlier
-- page is free. The next call then finds one: if a call returned 0 and some page but page 0 is
-- free, the following call returns a page, and that page was free.
pub palloc_retry :
    (s : Pmm) {s' : Pmm} (p : ℕ)
    → IsReady s
    → palloc s ≡ some (0, s')
    → 1 ≤ p
    → p < s.num_pages
    → IsFree s.table p
    → (r : ℕ) × (s'' : Pmm) × (palloc s' ≡ some (r, s'')) × (r ≢ 0) × IsFree s.table r
palloc_retry s {s'} p v h from below free = after (palloc-Outcome v h)
  where
    after :
        Outcome s 0 s'
        → (r : ℕ) × (s'' : Pmm) × (palloc s' ≡ some (r, s'')) × (r ≢ 0) × IsFree s.table r
    after (inl (ne, done)) = absurd (ne refl)
    after (inr (e, out)) =
        subst (λ t. (r : ℕ) × (s'' : Pmm) × (palloc s' ≡ some (r, s'')) × (r ≢ 0) × IsFree t r)
          out.table
          (retry p out.last out.ready from (rw out.pages below)
            (subst (λ t. IsFree t p) (sym out.table) free))

pub pfree_lem :
    (s : Pmm) (p : ℕ)
    → IsReady s
    → (s' : Pmm) × (pfree s p ≡ some s')
      × (s'.table ≡ update s.table p (record (s.table p) { allocated = 0 }))
      × IsReady s'
      × (s'.num_pages ≡ s.num_pages)
      × (s'.last_palloc_index ≡ s.last_palloc_index)
unfolding pfree
pfree_lem s p v = (
  record s {
    mem_lk = record { lock_holder = 9; lock = 0 };
    table = update s.table p (record (s.table p) { allocated = 0 });
  },
  rw v.unlocked refl,
  refl,
  record { unlocked = refl; pages = v.pages; small = v.small; last_in = v.last_in },
  refl,
  refl,
)

abbrev set_free : (ℕ → AtStruct) → ℕ → ℕ → AtStruct
set_free t p = update t p (record (t p) { allocated = 0 })

abbrev set_used : (ℕ → AtStruct) → ℕ → ℕ → AtStruct
set_used t p = update t p (record (t p) { allocated = 1 })

set_free-set_used :
    (t : ℕ → AtStruct) (r p : ℕ) → (t r).allocated ≡ 0 → set_free (set_used t r) r p ≡ t p
set_free-set_used t r p unused = elim (Bool-cases (p == r)) [
  | inl e ↦
      rw ((==_iff p r).0 e, (==_iff r r).1 refl)
        (λ i. record { perm = (t r).perm; allocated = sym unused i })
  | inr other ↦ rw other
]

-- With the memory lock free, freeing the page that `palloc` gave out returns, restores the whole
-- allocation table and leaves the lock free.
pub pfree-palloc :
    (s : Pmm) (r : ℕ) {s' : Pmm}
    → IsReady s
    → palloc s ≡ some (r, s')
    → r ≢ 0
    → (s'' : Pmm) × (pfree s' r ≡ some s'') × ((p : ℕ) → s''.table p ≡ s.table p) × IsReady s''
pfree-palloc s r {s'} v h ne = after (palloc-Outcome v h)
  where
    after :
        Outcome s r s'
        → (s'' : Pmm) × (pfree s' r ≡ some s'') × ((p : ℕ) → s''.table p ≡ s.table p) × IsReady s''
    after (inr (e, out)) = absurd (ne e)
    after (inl (_, done)) =
        let (s'', e, t, ready, _, _) = pfree_lem s' r done.ready in
        (
          s'',
          e,
          λ p.
              ap (λ t. t p) t
              ∙ ap (λ t. set_free t r p) done.table
              ∙ set_free-set_used s.table r p done.first.free.1,
          ready,
        )
