-- ===== src/Pmm/Alloc/Scan.antt =====
-- The loop of `palloc` in MATOp.c against the first free page of a range.
use os_audio.Base.{
  ℕ, zero, suc, ◌+◌, ◌-◌, ◌≤◌, ◌<◌, ◌≡◌, ◌≢◌, ◌⊎◌, inl, inr, refl, sym, subst, arith, lt→ltb, ◌==◌,
  ==_iff, Bool-cases,
}
use native.Mathlib.Decide.{dec_lt, ℕ_discrete}
use os_audio.Pmm.Table.{AtStruct, Pmm}
use os_audio.Pmm.Alloc.{palloc_probe, palloc_loop}

-- A page that the allocator may give out.
abbrev pub IsFree : (ℕ → AtStruct) → ℕ → Type 0
IsFree t p = (1 < (t p).perm) × ((t p).allocated ≡ 0)

abbrev pub NoneFree : (ℕ → AtStruct) → ℕ → ℕ → Type 0
NoneFree t i j = (p : ℕ) → i ≤ p → p < j → ¬ IsFree t p

-- `r` is the first free page from `i` on below `n`.
pub record IsFirst (t : ℕ → AtStruct) (i n r : ℕ) : Type 0 where
  pub from : i ≤ r
  pub below : r < n
  pub free : IsFree t r
  pub before : NoneFree t i r

NoneFree-step : (t : ℕ → AtStruct) (i j : ℕ) → ¬ IsFree t i → NoneFree t (i + 1) j → NoneFree t i j
NoneFree-step t i j now later p le lt free = elim (Bool-cases (i == p)) [
  | inl e ↦ now (subst (IsFree t) (sym ((==_iff i p).0 e)) free)
  | inr ne ↦ let ne' : i ≢ p = ground arith in later p (omega arith) lt free
]

probe_cases :
    (s : Pmm) (i d : ℕ)
    → (IsFree s.table i × (palloc_probe s i d ≡ i))
      ⊎ ((¬ IsFree s.table i) × (palloc_probe s i d ≡ d))
unfolding palloc_probe
probe_cases s i d = elim (dec_lt 1 (s.table i).perm) [
  | no low ↦ inr (λ free. low free.0, ground arith)
  | yes norm ↦ elim (ℕ_discrete (s.table i).allocated 0) [
    | yes unused ↦ inl ((norm, unused), ground arith)
    | no used ↦ inr (λ free. used free.1, ground arith)
  ]
]

-- Once a page is found the loop ends with it.
palloc_loop_found : (s : Pmm) (n k i d : ℕ) → d ≢ n → palloc_loop s n k i d ≡ d
unfolding palloc_loop
palloc_loop_found s n zero i d ne = refl
palloc_loop_found s n (suc k) i d ne = ground arith

abbrev pub Scanned : (ℕ → AtStruct) → ℕ → ℕ → ℕ → Type 0
Scanned t i n r = ((r ≡ n) × NoneFree t i n) ⊎ IsFirst t i n r

Scanned-later :
    (t : ℕ → AtStruct) (i n r : ℕ) → ¬ IsFree t i → Scanned t (i + 1) n r → Scanned t i n r
Scanned-later t i n r now (inl (e, none_free)) = inl (e, NoneFree-step t i n now none_free)
Scanned-later t i n r now (inr first) = inr (record {
  from = omega (arith, first.from);
  below = first.below;
  free = first.free;
  before = NoneFree-step t i r now first.before;
})

-- The loop gives the first free page, or the end of the range if none is free.
pub palloc_loop_lem :
    (s : Pmm) (n k i : ℕ) → k ≡ n - i → Scanned s.table i n (palloc_loop s n k i n)
unfolding palloc_loop
palloc_loop_lem s n zero i e = inl (refl, λ p le lt free. absurd (omega arith))
palloc_loop_lem s n (suc k) i e =
    let lt : i < n = omega arith in
    rw (lt→ltb i n lt, (==_iff n n).1 refl)
      (elim (probe_cases s i n) [
        | inl (free, found) ↦
            rw (found, palloc_loop_found s n k (i + 1) i (omega arith))
              (inr (record {
                from = omega arith;
                below = lt;
                free = free;
                before = λ p le lt' f. absurd (omega arith);
              }))
        | inr (now, missed) ↦
            rw missed
              (Scanned-later s.table i n _ now (palloc_loop_lem s n k (i + 1) (omega arith)))
      ])
