-- ===== src/Pmm/Container/Boot.antt =====
-- The quota that container_init hands to process 0.
use os_audio.Base.{
  ℕ, zero, suc, ◌+◌, ◌-◌, ◌≤◌, ◌<◌, ◌≡◌, ◌↔◌, refl, arith, ltb, ◌&&◌, ◌==◌, if◌then◌else◌, Bool,
  true, false, Bool-cases, inl, inr, List, [], ◌∷◌, length, has, distinct,
}
use os_audio.Pmm.Table.{AtStruct, Pmm, at_is_norm, at_is_allocated}
use os_audio.Pmm.Alloc.Scan.{IsFree}
use os_audio.Pmm.Container.{Containers, count_loop, container_init}

is_free : (ℕ → AtStruct) → ℕ → Bool
is_free t p = ltb 0 p && (ltb 1 (t p).perm && ((t p).allocated == 0))

-- The pages below `n`, but page 0, that the allocator may give out, each once.
pub free_pages : (ℕ → AtStruct) → ℕ → List ℕ
unfolding is_free
free_pages t zero = []
free_pages t (suc n) = if is_free t n then n ∷ free_pages t n else free_pages t n

has-free_pages :
    (t : ℕ → AtStruct) (n p : ℕ)
    → (has p (free_pages t n) ≡ true) ↔ ((1 ≤ p) × (p < n) × IsFree t p)
unfolding free_pages is_free
has-free_pages t zero p = (λ e. absurd (cc), λ h. absurd (omega arith))
has-free_pages t (suc n) p = ground (arith, has-free_pages t n p)

-- The test of container_init's loop.
abbrev count_test : Pmm → ℕ → Bool
count_test s i = (at_is_norm s i == 1) && (at_is_allocated s i == 0)

count_test_lem : (s : Pmm) (i : ℕ) → 1 ≤ i → count_test s i ≡ is_free s.table i
unfolding is_free at_is_norm at_is_allocated
count_test_lem s i h = ground arith

length-free_pages :
    (t : ℕ → AtStruct) (n : ℕ)
    → length (free_pages t (suc n)) ≡ (if is_free t n then 1 else 0) + length (free_pages t n)
unfolding free_pages
length-free_pages t n = elim (Bool-cases (is_free t n)) [
  | inl e ↦ rw e (omega arith)
  | inr e ↦ rw e (omega arith)
]

count_loop_lem :
    (s : Pmm) (k i acc : ℕ)
    → 1 ≤ i
    → count_loop s k i acc + length (free_pages s.table i)
      ≡ acc + length (free_pages s.table (i + k))
unfolding count_loop is_free
count_loop_lem s zero i acc h = let e : i + 0 ≡ i = omega arith in rw e refl
count_loop_lem s (suc k) i acc h =
    let e : i + 1 ≡ suc i = omega arith in
    let f : i + suc k ≡ suc i + k = omega arith in
    rw (e, f, count_test_lem s i h)
      (elim (Bool-cases (is_free s.table i)) [
        | inl free ↦ rw free (
            omega (
              arith,
              count_loop_lem s k (suc i) (acc + 1) (omega arith),
              rw free at (length-free_pages s.table i),
            ))
        | inr used ↦ rw used (
            omega (
              arith,
              count_loop_lem s k (suc i) acc (omega arith),
              rw used at (length-free_pages s.table i),
            ))
      ])

quota_count : (s : Pmm) (n : ℕ) → count_loop s (n - 1) 1 0 ≡ length (free_pages s.table n)
unfolding count_loop free_pages is_free
quota_count s zero = refl
quota_count s (suc k) =
    let e : suc k - 1 ≡ k = omega arith in
    let f : 1 + k ≡ suc k = omega arith in
    rw e (omega (arith, rw f at (count_loop_lem s k 1 0 (omega arith))))

free_pages-distinct : (t : ℕ → AtStruct) (n : ℕ) → distinct (free_pages t n) ≡ true
unfolding free_pages
free_pages-distinct t zero = refl
free_pages-distinct t (suc n) =
    let fresh : has n (free_pages t n) ≡ false = ground (arith, has-free_pages t n n) in
    ground (arith, free_pages-distinct t n, fresh)

-- `container_init` gives process 0, with nothing used, a quota of exactly the number of pages that
-- the allocator may give out, page 0 aside: `free_pages` lists them, only them, and each once.
pub container_init_quota :
    (pmm : Pmm) (s : Containers)
    → let root = (container_init pmm s).container 0 in
      (root.quota ≡ length (free_pages pmm.table pmm.num_pages))
      × (root.usage ≡ 0)
      × (distinct (free_pages pmm.table pmm.num_pages) ≡ true)
      × ((p : ℕ)
          → (has p (free_pages pmm.table pmm.num_pages) ≡ true)
            ↔ ((1 ≤ p) × (p < pmm.num_pages) × IsFree pmm.table p))
unfolding container_init
container_init_quota pmm s = (
  quota_count pmm pmm.num_pages,
  refl,
  free_pages-distinct pmm.table pmm.num_pages,
  has-free_pages pmm.table pmm.num_pages,
)
