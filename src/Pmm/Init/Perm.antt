-- ===== src/Pmm/Init/Perm.antt =====
-- The allocation table that pmem_init leaves, page by page.
use os_audio.Base.{
  ℕ, zero, suc, sym, subst, ◌*◌, ◌^◌, ◌+◌, ◌/◌, ◌%◌, ◌≤◌, ◌<◌, ◌≡◌, ◌∙◌, ◌⊎◌, inl, inr, ap, refl,
  arith, Bool, false, ◌&&◌, ◌||◌, some, List, u32_mod, ltb, leb, ◌==◌, if◌then◌else◌, update_self,
  update_ne, All, length, Bool-cases,
}
use native.Mathlib.Decide.{ℕ_discrete}
use os_audio.Sync.{Spinlock}
use os_audio.Dev.Mboot.{MbootMmap, MemoryMap, pmmap_init, get_size, get_mms, get_mml, is_usable}
use os_audio.Dev.Mboot.Total.{IsKnown, pmmap_init-some}
use os_audio.Pmm.Table.{AtStruct, Pmm, mem_spinlock_init, set_nps, at_set_perm}
use os_audio.Pmm.Init.{page_size, nps_loop, page_in, range_loop, page_perm, perm_loop, pmem_init}

-- Whether page `p` lies in range `j`, whose end is a 32-bit address.
abbrev pub holds_page : MemoryMap → (p j : ℕ) → Bool
holds_page m p j =
    leb (get_mms m j) (p * 4096) && leb ((p + 1) * 4096) ((get_mms m j + get_mml m j) % 2 ^ 32)

-- Below the highest address the page's own addresses do not wrap around.
page_in-holds_page : (m : MemoryMap) (p j : ℕ) → p < 0xf0000 → page_in m p j ≡ holds_page m p j
unfolding page_in
page_in-holds_page m p j lt =
    let low : p * 4096 % u32_mod ≡ p * 4096 = omega arith in
    let high : (p + 1) * 4096 % u32_mod ≡ (p + 1) * 4096 = omega arith in
    let end : (get_mml m j + get_mms m j) % u32_mod ≡ (get_mms m j + get_mml m j) % u32_mod =
      omega arith in
    rw (low, high, end) refl

-- Whether the first of the `k` ranges from `j` on that holds page `i` is usable RAM.
pub in_usable : MemoryMap → (i k j : ℕ) → Bool
in_usable m i zero j = false
in_usable m i (suc k) j = if holds_page m i j then is_usable m j == 1 else in_usable m i k (j + 1)

abbrev verdict : ℕ × ℕ → Bool
verdict (flag, isnorm) = (flag == 1) && (isnorm == 1)

range_loop_done : (m : MemoryMap) (i k j isnorm : ℕ) → range_loop m i k j 1 isnorm ≡ (1, isnorm)
unfolding range_loop
range_loop_done m i zero j isnorm = refl
range_loop_done m i (suc k) j isnorm = refl

range_loop_lem :
    (m : MemoryMap) (i k j isnorm : ℕ)
    → i < 0xf0000
    → verdict (range_loop m i k j 0 isnorm) ≡ in_usable m i k j
unfolding range_loop in_usable
range_loop_lem m i zero j isnorm lt = refl
range_loop_lem m i (suc k) j isnorm lt = elim (Bool-cases (page_in m i j)) [
  | inl hit ↦
      rw
        (
          hit,
          sym (page_in-holds_page m i j lt) ∙ hit,
          range_loop_done m i k (j + 1) (is_usable m j),
        )
        refl
  | inr miss ↦
      rw (miss, sym (page_in-holds_page m i j lt) ∙ miss)
        (range_loop_lem m i k (j + 1) (is_usable m j) lt)
]

-- The permission of a page: 1 outside [VM_USERLO, VM_USERHI), and inside it 2 in usable RAM.
pub spec_perm : MemoryMap → ℕ → ℕ
unfolding in_usable
spec_perm m p =
    if ltb p 0x40000 || leb 0xf0000 p then 1 else if in_usable m p (get_size m) 0 then 2 else 0

page_perm-spec : (m : MemoryMap) (p : ℕ) → page_perm m p ≡ spec_perm m p
unfolding page_perm spec_perm
page_perm-spec m p = elim (Bool-cases (ltb p 0x40000 || leb 0xf0000 p)) [
  | inl kernel ↦ rw kernel refl
  | inr user ↦ rw (user, ← range_loop_lem m p (get_size m) 0 0 (ground arith)) refl
]

-- The second loop, from `i` on.
perm_loop_lem :
    (m : MemoryMap) (k i : ℕ) (s : Pmm)
    → ((p : ℕ)
        → i ≤ p
        → p < i + k
        → (perm_loop m k i s).table p ≡ record { perm = page_perm m p; allocated = 0 })
      × ((p : ℕ) → (p < i) ⊎ (i + k ≤ p) → (perm_loop m k i s).table p ≡ s.table p)
      × ((perm_loop m k i s).num_pages ≡ s.num_pages)
      × ((perm_loop m k i s).mem_lk ≡ s.mem_lk)
unfolding perm_loop at_set_perm
perm_loop_lem m zero i s = (λ p from below. absurd (omega arith), λ p out. refl, refl, refl)
perm_loop_lem m (suc k) i s =
    let x : AtStruct = record { perm = page_perm m i; allocated = 0 } in
    let s1 = at_set_perm s i (page_perm m i) in
    let (inside, outside, pages, lk) = perm_loop_lem m k (i + 1) s1 in
    (
      λ p from below. elim (ℕ_discrete p i) [
        | yes e ↦ outside p (inl (omega arith)) ∙ rw e (update_self s.table i x)
        | no ne ↦ inside p (omega arith) (omega arith)
      ],
      λ p out. outside p (omega arith) ∙ update_ne s.table x (omega arith),
      pages,
      lk,
    )

-- What the first loop computes lies above every page of every range of the memory map.
nps_loop_above :
    (m : MemoryMap) (k i nps : ℕ)
    → (nps ≤ nps_loop m k i nps)
      × ((j : ℕ)
          → i ≤ j
          → j < i + k
          → (get_mms m j + get_mml m j) % u32_mod / page_size < nps_loop m k i nps)
unfolding nps_loop
nps_loop_above m zero i nps = (omega arith, λ j from below. absurd (omega arith))
nps_loop_above m (suc k) i nps =
    let top : ℕ → ℕ = λ j. (get_mms m j + get_mml m j) % u32_mod / page_size in
    let nps' : ℕ = if ltb nps (top i + 1) then top i + 1 else nps in
    let grown : (nps ≤ nps') × (top i < nps') = ground arith in
    let (ge, above) = nps_loop_above m k (i + 1) nps' in
    (
      omega (arith, grown),
      λ j from below. elim (ℕ_discrete j i) [
        | yes e ↦ rw e (omega (arith, grown.1, ge))
        | no ne ↦ above j (omega arith) (omega arith)
      ],
    )

-- And it is the least number that does.
nps_loop_least :
    (m : MemoryMap) (k i nps n : ℕ)
    → nps ≤ n
    → ((j : ℕ) → i ≤ j → j < i + k → (get_mms m j + get_mml m j) % u32_mod / page_size < n)
    → nps_loop m k i nps ≤ n
unfolding nps_loop
nps_loop_least m zero i nps n le above = le
nps_loop_least m (suc k) i nps n le above =
    let here = above i (omega arith) (omega arith) in
    nps_loop_least m k (i + 1) _ n (ground (arith, here, le))
      (λ j from below. above j (omega arith) (omega arith))

-- What the second loop makes of state `s` when `nps` pages were counted.
abbrev Filled : MemoryMap → Pmm → Pmm → Type 0
Filled m s s' =
    ((p : ℕ) → p < s'.num_pages → s'.table p ≡ record { perm = spec_perm m p; allocated = 0 })
    × ((p : ℕ) → s'.num_pages ≤ p → s'.table p ≡ s.table p)
    × ((j : ℕ) → j < get_size m → (get_mms m j + get_mml m j) % u32_mod / page_size < s'.num_pages)
    × ((n : ℕ)
        → ((j : ℕ) → j < get_size m → (get_mms m j + get_mml m j) % u32_mod / page_size < n)
        → s'.num_pages ≤ n)
    × (s'.mem_lk.lock ≡ 0)

perm_loop-Filled :
    (m : MemoryMap) (s : Pmm) (nps : ℕ)
    → nps ≡ nps_loop m (get_size m) 0 0
    → s.num_pages ≡ nps
    → s.mem_lk.lock ≡ 0
    → Filled m s (perm_loop m nps 0 s)
perm_loop-Filled m s nps counted set unlocked =
    let (inside, outside, pages, lk) = perm_loop_lem m nps 0 s in
    (
      λ p below.
          inside p (omega arith) (omega (arith, pages, below))
          ∙ ap (λ (k : ℕ). record { perm = k; allocated = 0 }) (page_perm-spec m p),
      λ p above. outside p (inr (omega (arith, pages, above))),
      λ j below.
          omega (arith, pages, (nps_loop_above m (get_size m) 0 0).1 j (omega arith) (omega arith)),
      λ n bound.
          subst (λ (x : ℕ). x ≤ n) (sym (pages ∙ (set ∙ counted)))
            (nps_loop_least m (get_size m) 0 0 n (omega arith)
              (λ j from below. bound j (omega (arith, below)))),
      ap (λ (l : Spinlock). l.lock) lk ∙ unlocked,
    )

-- `pmem_init`, on at most as many multiboot entries as there are free slots, all of the four known
-- types, returns. It has set the number of pages to the least number above every page that a range of
-- the memory map ends in, and every entry of the allocation table below that number: unallocated, with permission 1 outside
-- [VM_USERLO, VM_USERHI), with 2 inside it if the first range that holds the whole page is usable
-- RAM, and with 0 otherwise. No other entry changes, and the lock is free.
pub pmem_init_lem :
    (mmap : List MbootMmap) (m : MemoryMap) (s : Pmm)
    → m.pmmap_slots_next_free + length mmap ≤ 128
    → All (λ (p : MbootMmap). IsKnown p.type) mmap
    → (m' : MemoryMap) × (s' : Pmm) × (pmem_init mmap m s ≡ some (m', s'))
      × (pmmap_init mmap m ≡ some m')
      × ((p : ℕ) → p < s'.num_pages → s'.table p ≡ record { perm = spec_perm m' p; allocated = 0 })
      × ((p : ℕ) → s'.num_pages ≤ p → s'.table p ≡ s.table p)
      × ((j : ℕ) → j < get_size m' → (get_mms m' j + get_mml m' j) % 2 ^ 32 / 4096 < s'.num_pages)
      × ((n : ℕ)
          → ((j : ℕ) → j < get_size m' → (get_mms m' j + get_mml m' j) % 2 ^ 32 / 4096 < n)
          → s'.num_pages ≤ n)
      × (s'.mem_lk.lock ≡ 0)
unfolding pmem_init
pmem_init_lem mmap m s room known =
    let (n, e) = pmmap_init-some mmap m room known in
    let nps : ℕ = nps_loop n (get_size n) 0 0 in
    let s0 : Pmm = set_nps (mem_spinlock_init s) nps in
    let (inside, outside, above, least, unlocked) = perm_loop-Filled n s0 nps refl refl refl in
    (n, perm_loop n nps 0 s0, rw e refl, e, inside, outside, above, least, unlocked)
