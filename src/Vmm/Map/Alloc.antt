-- ===== src/Vmm/Map/Alloc.antt =====
-- alloc_page of MPTNew.c: a page allocated and mapped in one go.
use os_audio.Base.{ℕ, ◌≤◌, ◌≡◌, ◌≢◌, ◌⊎◌, ◌^◌, inl, inr, refl, arith, some, ◌==◌, false, ◌+◌, ◌*◌}
use native.Mathlib.Decide.{ℕ_discrete}
use os_audio.Sync.{num_cpus}
use os_audio.Pmm.Alloc.Scan.{IsFree}
use os_audio.Pmm.Alloc.Palloc.{IsReady}
use os_audio.Pmm.Container.{Containers}
use os_audio.Pmm.Container.Quota.{IsSound, AllocOutcome}
use os_audio.Vmm.Table.{Paging, page_size, pde_of, get_ptbl_entry_by_va, get_pcpu_idx}
use os_audio.Vmm.Table.Entry.{AreWords}
use os_audio.Vmm.Map.{magic_number, map_page, alloc_page}
use os_audio.Vmm.Map.Page.{pte, map_page_present}
use os_audio.Vmm.Map.Fresh.{
  NoPage, refused, Fresh, Frame, alloc_frame_lem, given_page, map_page_absent,
}

-- Why alloc_page fails: there is no page to map, or none for the page table that is missing.
abbrev pub Unmappable : Paging → (p va : ℕ) → Type 0
Unmappable s p va =
    NoPage s.containers p
    ⊎ ((s.pdir_pool p (pde_of va) ≡ 0)
        × (page : ℕ) × (c : Containers) × AllocOutcome s.containers p page c
        × (page ≢ 0)
        × NoPage c p)

-- The directory entry of the address: as before, or the page `result` as its new table, with the
-- permissions PTE_P | PTE_W | PTE_U.
abbrev pub Entered : Paging → (p va result : ℕ) → Paging → Type 0
Entered s p va result s' =
    (s.pdir_pool p (pde_of va) ≢ 0 → (result ≡ 0) × (s'.pdir_pool ≡ s.pdir_pool))
    × (s.pdir_pool p (pde_of va) ≡ 0 → s'.pdir_pool p (pde_of va) ≡ result * page_size + 7)

-- What alloc_page has done when it returns `result` in state `s'`.
record PageAllocated (s : Paging) (p va perm result : ℕ) (s' : Paging) : Type 0 where
  pub sound : IsSound s'.containers.container
  pub ready : IsReady s'.containers.pmm
  pub mapped :
      ((result ≡ magic_number)
        × Unmappable s p va
        × (s'.pdir_pool ≡ s.pdir_pool)
        × (s'.memory ≡ s.memory))
      ⊎ ((result ≢ magic_number)
          × ((page : ℕ) × IsFree s.containers.pmm.table page
              × (get_ptbl_entry_by_va s' p va ≡ pte page perm)
              × Entered s p va result s'))

-- The lock on the page structures has no part in it.
PageAllocated-release :
    (s s' : Paging) (p va perm result h l : ℕ)
    → PageAllocated s p va perm result s'
    → PageAllocated s p va perm result (record s' { pt_lk = record { lock_holder = h; lock = l } })
unfolding get_ptbl_entry_by_va
PageAllocated-release s s' p va perm result h l a = record {
  sound = a.sound;
  ready = a.ready;
  mapped = a.mapped;
}

kept_pages :
    (s : Paging) (p r : ℕ) (c : Containers)
    → AllocOutcome s.containers p r c
    → r ≢ 0
    → c.pmm.num_pages ≡ s.containers.pmm.num_pages
kept_pages s p r c (inl (_, z, _)) ne = absurd (ne z)
kept_pages s p r c (inr (_, _, inl (_, done))) ne = done.pages
kept_pages s p r c (inr (_, _, inr (z, _))) ne = absurd (ne z)

-- map_page behind the allocation of page `r`.
map_given :
    (s : Paging) (p va perm r : ℕ) (c : Containers)
    → AreWords s
    → s.containers.pmm.num_pages ≤ 2 ^ 20
    → Frame s p r c
    → r ≢ 0
    → (result : ℕ) × (s' : Paging) × (map_page (record s { containers = c }) p va r perm
        ≡ some (result, s'))
      × PageAllocated s p va perm result s'
map_given s p va perm r c w small frame ne =
    let s1 : Paging = record s { containers = c } in
    let (free, _) = given_page s p r c frame.outcome ne in
    elim (ℕ_discrete (s.pdir_pool p (pde_of va)) 0) [
      | yes absent ↦
          let pages : c.pmm.num_pages ≤ 2 ^ 20 =
            omega (arith, kept_pages s p r c frame.outcome ne) in
          let (result, s', e, sound, ready, out) =
            map_page_absent s1 p va r perm w absent frame.sound frame.ready pages in
          (
            result,
            s',
            e,
            record { sound = sound; ready = ready; mapped = outcome absent result s' out },
          )
      | no present ↦
          let (s', e, maps, _, kept, accounts) = map_page_present s1 p va r perm w present in
          (
            0,
            s',
            e,
            record {
              sound = rw accounts frame.sound;
              ready = rw accounts frame.ready;
              mapped = inr (
                omega arith,
                (r, free, maps, (λ here. (refl, kept), λ absent. absurd (present absent))),
              );
            },
          )
    ]
  where
    outcome :
        s.pdir_pool p (pde_of va) ≡ 0
        → (result : ℕ) (s' : Paging)
        → ((result ≡ magic_number)
            × NoPage c p
            × (s'.pdir_pool ≡ s.pdir_pool)
            × (s'.memory ≡ s.memory))
          ⊎ ((result ≢ 0)
              × (result ≢ magic_number)
              × IsFree c.pmm.table result
              × Fresh (record s { containers = c }) p va result r perm s')
        → ((result ≡ magic_number)
            × Unmappable s p va
            × (s'.pdir_pool ≡ s.pdir_pool)
            × (s'.memory ≡ s.memory))
          ⊎ ((result ≢ magic_number)
              × ((page : ℕ) × IsFree s.containers.pmm.table page
                  × (get_ptbl_entry_by_va s' p va ≡ pte page perm)
                  × Entered s p va result s'))
    outcome absent result s' (inl (magic, no_page, dirs, mem)) =
        inl (magic, inr (absent, r, c, frame.outcome, ne, no_page), dirs, mem)
    outcome absent result s' (inr (_, nm, _, fresh)) = inr (
      nm,
      (
        r,
        (given_page s p r c frame.outcome ne).0,
        fresh.maps,
        (λ present. absurd (present absent), λ z. fresh.entry),
      ),
    )

-- `alloc_page` on sound accounts, at most 2^20 pages, and with the locks on pages and page
-- structures free, returns, with the locks free again and the accounts sound. Either it returns
-- MagicNumber, directories and memory are as before, and there was no page to map, or the page
-- table was missing and there was no second page for it. Or the address translates to a page that
-- was free, with the permissions asked for, through the table that was there, or through the new
-- one that it returns and that the directory names as present, writable and a user's.
pub alloc_page_lem :
    (s : Paging) (p va perm : ℕ)
    → s.pt_lk.lock ≡ 0
    → AreWords s
    → IsSound s.containers.container
    → IsReady s.containers.pmm
    → s.containers.pmm.num_pages ≤ 2 ^ 20
    → (result : ℕ) × (s' : Paging) × (alloc_page s p va perm ≡ some (result, s'))
      × (s'.pt_lk.lock ≡ 0)
      × IsSound s'.containers.container
      × IsReady s'.containers.pmm
      × (((result ≡ magic_number)
            × Unmappable s p va
            × (s'.pdir_pool ≡ s.pdir_pool)
            × (s'.memory ≡ s.memory))
          ⊎ ((result ≢ magic_number)
              × ((page : ℕ) × IsFree s.containers.pmm.table page
                  × (get_ptbl_entry_by_va s' p va ≡ pte page perm)
                  × Entered s p va result s')))
unfolding alloc_page
alloc_page_lem s p va perm unlocked w sound ready small =
    let s1 : Paging = record s { pt_lk = record { lock_holder = get_pcpu_idx s; lock = 1 } } in
    let (r, c, e, frame) = alloc_frame_lem s1 p sound ready in
    elim (ℕ_discrete r 0) [
      | yes failed ↦ (
        magic_number,
        record s1 { containers = c; pt_lk = record { lock_holder = num_cpus + 1; lock = 0 } },
        rw (unlocked, e, failed) refl,
        refl,
        frame.sound,
        frame.ready,
        inl (refl, inl (refused s.containers p r c frame.outcome failed), refl, refl),
      )
      | no ne ↦
          let (result, s2, e', out) = map_given s1 p va perm r c w small frame ne in
          let nonzero : (r == 0) ≡ false = ground arith in
          let done = PageAllocated-release s1 s2 p va perm result (num_cpus + 1) 0 out in
          (
            result,
            record s2 { pt_lk = record { lock_holder = num_cpus + 1; lock = 0 } },
            rw (unlocked, e, nonzero, e') refl,
            refl,
            done.sound,
            done.ready,
            done.mapped,
          )
    ]
