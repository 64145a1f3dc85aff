-- ===== src/Vmm/Map/Fresh.antt =====
-- map_page of MPTKern.c where the page table has to be allocated first (alloc_ptbl of MPTComm.c).
use os_audio.Base.{
  ℕ, ◌+◌, ◌*◌, ◌/◌, ◌%◌, ◌^◌, ◌≤◌, ◌<◌, ◌≡◌, ◌≢◌, ◌⊎◌, inl, inr, refl, sym, ◌∙◌, ap, subst, arith,
  u32_mod, false, ◌==◌, update, some,
}
use native.Mathlib.Decide.{ℕ_discrete}
use os_audio.Pmm.Alloc.Scan.{IsFree, NoneFree}
use os_audio.Pmm.Alloc.Palloc.{IsReady, start}
use os_audio.Pmm.Container.{Containers}
use os_audio.Pmm.Container.Quota.{IsSound, AllocOutcome, container_alloc_lem}
use os_audio.Vmm.Table.{Paging, pde_of, pte_of, pte_addr, write_pde, get_ptbl_entry_by_va}
use os_audio.Vmm.Table.Entry.{
  AreWords, base, pte_addr_lem, get-write_self, get-write_ne, get_eq, get_present, write_pde_self,
  write_pde_ne, write_pde-AreWords,
}
use os_audio.Vmm.Map.{magic_number, alloc_frame, clear_ptbl, map_page}
use os_audio.Vmm.Map.Page.{pte}
use os_audio.Vmm.Map.Clear.{Cleared, clear_ptbl-Cleared}

-- What the allocation of a page for process `p` says: it failed, or `r` was a free page that is now
-- taken. In both cases the accounts stay sound.
pub record Frame (s : Paging) (p r : ℕ) (c : Containers) : Type 0 where
  pub outcome : AllocOutcome s.containers p r c
  pub sound : IsSound c.container
  pub ready : IsReady c.pmm

pub alloc_frame_lem :
    (s : Paging) (p : ℕ)
    → IsSound s.containers.container
    → IsReady s.containers.pmm
    → (r : ℕ) × (c : Containers) × (alloc_frame s p ≡ some (r, record s { containers = c }))
      × Frame s p r c
unfolding alloc_frame
alloc_frame_lem s p sound ready =
    let (r, c, e, out, sound', ready') = container_alloc_lem s.containers p sound ready in
    (r, c, rw e refl, record { outcome = out; sound = sound'; ready = ready' })

-- Why a process is given no page: it is at its quota, or no page behind the last one given out is
-- free.
abbrev pub NoPage : Containers → ℕ → Type 0
NoPage s p =
    ((s.container p).usage ≡ (s.container p).quota)
    ⊎ NoneFree s.pmm.table (start s.pmm) s.pmm.num_pages

pub refused :
    (s : Containers) (p r : ℕ) (c : Containers) → AllocOutcome s p r c → r ≡ 0 → NoPage s p
refused s p r c (inl (full, _, _)) z = inl full
refused s p r c (inr (_, _, inl (ne, _))) z = absurd (ne z)
refused s p r c (inr (_, _, inr (_, out))) z = inr out.none_free

-- A page that was given out was free, and lies in the table.
pub given_page :
    (s : Paging) (p r : ℕ) (c : Containers)
    → AllocOutcome s.containers p r c
    → r ≢ 0
    → IsFree s.containers.pmm.table r × (r < s.containers.pmm.num_pages)
given_page s p r c (inl (_, z, _)) ne = absurd (ne z)
given_page s p r c (inr (_, _, inl (_, done))) ne = (done.first.free, done.first.below)
given_page s p r c (inr (_, _, inr (z, _))) ne = absurd (ne z)

abbrev table_entry : ℕ → ℕ
table_entry r = (r * 4096 + 7) % u32_mod

-- The page structures after a new table in page `r` was entered for `va` and `va` mapped in it.
pub record Fresh (s : Paging) (p va r page perm : ℕ) (s' : Paging) : Type 0 where
  pub entry : s'.pdir_pool p (pde_of va) ≡ r * 4096 + 7
  pub maps : get_ptbl_entry_by_va s' p va ≡ pte page perm
  pub empty :
      (va' : ℕ)
      → pde_of va' ≡ pde_of va
      → pte_of va' ≢ pte_of va
      → get_ptbl_entry_by_va s' p va' ≡ 0
  pub others :
      (p' va' : ℕ)
      → (p' ≢ p) ⊎ (pde_of va' ≢ pde_of va)
      → base s p' (pde_of va') ≢ r * 4096
      → get_ptbl_entry_by_va s' p' va' ≡ get_ptbl_entry_by_va s p' va'
  pub words : AreWords s'

-- The accounts have no part in it.
Fresh-accounts :
    (s : Paging) (p va r page perm : ℕ) (c : Containers) (s' : Paging)
    → Fresh (record s { containers = c }) p va r page perm s'
    → Fresh s p va r page perm s'
unfolding get_ptbl_entry_by_va
Fresh-accounts s p va r page perm c s' f = record {
  entry = f.entry;
  maps = f.maps;
  empty = f.empty;
  others = f.others;
  words = f.words;
}

module _ (s : Paging) (p va r : ℕ) (t : Paging) where
  -- The state `t` behind the loop of alloc_ptbl.
  record IsNewTable : Type 0 where
    pub words : AreWords s
    pub small : r < 2 ^ 20
    pub cleared : Cleared (write_pde s p (pde_of va) (table_entry r)) p (pde_of va) 0 1024 t

  module _ (n : IsNewTable) where
    new_words : AreWords t
    new_words p' d' =
        rw n.cleared.pdir_pool
          (write_pde-AreWords s p (pde_of va) (table_entry r) n.words (omega arith) p' d')

    new_entry : t.pdir_pool p (pde_of va) ≡ r * 4096 + 7
    new_entry =
        let e : (write_pde s p (pde_of va) (table_entry r)).pdir_pool p (pde_of va)
            ≡ table_entry r =
          write_pde_self s p (pde_of va) (table_entry r) in
        rw n.cleared.pdir_pool (omega (arith, e, n.small))

    old_entry : (p' d' : ℕ) → (p' ≢ p) ⊎ (d' ≢ pde_of va) → t.pdir_pool p' d' ≡ s.pdir_pool p' d'
    old_entry p' d' ne =
        rw n.cleared.pdir_pool (write_pde_ne s p (pde_of va) (table_entry r) p' d' ne)

    new_base : base t p (pde_of va) ≡ r * 4096
    new_base = omega (arith, new_entry)

    mid_base : base (write_pde s p (pde_of va) (table_entry r)) p (pde_of va) ≡ r * 4096
    mid_base =
        let e : (write_pde s p (pde_of va) (table_entry r)).pdir_pool p (pde_of va)
            ≡ table_entry r =
          write_pde_self s p (pde_of va) (table_entry r) in
        omega (arith, e, n.small)

    new_present : t.pdir_pool p (pde_of va) ≢ 0
    new_present e = omega (arith, new_entry)

    new_empty : (va' : ℕ) → pde_of va' ≡ pde_of va → get_ptbl_entry_by_va t p va' ≡ 0
    new_empty va' same =
        let present : t.pdir_pool p (pde_of va') ≢ 0 = rw same new_present in
        let slot : pte_addr t p (pde_of va') (pte_of va') ≡ r * 4096 + pte_of va' * 4 =
          pte_addr_lem t p (pde_of va') (pte_of va') new_words (omega arith)
          ∙ rw (same, new_base) refl in
        get_present t p va' present
        ∙ rw slot (
            subst (λ (b : ℕ). t.memory (b + pte_of va' * 4) ≡ 0) mid_base
              (n.cleared.inside (pte_of va') (omega arith) (omega arith)))

    -- A translation through another table is as before.
    new_others :
        (p' va' : ℕ)
        → (p' ≢ p) ⊎ (pde_of va' ≢ pde_of va)
        → base s p' (pde_of va') ≢ r * 4096
        → get_ptbl_entry_by_va t p' va' ≡ get_ptbl_entry_by_va s p' va'
    new_others p' va' ne apart =
        let slot : pte_addr s p' (pde_of va') (pte_of va')
            ≡ base s p' (pde_of va') + pte_of va' * 4 =
          pte_addr_lem s p' (pde_of va') (pte_of va') n.words (omega arith) in
        get_eq s t p' va' (old_entry p' (pde_of va') ne) (
          n.cleared.outside (pte_addr s p' (pde_of va') (pte_of va'))
            (omega (arith, slot, mid_base)))

    -- The state once the entry of `va` is written too.
    new_Fresh :
        (page perm : ℕ)
        → Fresh s p va r page perm (record t {
          memory = update t.memory (pte_addr t p (pde_of va) (pte_of va)) (pte page perm);
        })
    new_Fresh page perm = record {
      entry = new_entry;
      maps = get-write_self t p va (pte page perm) new_present;
      empty = λ va' same ne.
          get-write_ne t p va (pte page perm) p va' new_words (λ e. ne (sym e.1))
          ∙ new_empty va' same;
      others = λ p' va' ne apart.
          get-write_ne t p va (pte page perm) p' va' new_words (λ e. apart (
            ap (λ (d : ℕ). d / 4096 * 4096) (sym (old_entry p' (pde_of va') ne))
            ∙ (sym e.0 ∙ new_base)))
          ∙ new_others p' va' ne apart;
      words = new_words;
    }

-- `map_page` where the directory has no table for the address, on sound accounts, with the memory
-- lock free and at most 2^20 pages: it returns, and the accounts stay sound. Either the
-- process is at its quota or no page behind the last one given out is free: it returns MagicNumber, and directories and memory are as before. Or it returns a page
-- `r` that was free: that page is the new table, entered as present, writable and a user's; `va` translates to the page and permissions given,
-- every other address of the new table to nothing, and every address that goes through a table in
-- another page translates as before.
pub map_page_absent :
    (s : Paging) (p va page perm : ℕ)
    → AreWords s
    → s.pdir_pool p (pde_of va) ≡ 0
    → IsSound s.containers.container
    → IsReady s.containers.pmm
    → s.containers.pmm.num_pages ≤ 2 ^ 20
    → (result : ℕ) × (s' : Paging) × (map_page s p va page perm ≡ some (result, s'))
      × IsSound s'.containers.container
      × IsReady s'.containers.pmm
      × (((result ≡ magic_number)
            × NoPage s.containers p
            × (s'.pdir_pool ≡ s.pdir_pool)
            × (s'.memory ≡ s.memory))
          ⊎ ((result ≢ 0)
              × (result ≢ magic_number)
              × IsFree s.containers.pmm.table result
              × Fresh s p va result page perm s'))
unfolding map_page
map_page_absent s p va page perm w absent sound ready small =
    let (r, c, e, frame) = alloc_frame_lem s p sound ready in
    let s0 : Paging = record s { containers = c } in
    elim (ℕ_discrete r 0) [
      | yes failed ↦ (
        magic_number,
        s0,
        rw (absent, e, failed) refl,
        frame.sound,
        frame.ready,
        inl (refl, refused s.containers p r c frame.outcome failed, refl, refl),
      )
      | no ne ↦
          let (free, below) = given_page s p r c frame.outcome ne in
          let nonzero : (r == 0) ≡ false = ground arith in
          let not_magic : (r == magic_number) ≡ false = ground arith in
          let d : ℕ = pde_of va in
          let s1 : Paging = write_pde s0 p d (table_entry r) in
          let t : Paging = clear_ptbl 1024 0 p d s1 in
          let cleared =
            clear_ptbl-Cleared s1 p d 1024 0
              (write_pde-AreWords s0 p d (table_entry r) w (omega arith)) (omega arith) in
          (
            r,
            record t { memory = update t.memory (pte_addr t p d (pte_of va)) (pte page perm) },
            rw (absent, e, nonzero, nonzero, not_magic) refl,
            rw cleared.containers frame.sound,
            rw cleared.containers frame.ready,
            inr (
              ne,
              omega arith,
              free,
              Fresh-accounts s p va r page perm c _ (
                  new_Fresh s0 p va r t
                    (record { words = w; small = omega arith; cleared = cleared }) page perm),
            ),
          )
    ]
