-- ===== src/Vmm/Map/Page.antt =====
-- map_page and unmap_page of MPTKern.c: what a mapping does to the translation of addresses.
use os_audio.Base.{
  ℕ, ◌+◌, ◌*◌, ◌%◌, ◌≡◌, ◌≢◌, inl, inr, refl, arith, u32_mod, ==_iff, true, false, Bool-cases, ◌==◌,
  update, some,
}
use os_audio.Vmm.Table.{Paging, page_size, pde_of, pte_of, pte_addr, get_ptbl_entry_by_va}
use os_audio.Vmm.Table.Entry.{AreWords, SameEntry, get-write_self, get-write_ne, get_absent}
use os_audio.Vmm.Map.{map_page, unmap_page}

-- The word that maps a physical page with some permissions.
abbrev pub pte : (page_index perm : ℕ) → ℕ
pte page_index perm = (page_index * page_size + perm) % u32_mod

-- Where the page table is there, `map_page` returns 0, and afterwards the address translates to the
-- page with the permissions given. Every address that does not go through the same page table
-- entry, in whatever process, translates as before; the directories and the accounts do not change.
pub map_page_present :
    (s : Paging) (p va page perm : ℕ)
    → AreWords s
    → s.pdir_pool p (pde_of va) ≢ 0
    → (s' : Paging) × (map_page s p va page perm ≡ some (0, s'))
      × (get_ptbl_entry_by_va s' p va ≡ pte page perm)
      × ((p' va' : ℕ)
          → ¬ SameEntry s p va p' va'
          → get_ptbl_entry_by_va s' p' va' ≡ get_ptbl_entry_by_va s p' va')
      × (s'.pdir_pool ≡ s.pdir_pool)
      × (s'.containers ≡ s.containers)
unfolding map_page
map_page_present s p va page perm w present =
    let there : (s.pdir_pool p (pde_of va) == 0) ≡ false = ground arith in
    (
      record s { memory = update s.memory (pte_addr s p (pde_of va) (pte_of va)) (pte page perm) },
      rw there refl,
      get-write_self s p va (pte page perm) present,
      λ p' va' apart. get-write_ne s p va (pte page perm) p' va' w apart,
      refl,
      refl,
    )

-- `unmap_page` returns the entry that the address had, and afterwards the address has none; where
-- it had none, nothing at all is done. Every
-- address that does not go through that entry translates as before; the directories and the
-- accounts do not change, so the page itself stays allocated.
pub unmap_page_lem :
    (s : Paging) (p va : ℕ)
    → AreWords s
    → let (entry, s') = unmap_page s p va in
      (entry ≡ get_ptbl_entry_by_va s p va)
      × (get_ptbl_entry_by_va s p va ≡ 0 → s' ≡ s)
      × (get_ptbl_entry_by_va s' p va ≡ 0)
      × ((p' va' : ℕ)
          → ¬ SameEntry s p va p' va'
          → get_ptbl_entry_by_va s' p' va' ≡ get_ptbl_entry_by_va s p' va')
      × (s'.pdir_pool ≡ s.pdir_pool)
      × (s'.containers ≡ s.containers)
unfolding unmap_page
unmap_page_lem s p va w = elim (Bool-cases (get_ptbl_entry_by_va s p va == 0)) [
  | inl none_there ↦
      rw none_there (refl, λ z. refl, (==_iff _ _).0 none_there, λ p' va' apart. refl, refl, refl)
  | inr mapped ↦
      let present : s.pdir_pool p (pde_of va) ≢ 0 = λ e.
        let t : (get_ptbl_entry_by_va s p va == 0) ≡ true = (==_iff _ 0).1 (get_absent s p va e) in
        cc in
      rw mapped (
        refl,
        λ z. absurd (let t = (==_iff (get_ptbl_entry_by_va s p va) 0).1 z in cc),
        get-write_self s p va 0 present,
        λ p' va' apart. get-write_ne s p va 0 p' va' w apart,
        refl,
        refl,
      )
]
