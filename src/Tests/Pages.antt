-- ===== src/Tests/Pages.antt =====
-- Mapping pages on the machine of eight pages (kern/vmm).
use os_audio.Base.{
  if◌then◌else◌, ◌+◌, ◌*◌, ◌/◌, ◌≤◌, ◌<◌, u32_mod, ℕ, ◌≡◌, ◌≢◌, ◌⊎◌, refl, arith, some,
}
use os_audio.Pmm.Alloc.Scan.{IsFree}
use os_audio.Pmm.Alloc.Palloc.{IsReady}
use os_audio.Pmm.Container.Quota.{IsSound}
use os_audio.Vmm.Table.{Paging, pde_of, get_ptbl_entry_by_va}
use os_audio.Vmm.Table.Entry.{AreWords, SameEntry}
use os_audio.Vmm.Map.{magic_number, map_page, unmap_page, alloc_page}
use os_audio.Vmm.Map.Page.{pte, map_page_present, unmap_page_lem}
use os_audio.Vmm.Map.Fresh.{NoPage, Fresh, map_page_absent}
use os_audio.Vmm.Map.Alloc.{Unmappable, Entered, alloc_page_lem}
use os_audio.Pmm.Container.{container_init}
use os_audio.Vmm.Boot.{paging_init}
use os_audio.Vmm.Boot.Identity.{user, paging_init_lem}
use os_audio.Tests.Memory.{machine, containers, accounts-IsSound, machine-IsReady}

-- No directory has an entry.
abbrev bare : Paging
bare = record {
  containers = containers;
  pdir_pool = λ p d. 0;
  memory = λ a. 0;
  idptbl = 0x200000;
  pt_lk = record { lock_holder = 9; lock = 0 };
  pdir_base = 0;
}

-- All entries of all directories point to the table in page 2.
abbrev mapped : Paging
mapped = record bare { pdir_pool = λ p d. 0x2007 }

bare-AreWords : AreWords bare
bare-AreWords p d = omega arith

mapped-AreWords : AreWords mapped
mapped-AreWords p d = omega arith

map_page_absent_example :
    (result : ℕ) × (s' : Paging) × (map_page bare 1 0x40000000 5 7 ≡ some (result, s'))
    × IsSound s'.containers.container
    × IsReady s'.containers.pmm
    × (((result ≡ magic_number)
          × NoPage bare.containers 1
          × (s'.pdir_pool ≡ bare.pdir_pool)
          × (s'.memory ≡ bare.memory))
        ⊎ ((result ≢ 0)
            × (result ≢ magic_number)
            × IsFree bare.containers.pmm.table result
            × Fresh bare 1 0x40000000 result 5 7 s'))
map_page_absent_example =
    map_page_absent bare 1 0x40000000 5 7 bare-AreWords refl accounts-IsSound machine-IsReady
      (omega arith)

map_page_present_example :
    (s' : Paging) × (map_page mapped 1 0x40000000 5 7 ≡ some (0, s'))
    × (get_ptbl_entry_by_va s' 1 0x40000000 ≡ pte 5 7)
    × ((p' va' : ℕ)
        → ¬ SameEntry mapped 1 0x40000000 p' va'
        → get_ptbl_entry_by_va s' p' va' ≡ get_ptbl_entry_by_va mapped p' va')
    × (s'.pdir_pool ≡ mapped.pdir_pool)
    × (s'.containers ≡ mapped.containers)
map_page_present_example = map_page_present mapped 1 0x40000000 5 7 mapped-AreWords (omega arith)

unmap_page_lem_example :
    let (entry, s') = unmap_page mapped 1 0x40000000 in
    (entry ≡ get_ptbl_entry_by_va mapped 1 0x40000000)
    × (get_ptbl_entry_by_va mapped 1 0x40000000 ≡ 0 → s' ≡ mapped)
    × (get_ptbl_entry_by_va s' 1 0x40000000 ≡ 0)
    × ((p' va' : ℕ)
        → ¬ SameEntry mapped 1 0x40000000 p' va'
        → get_ptbl_entry_by_va s' p' va' ≡ get_ptbl_entry_by_va mapped p' va')
    × (s'.pdir_pool ≡ mapped.pdir_pool)
    × (s'.containers ≡ mapped.containers)
unmap_page_lem_example = unmap_page_lem mapped 1 0x40000000 mapped-AreWords

alloc_page_lem_example :
    (result : ℕ) × (s' : Paging) × (alloc_page bare 0 0x40000000 7 ≡ some (result, s'))
    × (s'.pt_lk.lock ≡ 0)
    × IsSound s'.containers.container
    × IsReady s'.containers.pmm
    × (((result ≡ magic_number)
          × Unmappable bare 0 0x40000000
          × (s'.pdir_pool ≡ bare.pdir_pool)
          × (s'.memory ≡ bare.memory))
        ⊎ ((result ≢ magic_number)
            × ((page : ℕ) × IsFree bare.containers.pmm.table page
                × (get_ptbl_entry_by_va s' 0 0x40000000 ≡ pte page 7)
                × Entered bare 0 0x40000000 result s')))
alloc_page_lem_example =
    alloc_page_lem bare 0 0x40000000 7 refl bare-AreWords accounts-IsSound machine-IsReady
      (omega arith)

paging_init_lem_example :
    (s' : Paging) × (paging_init (machine 1) bare ≡ some s')
    × (s'.pt_lk.lock ≡ 0)
    × (s'.pdir_base ≡ 0)
    × (s'.containers ≡ container_init (machine 1) bare.containers)
    × ((p va : ℕ)
        → p < 64
        → va < u32_mod
        → (p ≡ 0) ⊎ ((va < 0x40000000) ⊎ (0xf0000000 ≤ va))
        → (s'.pdir_pool p (pde_of va) ≡ bare.idptbl + pde_of va * 4096 + 7)
          × (get_ptbl_entry_by_va s' p va ≡ va / 4096 * 4096 + (if user va then 3 else 0x103)))
    × ((p va : ℕ)
        → p < 64
        → p ≢ 0
        → 0x40000000 ≤ va
        → va < 0xf0000000
        → get_ptbl_entry_by_va s' p va ≡ 0)
paging_init_lem_example = paging_init_lem (machine 1) bare refl (omega arith)
