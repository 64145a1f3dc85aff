-- ===== src/Vmm/Map.antt =====
-- kern/vmm/MPTComm/MPTComm.c (alloc_ptbl, free_ptbl), MPTKern/MPTKern.c (map_page, unmap_page) and
-- MPTNew/MPTNew.c: mapping one page.
pub mod Page
pub mod Clear
pub mod Fresh
pub mod Alloc
use os_audio.Base.{ℕ, zero, suc, ◌+◌, ◌/◌, Option, some, ◌==◌, if◌then◌else◌, ◌>>=◌}
use os_audio.Pmm.Container.{container_alloc, container_free, container_split}
use os_audio.Vmm.Table.{
  Paging, page_size, pde_of, rmv_ptbl_entry, get_ptbl_entry_by_va, get_pdir_entry_by_va,
  rmv_ptbl_entry_by_va, rmv_pdir_entry_by_va, set_ptbl_entry_by_va, set_pdir_entry_by_va,
  pt_spinlock_acquire, pt_spinlock_release,
}

-- MagicNumber (kern/lib/x86.h)
abbrev pub magic_number : ℕ
magic_number = 1048577

-- container_alloc on the containers below the page structures.
unfoldable pub alloc_frame : Paging → ℕ → Option (ℕ × Paging)
alloc_frame s proc_index = do
  (pi, c) ← container_alloc s.containers proc_index
  some (pi, record s { containers = c })

-- The definitions below leave this loop of 1024 rounds shut.
-- The loop of alloc_ptbl that clears the new table, on the `1024 - i` rounds left.
unfoldable pub clear_ptbl : (rounds i proc_index pde_index : ℕ) → Paging → Paging
unfolding rmv_ptbl_entry
clear_ptbl zero i proc_index pde_index s = s
clear_ptbl (suc k) i proc_index pde_index s =
    clear_ptbl k (i + 1) proc_index pde_index (rmv_ptbl_entry s proc_index pde_index i)

unfoldable pub alloc_ptbl : Paging → (proc_index vadr : ℕ) → Option (ℕ × Paging)
unfolding set_pdir_entry_by_va
alloc_ptbl s proc_index vadr = do
  (pi, s) ← alloc_frame s proc_index
  some (
      if pi == 0 then (pi, s) else (
        pi,
        clear_ptbl 1024 0 proc_index (pde_of vadr) (set_pdir_entry_by_va s proc_index vadr pi),
      ))

unfoldable pub free_ptbl : Paging → (proc_index vadr : ℕ) → Option Paging
unfolding get_pdir_entry_by_va rmv_pdir_entry_by_va
free_ptbl s proc_index vadr = do
  let pde = get_pdir_entry_by_va s proc_index vadr
  let s' = rmv_pdir_entry_by_va s proc_index vadr
  c ← container_free s'.containers proc_index (pde / page_size)
  some (record s' { containers = c })

-- The end of map_page: the entry is written unless the table could not be allocated.
unfoldable pub map_entry :
    (result : ℕ) → Paging → (proc_index vadr page_index perm : ℕ) → ℕ × Paging
unfolding set_ptbl_entry_by_va
map_entry result s proc_index vadr page_index perm =
    if result == magic_number
    then (result, s)
    else (result, set_ptbl_entry_by_va s proc_index vadr page_index perm)

unfoldable pub map_page : Paging → (proc_index vadr page_index perm : ℕ) → Option (ℕ × Paging)
unfolding get_pdir_entry_by_va alloc_ptbl map_entry
map_page s proc_index vadr page_index perm =
    if get_pdir_entry_by_va s proc_index vadr == 0
    then (do
      (pi, s) ← alloc_ptbl s proc_index vadr
      some (map_entry (if pi == 0 then magic_number else pi) s proc_index vadr page_index perm))
    else some (map_entry 0 s proc_index vadr page_index perm)

unfoldable pub unmap_page : Paging → (proc_index vadr : ℕ) → ℕ × Paging
unfolding get_ptbl_entry_by_va rmv_ptbl_entry_by_va
unmap_page s proc_index vadr =
    let ptbl_entry = get_ptbl_entry_by_va s proc_index vadr in
    (ptbl_entry, if ptbl_entry == 0 then s else rmv_ptbl_entry_by_va s proc_index vadr)

unfoldable pub alloc_page : Paging → (proc_index vaddr perm : ℕ) → Option (ℕ × Paging)
unfolding pt_spinlock_acquire pt_spinlock_release
alloc_page s proc_index vaddr perm = do
  s ← pt_spinlock_acquire s
  (pi, s) ← alloc_frame s proc_index
  (result, s) ← if pi == 0 then some (magic_number, s) else map_page s proc_index vaddr pi perm
  some (result, pt_spinlock_release s)

unfoldable pub alloc_mem_quota : Paging → (id quota : ℕ) → ℕ × Paging
unfolding container_split
alloc_mem_quota s id quota =
    let (child, c) = container_split s.containers id quota in (child, record s { containers = c })
