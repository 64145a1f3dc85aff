-- ===== src/Vmm/Table.antt =====
-- kern/vmm/MPTIntro/MPTIntro.c and MPTOp/MPTOp.c: page directories and page tables.
--
-- `memory` is the physical memory, as the 32-bit word at each address; the second-level tables live
-- in it, IDPTbl at the address `idptbl` that the linker gave it. A page directory entry is a 32-bit
-- word of PDirPool.
pub mod Entry
pub mod Identity
use os_audio.Base.{
  ℕ, zero, suc, ◌+◌, ◌-◌, ◌*◌, ◌/◌, ◌%◌, ◌||◌, Option, some, update, u32_mod, ltb, leb, ◌==◌,
  if◌then◌else◌, ◌>>=◌,
}
use os_audio.Sync.{Spinlock, spinlock_init, spinlock_acquire, spinlock_release}
use os_audio.Pmm.Table.{Pmm}
use os_audio.Pmm.Container.{Containers, container_init}

-- The state of the memory management: page structures above the containers.
pub record Paging : Type 0 where
  pub containers : Containers
  pub pdir_pool : ℕ → ℕ → ℕ
  pub memory : ℕ → ℕ
  pub idptbl : ℕ
  pub pt_lk : Spinlock
  -- the process whose directory CR3 holds
  pub pdir_base : ℕ

abbrev pub page_size : ℕ
page_size = 4096

-- PTE_P | PTE_W | PTE_U, PTE_P | PTE_W, and PTE_P | PTE_W | PTE_G
abbrev pub pt_perm_ptu : ℕ
pt_perm_ptu = 7

abbrev pub pt_perm_kern : ℕ
pt_perm_kern = 3

abbrev pub pt_perm_global : ℕ
pt_perm_global = 0x103

abbrev pub get_pcpu_idx : Paging → ℕ
get_pcpu_idx s = s.containers.pmm.cpu_idx

unfoldable pub pt_spinlock_init : Paging → Paging
unfolding spinlock_init
pt_spinlock_init s = record s { pt_lk = spinlock_init }

unfoldable pub pt_spinlock_acquire : Paging → Option Paging
unfolding spinlock_acquire
pt_spinlock_acquire s = do
  lk ← spinlock_acquire (get_pcpu_idx s) s.pt_lk
  some (record s { pt_lk = lk })

unfoldable pub pt_spinlock_release : Paging → Paging
unfolding spinlock_release
pt_spinlock_release s = record s { pt_lk = spinlock_release s.pt_lk }

unfoldable pub set_pdir_base : Paging → ℕ → Paging
set_pdir_base s index = record s { pdir_base = index }

abbrev pub get_pdir_entry : Paging → (proc_index pde_index : ℕ) → ℕ
get_pdir_entry s proc_index pde_index = s.pdir_pool proc_index pde_index

abbrev pub write_pde : Paging → (proc_index pde_index entry : ℕ) → Paging
write_pde s proc_index pde_index entry = record s {
  pdir_pool = update s.pdir_pool proc_index (update (s.pdir_pool proc_index) pde_index entry);
}

unfoldable pub set_pdir_entry : Paging → (proc_index pde_index page_index : ℕ) → Paging
set_pdir_entry s proc_index pde_index page_index =
    write_pde s proc_index pde_index ((page_index * page_size + pt_perm_ptu) % u32_mod)

unfoldable pub set_pdir_entry_identity : Paging → (proc_index pde_index : ℕ) → Paging
set_pdir_entry_identity s proc_index pde_index =
    write_pde s proc_index pde_index ((s.idptbl + pde_index * page_size + pt_perm_ptu) % u32_mod)

unfoldable pub rmv_pdir_entry : Paging → (proc_index pde_index : ℕ) → Paging
rmv_pdir_entry s proc_index pde_index = write_pde s proc_index pde_index 0

-- `addr` of the three routines below: `& 0xfffff000` clears the low 12 bits.
abbrev pub pte_addr : Paging → (proc_index pde_index pte_index : ℕ) → ℕ
pte_addr s proc_index pde_index pte_index =
    (s.pdir_pool proc_index pde_index / page_size * page_size + pte_index * 4) % u32_mod

abbrev pub get_ptbl_entry : Paging → (proc_index pde_index pte_index : ℕ) → ℕ
get_ptbl_entry s proc_index pde_index pte_index =
    s.memory (pte_addr s proc_index pde_index pte_index)

unfoldable pub set_ptbl_entry :
    Paging → (proc_index pde_index pte_index page_index perm : ℕ) → Paging
set_ptbl_entry s proc_index pde_index pte_index page_index perm = record s {
  memory =
      update s.memory (pte_addr s proc_index pde_index pte_index)
        ((page_index * page_size + perm) % u32_mod);
}

abbrev pub idptbl_addr : Paging → (pde_index pte_index : ℕ) → ℕ
idptbl_addr s pde_index pte_index = s.idptbl + pde_index * page_size + pte_index * 4

unfoldable pub set_ptbl_entry_identity : Paging → (pde_index pte_index perm : ℕ) → Paging
set_ptbl_entry_identity s pde_index pte_index perm = record s {
  memory =
      update s.memory (idptbl_addr s pde_index pte_index)
        (((pde_index * 1024 + pte_index) * page_size + perm) % u32_mod);
}

unfoldable pub rmv_ptbl_entry : Paging → (proc_index pde_index pte_index : ℕ) → Paging
rmv_ptbl_entry s proc_index pde_index pte_index = record s {
  memory = update s.memory (pte_addr s proc_index pde_index pte_index) 0;
}

-- The two indices of a virtual address.
abbrev pub pde_of : ℕ → ℕ
pde_of vaddr = vaddr / (4096 * 1024)

abbrev pub pte_of : ℕ → ℕ
pte_of vaddr = vaddr / 4096 % 1024

unfoldable pub get_ptbl_entry_by_va : Paging → (proc_index vaddr : ℕ) → ℕ
get_ptbl_entry_by_va s proc_index vaddr =
    if get_pdir_entry s proc_index (pde_of vaddr) == 0
    then 0
    else get_ptbl_entry s proc_index (pde_of vaddr) (pte_of vaddr)

unfoldable pub get_pdir_entry_by_va : Paging → (proc_index vaddr : ℕ) → ℕ
get_pdir_entry_by_va s proc_index vaddr = get_pdir_entry s proc_index (pde_of vaddr)

unfoldable pub rmv_ptbl_entry_by_va : Paging → (proc_index vaddr : ℕ) → Paging
unfolding rmv_ptbl_entry
rmv_ptbl_entry_by_va s proc_index vaddr = rmv_ptbl_entry s proc_index (pde_of vaddr) (pte_of vaddr)

unfoldable pub rmv_pdir_entry_by_va : Paging → (proc_index vaddr : ℕ) → Paging
unfolding rmv_pdir_entry
rmv_pdir_entry_by_va s proc_index vaddr = rmv_pdir_entry s proc_index (pde_of vaddr)

unfoldable pub set_ptbl_entry_by_va : Paging → (proc_index vaddr page_index perm : ℕ) → Paging
unfolding set_ptbl_entry
set_ptbl_entry_by_va s proc_index vaddr page_index perm =
    set_ptbl_entry s proc_index (pde_of vaddr) (pte_of vaddr) page_index perm

unfoldable pub set_pdir_entry_by_va : Paging → (proc_index vaddr page_index : ℕ) → Paging
unfolding set_pdir_entry
set_pdir_entry_by_va s proc_index vaddr page_index =
    set_pdir_entry s proc_index (pde_of vaddr) page_index

-- The inner loop of idptbl_init, on the `1024 - j` rounds left.
pub idptbl_row : (rounds i j perm : ℕ) → Paging → Paging
unfolding set_ptbl_entry_identity
idptbl_row zero i j perm s = s
idptbl_row (suc k) i j perm s = idptbl_row k i (j + 1) perm (set_ptbl_entry_identity s i j perm)

abbrev pub idptbl_perm : ℕ → ℕ
idptbl_perm i = if ltb i 256 || leb 960 i then pt_perm_global else pt_perm_kern

-- The outer loop, on the `1024 - i` rounds left.
pub idptbl_rows : (rounds i : ℕ) → Paging → Paging
idptbl_rows zero i s = s
idptbl_rows (suc k) i s = idptbl_rows k (i + 1) (idptbl_row 1024 i 0 (idptbl_perm i) s)

-- `pmm` is what pmem_init leaves, which container_init runs first.
unfoldable pub idptbl_init : (pmm : Pmm) → Paging → Paging
idptbl_init pmm s = idptbl_rows 1024 0 (record s { containers = container_init pmm s.containers })
