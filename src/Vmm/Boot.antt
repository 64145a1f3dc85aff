-- ===== src/Vmm/Boot.antt =====
-- The page structures set up at boot: pdir_init of kern/vmm/MPTComm/MPTComm.c and pdir_init_kern of
-- MPTKern/MPTKern.c, and MPTInit/MPTInit.c.
pub mod Directories
pub mod Identity
use os_audio.Base.{ℕ, zero, suc, ◌+◌, ◌||◌, Option, some, ◌>>=◌, ltb, leb, if◌then◌else◌}
use os_audio.Pmm.Table.{Pmm}
use os_audio.Pmm.Container.{num_ids}
use os_audio.Vmm.Table.{
  Paging, pt_spinlock_init, pt_spinlock_acquire, pt_spinlock_release, set_pdir_base,
  set_pdir_entry_identity, rmv_pdir_entry, idptbl_init,
}

-- The inner loop of pdir_init, on the `1024 - j` rounds left.
unfoldable pub pdir_row : (rounds i j : ℕ) → Paging → Paging
unfolding set_pdir_entry_identity rmv_pdir_entry
pdir_row zero i j s = s
pdir_row (suc k) i j s =
    pdir_row k i (j + 1)
      (if ltb j 256 || leb 960 j then set_pdir_entry_identity s i j else rmv_pdir_entry s i j)

unfoldable pub pdir_rows : (rounds i : ℕ) → Paging → Paging
pdir_rows zero i s = s
pdir_rows (suc k) i s = pdir_rows k (i + 1) (pdir_row 1024 i 0 s)

unfoldable pub pdir_init : (pmm : Pmm) → Paging → Paging
pdir_init pmm s = pdir_rows num_ids 0 (idptbl_init pmm s)

-- The loop of pdir_init_kern, on the `960 - i` rounds left.
unfoldable pub kern_row : (rounds i : ℕ) → Paging → Paging
unfolding set_pdir_entry_identity
kern_row zero i s = s
kern_row (suc k) i s = kern_row k (i + 1) (set_pdir_entry_identity s 0 i)

unfoldable pub pdir_init_kern : (pmm : Pmm) → Paging → Paging
pdir_init_kern pmm s = kern_row 704 256 (pdir_init pmm s)

-- paging_init of MPTInit.c, but for enable_paging, which sets a control register.
unfoldable pub paging_init : (pmm : Pmm) → Paging → Option Paging
unfolding pt_spinlock_init pt_spinlock_acquire pt_spinlock_release set_pdir_base
paging_init pmm s = do
  s ← pt_spinlock_acquire (pdir_init_kern pmm (pt_spinlock_init s))
  some (pt_spinlock_release (set_pdir_base s 0))

unfoldable pub paging_init_ap : Paging → Option Paging
unfolding pt_spinlock_acquire pt_spinlock_release set_pdir_base
paging_init_ap s = do s ← pt_spinlock_acquire s; some (pt_spinlock_release (set_pdir_base s 0))
