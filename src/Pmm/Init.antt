-- ===== src/Pmm/Init.antt =====
-- kern/pmm/MATInit/MATInit.c: the number of pages and the permission of each page, from the memory
-- map. devinit sets up the devices; of its effects only the memory map is read here.
pub mod Perm
use os_audio.Base.{
  ℕ, zero, suc, ◌+◌, ◌-◌, ◌*◌, ◌/◌, ◌%◌, Bool, true, false, ◌&&◌, ◌||◌, Option, some, List, u32_mod,
  ltb, leb, ◌==◌, if◌then◌else◌, ◌>>=◌,
}
use os_audio.Dev.Mboot.{MbootMmap, MemoryMap, pmmap_init, get_size, get_mms, get_mml, is_usable}
use os_audio.Pmm.Table.{Pmm, mem_spinlock_init, set_nps, at_set_perm}

abbrev pub page_size : ℕ
page_size = 4096

-- VM_USERLO_PI and VM_USERHI_PI
abbrev pub vm_userlo_pi : ℕ
vm_userlo_pi = 0x4000_0000 / page_size

abbrev pub vm_userhi_pi : ℕ
vm_userhi_pi = 0xf000_0000 / page_size

-- The first loop: `nps`, on the `size - i` rounds left.
pub nps_loop : MemoryMap → (rounds i nps : ℕ) → ℕ
nps_loop m zero i nps = nps
nps_loop m (suc k) i nps =
    let maxs = (get_mms m i + get_mml m i) % u32_mod / page_size + 1 in
    nps_loop m k (i + 1) (if ltb nps maxs then maxs else nps)

-- The test of the inner loop: range `j` holds the whole of page `i`.
pub page_in : MemoryMap → (i j : ℕ) → Bool
page_in m i j =
    leb (get_mms m j) (i * page_size % u32_mod)
    && leb ((i + 1) * page_size % u32_mod) ((get_mml m j + get_mms m j) % u32_mod)

-- The inner loop: `(flag, isnorm)`, on the `size - j` rounds left.
pub range_loop : MemoryMap → (i rounds j flag isnorm : ℕ) → ℕ × ℕ
unfolding page_in
range_loop m i zero j flag isnorm = (flag, isnorm)
range_loop m i (suc k) j flag isnorm =
    let next = range_loop m i k (j + 1) (if page_in m i j then 1 else flag) (is_usable m j) in
    if flag == 0 then next else (flag, isnorm)

-- The permission that the body of the second loop gives page `i`.
pub page_perm : MemoryMap → ℕ → ℕ
unfolding range_loop
page_perm m i =
    if ltb i vm_userlo_pi || leb vm_userhi_pi i
    then 1
    else let (flag, isnorm) = range_loop m i (get_size m) 0 0 0 in
      if (flag == 1) && (isnorm == 1) then 2 else 0

-- The second loop, on the `nps - i` rounds left.
pub perm_loop : MemoryMap → (rounds i : ℕ) → Pmm → Pmm
unfolding page_perm at_set_perm
perm_loop m zero i s = s
perm_loop m (suc k) i s = perm_loop m k (i + 1) (at_set_perm s i (page_perm m i))

-- `none` is a panic of pmmap_init.
unfoldable pub pmem_init : List MbootMmap → MemoryMap → Pmm → Option (MemoryMap × Pmm)
unfolding nps_loop perm_loop mem_spinlock_init
pmem_init mmap m s = do
  m ← pmmap_init mmap m
  let nps = nps_loop m (get_size m) 0 0
  some (m, perm_loop m nps 0 (set_nps (mem_spinlock_init s) nps))
