-- ===== src/Tests/Memory.antt =====
-- A machine with eight pages: the physical allocator and the accounts (kern/pmm, kern/dev/mboot.c).
use os_audio.Base.{
  ℕ, ◌^◌, ◌+◌, ◌-◌, ◌*◌, ◌/◌, ◌%◌, ◌≤◌, ◌<◌, ◌≡◌, ◌≢◌, ◌⊎◌, refl, arith, some, update, List, [],
  ◌∷◌, length, All, ◌==◌, if◌then◌else◌, ◌↔◌, distinct, has, true,
}
use os_audio.Dev.Mboot.{MbootMmap, MemoryMap, pmmap_init, get_size, get_mms, get_mml}
use os_audio.Dev.Mboot.Cover.{IsSorted, covers, low_slots}
use os_audio.Dev.Mboot.Total.{IsKnown, pmmap_init_lem}
use os_audio.Pmm.Table.{AtStruct, Pmm}
use os_audio.Pmm.Alloc.{palloc, pfree}
use os_audio.Pmm.Alloc.Scan.{IsFree}
use os_audio.Pmm.Alloc.Palloc.{IsReady, Outcome, palloc_lem, palloc_retry, pfree-palloc}
use os_audio.Pmm.Init.{pmem_init}
use os_audio.Pmm.Init.Perm.{spec_perm, pmem_init_lem}
use os_audio.Pmm.Container.{
  SContainer, Containers, container_init, container_can_consume, container_split, container_alloc,
  container_free,
}
use os_audio.Pmm.Container.Quota.{
  IsSound, AllocOutcome, container_alloc_lem, container_split_lem, container_free_lem,
}
use os_audio.Pmm.Container.Boot.{free_pages, container_init_quota}

-- Pages 3 and 5 are normal memory, and 5 is taken; the last search ended at page `last`.
abbrev pub pages : ℕ → AtStruct
pages p =
    if p == 3
    then record { perm = 2; allocated = 0 }
    else if p == 5
    then record { perm = 2; allocated = 1 }
    else record { perm = 0; allocated = 0 }

abbrev pub machine : (last : ℕ) → Pmm
machine last = record {
  mem_lk = record { lock_holder = 9; lock = 0 };
  num_pages = 8;
  table = pages;
  last_palloc_index = last;
  cpu_idx = 0;
}

pub machine-IsReady : IsReady (machine 1)
machine-IsReady = record {
  unlocked = refl;
  pages = omega arith;
  small = omega arith;
  last_in = omega arith;
}

late-IsReady : IsReady (machine 5)
late-IsReady = record {
  unlocked = refl;
  pages = omega arith;
  small = omega arith;
  last_in = omega arith;
}

-- The machine after a search that met page 3.
abbrev after_hit : Pmm
after_hit = record (machine 1) {
  table = update pages 3 (record { perm = 2; allocated = 1 });
  last_palloc_index = 3;
}

abbrev after_miss : Pmm
after_miss = record (machine 5) { last_palloc_index = 0 }

palloc_hit : palloc (machine 1) ≡ some (3, after_hit)
unfolding palloc
palloc_hit = refl

palloc_miss : palloc (machine 5) ≡ some (0, after_miss)
unfolding palloc
palloc_miss = refl

palloc_lem_example :
    (r : ℕ) × (s' : Pmm) × (palloc (machine 1) ≡ some (r, s')) × Outcome (machine 1) r s'
palloc_lem_example = palloc_lem (machine 1) machine-IsReady

palloc_retry_example :
    (r : ℕ) × (s'' : Pmm) × (palloc after_miss ≡ some (r, s''))
    × (r ≢ 0)
    × IsFree (machine 5).table r
palloc_retry_example =
    palloc_retry (machine 5) 3 late-IsReady palloc_miss (omega arith) (omega arith)
      (omega arith, refl)

pfree-palloc_example :
    (s'' : Pmm) × (pfree after_hit 3 ≡ some s'')
    × ((p : ℕ) → s''.table p ≡ (machine 1).table p)
    × IsReady s''
pfree-palloc_example = pfree-palloc (machine 1) 3 machine-IsReady palloc_hit (omega arith)

-- Process 0 may use two pages and uses one.
abbrev pub accounts : ℕ → SContainer
accounts id =
    if id == 0
    then record { quota = 2; usage = 1; parent = 0; nchildren = 0; used = 1 }
    else record { quota = 0; usage = 0; parent = 0; nchildren = 0; used = 0 }

pub accounts-IsSound : IsSound accounts
accounts-IsSound = record { within = λ i. ground arith; small = λ i. ground arith }

abbrev pub containers : Containers
containers = record { pmm = machine 1; container = accounts }

container_alloc_lem_example :
    (r : ℕ) × (s' : Containers) × (container_alloc containers 0 ≡ some (r, s'))
    × AllocOutcome containers 0 r s'
    × IsSound s'.container
    × IsReady s'.pmm
container_alloc_lem_example = container_alloc_lem containers 0 accounts-IsSound machine-IsReady

can_consume : container_can_consume containers 0 1 ≡ 1
unfolding container_can_consume
can_consume = refl

container_split_lem_example :
    let (child, s') = container_split containers 0 1 in
    IsSound s'.container
    × (child ≡ 0 * 3 + 1 + (containers.container 0).nchildren)
    × (s'.container 0 ≡ record (containers.container 0) {
      usage = (containers.container 0).usage + 1;
      nchildren = (containers.container 0).nchildren + 1;
    })
    × (s'.container child ≡ record { quota = 1; usage = 0; parent = 0; nchildren = 0; used = 1 })
    × ((i : ℕ) → i ≢ 0 → i ≢ child → s'.container i ≡ containers.container i)
container_split_lem_example =
    container_split_lem containers 0 1 accounts-IsSound (omega arith) (omega arith) (omega arith)
      (omega arith) can_consume

container_free_lem_example :
    (s' : Containers) × (container_free containers 0 5 ≡ some s')
    × IsSound s'.container
    × IsReady s'.pmm
    × ((((containers.pmm.table 5).allocated ≡ 0) × (s' ≡ containers))
        ⊎ (((containers.pmm.table 5).allocated ≢ 0)
            × (s'.pmm.table
                ≡ update containers.pmm.table 5 (record (containers.pmm.table 5) { allocated = 0 }))
            × ((s'.container 0).usage ≡ (
                if (containers.container 0).usage == 0
                then 0
                else (containers.container 0).usage - 1))
            × ((i : ℕ) → i ≢ 0 → s'.container i ≡ containers.container i)))
container_free_lem_example = container_free_lem containers 0 5 accounts-IsSound machine-IsReady

container_init_quota_example :
    let root = (container_init (machine 1) containers).container 0 in
    (root.quota ≡ length (free_pages pages 8))
    × (root.usage ≡ 0)
    × (distinct (free_pages pages 8) ≡ true)
    × ((p : ℕ) → (has p (free_pages pages 8) ≡ true) ↔ ((1 ≤ p) × (p < 8) × IsFree pages p))
container_init_quota_example = container_init_quota (machine 1) containers

-- Two overlapping ranges of RAM, and a reserved one.
abbrev multiboot : List MbootMmap
multiboot =
    record { base_addr_low = 0; base_addr_high = 0; length_low = 0x9000; length_high = 0; type = 1 }
    ∷ record {
      base_addr_low = 0x8000;
      base_addr_high = 0;
      length_low = 0x4000;
      length_high = 0;
      type = 1;
    }
    ∷ record {
      base_addr_low = 0x10000;
      base_addr_high = 0;
      length_low = 0x1000;
      length_high = 0;
      type = 2;
    }
    ∷ []

multiboot-IsKnown : All (λ (p : MbootMmap). IsKnown p.type) multiboot
multiboot-IsKnown =
    ((omega arith, omega arith), ((omega arith, omega arith), ((omega arith, omega arith), tt)))

abbrev no_map : MemoryMap
no_map = record {
  pmmap_slots_next_free = 0;
  pmmap_list = [];
  pmmap_sublist = λ nr. [];
  max_usable_memory = 0;
  mem_npages = 0;
  pmmap_nentries = 0;
}

pmmap_init_lem_example :
    (s' : MemoryMap) × (pmmap_init multiboot no_map ≡ some s')
    × IsSorted 0 s'.pmmap_list
    × ((t a : ℕ) → covers s'.pmmap_list t a ≡ covers (low_slots multiboot) t a)
    × (s'.pmmap_nentries ≡ length s'.pmmap_list)
pmmap_init_lem_example = pmmap_init_lem multiboot no_map (omega arith) multiboot-IsKnown refl

pmem_init_lem_example :
    (m' : MemoryMap) × (s' : Pmm) × (pmem_init multiboot no_map (machine 1) ≡ some (m', s'))
    × (pmmap_init multiboot no_map ≡ some m')
    × ((p : ℕ) → p < s'.num_pages → s'.table p ≡ record { perm = spec_perm m' p; allocated = 0 })
    × ((p : ℕ) → s'.num_pages ≤ p → s'.table p ≡ (machine 1).table p)
    × ((j : ℕ) → j < get_size m' → (get_mms m' j + get_mml m' j) % 2 ^ 32 / 4096 < s'.num_pages)
    × ((n : ℕ)
        → ((j : ℕ) → j < get_size m' → (get_mms m' j + get_mml m' j) % 2 ^ 32 / 4096 < n)
        → s'.num_pages ≤ n)
    × (s'.mem_lk.lock ≡ 0)
pmem_init_lem_example = pmem_init_lem multiboot no_map (machine 1) (omega arith) multiboot-IsKnown
