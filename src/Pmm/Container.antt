-- ===== src/Pmm/Container.antt =====
-- kern/pmm/MContainer/MContainer.c: the memory accounting of the processes. The fields of a
-- container are C `int`s that the code mixes with `unsigned int`s: a field is its 32-bit pattern.
pub mod Quota
pub mod Boot
use os_audio.Base.{
  ℕ, zero, suc, ◌+◌, ◌-◌, ◌*◌, ◌%◌, ◌^◌, Bool, ◌&&◌, Option, some, update, u32_mod, ltb, ◌==◌,
  if◌then◌else◌, ◌>>=◌,
}
use os_audio.Pmm.Table.{Pmm, get_nps, at_is_norm, at_is_allocated}
use os_audio.Pmm.Alloc.{palloc, pfree}

-- MAX_CHILDREN and NUM_IDS (kern/lib/x86.h)
abbrev pub max_children : ℕ
max_children = 3

abbrev pub num_ids : ℕ
num_ids = 64

-- `struct SContainer`
pub record SContainer : Type 0 where
  pub quota : ℕ
  pub usage : ℕ
  pub parent : ℕ
  pub nchildren : ℕ
  pub used : ℕ

-- The array CONTAINER above the page allocator that it calls.
pub record Containers : Type 0 where
  pub pmm : Pmm
  pub container : ℕ → SContainer

-- The loop of container_init that counts the pages to give out, on the rounds left.
pub count_loop : Pmm → (rounds i real_quota : ℕ) → ℕ
unfolding at_is_norm at_is_allocated
count_loop s zero i real_quota = real_quota
count_loop s (suc k) i real_quota =
    count_loop s k (i + 1)
      (if (at_is_norm s i == 1) && (at_is_allocated s i == 0) then real_quota + 1 else real_quota)

-- container_init behind its call of pmem_init, whose result is `pmm`.
unfoldable pub container_init : (pmm : Pmm) → Containers → Containers
unfolding count_loop
container_init pmm s = record {
  pmm = pmm;
  container = update s.container 0 (record {
    quota = count_loop pmm (get_nps pmm - 1) 1 0;
    usage = 0;
    parent = 0;
    nchildren = 0;
    used = 1;
  });
}

abbrev pub container_get_parent : Containers → ℕ → ℕ
container_get_parent s id = (s.container id).parent

abbrev pub container_get_nchildren : Containers → ℕ → ℕ
container_get_nchildren s id = (s.container id).nchildren

abbrev pub container_get_quota : Containers → ℕ → ℕ
container_get_quota s id = (s.container id).quota

abbrev pub container_get_usage : Containers → ℕ → ℕ
container_get_usage s id = (s.container id).usage

-- `usage + n > quota` is an unsigned comparison.
unfoldable pub container_can_consume : Containers → (id n : ℕ) → ℕ
container_can_consume s id n =
    if ltb (s.container id).quota (((s.container id).usage + n) % u32_mod) then 0 else 1

abbrev pub child_index : Containers → ℕ → ℕ
child_index s id = (id * max_children + 1 + (s.container id).nchildren) % u32_mod

-- The assignments in their order: the child's entry, then two fields of the parent's.
unfoldable pub container_split : Containers → (id quota : ℕ) → ℕ × Containers
container_split s id quota =
    let nc = (s.container id).nchildren in
    let child = child_index s id in
    let new : SContainer = record {
      quota = quota;
      usage = 0;
      parent = id;
      nchildren = 0;
      used = 1;
    } in
    let c = update s.container child new in
    (
      child,
      record s {
        container = update c id (record (c id) {
          usage = ((c id).usage + quota) % u32_mod;
          nchildren = (nc + 1) % u32_mod;
        });
      },
    )

unfoldable pub container_alloc : Containers → ℕ → Option (ℕ × Containers)
container_alloc s id =
    let u = (s.container id).usage in
    if u == (s.container id).quota
    then some (0, s)
    else let c = update s.container id (record (s.container id) { usage = (u + 1) % u32_mod }) in
      do (i, pmm) ← palloc s.pmm; some (i, record { pmm = pmm; container = c })

-- `usage > 0` is a signed comparison.
unfoldable pub container_free : Containers → (id page_index : ℕ) → Option Containers
unfolding at_is_allocated
container_free s id page_index = if at_is_allocated s.pmm page_index == 0 then some s else do
  pmm ← pfree s.pmm page_index
  let u = (s.container id).usage
  let c = update s.container id (record (s.container id) { usage = (u + (u32_mod - 1)) % u32_mod })
  some (record { pmm = pmm; container = if ltb 0 u && ltb u (2 ^ 31) then c else s.container })
