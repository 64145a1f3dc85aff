-- ===== src/Pmm/Alloc.antt =====
-- kern/pmm/MATOp/MATOp.c: allocation and release of one physical page.
pub mod Scan
pub mod Palloc
use os_audio.Base.{
  ℕ, zero, suc, ◌+◌, ◌-◌, ◌%◌, ◌<◌, ◌≡◌, Bool, ◌&&◌, Option, some, u32_mod, ltb, ◌==◌,
  if◌then◌else◌, ◌>>=◌,
}
use os_audio.Pmm.Table.{
  Pmm, mem_lock, mem_unlock, get_nps, at_is_norm, at_is_allocated, at_set_allocated,
}

-- The body of palloc's loop: the new `palloc_free_index`.
pub palloc_probe : Pmm → (palloc_index palloc_free_index : ℕ) → ℕ
unfolding at_is_norm at_is_allocated
palloc_probe s palloc_index palloc_free_index =
    if at_is_norm s palloc_index == 1
    then (if at_is_allocated s palloc_index == 0 then palloc_index else palloc_free_index)
    else palloc_free_index

-- palloc's loop, by recursion on the rounds that `palloc_index < tnps` leaves, which is
-- `tnps - palloc_index`: with no round left the test of the loop fails.
pub palloc_loop : Pmm → (tnps rounds palloc_index palloc_free_index : ℕ) → ℕ
unfolding palloc_probe
palloc_loop s tnps zero palloc_index palloc_free_index = palloc_free_index
palloc_loop s tnps (suc k) palloc_index palloc_free_index =
    let rest =
      palloc_loop s tnps k (palloc_index + 1) (palloc_probe s palloc_index palloc_free_index) in
    if ltb palloc_index tnps && (palloc_free_index == tnps) then rest else palloc_free_index

-- What palloc does between taking and dropping the lock.
palloc_locked : Pmm → ℕ × Pmm
unfolding palloc_loop at_set_allocated
palloc_locked s =
    let tnps = get_nps s in
    let palloc_index = (s.last_palloc_index + 1) % u32_mod in
    let found = palloc_loop s tnps (tnps - palloc_index) palloc_index tnps in
    let palloc_free_index = if found == tnps then 0 else found in
    let s' = if found == tnps then s else at_set_allocated s palloc_free_index 1 in
    (palloc_free_index, record s' { last_palloc_index = palloc_free_index % tnps })

unfoldable pub palloc : Pmm → Option (ℕ × Pmm)
unfolding mem_lock mem_unlock palloc_locked
palloc s = do
  s ← mem_lock s
  let (palloc_free_index, s') = palloc_locked s
  some (palloc_free_index, mem_unlock s')

unfoldable pub pfree : Pmm → ℕ → Option Pmm
unfolding mem_lock mem_unlock at_set_allocated
pfree s pfree_index = do s ← mem_lock s; some (mem_unlock (at_set_allocated s pfree_index 0))
