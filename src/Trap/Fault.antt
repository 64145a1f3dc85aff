-- ===== src/Trap/Fault.antt =====
-- The page fault handler of TTrapHandler.c.
use os_audio.Base.{
  ℕ, ◌%◌, ◌^◌, ◌≤◌, ◌≡◌, ◌⊎◌, inl, inr, refl, none, some, ◌==◌, false, eq_false, arith,
}
use native.Mathlib.Decide.{ℕ_discrete}
use os_audio.Pmm.Alloc.Scan.{IsFree}
use os_audio.Pmm.Alloc.Palloc.{IsReady}
use os_audio.Pmm.Container.Quota.{IsSound}
use os_audio.Vmm.Table.{Paging, get_ptbl_entry_by_va}
use os_audio.Vmm.Table.Entry.{AreWords}
use os_audio.Vmm.Map.{magic_number, alloc_page}
use os_audio.Vmm.Map.Page.{pte}
use os_audio.Vmm.Map.Alloc.{Unmappable, Entered, alloc_page_lem}
use os_audio.Thread.Tcb.{Threads, get_curid}
use os_audio.Trap.{pgflt_handler}

-- `pgflt_handler`, under the conditions of alloc_page: it panics exactly if the error says that the
-- page is present (PFE_PR), or alloc_page returns MagicNumber for want of a page. Otherwise it returns
-- with the accounts sound and the address that faulted mapped, for the running thread, to a page that
-- was free, with permission 7, through a table that was there or a new one that is present and a
-- user's. The thread tables are as before.
pub pgflt_handler_lem :
    (s : Threads) (err va : ℕ)
    → s.paging.pt_lk.lock ≡ 0
    → AreWords s.paging
    → IsSound s.paging.containers.container
    → IsReady s.paging.containers.pmm
    → s.paging.containers.pmm.num_pages ≤ 2 ^ 20
    → ((pgflt_handler s err va ≡ none)
        × ((err % 2 ≡ 1)
            ⊎ ((p : Paging) × (alloc_page s.paging (get_curid s) va 7 ≡ some (magic_number, p))
                × Unmappable s.paging (get_curid s) va)))
      ⊎ ((err % 2 ≡ 0)
          × (p : Paging) × (pgflt_handler s err va ≡ some (record s { paging = p }))
          × IsSound p.containers.container
          × IsReady p.containers.pmm
          × ((page : ℕ) × IsFree s.paging.containers.pmm.table page
              × (get_ptbl_entry_by_va p (get_curid s) va ≡ pte page 7)
              × ((result : ℕ) × Entered s.paging (get_curid s) va result p)))
unfolding pgflt_handler
pgflt_handler_lem s err va unlocked w sound ready small = elim (ℕ_discrete (err % 2) 1) [
  | yes there ↦ inl (rw there refl, inl there)
  | no ne ↦
      let absent : err % 2 ≡ 0 = omega arith in
      let (result, p, e, _, sound', ready', out) =
        alloc_page_lem s.paging (get_curid s) va 7 unlocked w sound ready small in
      elim out [
        | inl (magic, why, _, _) ↦ inl (rw (absent, e, magic) refl, inr (p, rw magic at e, why))
        | inr (nm, (page, free, maps, entered)) ↦
            let other : (result == magic_number) ≡ false = eq_false nm in
            inr (
              absent,
              p,
              rw (absent, e, other) refl,
              sound',
              ready',
              (page, free, maps, (result, entered)),
            )
      ]
]
