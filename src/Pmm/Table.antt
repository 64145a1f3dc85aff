-- ===== src/Pmm/Table.antt =====
-- kern/pmm/MATIntro/MATIntro.c: the physical allocation table AT, the number of pages and the
-- memory lock. The record also holds the static `last_palloc_index` of MATOp.c, and `cpu_idx`,
-- which the locks read off the kernel stack.
use os_audio.Base.{ℕ, Option, some, update, ◌==◌, if◌then◌else◌, ◌>>=◌}
use os_audio.Sync.{Spinlock, spinlock_init, spinlock_acquire, spinlock_release}

-- `struct ATStruct`
pub record AtStruct : Type 0 where
  pub perm : ℕ
  pub allocated : ℕ

pub record Pmm : Type 0 where
  pub mem_lk : Spinlock
  pub num_pages : ℕ
  pub table : ℕ → AtStruct
  pub last_palloc_index : ℕ
  pub cpu_idx : ℕ

unfoldable pub mem_spinlock_init : Pmm → Pmm
unfolding spinlock_init
mem_spinlock_init s = record s { mem_lk = spinlock_init }

unfoldable pub mem_lock : Pmm → Option Pmm
unfolding spinlock_acquire
mem_lock s = do lk ← spinlock_acquire s.cpu_idx s.mem_lk; some (record s { mem_lk = lk })

unfoldable pub mem_unlock : Pmm → Pmm
unfolding spinlock_release
mem_unlock s = record s { mem_lk = spinlock_release s.mem_lk }

abbrev pub get_nps : Pmm → ℕ
get_nps s = s.num_pages

abbrev pub set_nps : Pmm → ℕ → Pmm
set_nps s nps = record s { num_pages = nps }

unfoldable pub at_is_norm : Pmm → ℕ → ℕ
at_is_norm s page_index =
    let tperm = (s.table page_index).perm in if tperm == 0 then 0 else if tperm == 1 then 0 else 1

unfoldable pub at_set_perm : Pmm → ℕ → ℕ → Pmm
at_set_perm s page_index norm_val = record s {
  table = update s.table page_index (record { perm = norm_val; allocated = 0 });
}

unfoldable pub at_is_allocated : Pmm → ℕ → ℕ
at_is_allocated s page_index = if (s.table page_index).allocated == 0 then 0 else 1

unfoldable pub at_set_allocated : Pmm → ℕ → ℕ → Pmm
at_set_allocated s page_index allocated = record s {
  table = update s.table page_index (record (s.table page_index) { allocated = allocated });
}
