-- ===== src/Sync.antt =====
-- kern/lib/spinlock.c, the spinlocks that guard the kernel's tables, as compiled without
-- DEBUG_LOCKHOLDING. `cpu` is the `cpu_idx` that the routines read off the kernel stack.
use os_audio.Base.{ℕ, ◌+◌, Bool, false, Option, none, some, ◌==◌, if◌then◌else◌}

-- NUM_CPUS (kern/lib/x86.h)
abbrev pub num_cpus : ℕ
num_cpus = 8

-- `spinlock_t` (kern/lib/spinlock.h)
pub record Spinlock : Type 0 where
  pub lock_holder : ℕ
  pub lock : ℕ

unfoldable pub spinlock_init : Spinlock
spinlock_init = record { lock_holder = num_cpus + 1; lock = 0 }

unfoldable pub spinlock_holding : (cpu : ℕ) → Spinlock → Bool
spinlock_holding cpu lk = if lk.lock == 0 then false else (lk.lock_holder == cpu)

-- `xchg(&lk->lock, v)`: the old value, and the lock with the new one.
abbrev pub xchg : Spinlock → ℕ → ℕ × Spinlock
xchg lk v = (lk.lock, record lk { lock = v })

-- `while (xchg(&lk->lock, 1) != 0) pause();`. Nothing else runs in this model, so a lock that is
-- held stays held and the loop does not end: that is `none`.
unfoldable pub spinlock_acquire_a : (cpu : ℕ) → Spinlock → Option Spinlock
spinlock_acquire_a cpu lk =
    let (old, lk') = xchg lk 1 in if old == 0 then some (record lk' { lock_holder = cpu }) else none

unfoldable pub spinlock_try_acquire_a : (cpu : ℕ) → Spinlock → ℕ × Spinlock
spinlock_try_acquire_a cpu lk =
    let (old, lk') = xchg lk 1 in (old, if old == 0 then record lk' { lock_holder = cpu } else lk')

unfoldable pub spinlock_release_a : Spinlock → Spinlock
spinlock_release_a lk = (xchg (record lk { lock_holder = num_cpus + 1 }) 0).1

unfoldable pub spinlock_acquire : (cpu : ℕ) → Spinlock → Option Spinlock
unfolding spinlock_acquire_a
spinlock_acquire cpu lk = spinlock_acquire_a cpu lk

unfoldable pub spinlock_release : Spinlock → Spinlock
unfolding spinlock_release_a
spinlock_release lk = spinlock_release_a lk
