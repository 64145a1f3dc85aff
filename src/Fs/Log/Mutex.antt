-- ===== src/Fs/Log/Mutex.antt =====
-- begin_trans and the end of commit_trans of kern/fs/log.c, statement by statement, as the threads
-- that share log.lock and log.busy run them. A thread stands at a statement; log.lock is taken and
-- given up by steps of their own. thread_sleep gives the lock up and sleeps in one step, as it does
-- under the scheduler's lock, and takes the lock again when the thread runs; thread_wakeup makes the
-- threads that sleep on the log ready (both are modelled in Thread.Sched).
pub mod Excludes
pub mod Statements
pub mod Invariant
use os_audio.Base.{ℕ, update, Bool, true, false, Option, none, some, if◌then◌else◌, ◌≡◌}

pub data Place : Type 0 where
  -- no transaction
  outside : Place
  -- begin_trans: spinlock_acquire, `while (log.busy)`, `log.busy = 1` and spinlock_release
  begins : Place
  tests : Place
  sets : Place
  unlocks : Place
  -- in thread_sleep, and at its spinlock_acquire
  sleeping : Place
  awake : Place
  -- between the two calls
  inside : Place
  -- commit_trans: spinlock_acquire, `log.busy = 0`, thread_wakeup and spinlock_release
  ends : Place
  clears : Place
  wakes : Place
  leaves : Place

pub record Shared : Type 0 where
  pub lock : Bool
  pub busy : Bool
  pub place : ℕ → Place

abbrev pub goto : (t : ℕ) → Place → Shared → Shared
goto t p s = record s { place = update s.place t p }

-- spinlock_acquire by `t`, which spins while the lock is taken.
abbrev pub acquire : (t : ℕ) → Place → Shared → Option Shared
acquire t p s = if s.lock then none else some (goto t p (record s { lock = true }))

abbrev pub release : (t : ℕ) → Place → Shared → Option Shared
release t p s = some (goto t p (record s { lock = false }))

-- The next statement of `t` in begin_trans, if it can run; the first one is the call.
unfoldable pub begin_trans : Place → (t : ℕ) → Shared → Option Shared
begin_trans Place.outside t s = some (goto t Place.begins s)
begin_trans Place.begins t s = acquire t Place.tests s
begin_trans Place.tests t s =
    if s.busy then release t Place.sleeping s else some (goto t Place.sets s)
begin_trans Place.awake t s = acquire t Place.tests s
begin_trans Place.sets t s = some (goto t Place.unlocks (record s { busy = true }))
begin_trans Place.unlocks t s = release t Place.inside s
begin_trans Place.sleeping t s = none
begin_trans Place.inside t s = none
begin_trans Place.ends t s = none
begin_trans Place.clears t s = none
begin_trans Place.wakes t s = none
begin_trans Place.leaves t s = none

-- thread_wakeup(&log)
unfoldable pub wakeup : Place → Place
wakeup Place.outside = Place.outside
wakeup Place.begins = Place.begins
wakeup Place.tests = Place.tests
wakeup Place.sets = Place.sets
wakeup Place.unlocks = Place.unlocks
wakeup Place.sleeping = Place.awake
wakeup Place.awake = Place.awake
wakeup Place.inside = Place.inside
wakeup Place.ends = Place.ends
wakeup Place.clears = Place.clears
wakeup Place.wakes = Place.wakes
wakeup Place.leaves = Place.leaves

-- The next statement of `t` in the end of commit_trans.
unfoldable pub end_trans : Place → (t : ℕ) → Shared → Option Shared
end_trans Place.inside t s = some (goto t Place.ends s)
end_trans Place.ends t s = acquire t Place.clears s
end_trans Place.clears t s = some (goto t Place.wakes (record s { busy = false }))
end_trans Place.wakes t s =
    some (goto t Place.leaves (record s { place = λ u. wakeup (s.place u) }))
end_trans Place.leaves t s = release t Place.outside s
end_trans Place.outside t s = none
end_trans Place.begins t s = none
end_trans Place.tests t s = none
end_trans Place.sets t s = none
end_trans Place.unlocks t s = none
end_trans Place.sleeping t s = none
end_trans Place.awake t s = none

-- One thread, whichever, runs its next statement.
pub data Step (s s' : Shared) : Type 0 where
  begin_step : (t : ℕ) → begin_trans (s.place t) t s ≡ some s' → Step s s'
  end_step : (t : ℕ) → end_trans (s.place t) t s ≡ some s' → Step s s'

abbrev pub idle : Shared
idle = record { lock = false; busy = false; place = λ t. Place.outside }

pub data Reach : Shared → Type 0 where
  start : Reach idle
  later : {s s' : Shared} → Reach s → Step s s' → Reach s'
