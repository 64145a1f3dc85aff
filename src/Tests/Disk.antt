-- ===== src/Tests/Disk.antt =====
-- The log of a disk of 20 sectors, 10 of them the log at sector 10 (kern/fs).
use os_audio.Base.{
  ℕ, ◌+◌, ◌-◌, ◌*◌, ◌≤◌, ◌<◌, ◌≡◌, ◌≢◌, ◌⊎◌, inl, refl, arith, List, [], ◌∷◌, ◌++◌, true, false,
  none, some, ◌==◌, if◌then◌else◌,
}
use os_audio.Fs.Log.{Block, Log, recover_from_log, log_write, log_size}
use os_audio.Fs.Log.Redo.{Sectors}
use os_audio.Fs.Log.Recovery.{crash, logical}
use os_audio.Fs.Log.Commit.{recover_from_log_lem}
use os_audio.Fs.Log.Slot.{Outside, IsTransaction, pending}
use os_audio.Fs.Log.Write.{log_write_lem}
use os_audio.Fs.Log.Mutex.{Place, Shared, goto, begin_trans, Step, idle, Reach}
use os_audio.Fs.Log.Mutex.Invariant.{begin_trans-exclusive}

-- Sector 11 holds the block for sector 3 and sector 12 the one for sector 4.
abbrev sectors : Sectors
sectors a w = if a == 10 then 0 else 100 * a + w

abbrev home : ℕ → ℕ
home i = i + 3

abbrev logged : Log
logged = record {
  start = 10;
  size = 10;
  busy = true;
  lh = record { n = 2; sector = home };
  cache = sectors;
  dirty = λ a. false;
  writes = [];
}

abbrev headed : Sectors
headed a w = if a == 10 then (if w == 0 then 2 else w + 2) else 100 * a + w

abbrev booted : Log
booted = record logged { cache = headed }

recover_from_log_lem_example :
    let l' = recover_from_log booted in
    (l'.lh.n ≡ 0)
    × (l'.cache 10 0 ≡ 0)
    × ((a : ℕ) → a ≢ 10 → l'.cache a ≡ logical 10 headed a)
    × (ws : List (ℕ × Block)) × (l'.writes ≡ [] ++ ws)
    × ((j a : ℕ) → a ≢ 10 → logical 10 (crash j ws headed) a ≡ logical 10 headed a)
recover_from_log_lem_example = recover_from_log_lem booted (omega arith) (λ i t lt le. ground arith)

logged-IsTransaction : IsTransaction logged
logged-IsTransaction = record {
  fits = omega arith;
  header = omega arith;
  outside = λ i lt. inl (omega arith);
  apart = λ i k low lk ne. omega arith;
}

log_write_lem_example :
    ((log_write logged 4 ≡ none) × ((log_size ≤ 2) ⊎ ((10 - 1 ≤ 2) ⊎ (true ≡ false))))
    ⊎ ((2 < log_size)
        × (2 < 10 - 1)
        × (true ≡ true)
        × (l' : Log) × (log_write logged 4 ≡ some l')
        × IsTransaction l'
        × (pending l' 4 ≡ sectors 4)
        × ((a : ℕ) → a ≢ 4 → Outside logged a → pending l' a ≡ pending logged a)
        × (s : ℕ) × (10 < s)
        × (s < 10 + 10)
        × (l'.writes ≡ [] ++ ((s, sectors 4) ∷ []))
        × ((a : ℕ) → a ≢ s → l'.cache a ≡ sectors a)
        × (l'.dirty 4 ≡ true))
log_write_lem_example = log_write_lem logged 4 logged-IsTransaction (inl (omega arith))

-- Thread 1 is in a transaction, and thread 2 sleeps on the log.
abbrev one_inside : Shared
one_inside =
    let s = goto 1 Place.tests (record (goto 1 Place.begins idle) { lock = true }) in
    goto 1 Place.inside
      (record (goto 1 Place.unlocks (record (goto 1 Place.sets s) { busy = true })) {
        lock = false;
      })

abbrev one_waits : Shared
one_waits =
    let s = goto 2 Place.tests (record (goto 2 Place.begins one_inside) { lock = true }) in
    goto 2 Place.sleeping (record s { lock = false })

Reach-one_inside : Reach one_inside
unfolding begin_trans
Reach-one_inside =
    let begun =
      Reach.later (Reach.later Reach.start (Step.begin_step 1 refl)) (Step.begin_step 1 refl) in
    Reach.later (Reach.later (Reach.later begun (Step.begin_step 1 refl)) (Step.begin_step 1 refl))
      (Step.begin_step 1 refl)

Reach-one_waits : Reach one_waits
unfolding begin_trans
Reach-one_waits =
    let called = Reach.later Reach-one_inside (Step.begin_step 2 refl) in
    Reach.later (Reach.later called (Step.begin_step 2 refl)) (Step.begin_step 2 refl)

begin_trans-exclusive_example :
    ((t u : ℕ) → one_waits.place t ≡ Place.inside → one_waits.place u ≡ Place.inside → t ≡ u)
    × ((t : ℕ) → one_waits.place t ≡ Place.inside → one_waits.busy ≡ true)
    × ((t : ℕ)
        → one_waits.place t ≡ Place.sleeping
        → one_waits.lock ≡ false
        → one_waits.busy ≡ true)
begin_trans-exclusive_example = begin_trans-exclusive Reach-one_waits
