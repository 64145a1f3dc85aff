-- ===== src/Fs/Log/Commit.antt =====
-- recover_from_log and commit_trans of kern/fs/log.c, run to their end and cut off.
use os_audio.Base.{ℕ, ◌<◌, ◌≤◌, ◌≡◌, ◌≢◌, refl, sym, ◌∙◌, List, ◌++◌, if◌then◌else◌, ◌==◌}
use os_audio.Fs.Log.{log_size, Block, Log, read_head, read_sectors, recover_from_log}
use os_audio.Fs.Log.Redo.{Sectors, redone, Apart, redone-sectors}
use os_audio.Fs.Log.Install.{sectors-read}
use os_audio.Fs.Log.Recovery.{crash, homes, logical, Finished, finish}

read_head-Finished :
    (l : Log)
    → Apart (l.cache l.start 0) l.start (homes (l.cache l.start))
    → Finished (read_head l) (recover_from_log l)
unfolding read_head recover_from_log
read_head-Finished l apart = finish (read_head l) (λ i t lt le e.
    apart i t lt le (sym (sectors-read (l.cache l.start 0) i (l.cache l.start) l.lh.sector lt) ∙ e))

-- `recover_from_log`, whatever the log in memory, where the header on the disk names at most
-- LOGSIZE sectors and none of the log itself: it leaves an empty log, in memory and on the disk, and every sector but the
-- header with the content that the log found there gives to it. Cut off after any number of its
-- writes, it leaves a disk from which a further recovery makes the same.
pub recover_from_log_lem :
    (l : Log)
    → l.cache l.start 0 ≤ log_size
    → Apart (l.cache l.start 0) l.start (homes (l.cache l.start))
    → let l' = recover_from_log l in
      (l'.lh.n ≡ 0)
      × (l'.cache l.start 0 ≡ 0)
      × ((a : ℕ) → a ≢ l.start → l'.cache a ≡ logical l.start l.cache a)
      × (ws : List (ℕ × Block)) × (l'.writes ≡ l.writes ++ ws)
      × ((j a : ℕ)
          → a ≢ l.start
          → logical l.start (crash j ws l.cache) a ≡ logical l.start l.cache a)
unfolding read_head
recover_from_log_lem l fits apart =
    let n : ℕ = l.cache l.start 0 in
    let h : Block = l.cache l.start in
    let f = read_head-Finished l apart in
    let same : (i : ℕ) → i < n → read_sectors n h l.lh.sector i ≡ homes h i =
      λ i lt. sectors-read n i h l.lh.sector lt in
    let agree =
      λ (a : ℕ). redone-sectors n l.start (homes h) (read_sectors n h l.lh.sector) l.cache a same in
    (
      f.erased,
      f.header0,
      λ a ne. f.shows a ne ∙ agree a,
      f.ws,
      f.put,
      λ j a ne.
          f.safe l.cache (λ i lt. refl) (record { count = refl; names = λ i lt. sym (same i lt) }) j
            a ne
          ∙ agree a,
    )

-- What commit_trans did to the buffer cache and to a disk `e`.
record Committed (l : Log) (e : Sectors) (l' : Log) : Type 0 where
  pub erased : l'.lh.n ≡ 0
  pub shows : (a : ℕ) → a ≢ l.start → l'.cache a ≡ redone l.lh.n l.start l.lh.sector l.cache a
  pub ws : List (ℕ × Block)
  pub put : l'.writes ≡ l.writes ++ ws
  pub safe :
      (j a : ℕ)
      → a ≢ l.start
      → logical l.start (crash j ws e) a
        ≡ (if j == 0 then e a else redone l.lh.n l.start l.lh.sector e a)
