-- ===== src/Fs/Log/Install.antt =====
-- The writes of install_trans and of write_head, and what the cache shows after them.
use os_audio.Base.{
  ℕ, zero, suc, ◌+◌, ◌<◌, ◌≡◌, refl, sym, ap, ◌∙◌, arith, update, fun_ext, List, [], ◌∷◌, ◌++◌,
  append_assoc, update_self, update_ne, append-nil,
}
use native.Mathlib.Decide.{ℕ_discrete}
use os_audio.Fs.Log.{
  Block, Log, write_sector, install_loop, install_trans, read_sectors, write_sectors, write_head,
}
use os_audio.Fs.Log.Redo.{Sectors, redone, Apart, redone-log}

-- The writes of the installation of blocks `t` to `t + k - 1`, from the disk `d`.
abbrev pub installs : (k t start : ℕ) (sector : ℕ → ℕ) → Sectors → List (ℕ × Block)
installs zero t start sector d = []
installs (suc k) t start sector d =
    (sector t, d (start + t + 1)) ∷ installs k (t + 1) start sector d

-- `l'` is `l` but for the buffer cache, which shows `d`, after the further writes `ws`.
pub record Wrote (l : Log) (d : Sectors) (ws : List (ℕ × Block)) (l' : Log) : Type 0 where
  pub start : l'.start ≡ l.start
  pub size : l'.size ≡ l.size
  pub lh : l'.lh ≡ l.lh
  pub shows : l'.cache ≡ d
  pub put : l'.writes ≡ l.writes ++ ws

pub redone-suc :
    (n t start : ℕ) (sector : ℕ → ℕ) (d : Sectors)
    → Apart n start sector
    → t < n
    → update (redone t start sector d) (sector t) (redone t start sector d (start + t + 1))
      ≡ redone (suc t) start sector d
redone-suc n t start sector d apart lt =
    let e : start + t + 1 ≡ start + (t + 1) = omega arith in
    rw (e, redone-log start sector n t (t + 1) d apart (omega arith) (omega arith))
      (fun_ext (λ a. rw e refl))

install_loop_lem :
    (k t n : ℕ) (l : Log) (d : Sectors)
    → l.cache ≡ redone t l.start l.lh.sector d
    → Apart n l.start l.lh.sector
    → t + k ≡ n
    → Wrote l
        (redone n l.start l.lh.sector d)
        (installs k t l.start l.lh.sector d)
        (install_loop k t l)
unfolding install_loop write_sector
install_loop_lem zero t n l d shown apart e =
    let f : t ≡ n = omega arith in
    record {
      start = refl;
      size = refl;
      lh = refl;
      shows = shown ∙ ap (λ i. redone i l.start l.lh.sector d) f;
      put = sym (append-nil l.writes);
    }
install_loop_lem (suc k) t n l d shown apart e =
    let v : Block = l.cache (l.start + t + 1) in
    let same : v ≡ d (l.start + t + 1) =
      let f : l.start + t + 1 ≡ l.start + (t + 1) = omega arith in
      ap (λ c. c (l.start + t + 1)) shown
      ∙ rw f (redone-log l.start l.lh.sector n t (t + 1) d apart (omega arith) (omega arith)) in
    let l1 : Log = write_sector l (l.lh.sector t) v in
    let one : suc t ≡ t + 1 = omega arith in
    let shown1 : l1.cache ≡ redone (t + 1) l.start l.lh.sector d =
      ap (λ c. update c (l.lh.sector t) (c (l.start + t + 1))) shown
      ∙ (redone-suc n t l.start l.lh.sector d apart (omega arith)
          ∙ ap (λ i. redone i l.start l.lh.sector d) one) in
    let rest = install_loop_lem k (t + 1) n l1 d shown1 apart (omega arith) in
    record {
      start = rest.start;
      size = rest.size;
      lh = rest.lh;
      shows = rest.shows;
      put =
          rest.put
          ∙ (append_assoc l.writes ((l.lh.sector t, v) ∷ [])
                (installs k (t + 1) l.start l.lh.sector d)
              ∙ ap
                  (λ b. l.writes ++ ((l.lh.sector t, b) ∷ installs k (t + 1) l.start l.lh.sector d))
                  same);
    }

pub install_trans_lem :
    (l : Log)
    → Apart l.lh.n l.start l.lh.sector
    → Wrote l
        (redone l.lh.n l.start l.lh.sector l.cache)
        (installs l.lh.n 0 l.start l.lh.sector l.cache)
        (install_trans l)
unfolding install_trans
install_trans_lem l apart = install_loop_lem l.lh.n 0 l.lh.n l l.cache refl apart (omega arith)

-- The header block that write_head makes of the block `h`: the first words are the count and the
-- sector numbers.
abbrev pub header : (n : ℕ) (sector : ℕ → ℕ) → Block → Block
header n sector h = write_sectors n sector (update h 0 n)

pub write_head_lem :
    (l : Log)
    → Wrote l
        (update l.cache l.start (header l.lh.n l.lh.sector (l.cache l.start)))
        ((l.start, header l.lh.n l.lh.sector (l.cache l.start)) ∷ [])
        (write_head l)
unfolding write_head write_sector
write_head_lem l = record { start = refl; size = refl; lh = refl; shows = refl; put = refl }

count-kept : (k : ℕ) (sector : ℕ → ℕ) (h : Block) → write_sectors k sector h 0 ≡ h 0
unfolding write_sectors
count-kept zero sector h = refl
count-kept (suc k) sector h =
    update_ne (write_sectors k sector h) (sector k) (omega arith) ∙ count-kept k sector h

pub header-count : (n : ℕ) (sector : ℕ → ℕ) (h : Block) → header n sector h 0 ≡ n
header-count n sector h = count-kept n sector (update h 0 n) ∙ update_self h 0 n

sectors-written :
    (k i : ℕ) (sector : ℕ → ℕ) (h : Block) → i < k → write_sectors k sector h (i + 1) ≡ sector i
unfolding write_sectors
sectors-written zero i sector h lt = absurd (omega arith)
sectors-written (suc k) i sector h lt = elim (ℕ_discrete i k) [
  | yes e ↦ rw e (update_self (write_sectors k sector h) (k + 1) (sector k))
  | no ne ↦
      update_ne (write_sectors k sector h) (sector k) (omega arith)
      ∙ sectors-written k i sector h (omega arith)
]

pub header-sector :
    (n i : ℕ) (sector : ℕ → ℕ) (h : Block) → i < n → header n sector h (i + 1) ≡ sector i
header-sector n i sector h lt = sectors-written n i sector (update h 0 n) lt

pub sectors-read :
    (k i : ℕ) (block : Block) (sector : ℕ → ℕ)
    → i < k
    → read_sectors k block sector i ≡ block (i + 1)
unfolding read_sectors
sectors-read zero i block sector lt = absurd (omega arith)
sectors-read (suc k) i block sector lt = elim (ℕ_discrete i k) [
  | yes e ↦ rw e (update_self (read_sectors k block sector) k (block (k + 1)))
  | no ne ↦
      update_ne (read_sectors k block sector) (block (k + 1)) ne
      ∙ sectors-read k i block sector (omega arith)
]
