-- ===== src/Fs/Log/Recovery.antt =====
-- What a disk means when its log is taken into account, and that recover_from_log and commit_trans,
-- cut off after any of their writes, leave a disk with the right meaning.
use os_audio.Base.{
  ℕ, zero, suc, ◌+◌, ◌<◌, ◌≡◌, ◌≢◌, refl, sym, ap, ◌∙◌, arith, update, List, [], ◌∷◌, ◌++◌,
  update_self, update_ne, append_assoc, fun_ext,
}
use os_audio.Fs.Log.{Block, Log, LogHeader, install_trans, write_head, clear}
use os_audio.Fs.Log.Redo.{Sectors, redone, Apart, redone-log, redone-redone, redone-sectors}
use os_audio.Fs.Log.Install.{
  installs, install_trans_lem, header, write_head_lem, header-count, header-sector,
}

-- The disk after the first `j` of the writes.
abbrev pub crash : (j : ℕ) → List (ℕ × Block) → Sectors → Sectors
crash zero ws d = d
crash (suc j) [] d = d
crash (suc j) ((a, b) ∷ ws) d = crash j ws (update d a b)

-- The sector numbers in a header block.
abbrev pub homes : Block → ℕ → ℕ
homes h i = h (i + 1)

-- What the sectors outside the log stand for: a transaction whose header is on the disk counts.
abbrev pub logical : (start : ℕ) → Sectors → Sectors
logical start d = redone (d start 0) start (homes (d start)) d

-- The header on the disk names the first `n` of `sector`.
pub record Holds (start n : ℕ) (sector : ℕ → ℕ) (d : Sectors) : Type 0 where
  pub count : d start 0 ≡ n
  pub names : (i : ℕ) → i < n → d start (i + 1) ≡ sector i

Holds-logical :
    {start n : ℕ} {sector : ℕ → ℕ} (d e : Sectors) (a : ℕ)
    → Holds start n sector d
    → e start ≡ d start
    → logical start e a ≡ redone n start sector e a
Holds-logical {start = start} {n = n} {sector = sector} d e a h same =
    rw (same, h.count) (redone-sectors n start sector (homes (d start)) e a h.names)

pub empty-logical : (start : ℕ) (d : Sectors) (a : ℕ) → d start 0 ≡ 0 → logical start d a ≡ d a
empty-logical start d a e = rw e refl

pub crash-nil : (j : ℕ) (d : Sectors) → crash j [] d ≡ d
crash-nil zero d = refl
crash-nil (suc j) d = refl

redone-step :
    (t start : ℕ) (sector : ℕ → ℕ) (d : Sectors)
    → update (redone t start sector d) (sector t) (d (start + t + 1))
      ≡ redone (t + 1) start sector d
redone-step t start sector d = let one : t + 1 ≡ suc t = omega arith in rw one (fun_ext (λ a. refl))

-- Cut off anywhere, the installation and the erasure of the header keep the meaning.
crash-installs :
    (j k t n start : ℕ) (sector : ℕ → ℕ) (d : Sectors) (h : Block) (a : ℕ)
    → Apart n start sector
    → Holds start n sector d
    → h 0 ≡ 0
    → t + k ≡ n
    → a ≢ start
    → logical start
        (crash j (installs k t start sector d ++ ((start, h) ∷ [])) (redone t start sector d))
        a
      ≡ redone n start sector d a
crash-installs zero k t n start sector d h a apart holds empty e ne =
    let z : start + 0 ≡ start = omega arith in
    let same : redone t start sector d start ≡ d start =
      rw z at (redone-log start sector n t 0 d apart (omega arith) (omega arith)) in
    Holds-logical d (redone t start sector d) a holds same
    ∙ redone-redone start sector n t d a apart (omega arith)
crash-installs (suc j) zero t n start sector d h a apart holds empty e ne =
    let f : t ≡ n = omega arith in
    let out : Sectors = update (redone t start sector d) start h in
    let cleared : out start 0 ≡ 0 =
      ap (λ b. b 0) (update_self (redone t start sector d) start h) ∙ empty in
    rw (crash-nil j out) (
      empty-logical start out a cleared
      ∙ (update_ne (redone t start sector d) h ne ∙ ap (λ i. redone i start sector d a) f))
crash-installs (suc j) (suc k) t n start sector d h a apart holds empty e ne =
    rw (redone-step t start sector d)
      (crash-installs j k (t + 1) n start sector d h a apart holds empty (omega arith) ne)

installs-same :
    (k t start : ℕ) (sector : ℕ → ℕ) (d e : Sectors)
    → ((i : ℕ) → i < t + k → d (start + i + 1) ≡ e (start + i + 1))
    → installs k t start sector d ≡ installs k t start sector e
installs-same zero t start sector d e same = refl
installs-same (suc k) t start sector d e same =
    rw
      (same t (omega arith), installs-same k (t + 1) start sector d e (λ i h. same i (omega arith)))
      refl

pub header-Holds :
    (start n : ℕ) (sector : ℕ → ℕ) (d : Sectors) (h : Block)
    → Holds start n sector (update d start (header n sector h))
header-Holds start n sector d h = record {
  count = rw (update_self d start (header n sector h)) (header-count n sector h);
  names = λ i lt. rw (update_self d start (header n sector h)) (header-sector n i sector h lt);
}

-- The installation and the erasure of a log header that holds the homes.
pub record Finished (l l' : Log) : Type 0 where
  pub ws : List (ℕ × Block)
  pub put : l'.writes ≡ l.writes ++ ws
  pub erased : l'.lh.n ≡ 0
  pub start : l'.start ≡ l.start
  pub header0 : l'.cache l.start 0 ≡ 0
  pub shows : (a : ℕ) → a ≢ l.start → l'.cache a ≡ redone l.lh.n l.start l.lh.sector l.cache a
  pub safe :
      (e : Sectors)
      → ((i : ℕ) → i < l.lh.n → e (l.start + i + 1) ≡ l.cache (l.start + i + 1))
      → Holds l.start l.lh.n l.lh.sector e
      → (j a : ℕ) → a ≢ l.start
      → logical l.start (crash j ws e) a ≡ redone l.lh.n l.start l.lh.sector e a

pub finish :
    (l : Log) → Apart l.lh.n l.start l.lh.sector → Finished l (write_head (clear (install_trans l)))
unfolding clear
finish l apart =
    let n : ℕ = l.lh.n in
    let st : ℕ = l.start in
    let sec : ℕ → ℕ = l.lh.sector in
    let l1 : Log = install_trans l in
    let i = install_trans_lem l apart in
    let l2 : Log = clear l1 in
    let w = write_head_lem l2 in
    let h : Block = header 0 l1.lh.sector (l1.cache l1.start) in
    let h0 : h 0 ≡ 0 = header-count 0 l1.lh.sector (l1.cache l1.start) in
    let shown : (write_head l2).cache ≡ update (redone n st sec l.cache) st h =
      w.shows
      ∙ (ap (λ c. update c l1.start h) i.shows
          ∙ ap (λ s. update (redone n st sec l.cache) s h) i.start) in
    record {
      ws = installs n 0 st sec l.cache ++ ((st, h) ∷ []);
      put =
          w.put
          ∙ (ap (λ s. l1.writes ++ ((s, h) ∷ [])) i.start
              ∙ (ap (λ x. x ++ ((st, h) ∷ [])) i.put
                  ∙ append_assoc l.writes (installs n 0 st sec l.cache) ((st, h) ∷ [])));
      erased = ap LogHeader.n w.lh;
      start = w.start ∙ i.start;
      header0 =
          ap (λ c. c st 0) shown
          ∙ (ap (λ b. b 0) (update_self (redone n st sec l.cache) st h) ∙ h0);
      shows = λ a ne. ap (λ c. c a) shown ∙ update_ne (redone n st sec l.cache) h ne;
      safe = λ e same holds j a ne.
          rw (sym (installs-same n 0 st sec e l.cache (λ i lt. same i (omega arith))))
            (crash-installs j n 0 n st sec e h a apart holds h0 (omega arith) ne);
    }
