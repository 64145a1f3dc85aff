-- ===== src/Fs/Log/Redo.antt =====
-- What the installation of a logged transaction makes of a disk, as a function of the sector.
use os_audio.Base.{
  ℕ, zero, suc, ◌+◌, ◌≤◌, ◌<◌, ◌≡◌, ◌≢◌, ◌⊎◌, inl, inr, refl, sym, ◌∙◌, arith, update, ◌==◌,
  if◌then◌else◌, eq_false, eq_true, update_ne,
}
use native.Mathlib.Decide.{ℕ_discrete}
use os_audio.Fs.Log.{Block}

abbrev pub Sectors : Type 0
Sectors = ℕ → Block

-- The first `k` logged blocks, of the log at `start`, in their home sectors; a later block of a
-- sector is the one that counts.
abbrev pub redone : (k start : ℕ) (sector : ℕ → ℕ) → Sectors → Sectors
redone zero start sector d a = d a
redone (suc k) start sector d a =
    if a == sector k then d (start + k + 1) else redone k start sector d a

-- The first `n` homes are outside the log's header and its first `n` blocks.
abbrev pub Apart : (n start : ℕ) (sector : ℕ → ℕ) → Type 0
Apart n start sector = (i t : ℕ) → i < n → t ≤ n → sector i ≢ start + t

module _ (start : ℕ) (sector : ℕ → ℕ) where
  -- A sector is the home of a block, whatever the disk, or it is not.
  pub redone-cases :
      (k a : ℕ)
      → ((t : ℕ) × (t < k)
          × (a ≡ sector t)
          × ((d : Sectors) → redone k start sector d a ≡ d (start + t + 1)))
        ⊎ (((t : ℕ) → t < k → a ≢ sector t) × ((d : Sectors) → redone k start sector d a ≡ d a))
  redone-cases zero a = inr (λ t h e. absurd (omega arith), λ d. refl)
  redone-cases (suc k) a = elim (ℕ_discrete a (sector k)) [
    | yes e ↦ inl (k, omega arith, e, λ d. rw (e, eq_true (sector k)) refl)
    | no ne ↦ elim (redone-cases k a) [
      | inl (t, lt, e, at) ↦ inl (t, omega (arith, lt), e, λ d. rw (eq_false ne) (at d))
      | inr (off, at) ↦ inr (
        λ t h. elim (ℕ_discrete t k) [ yes e ↦ rw e ne | no other ↦ off t (omega arith) ],
        λ d. rw (eq_false ne) (at d),
      )
    ]
  ]

  -- The header and the logged blocks are not written.
  pub redone-log :
      (n k t : ℕ) (d : Sectors)
      → Apart n start sector
      → k ≤ n
      → t ≤ n
      → redone k start sector d (start + t) ≡ d (start + t)
  redone-log n k t d apart le small = elim (redone-cases k (start + t)) [
    | inl (i, lt, e, at) ↦ absurd (apart i t (omega arith) small (sym e))
    | inr (off, at) ↦ at d
  ]

  -- Blocks that were installed may be installed again.
  pub redone-redone :
      (n k : ℕ) (d : Sectors) (a : ℕ)
      → Apart n start sector
      → k ≤ n
      → redone n start sector (redone k start sector d) a ≡ redone n start sector d a
  redone-redone n k d a apart le = elim (redone-cases n a) [
    | inl (t, lt, e, at) ↦
        let f : start + t + 1 ≡ start + (t + 1) = omega arith in
        at (redone k start sector d)
        ∙ (rw f (redone-log n k (t + 1) d apart le (omega arith)) ∙ sym (at d))
    | inr (off, at) ↦
        at (redone k start sector d)
        ∙ (elim (redone-cases k a) [
          | inl (t, lt, e, was) ↦ absurd (off t (omega arith) e)
          | inr (never, was) ↦ was d
        ]
            ∙ sym (at d))
  ]

  -- A change of the header is no change of what is installed elsewhere.
  pub redone-update :
      (n k : ℕ) (d : Sectors) (h : Block) (a : ℕ)
      → Apart n start sector
      → k ≤ n
      → a ≢ start
      → redone k start sector (update d start h) a ≡ redone k start sector d a
  redone-update n zero d h a apart le ne = update_ne d h ne
  redone-update n (suc k) d h a apart le ne = elim (ℕ_discrete a (sector k)) [
    | yes e ↦
        let f : start + k + 1 ≢ start = omega arith in rw (e, eq_true (sector k)) (update_ne d h f)
    | no other ↦ rw (eq_false other) (redone-update n k d h a apart (omega arith) ne)
  ]

-- Only the first `k` sector numbers count.
pub redone-sectors :
    (k start : ℕ) (sector sector' : ℕ → ℕ) (d : Sectors) (a : ℕ)
    → ((i : ℕ) → i < k → sector' i ≡ sector i)
    → redone k start sector' d a ≡ redone k start sector d a
redone-sectors zero start sector sector' d a same = refl
redone-sectors (suc k) start sector sector' d a same =
    rw
      (
        same k (omega arith),
        redone-sectors k start sector sector' d a (λ i h. same i (omega arith)),
      )
      refl
