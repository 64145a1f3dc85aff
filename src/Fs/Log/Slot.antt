-- ===== src/Fs/Log/Slot.antt =====
-- The place that log_write of kern/fs/log.c finds for a block in the transaction.
use os_audio.Base.{
  ℕ, zero, suc, ◌+◌, ◌-◌, ◌≤◌, ◌<◌, ◌≡◌, ◌≢◌, ◌⊎◌, inl, inr, refl, sym, ap, ◌∙◌, arith, true,
  if◌then◌else◌, ◌==◌, eq_false, eq_true,
}
use native.Mathlib.Decide.{ℕ_discrete}
use os_audio.Fs.Log.{Log, log_size, find_slot}
use os_audio.Fs.Log.Redo.{Sectors, redone, redone-cases}

-- The sectors outside the log.
abbrev pub Outside : (l : Log) (a : ℕ) → Type 0
Outside l a = (a < l.start) ⊎ (l.start + l.size ≤ a)

-- A transaction in memory: it fits into the log and into the header, and its homes are outside the
-- log and differ.
pub record IsTransaction (l : Log) : Type 0 where
  pub fits : l.lh.n ≤ l.size - 1
  pub header : l.lh.n ≤ log_size
  pub outside : (i : ℕ) → i < l.lh.n → Outside l (l.lh.sector i)
  pub apart : (i k : ℕ) → i < l.lh.n → k < l.lh.n → i ≢ k → l.lh.sector i ≢ l.lh.sector k

-- What every sector is once the transaction is committed.
abbrev pub pending : Log → Sectors
pending l = redone l.lh.n l.start l.lh.sector l.cache

pub redone-at :
    (k t start : ℕ) (sector : ℕ → ℕ) (d : Sectors)
    → ((i j : ℕ) → i < k → j < k → i ≢ j → sector i ≢ sector j)
    → t < k
    → redone k start sector d (sector t) ≡ d (start + t + 1)
redone-at k t start sector d apart lt = elim (redone-cases start sector k (sector t)) [
  | inl (i, low, e, at) ↦ elim (ℕ_discrete i t) [
    | yes same ↦ at d ∙ ap (λ j. d (start + j + 1)) same
    | no ne ↦ absurd (apart i t low lt ne (sym e))
  ]
  | inr (off, at) ↦ absurd (off t lt refl)
]

pub redone-off :
    (k start : ℕ) (sector : ℕ → ℕ) (d : Sectors) (a : ℕ)
    → ((t : ℕ) → t < k → a ≢ sector t)
    → redone k start sector d a ≡ d a
redone-off k start sector d a off = elim (redone-cases start sector k a) [
  | inl (t, lt, e, at) ↦ absurd (off t lt e)
  | inr (never, at) ↦ at d
]

-- The search ends at the first entry of `b`, or behind the last one.
record Slot (n i : ℕ) (sector : ℕ → ℕ) (b s : ℕ) : Type 0 where
  pub from : i ≤ s
  pub most : s ≤ n
  pub found : s < n → sector s ≡ b
  pub before : (t : ℕ) → i ≤ t → t < s → sector t ≢ b

find_slot_lem :
    (k i n : ℕ) (sector : ℕ → ℕ) (b : ℕ) → i + k ≡ n → Slot n i sector b (find_slot k i sector b)
unfolding find_slot
find_slot_lem zero i n sector b e = record {
  from = omega arith;
  most = omega arith;
  found = λ lt. absurd (omega arith);
  before = λ t ge lt. absurd (omega arith);
}
find_slot_lem (suc k) i n sector b e = elim (ℕ_discrete (sector i) b) [
  | yes same ↦
      let t : (sector i == b) ≡ true = rw same (eq_true b) in
      rw t (record {
        from = omega arith;
        most = omega arith;
        found = λ lt. same;
        before = λ t ge lt. absurd (omega arith);
      })
  | no ne ↦
      let rest = find_slot_lem k (i + 1) n sector b (omega arith) in
      rw (eq_false ne) (record {
        from = omega (arith, rest.from);
        most = rest.most;
        found = rest.found;
        before = λ t ge lt. elim (ℕ_discrete t i) [
          | yes here ↦ rw here ne
          | no later ↦ rest.before t (omega arith) lt
        ];
      })
]

-- The entry at `s` is that of `b`, new if it is behind the last one.
pub record Entry (l : Log) (b s n : ℕ) : Type 0 where
  pub place : s < n
  pub most : s ≤ l.lh.n
  pub grown : n ≤ l.lh.n + 1
  pub old : (t : ℕ) → t < n → t ≢ s → t < l.lh.n
  pub kept : (t : ℕ) → t < l.lh.n → t < n
  pub other : (t : ℕ) → t < l.lh.n → t ≢ s → l.lh.sector t ≢ b
  pub here : s < l.lh.n → l.lh.sector s ≡ b

pub slot-Entry :
    (l : Log) (b : ℕ)
    → IsTransaction l
    → let s = find_slot l.lh.n 0 l.lh.sector b in
      Entry l b s (if s == l.lh.n then l.lh.n + 1 else l.lh.n)
slot-Entry l b wf =
    let s : ℕ = find_slot l.lh.n 0 l.lh.sector b in
    let slot : Slot l.lh.n 0 l.lh.sector b s =
      find_slot_lem l.lh.n 0 l.lh.n l.lh.sector b (omega arith) in
    elim (ℕ_discrete s l.lh.n) [
      | yes e ↦
          rw (e, eq_true l.lh.n)
            (record {
              place = omega arith;
              most = omega arith;
              grown = omega arith;
              old = λ t lt ne. omega arith;
              kept = λ t lt. omega arith;
              other = λ t lt ne. slot.before t (omega arith) (omega (arith, e));
              here = λ lt. absurd (omega arith);
            })
      | no less ↦ rw (eq_false less) (record {
        place = omega (arith, slot.most);
        most = slot.most;
        grown = omega arith;
        old = λ t lt ne. lt;
        kept = λ t lt. lt;
        here = slot.found;
        other = λ t lt ne e.
            wf.apart t s lt (omega (arith, slot.most)) ne
              (e ∙ sym (slot.found (omega (arith, slot.most))));
      })
    ]
