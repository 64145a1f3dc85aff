-- ===== src/Fs/Log/Write.antt =====
-- log_write of kern/fs/log.c: what it makes of the pending transaction.
use os_audio.Base.{
  eq_of_some, subst, ℕ, ◌+◌, ◌-◌, ◌≤◌, ◌<◌, ◌≡◌, ◌≢◌, ◌⊎◌, inl, inr, refl, sym, ap, ◌∙◌, arith,
  update, [], ◌∷◌, ◌++◌, update_self, update_ne, Bool-cases, leb, true, false, ◌||◌, none, some,
  if◌then◌else◌, ◌==◌,
}
use native.Mathlib.Decide.{ℕ_discrete}
use os_audio.Fs.Log.{Log, log_size, write_sector, find_slot, log_write}
use os_audio.Fs.Log.Redo.{Sectors, redone, redone-cases}
use os_audio.Fs.Log.Slot.{Outside, IsTransaction, pending, redone-at, redone-off, Entry, slot-Entry}

-- The transaction with the block of `b` at the entry `s`, of `n` entries.
abbrev with_entry : (l : Log) (b s n : ℕ) → Log
with_entry l b s n =
    let l1 = record l { lh = record { n = n; sector = update l.lh.sector s b } } in
    let l2 = write_sector l1 (l.start + s + 1) (l.cache b) in
    record l2 { dirty = update l2.dirty b true }

module _ (l : Log) (b s n : ℕ) (wf : IsTransaction l) (entry : Entry l b s n) where
  entry-apart :
      (i k : ℕ) → i < n → k < n → i ≢ k → update l.lh.sector s b i ≢ update l.lh.sector s b k
  entry-apart i k low lk ne e = elim (ℕ_discrete i s) [
    | yes here ↦
        let kn : k ≢ s = omega arith in
        entry.other k (entry.old k lk kn) kn
          (sym (update_ne l.lh.sector b kn) ∙ (sym e ∙ rw here (update_self l.lh.sector s b)))
    | no jn ↦ elim (ℕ_discrete k s) [
      | yes here ↦
          entry.other i (entry.old i low jn) jn
            (sym (update_ne l.lh.sector b jn) ∙ (e ∙ rw here (update_self l.lh.sector s b)))
      | no kn ↦
          wf.apart i k (entry.old i low jn) (entry.old k lk kn) ne
            (sym (update_ne l.lh.sector b jn) ∙ (e ∙ update_ne l.lh.sector b kn))
    ]
  ]

  entry-IsTransaction :
      Outside l b → n ≤ l.size - 1 → n ≤ log_size → IsTransaction (with_entry l b s n)
  unfolding write_sector
  entry-IsTransaction out fits small = record {
    fits = fits;
    header = small;
    outside = λ i lt. elim (ℕ_discrete i s) [
      | yes e ↦ rw (e, update_self l.lh.sector s b) out
      | no ne ↦ rw (update_ne l.lh.sector b ne) (wf.outside i (entry.old i lt ne))
    ];
    apart = entry-apart;
  }

  entry_self : pending (with_entry l b s n) b ≡ l.cache b
  unfolding write_sector
  entry_self =
      let d : Sectors = update l.cache (l.start + s + 1) (l.cache b) in
      let at : redone n l.start (update l.lh.sector s b) d (update l.lh.sector s b s)
          ≡ d (l.start + s + 1) =
        redone-at n s l.start (update l.lh.sector s b) d entry-apart entry.place in
      rw (update_self l.lh.sector s b) at at ∙ update_self l.cache (l.start + s + 1) (l.cache b)

  entry_other :
      (a : ℕ) → a ≢ b → Outside l a → s < l.size - 1 → pending (with_entry l b s n) a ≡ pending l a
  unfolding write_sector
  entry_other a ne out small = elim (redone-cases l.start l.lh.sector l.lh.n a) [
    | inl (t, lt, e, at) ↦
        let ts : t ≢ s = λ same. ne (e ∙ (ap l.lh.sector same ∙ entry.here (rw same at lt))) in
        let d : Sectors = update l.cache (l.start + s + 1) (l.cache b) in
        let sec : ℕ → ℕ = update l.lh.sector s b in
        let a_at : sec t ≡ a = update_ne l.lh.sector b ts ∙ sym e in
        let now : redone n l.start sec d (sec t) ≡ d (l.start + t + 1) =
          redone-at n t l.start sec d entry-apart (entry.kept t lt) in
        sym (ap (redone n l.start sec d) a_at)
        ∙ (now ∙ (update_ne l.cache (l.cache b) (omega arith) ∙ sym (at l.cache)))
    | inr (off, at) ↦
        redone-off n l.start (update l.lh.sector s b) (update l.cache (l.start + s + 1) (l.cache b))
          a
          (λ t lt. elim (ℕ_discrete t s) [
            | yes e ↦ rw (e, update_self l.lh.sector s b) ne
            | no ts ↦ rw (update_ne l.lh.sector b ts) (off t (entry.old t lt ts))
          ])
        ∙ (update_ne l.cache (l.cache b) (omega (arith, out)) ∙ sym (at l.cache))
  ]

log_write-full :
    (l : Log) (b : ℕ)
    → (leb log_size l.lh.n || leb (l.size - 1) l.lh.n) ≡ true
    → log_write l b ≡ none
unfolding log_write
log_write-full l b full = rw full refl

log_write-idle :
    (l : Log) (b : ℕ)
    → (leb log_size l.lh.n || leb (l.size - 1) l.lh.n) ≡ false
    → l.busy ≡ false
    → log_write l b ≡ none
unfolding log_write
log_write-idle l b room idle = rw (room, idle) refl

log_write-some :
    (l : Log) (b : ℕ)
    → (leb log_size l.lh.n || leb (l.size - 1) l.lh.n) ≡ false
    → l.busy ≡ true
    → let s = find_slot l.lh.n 0 l.lh.sector b in
      log_write l b ≡ some (with_entry l b s (if s == l.lh.n then l.lh.n + 1 else l.lh.n))
unfolding log_write
log_write-some l b room busy = rw (room, busy) refl

-- What log_write leaves alone.
pub log_write-fields :
    (l l' : Log) (b : ℕ)
    → IsTransaction l
    → l.lh.n < log_size
    → l.lh.n < l.size - 1
    → l.busy ≡ true
    → log_write l b ≡ some l'
    → (l'.start ≡ l.start) × (l'.size ≡ l.size) × (l'.busy ≡ l.busy) × (l'.lh.n ≤ l.lh.n + 1)
unfolding write_sector
log_write-fields l l' b wf small fits busy e =
    let room : (leb log_size l.lh.n || leb (l.size - 1) l.lh.n) ≡ false = ground arith in
    let same = eq_of_some (sym (log_write-some l b room busy) ∙ e) in
    let entry = slot-Entry l b wf in
    (
      sym (ap Log.start same),
      sym (ap Log.size same),
      sym (ap Log.busy same),
      subst (λ x. x.lh.n ≤ l.lh.n + 1) same entry.grown,
    )

log_write-logged :
    (l : Log) (b : ℕ)
    → IsTransaction l
    → Outside l b
    → (leb log_size l.lh.n || leb (l.size - 1) l.lh.n) ≡ false
    → l.busy ≡ true
    → (l' : Log) × (log_write l b ≡ some l')
      × IsTransaction l'
      × (pending l' b ≡ l.cache b)
      × ((a : ℕ) → a ≢ b → Outside l a → pending l' a ≡ pending l a)
      × (s : ℕ) × (l.start < s)
      × (s < l.start + l.size)
      × (l'.writes ≡ l.writes ++ ((s, l.cache b) ∷ []))
      × ((a : ℕ) → a ≢ s → l'.cache a ≡ l.cache a)
      × (l'.dirty b ≡ true)
unfolding write_sector
log_write-logged l b wf out room busy =
    let s : ℕ = find_slot l.lh.n 0 l.lh.sector b in
    let n : ℕ = if s == l.lh.n then l.lh.n + 1 else l.lh.n in
    let entry : Entry l b s n = slot-Entry l b wf in
    let low : (l.lh.n < log_size) × (l.lh.n < l.size - 1) = ground arith in
    (
      with_entry l b s n,
      log_write-some l b room busy,
      entry-IsTransaction l b s n wf entry out (omega (arith, entry.grown, low))
          (omega (arith, entry.grown, low)),
      entry_self l b s n wf entry,
      λ a ne off. entry_other l b s n wf entry a ne off (omega (arith, entry.most, low)),
      l.start + s + 1,
      omega arith,
      omega (arith, entry.most, low),
      refl,
      λ a ne. update_ne l.cache (l.cache b) ne,
      update_self (update l.dirty (l.start + s + 1) false) b true,
    )

-- `log_write`, in a transaction, of a block `b` outside the log. It panics exactly if the log or the
-- header is full, or no transaction was begun. Otherwise the transaction, which is still well formed,
-- gives `b` the content of its buffer, whether or not it had one logged before, and every other
-- sector outside the log what it gave before; one block is written, in the log and behind its
-- header, no buffer of a sector outside the log changes its content, and the buffer of `b` stays in
-- the cache.
pub log_write_lem :
    (l : Log) (b : ℕ)
    → IsTransaction l
    → Outside l b
    → ((log_write l b ≡ none) × ((log_size ≤ l.lh.n) ⊎ ((l.size - 1 ≤ l.lh.n) ⊎ (l.busy ≡ false))))
      ⊎ ((l.lh.n < log_size)
          × (l.lh.n < l.size - 1)
          × (l.busy ≡ true)
          × (l' : Log) × (log_write l b ≡ some l')
          × IsTransaction l'
          × (pending l' b ≡ l.cache b)
          × ((a : ℕ) → a ≢ b → Outside l a → pending l' a ≡ pending l a)
          × (s : ℕ) × (l.start < s)
          × (s < l.start + l.size)
          × (l'.writes ≡ l.writes ++ ((s, l.cache b) ∷ []))
          × ((a : ℕ) → a ≢ s → l'.cache a ≡ l.cache a)
          × (l'.dirty b ≡ true))
log_write_lem l b wf out = elim (Bool-cases (leb log_size l.lh.n || leb (l.size - 1) l.lh.n)) [
  | inl full ↦ inl (log_write-full l b full, ground arith)
  | inr room ↦ elim (Bool-cases l.busy) [
    | inr idle ↦ inl (log_write-idle l b room idle, inr (inr idle))
    | inl busy ↦
        let (l', done, wf', self, others, s, low, high, put, same, dirty) =
          log_write-logged l b wf out room busy in
        inr (
          ground arith,
          ground arith,
          busy,
          l',
          done,
          wf',
          self,
          others,
          s,
          low,
          high,
          put,
          same,
          dirty,
        )
  ]
]
