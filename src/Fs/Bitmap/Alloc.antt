-- ===== src/Fs/Bitmap/Alloc.antt =====
-- block_alloc of kern/fs/block.c: the first free block, marked and zeroed in the transaction.
use os_audio.Base.{
  ℕ, zero, suc, ◌+◌, ◌-◌, ◌%◌, ◌≤◌, ◌<◌, ◌≡◌, ◌≢◌, ◌⊎◌, inl, inr, refl, sym, ◌∙◌, arith, Bool, true,
  false, none, some, update, update_self, update_ne, Bool-cases,
}
use native.Mathlib.Decide.{ℕ_discrete}
use os_audio.Fs.Log.{Block, Log, log_size, log_write}
use os_audio.Fs.Log.Redo.{redone-cases}
use os_audio.Fs.Log.Slot.{Outside, IsTransaction, pending}
use os_audio.Fs.Log.Write.{log_write_lem, log_write-fields}
use os_audio.Fs.Bitmap.{
  bpb, bblock, modify, block_zero, Allocation, is_free, mark, find_free, take_block,
}

-- Room for `k` more blocks, in a transaction that was begun.
pub record HasRoom (l : Log) (k : ℕ) : Type 0 where
  pub begun : l.busy ≡ true
  pub header : l.lh.n + k ≤ log_size
  pub log : l.lh.n + k ≤ l.size - 1

pub modify-IsTransaction :
    (l : Log) (a : ℕ) (v : Block) → IsTransaction l → IsTransaction (modify l a v)
modify-IsTransaction l a v wf = record {
  fits = wf.fits;
  header = wf.header;
  outside = wf.outside;
  apart = wf.apart;
}

-- A change of a buffer outside the log is seen in its own sector at most.
modify-pending :
    (l : Log) (a x : ℕ) (v : Block)
    → IsTransaction l
    → Outside l a
    → x ≢ a
    → pending (modify l a v) x ≡ pending l x
modify-pending l a x v wf out ne = elim (redone-cases l.start l.lh.sector l.lh.n x) [
  | inl (t, lt, e, at) ↦
      at (update l.cache a v)
      ∙ (update_ne l.cache v (omega (arith, out, lt, wf.fits)) ∙ sym (at l.cache))
  | inr (off, at) ↦ at (update l.cache a v) ∙ (update_ne l.cache v ne ∙ sym (at l.cache))
]

pub not_busy : {x : Bool} → x ≡ true → x ≢ false
not_busy t f = cc

no_reason :
    (l : Log) (k : ℕ)
    → HasRoom l (suc k)
    → ¬ ((log_size ≤ l.lh.n) ⊎ ((l.size - 1 ≤ l.lh.n) ⊎ (l.busy ≡ false)))
no_reason l k room (inl full) = omega (arith, room.header, full)
no_reason l k room (inr (inl full)) = omega (arith, room.log, full)
no_reason l k room (inr (inr idle)) = not_busy room.begun idle

keep-Outside :
    (l l' : Log) (x : ℕ) → l'.start ≡ l.start → l'.size ≡ l.size → Outside l x → Outside l' x
keep-Outside l l' x st sz (inl lt) = inl (omega (arith, lt, st))
keep-Outside l l' x st sz (inr ge) = inr (omega (arith, ge, st, sz))

-- A block written in a transaction with room for it.
pub record Logged (l : Log) (a k : ℕ) (v : Block) (l' : Log) : Type 0 where
  pub wf : IsTransaction l'
  pub room : HasRoom l' k
  pub start : l'.start ≡ l.start
  pub size : l'.size ≡ l.size
  pub self : pending l' a ≡ v
  pub others : (x : ℕ) → x ≢ a → Outside l x → pending l' x ≡ pending l x

pub write_block :
    (l : Log) (a k : ℕ) (v : Block)
    → IsTransaction l
    → HasRoom l (suc k)
    → Outside l a
    → (l' : Log) × (log_write (modify l a v) a ≡ some l') × Logged l a k v l'
write_block l a k v wf room out =
    let m : Log = modify l a v in
    let wfm = modify-IsTransaction l a v wf in
    elim (log_write_lem m a wfm out) [
      | inl (stuck, why) ↦ absurd (no_reason l k room why)
      | inr (_, _, _, l', done, wf', self, others, s, lo, hi, put, same, dirty) ↦
          let (st, sz, busy, grown) =
            log_write-fields m l' a wfm (omega (arith, room.header)) (omega (arith, room.log))
              room.begun done in
          (
            l',
            done,
            record {
              wf = wf';
              room = record {
                begun = busy ∙ room.begun;
                header = omega (arith, grown, room.header);
                log = omega (arith, grown, room.log, sz);
              };
              start = st;
              size = sz;
              self = self ∙ update_self l.cache a v;
              others = λ x ne off. others x ne off ∙ modify-pending l a x v wf out ne;
            },
          )
    ]

module _ (byte : Block → ℕ → ℕ) (set_byte : Block → (k v : ℕ) → Block) where
  -- Whether the block `b` is free in the bitmap that the buffers show.
  abbrev pub free_block : (l : Log) (ninodes b : ℕ) → Bool
  free_block l ninodes b = is_free byte set_byte (l.cache (bblock b ninodes)) (b % bpb)

  -- The first free bit from `bi` on, of `k`.
  pub find_free_lem :
      (k bi : ℕ) (v : Block)
      → ((find_free byte set_byte k bi v ≡ none)
          × ((j : ℕ) → bi ≤ j → j < bi + k → is_free byte set_byte v j ≡ false))
        ⊎ ((i : ℕ) × (find_free byte set_byte k bi v ≡ some i)
            × (bi ≤ i)
            × (i < bi + k)
            × (is_free byte set_byte v i ≡ true)
            × ((j : ℕ) → bi ≤ j → j < i → is_free byte set_byte v j ≡ false))
  unfolding find_free
  find_free_lem zero bi v = inl (refl, λ j ge lt. absurd (omega arith))
  find_free_lem (suc k) bi v = elim (Bool-cases (is_free byte set_byte v bi)) [
    | inl free ↦
        inr (bi, rw free refl, omega arith, omega arith, free, λ j ge lt. absurd (omega arith))
    | inr used ↦ elim (find_free_lem k (bi + 1) v) [
      | inl (no_bit, all_used) ↦ inl (
        rw used no_bit,
        λ j ge lt. elim (ℕ_discrete j bi) [
          | yes e ↦ rw e used
          | no ne ↦ all_used j (omega arith) (omega arith)
        ],
      )
      | inr (i, found, ge, lt, free, before) ↦ inr (
        i,
        rw used found,
        omega arith,
        omega arith,
        free,
        λ j low up. elim (ℕ_discrete j bi) [
          | yes e ↦ rw e used
          | no ne ↦ before j (omega arith) up
        ],
      )
    ]
  ]

  -- What take_block made of the transaction.
  pub record Taken (l : Log) (sector b bi : ℕ) (l' : Log) : Type 0 where
    pub wf : IsTransaction l'
    pub zeroed : pending l' (b + bi) ≡ (λ w. 0)
    pub marked : pending l' sector ≡ mark byte set_byte (l.cache sector) bi
    pub others : (x : ℕ) → x ≢ b + bi → x ≢ sector → Outside l x → pending l' x ≡ pending l x

  block_zero-write : (l : Log) (b : ℕ) → block_zero l b ≡ log_write (modify l b (λ w. 0)) b
  unfolding block_zero
  block_zero-write l b = refl

  pub take_block_lem :
      (l : Log) (sector b bi : ℕ)
      → IsTransaction l
      → HasRoom l 2
      → Outside l sector
      → Outside l (b + bi)
      → b + bi ≢ sector
      → (l' : Log) × (take_block byte set_byte l sector b bi ≡ some (Allocation.block (b + bi) l'))
        × Taken l sector b bi l'
  unfolding take_block
  take_block_lem l sector b bi wf room out out_b apart =
      let v : Block = mark byte set_byte (l.cache sector) bi in
      let (l1, done1, w1) = write_block l sector 1 v wf room out in
      let (l2, done2, w2) =
        write_block l1 (b + bi) 0 (λ w. 0) w1.wf w1.room
          (keep-Outside l l1 (b + bi) w1.start w1.size out_b) in
      let seen = λ (x : ℕ) (o : Outside l x). keep-Outside l l1 x w1.start w1.size o in
      (
        l2,
        rw (done1, block_zero-write l1 (b + bi), done2) refl,
        record {
          wf = w2.wf;
          zeroed = w2.self;
          marked = w2.others sector (λ e. apart (sym e)) (seen sector out) ∙ w1.self;
          others = λ x nb ns o. w2.others x nb (seen x o) ∙ w1.others x ns o;
        },
      )
