-- ===== src/Fs/Bitmap/First.antt =====
-- The loops of block_alloc of kern/fs/block.c over the whole bitmap.
use os_audio.Base.{
  ℕ, zero, suc, ◌+◌, ◌-◌, ◌*◌, ◌/◌, ◌%◌, ◌==◌, ◌≤◌, ◌<◌, ◌≡◌, ◌≢◌, ◌⊎◌, inl, inr, refl, sym, ap,
  ◌∙◌, arith, if◌then◌else◌, min, true, false, Option, none, some, subst,
}
use native.Mathlib.Decide.{dec_lt}
use os_audio.Fs.Log.{Superblock, read_superblock, Block, Log}
use os_audio.Fs.Log.Slot.{Outside, IsTransaction, pending}
use os_audio.Fs.Bitmap.{
  bpb, bblock, Allocation, is_free, mark, find_free, take_block, alloc_loop, block_alloc,
}
use os_audio.Fs.Bitmap.Bits.{AreBytes, mark-bits}
use os_audio.Fs.Bitmap.Alloc.{HasRoom, free_block, find_free_lem, take_block_lem}

module _ (byte : Block → ℕ → ℕ) (set_byte : Block → (k v : ℕ) → Block)
    (bytes : AreBytes byte set_byte) where
  -- The bitmap is outside the log, and marks the log and itself as in use.
  pub record IsBitmap (l : Log) (sb : Superblock) : Type 0 where
    pub map : (b : ℕ) → b < sb.size → Outside l (bblock b sb.ninodes)
    pub log : (b : ℕ) → b < sb.size → free_block byte set_byte l sb.ninodes b ≡ true → Outside l b
    pub self :
        (b c : ℕ)
        → b < sb.size
        → c < sb.size
        → free_block byte set_byte l sb.ninodes b ≡ true
        → b ≢ bblock c sb.ninodes

  -- The two ways in which block_alloc ends.
  abbrev pub Ending : (l : Log) (sb : Superblock) → Option Allocation → Type 0
  Ending l sb o =
      ((o ≡ some Allocation.out_of_blocks)
        × ((c : ℕ) → c < sb.size → free_block byte set_byte l sb.ninodes c ≡ false))
      ⊎ ((b : ℕ) × (l' : Log) × (o ≡ some (Allocation.block b l'))
          × (b < sb.size)
          × (free_block byte set_byte l sb.ninodes b ≡ true)
          × ((c : ℕ) → c < b → free_block byte set_byte l sb.ninodes c ≡ false)
          × IsTransaction l'
          × (pending l' b ≡ (λ w. 0))
          × (pending l' (bblock b sb.ninodes)
              ≡ mark byte set_byte (l.cache (bblock b sb.ninodes)) (b % bpb))
          × ((j : ℕ)
              → is_free byte set_byte (pending l' (bblock b sb.ninodes)) j ≡ (
                  if j == b % bpb
                  then false
                  else is_free byte set_byte (l.cache (bblock b sb.ninodes)) j))
          × ((x : ℕ) → x ≢ b → x ≢ bblock b sb.ninodes → Outside l x → pending l' x ≡ pending l x))

  -- The bit of a block in the bitmap block that begins with `b`.
  bit_of :
      (l : Log) (ninodes q c : ℕ)
      → q * bpb ≤ c
      → c < q * bpb + bpb
      → free_block byte set_byte l ninodes c
        ≡ is_free byte set_byte (l.cache (bblock (q * bpb) ninodes)) (c - q * bpb)
  bit_of l ninodes q c ge lt =
      let e : c / bpb ≡ q * bpb / bpb = omega arith in
      let f : c % bpb ≡ c - q * bpb = omega arith in rw (e, f) refl

  take-Ending :
      (l : Log) (sb : Superblock) (q i : ℕ)
      → IsTransaction l
      → HasRoom l 2
      → IsBitmap l sb
      → i < min bpb (sb.size - q * bpb)
      → is_free byte set_byte (l.cache (bblock (q * bpb) sb.ninodes)) i ≡ true
      → ((c : ℕ) → c < q * bpb + i → free_block byte set_byte l sb.ninodes c ≡ false)
      → Ending l sb (take_block byte set_byte l (bblock (q * bpb) sb.ninodes) (q * bpb) i)
  take-Ending l sb q i wf room map lt free before =
      let b : ℕ = q * bpb + i in
      let sector : ℕ = bblock (q * bpb) sb.ninodes in
      let place : b < sb.size = omega (arith, lt) in
      let e : bblock b sb.ninodes ≡ sector = omega (arith, lt) in
      let f : b % bpb ≡ i = omega (arith, lt) in
      let g : b - q * bpb ≡ i = omega arith in
      let free_b : free_block byte set_byte l sb.ninodes b ≡ true =
        bit_of l sb.ninodes q b (omega arith) (omega (arith, lt))
        ∙ (ap (is_free byte set_byte (l.cache sector)) g ∙ free) in
      let (l', done, t) =
        take_block_lem byte set_byte l sector (q * bpb) i wf room
          (map.map (q * bpb) (omega (arith, lt))) (map.log b place free_b)
          (map.self b (q * bpb) place (omega (arith, lt)) free_b) in
      let marked : pending l' (bblock b sb.ninodes)
          ≡ mark byte set_byte (l.cache (bblock b sb.ninodes)) (b % bpb) =
        subst (λ z. pending l' z ≡ mark byte set_byte (l.cache z) (b % bpb)) (sym e)
          (subst (λ j. pending l' sector ≡ mark byte set_byte (l.cache sector) j) (sym f)
            t.marked) in
      inr (
        b,
        l',
        done,
        place,
        free_b,
        before,
        t.wf,
        t.zeroed,
        marked,
        λ j.
            ap (λ v. is_free byte set_byte v j) marked
            ∙ mark-bits byte set_byte bytes (l.cache (bblock b sb.ninodes)) (b % bpb) j free_b,
        λ x nb ns out. t.others x nb (λ h. ns (h ∙ sym e)) out,
      )

  loop-none :
      (k b : ℕ) (l : Log) (sb : Superblock)
      → find_free byte set_byte (min bpb (sb.size - b)) 0 (l.cache (bblock b sb.ninodes)) ≡ none
      → alloc_loop byte set_byte (suc k) b sb l ≡ alloc_loop byte set_byte k (b + bpb) sb l
  unfolding alloc_loop
  loop-none k b l sb e = rw (alloc_loop, e) refl

  loop-some :
      (k b i : ℕ) (l : Log) (sb : Superblock)
      → find_free byte set_byte (min bpb (sb.size - b)) 0 (l.cache (bblock b sb.ninodes)) ≡ some i
      → alloc_loop byte set_byte (suc k) b sb l
        ≡ take_block byte set_byte l (bblock b sb.ninodes) b i
  unfolding alloc_loop
  loop-some k b i l sb e = rw (alloc_loop, e) refl

  -- The blocks before `q * bpb + i` are used, if the bits before `i` are.
  used_before :
      (l : Log) (sb : Superblock) (q i : ℕ)
      → i ≤ bpb
      → ((c : ℕ) → c < q * bpb → c < sb.size → free_block byte set_byte l sb.ninodes c ≡ false)
      → ((j : ℕ)
          → 0 ≤ j
          → j < i
          → is_free byte set_byte (l.cache (bblock (q * bpb) sb.ninodes)) j ≡ false)
      → (c : ℕ) → c < q * bpb + i
      → c < sb.size
      → free_block byte set_byte l sb.ninodes c ≡ false
  used_before l sb q i le before bits c lt small = elim (dec_lt c (q * bpb)) [
    | yes low ↦ before c low small
    | no high ↦
        bit_of l sb.ninodes q c (omega arith) (omega (arith, lt, le))
        ∙ bits (c - q * bpb) (omega arith) (omega (arith, lt))
  ]

  alloc_loop_lem :
      (k q : ℕ) (l : Log) (sb : Superblock)
      → IsTransaction l
      → HasRoom l 2
      → IsBitmap l sb
      → sb.size ≤ q * bpb + k * bpb
      → ((c : ℕ) → c < q * bpb → c < sb.size → free_block byte set_byte l sb.ninodes c ≡ false)
      → Ending l sb (alloc_loop byte set_byte k (q * bpb) sb l)
  unfolding alloc_loop
  alloc_loop_lem zero q l sb wf room map enough before =
      inl (refl, λ c lt. before c (omega arith) lt)
  alloc_loop_lem (suc k) q l sb wf room map enough before =
      let m : ℕ = min bpb (sb.size - q * bpb) in
      elim (find_free_lem byte set_byte m 0 (l.cache (bblock (q * bpb) sb.ninodes))) [
        | inl (no_bit, used) ↦
            let next : suc q * bpb ≡ q * bpb + bpb = omega arith in
            let used_here =
              used_before l sb q m (omega arith) before
                (λ j ge lt. used j ge (omega (arith, lt))) in
            subst (Ending l sb) (sym (loop-none k (q * bpb) l sb no_bit)) (
              subst (λ z. Ending l sb (alloc_loop byte set_byte k z sb l)) next
                (alloc_loop_lem k (suc q) l sb wf room map (omega (arith, enough))
                  (λ c lt small. used_here c (omega (arith, lt, small)) small)))
        | inr (i, found, ge, lt, free, bits) ↦
            let used_here = used_before l sb q i (omega (arith, lt)) before bits in
            subst (Ending l sb) (sym (loop-some k (q * bpb) i l sb found)) (
              take-Ending l sb q i wf room map (omega (arith, lt)) free
                (λ c low. used_here c low (omega (arith, low, lt))))
      ]

  -- `block_alloc`, in a transaction with room for two more blocks, where the bitmap marks the log and
  -- itself as in use. If no block is free, it runs off its end. Otherwise it returns the first free
  -- block: the transaction zeroes that block and marks it in the bitmap: its bit is then in use, every
  -- other bit of that bitmap block is as before, and no other sector outside the log is changed by it.
  pub block_alloc_lem :
      (l : Log)
      → IsTransaction l
      → HasRoom l 2
      → IsBitmap l (read_superblock l)
      → Ending l (read_superblock l) (block_alloc byte set_byte l)
  unfolding block_alloc
  block_alloc_lem l wf room map =
      let sb : Superblock = read_superblock l in
      let z : 0 * bpb ≡ 0 = omega arith in
      let k : ℕ = (sb.size + (bpb - 1)) / bpb in
      subst (λ b. Ending l sb (alloc_loop byte set_byte k b sb l)) z
        (alloc_loop_lem k 0 l sb wf room map (omega arith) (λ c lt small. absurd (omega arith)))
