-- ===== src/Fs/Bitmap/Free.antt =====
-- block_free of kern/fs/block.c: a block in use is freed in the transaction, a free one is a panic.
use os_audio.Base.{
  ℕ, ◌%◌, ◌==◌, ◌≡◌, ◌≢◌, ◌⊎◌, inl, inr, refl, ◌∙◌, ap, true, false, if◌then◌else◌, Option, none,
  some, Bool-cases,
}
use os_audio.Fs.Log.{read_superblock, Block, Log, log_write}
use os_audio.Fs.Log.Slot.{Outside, IsTransaction, pending}
use os_audio.Fs.Bitmap.{bpb, bblock, modify, is_free, unmark, block_free}
use os_audio.Fs.Bitmap.Bits.{AreBytes, unmark-bits}
use os_audio.Fs.Bitmap.Alloc.{HasRoom, write_block, free_block}

module _ (byte : Block → ℕ → ℕ) (set_byte : Block → (k v : ℕ) → Block)
    (bytes : AreBytes byte set_byte) where
  free-panic :
      (l : Log) (b : ℕ)
      → free_block byte set_byte l (read_superblock l).ninodes b ≡ true
      → block_free byte set_byte l b ≡ none
  unfolding block_free
  free-panic l b free = rw free refl

  free-write :
      (l : Log) (b : ℕ)
      → free_block byte set_byte l (read_superblock l).ninodes b ≡ false
      → block_free byte set_byte l b
        ≡ log_write
            (modify l
              (bblock b (read_superblock l).ninodes)
              (unmark byte set_byte (l.cache (bblock b (read_superblock l).ninodes)) (b % bpb)))
            (bblock b (read_superblock l).ninodes)
  unfolding block_free
  free-write l b used = rw used refl

  -- The two ways in which block_free ends.
  abbrev pub Freed : (l : Log) (b sector : ℕ) → Option Log → Type 0
  Freed l b sector o =
      ((is_free byte set_byte (l.cache sector) (b % bpb) ≡ true) × (o ≡ none))
      ⊎ ((is_free byte set_byte (l.cache sector) (b % bpb) ≡ false)
          × (l' : Log) × (o ≡ some l')
          × IsTransaction l'
          × (pending l' sector ≡ unmark byte set_byte (l.cache sector) (b % bpb))
          × ((j : ℕ)
              → is_free byte set_byte (pending l' sector) j
                ≡ (if j == b % bpb then true else is_free byte set_byte (l.cache sector) j))
          × ((x : ℕ) → x ≢ sector → Outside l x → pending l' x ≡ pending l x))

  -- `block_free`, in a transaction with room for one more block, of a block whose bitmap block is
  -- outside the log. It panics exactly if the block is free already. Otherwise it returns: the
  -- transaction has the block's bit cleared in its bitmap block, so that the block is then free, every
  -- other bit of that bitmap block is as before, and no other sector outside the log is changed by it.
  pub block_free_lem :
      (l : Log) (b : ℕ)
      → IsTransaction l
      → HasRoom l 1
      → Outside l (bblock b (read_superblock l).ninodes)
      → Freed l b (bblock b (read_superblock l).ninodes) (block_free byte set_byte l b)
  block_free_lem l b wf room out =
      let sector : ℕ = bblock b (read_superblock l).ninodes in
      let v : Block = unmark byte set_byte (l.cache sector) (b % bpb) in
      elim (Bool-cases (is_free byte set_byte (l.cache sector) (b % bpb))) [
        | inl free ↦ inl (free, free-panic l b free)
        | inr used ↦
            let (l', done, w) = write_block l sector 0 v wf room out in
            inr (
              used,
              l',
              free-write l b used ∙ done,
              w.wf,
              w.self,
              λ j.
                  ap (λ z. is_free byte set_byte z j) w.self
                  ∙ unmark-bits byte set_byte bytes (l.cache sector) (b % bpb) j used,
              w.others,
            )
      ]
