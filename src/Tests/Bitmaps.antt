-- ===== src/Tests/Bitmaps.antt =====
-- A disk of 30 blocks with its bitmap in block 4 and its log from block 20 on (kern/fs/block.c). The
-- blocks 8 to 15 are free.
use os_audio.Base.{
  ℕ, zero, suc, ◌/◌, ◌%◌, ◌^◌, ◌<◌, ◌≡◌, ◌≢◌, inl, refl, arith, Bool, true, false, [], subst,
  eq_true, eq_false, ◌==◌, update_ne, if◌then◌else◌, update, update_self,
}
use native.Mathlib.Decide.{ℕ_discrete}
use os_audio.Fs.Log.{read_superblock, Block, Log}
use os_audio.Fs.Log.Slot.{IsTransaction}
use os_audio.Fs.Bitmap.{bpb, bblock, is_free, block_alloc, block_free}
use os_audio.Fs.Bitmap.Bits.{AreBytes}
use os_audio.Fs.Bitmap.Alloc.{free_block}
use os_audio.Fs.Bitmap.First.{IsBitmap, Ending, block_alloc_lem}
use os_audio.Fs.Bitmap.Free.{Freed, block_free_lem}

-- A machine that keeps a byte in each place.
abbrev byte : Block → ℕ → ℕ
byte v k = v k % 256

abbrev set_byte : Block → (k x : ℕ) → Block
set_byte v k x = update v k x

machine : AreBytes byte set_byte
machine = record {
  small = λ v k. omega arith;
  set = λ v k x j. elim (ℕ_discrete j k) [
    | yes e ↦ rw (e, update_self v k x, eq_true k) refl
    | no ne ↦ rw (update_ne v x ne, eq_false ne) refl
  ];
}

abbrev content : ℕ → Block
content a w =
    if a == 1
    then (if w == 0 then 30 else if w == 2 then 8 else 10)
    else if a == 4
    then (if w == 1 then 0 else 255)
    else 7

abbrev begun : Log
begun = record {
  start = 20;
  size = 10;
  busy = true;
  lh = record { n = 0; sector = λ i. 0 };
  cache = content;
  dirty = λ a. false;
  writes = [];
}

begun-IsTransaction : IsTransaction begun
begun-IsTransaction = record {
  fits = omega arith;
  header = omega arith;
  outside = λ i lt. absurd (omega arith);
  apart = λ i k low lk ne. absurd (omega arith);
}

full_byte : (j : ℕ) → j < 8 → (255 / 2 ^ j % 2 == 0) ≡ false
full_byte zero lt = refl
full_byte (suc zero) lt = refl
full_byte (suc (suc zero)) lt = refl
full_byte (suc (suc (suc zero))) lt = refl
full_byte (suc (suc (suc (suc zero)))) lt = refl
full_byte (suc (suc (suc (suc (suc zero))))) lt = refl
full_byte (suc (suc (suc (suc (suc (suc zero)))))) lt = refl
full_byte (suc (suc (suc (suc (suc (suc (suc zero))))))) lt = refl
full_byte (suc (suc (suc (suc (suc (suc (suc (suc j)))))))) lt = absurd (omega (arith, lt))

not_both : {x : Bool} → x ≡ false → x ≢ true
not_both f t = cc

used_bit : (b : ℕ) → b / 8 ≢ 1 → is_free byte set_byte (content 4) b ≡ false
unfolding is_free
used_bit b ne = rw (eq_false ne) (full_byte (b % 8) (omega arith))

free_place : (b : ℕ) → b < 30 → free_block byte set_byte begun 8 b ≡ true → b / 8 ≡ 1
free_place b lt free = elim (ℕ_discrete (b / 8) 1) [
  | yes e ↦ e
  | no ne ↦
      let e : bblock b 8 ≡ 4 = omega arith in
      let f : b % bpb ≡ b = omega arith in
      absurd (
        not_both (used_bit b ne) (
          subst (λ i. is_free byte set_byte (content 4) i ≡ true) f
            (subst (λ a. is_free byte set_byte (content a) (b % bpb) ≡ true) e free)))
]

begun-IsBitmap : IsBitmap byte set_byte machine begun (read_superblock begun)
unfolding read_superblock
begun-IsBitmap = record {
  map = λ b lt. inl (omega arith);
  log = λ b lt free. inl (omega (arith, free_place b lt free));
  self = λ b c lb lc free. omega (arith, free_place b lb free);
}

block_alloc_lem_example :
    Ending byte set_byte machine begun (read_superblock begun) (block_alloc byte set_byte begun)
block_alloc_lem_example =
    block_alloc_lem byte set_byte machine begun begun-IsTransaction
      (record { begun = refl; header = omega arith; log = omega arith }) begun-IsBitmap

block_free_lem_example :
    Freed byte set_byte machine begun 3
      (bblock 3 (read_superblock begun).ninodes)
      (block_free byte set_byte begun 3)
unfolding read_superblock
block_free_lem_example =
    block_free_lem byte set_byte machine begun 3 begun-IsTransaction
      (record { begun = refl; header = omega arith; log = omega arith }) (inl (omega arith))
