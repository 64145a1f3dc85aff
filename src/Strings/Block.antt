-- ===== src/Strings/Block.antt =====
-- memmove, memset and strncpy of kern/lib/string.c, byte by byte.
use os_audio.Base.{
  ℕ, zero, suc, ◌+◌, ◌-◌, ◌*◌, ◌/◌, ◌%◌, ◌^◌, ◌≤◌, ◌<◌, ◌≡◌, ◌⊎◌, inl, inr, refl, ◌∙◌, ap, arith,
  true, false, Bool-cases, ◌&&◌, ltb, leb, ◌==◌, update, update_self, update_ne,
}
use os_audio.Base.{subst}
use native.Mathlib.Decide.{ℕ_discrete, dec_lt}
use os_audio.Strings.{
  move_block, copy_up, copy_down, memmove, byte_of, store_word, fill_words, fill_bytes, memset,
}

-- `m'` is `m` with the `n` bytes at `s` in the `n` bytes at `d`.
record Copied (m : ℕ → ℕ) (d s n : ℕ) (m' : ℕ → ℕ) : Type 0 where
  pub inside : (i : ℕ) → i < n → m' (d + i) ≡ m (s + i)
  pub outside : (a : ℕ) → (a < d) ⊎ (d + n ≤ a) → m' a ≡ m a

block_in : (b : ℕ) (m : ℕ → ℕ) (d s i : ℕ) → i < b → move_block b m d s (d + i) ≡ m (s + i)
unfolding move_block
block_in b m d s i h = let e : d + i - d ≡ i = omega arith in rw e (ground arith)

block_out : (b : ℕ) (m : ℕ → ℕ) (d s a : ℕ) → (a < d) ⊎ (d + b ≤ a) → move_block b m d s a ≡ m a
unfolding move_block
block_out b m d s a h = ground arith

-- Upwards, onto lower addresses or past the end of the source.
copy_up-Copied :
    (b k : ℕ) (m : ℕ → ℕ) (d s : ℕ)
    → (d ≤ s) ⊎ (s + k * b ≤ d)
    → Copied m d s (k * b) (copy_up b k m d s)
unfolding copy_up
copy_up-Copied b zero m d s apart = record {
  inside = λ i h. absurd (omega arith);
  outside = λ a h. refl;
}
copy_up-Copied b (suc k) m d s apart =
    let e : suc k * b ≡ k * b + b = omega arith in
    let rest = copy_up-Copied b k (move_block b m d s) (d + b) (s + b) (omega (arith, e)) in
    record {
      inside = λ i h. elim (dec_lt i b) [
        | yes low ↦ rest.outside (d + i) (inl (omega arith)) ∙ block_in b m d s i low
        | no high ↦
            let f : d + i ≡ d + b + (i - b) = omega arith in
            let g : s + b + (i - b) ≡ s + i = omega arith in
            rw f (
              rest.inside (i - b) (omega (arith, e))
              ∙ (ap (move_block b m d s) g ∙ block_out b m d s (s + i) (omega (arith, e))))
      ];
      outside = λ a h. rest.outside a (omega (arith, e)) ∙ block_out b m d s a (omega (arith, e));
    }

-- Downwards, onto higher addresses.
copy_down-Copied :
    (b k : ℕ) (m : ℕ → ℕ) (d s : ℕ) → s ≤ d → Copied m d s (k * b) (copy_down b k m d s)
unfolding copy_down
copy_down-Copied b zero m d s le = record {
  inside = λ i h. absurd (omega arith);
  outside = λ a h. refl;
}
copy_down-Copied b (suc k) m d s le =
    let e : suc k * b ≡ k * b + b = omega arith in
    let m1 : ℕ → ℕ = move_block b m (d + k * b) (s + k * b) in
    let rest = copy_down-Copied b k m1 d s le in
    record {
      inside = λ i h. elim (dec_lt i (k * b)) [
        | yes low ↦ rest.inside i low ∙ block_out b m (d + k * b) (s + k * b) (s + i) (omega arith)
        | no high ↦
            let f : d + i ≡ d + k * b + (i - k * b) = omega arith in
            let g : s + k * b + (i - k * b) ≡ s + i = omega arith in
            rest.outside (d + i) (omega arith)
            ∙ (rw f (block_in b m (d + k * b) (s + k * b) (i - k * b) (omega (arith, e))) ∙ ap m g)
      ];
      outside = λ a h.
          rest.outside a (omega (arith, e))
          ∙ block_out b m (d + k * b) (s + k * b) a (omega (arith, e));
    }

Copied-length : {m m' : ℕ → ℕ} {d s n n' : ℕ} → n ≡ n' → Copied m d s n m' → Copied m d s n' m'
Copied-length {m = m} {m' = m'} {d = d} {s = s} e c = subst (λ n. Copied m d s n m') e c

memmove-Copied : (m : ℕ → ℕ) (d s n : ℕ) → Copied m d s n (memmove m d s n)
unfolding memmove
memmove-Copied m d s n = elim (Bool-cases (ltb s d && ltb d (s + n))) [
  | inl over ↦
      let le : s ≤ d = ground arith in
      rw over (elim (Bool-cases (((s + n) % 4 == 0) && (((d + n) % 4 == 0) && (n % 4 == 0)))) [
        | inl words ↦
            let e : n / 4 * 4 ≡ n = ground arith in
            rw words (Copied-length e (copy_down-Copied 4 (n / 4) m d s le))
        | inr bytes ↦
            let e : n * 1 ≡ n = omega arith in
            rw bytes (Copied-length e (copy_down-Copied 1 n m d s le))
      ])
  | inr free ↦
      let apart : (d ≤ s) ⊎ (s + n ≤ d) = ground arith in
      rw free (elim (Bool-cases ((s % 4 == 0) && ((d % 4 == 0) && (n % 4 == 0)))) [
        | inl words ↦
            let e : n / 4 * 4 ≡ n = ground arith in
            rw words (Copied-length e (copy_up-Copied 4 (n / 4) m d s (rw e apart)))
        | inr bytes ↦
            let e : n * 1 ≡ n = omega arith in
            rw bytes (Copied-length e (copy_up-Copied 1 n m d s (rw e apart)))
      ])
]

-- `memmove` copies: whether and however the two ranges overlap, and whether it moves words or bytes,
-- the `n` bytes at `d` are then the ones that were at `s`, and no other byte changes.
pub memmove_lem :
    (m : ℕ → ℕ) (d s n : ℕ)
    → ((i : ℕ) → i < n → memmove m d s n (d + i) ≡ m (s + i))
      × ((a : ℕ) → (a < d) ⊎ (d + n ≤ a) → memmove m d s n a ≡ m a)
memmove_lem m d s n = let c = memmove-Copied m d s n in (c.inside, c.outside)

-- `m'` is `m` with `c` in the `n` bytes at `v`.
pub record BytesSet (m : ℕ → ℕ) (v c n : ℕ) (m' : ℕ → ℕ) : Type 0 where
  pub inside : (i : ℕ) → i < n → m' (v + i) ≡ c
  pub outside : (a : ℕ) → (a < v) ⊎ (v + n ≤ a) → m' a ≡ m a

pub fill_bytes-BytesSet : (k : ℕ) (m : ℕ → ℕ) (v c : ℕ) → BytesSet m v c k (fill_bytes k m v c)
unfolding fill_bytes
fill_bytes-BytesSet zero m v c = record {
  inside = λ i h. absurd (omega arith);
  outside = λ a h. refl;
}
fill_bytes-BytesSet (suc k) m v c =
    let rest = fill_bytes-BytesSet k (update m v c) (v + 1) c in
    record {
      inside = λ i h. elim (ℕ_discrete i 0) [
        | yes e ↦
            let f : v + i ≡ v = omega arith in
            rw f (rest.outside v (inl (omega arith)) ∙ update_self m v c)
        | no ne ↦
            let f : v + i ≡ v + 1 + (i - 1) = omega arith in
            rw f (rest.inside (i - 1) (omega arith))
      ];
      outside = λ a h. rest.outside a (omega arith) ∙ update_ne m c (omega arith);
    }

-- A word of four equal bytes.
abbrev four : ℕ → ℕ
four c = c * 2 ^ 24 + c * 2 ^ 16 + c * 2 ^ 8 + c

byte_of-four : (c i : ℕ) → c < 256 → i < 4 → byte_of (four c) i ≡ c
unfolding byte_of
byte_of-four c i small h = ground arith

store_word-in : (m : ℕ → ℕ) (v c i : ℕ) → c < 256 → i < 4 → store_word m v (four c) (v + i) ≡ c
unfolding store_word
store_word-in m v c i small h =
    let e : v + i - v ≡ i = omega arith in
    let t : (leb v (v + i) && ltb (v + i) (v + 4)) ≡ true = ground arith in
    rw (t, e) (byte_of-four c i small h)

store_word-out : (m : ℕ → ℕ) (v w a : ℕ) → (a < v) ⊎ (v + 4 ≤ a) → store_word m v w a ≡ m a
unfolding store_word
store_word-out m v w a h = let t : (leb v a && ltb a (v + 4)) ≡ false = ground arith in rw t refl

fill_words-BytesSet :
    (k : ℕ) (m : ℕ → ℕ) (v c : ℕ) → c < 256 → BytesSet m v c (k * 4) (fill_words k m v (four c))
unfolding fill_words
fill_words-BytesSet zero m v c small = record {
  inside = λ i h. absurd (omega arith);
  outside = λ a h. refl;
}
fill_words-BytesSet (suc k) m v c small =
    let rest = fill_words-BytesSet k (store_word m v (four c)) (v + 4) c small in
    record {
      inside = λ i h. elim (dec_lt i 4) [
        | yes low ↦ rest.outside (v + i) (inl (omega arith)) ∙ store_word-in m v c i small low
        | no high ↦
            let f : v + i ≡ v + 4 + (i - 4) = omega arith in
            rw f (rest.inside (i - 4) (omega arith))
      ];
      outside = λ a h. rest.outside a (omega arith) ∙ store_word-out m v (four c) a (omega arith);
    }

BytesSet-length :
    {m m' : ℕ → ℕ} {v c n n' : ℕ} → n ≡ n' → BytesSet m v c n m' → BytesSet m v c n' m'
BytesSet-length {m = m} {m' = m'} {v = v} {c = c} e s = subst (λ n. BytesSet m v c n m') e s

memset-BytesSet : (m : ℕ → ℕ) (v c n : ℕ) → BytesSet m v (c % 256) n (memset m v c n)
unfolding memset
memset-BytesSet m v c n = elim (ℕ_discrete n 0) [
  | yes e ↦ rw e (record { inside = λ i h. absurd (omega arith); outside = λ a h. refl })
  | no ne ↦
      let some_bytes : (n == 0) ≡ false = ground arith in
      rw some_bytes (elim (Bool-cases ((v % 4 == 0) && (n % 4 == 0))) [
        | inl words ↦
            let e : n / 4 * 4 ≡ n = ground arith in
            rw words (BytesSet-length e (fill_words-BytesSet (n / 4) m v (c % 256) (omega arith)))
        | inr bytes ↦ rw bytes (fill_bytes-BytesSet n m v (c % 256))
      ])
]

-- `memset` sets: whether it stores words or bytes, the `n` bytes at `v` are then the low byte of `c`,
-- and no other byte changes.
pub memset_lem :
    (m : ℕ → ℕ) (v c n : ℕ)
    → ((i : ℕ) → i < n → memset m v c n (v + i) ≡ c % 256)
      × ((a : ℕ) → (a < v) ⊎ (v + n ≤ a) → memset m v c n a ≡ m a)
memset_lem m v c n = let s = memset-BytesSet m v c n in (s.inside, s.outside)
