-- ===== src/Fs/Bitmap/Bits.antt =====
-- The bits of the bitmap of kern/fs/block.c, in the bytes of a block.
use os_audio.Base.{
  ℕ, zero, suc, ◌+◌, ◌-◌, ◌*◌, ◌/◌, ◌%◌, ◌^◌, ◌==◌, ◌≤◌, ◌<◌, ◌≡◌, ◌≢◌, refl, sym, ap, ◌∙◌, arith,
  true, false, eq_true, eq_false, if◌then◌else◌,
}
use native.Mathlib.Decide.{ℕ_discrete}
use native.Mathlib.Nat.{div-div-eq-div-mul, mod-eq_of_lt}
use native.Mathlib.Numerals.{unary_clauses}
use os_audio.Fs.Log.{Block}
use os_audio.Fs.Bitmap.{is_free, mark, unmark}

-- What the machine keeps: each place of a block holds a byte, and an assignment changes one of them.
pub record AreBytes (byte : Block → ℕ → ℕ) (set_byte : Block → (k v : ℕ) → Block) : Type 0 where
  pub small : (v : Block) (k : ℕ) → byte v k < 256
  pub set :
      (v : Block) (k x j : ℕ) → byte (set_byte v k x) j ≡ (if j == k then x % 256 else byte v j)

pow_suc : (a : ℕ) → 2 ^ suc a ≡ 2 * 2 ^ a
pow_suc a = let e : 2 ^ suc a ≡ 2 ^ a * 2 = simp unary_clauses refl in omega (arith, e)

half : (a x : ℕ) → x / 2 ^ suc a ≡ x / 2 / 2 ^ a
half a x = rw (pow_suc a) (sym (div-div-eq-div-mul x 2 (2 ^ a)))

-- Adding a bit that is clear leaves the others.
bit_keep :
    (a b x : ℕ)
    → a ≢ b
    → (x / 2 ^ a % 2 == 0) ≡ true
    → ((x + 2 ^ a) / 2 ^ b % 2 == 0) ≡ (x / 2 ^ b % 2 == 0)
bit_keep zero zero x ne h = absurd (ne refl)
bit_keep zero (suc b) x ne h =
    let even : x % 2 ≡ 0 = ground arith in
    let e : (x + 1) / 2 ≡ x / 2 = omega (arith, even) in rw (half b (x + 1), half b x, e) refl
bit_keep (suc a) zero x ne h =
    let e : (x + 2 ^ suc a) % 2 ≡ x % 2 = omega (arith, pow_suc a) in
    let one : (y : ℕ) → y / 1 % 2 ≡ y % 2 = λ y. omega arith in
    rw (one (x + 2 ^ suc a), one x, e) refl
bit_keep (suc a) (suc b) x ne h =
    let e : (x + 2 ^ suc a) / 2 ≡ x / 2 + 2 ^ a = omega (arith, pow_suc a) in
    rw (half b (x + 2 ^ suc a), half b x, e)
      (bit_keep a b (x / 2) (λ same. ne (ap suc same)) (rw (half a x) at h))

-- Adding a bit that is clear sets it, and the sum is still a byte.
bit_set :
    (j x : ℕ)
    → j < 8
    → x < 256
    → (x / 2 ^ j % 2 == 0) ≡ true
    → (((x + 2 ^ j) / 2 ^ j % 2 == 0) ≡ false) × (x + 2 ^ j < 256)
bit_set zero x lt byte h = ground arith
bit_set (suc zero) x lt byte h = ground arith
bit_set (suc (suc zero)) x lt byte h = ground arith
bit_set (suc (suc (suc zero))) x lt byte h = ground arith
bit_set (suc (suc (suc (suc zero)))) x lt byte h = ground arith
bit_set (suc (suc (suc (suc (suc zero))))) x lt byte h = ground arith
bit_set (suc (suc (suc (suc (suc (suc zero)))))) x lt byte h = ground arith
bit_set (suc (suc (suc (suc (suc (suc (suc zero))))))) x lt byte h = ground arith
bit_set (suc (suc (suc (suc (suc (suc (suc (suc j)))))))) x lt byte h = absurd (omega (arith, lt))

-- Subtracting a bit that is set clears it.
bit_clear :
    (j x : ℕ)
    → j < 8
    → (x / 2 ^ j % 2 == 0) ≡ false
    → (((x - 2 ^ j) / 2 ^ j % 2 == 0) ≡ true) × (2 ^ j ≤ x)
bit_clear zero x lt h = ground arith
bit_clear (suc zero) x lt h = ground arith
bit_clear (suc (suc zero)) x lt h = ground arith
bit_clear (suc (suc (suc zero))) x lt h = ground arith
bit_clear (suc (suc (suc (suc zero)))) x lt h = ground arith
bit_clear (suc (suc (suc (suc (suc zero))))) x lt h = ground arith
bit_clear (suc (suc (suc (suc (suc (suc zero)))))) x lt h = ground arith
bit_clear (suc (suc (suc (suc (suc (suc (suc zero))))))) x lt h = ground arith
bit_clear (suc (suc (suc (suc (suc (suc (suc (suc j)))))))) x lt h = absurd (omega (arith, lt))

-- Two bits are in different bytes, or at different places of one byte.
other_bit : (i j : ℕ) → j ≢ i → j / 8 ≡ i / 8 → i % 8 ≢ j % 8
other_bit i j ne same e = ne (omega (arith, same, e))

module _ (byte : Block → ℕ → ℕ) (set_byte : Block → (k v : ℕ) → Block)
    (bytes : AreBytes byte set_byte) where
  -- The byte that was assigned, where the value fits, and the others.
  byte_here : (v : Block) (i x j : ℕ) → x < 256 → j ≡ i → byte (set_byte v i x) j ≡ x
  byte_here v i x j small e = bytes.set v i x j ∙ rw (e, eq_true i, mod-eq_of_lt small) refl

  byte_there : (v : Block) (i x j : ℕ) → j ≢ i → byte (set_byte v i x) j ≡ byte v j
  byte_there v i x j ne = bytes.set v i x j ∙ rw (eq_false ne) refl

  pub mark-bits :
      (v : Block) (i j : ℕ)
      → is_free byte set_byte v i ≡ true
      → is_free byte set_byte (mark byte set_byte v i) j
        ≡ (if j == i then false else is_free byte set_byte v j)
  unfolding is_free mark
  mark-bits v i j free =
      let x : ℕ = byte v (i / 8) in
      let (set, small) = bit_set (i % 8) x (omega arith) (bytes.small v (i / 8)) free in
      elim (ℕ_discrete j i) [
        | yes e ↦ rw (e, eq_true i, byte_here v (i / 8) (x + 2 ^ (i % 8)) (i / 8) small refl) set
        | no ne ↦ elim (ℕ_discrete (j / 8) (i / 8)) [
          | yes e ↦
              rw (eq_false ne, byte_here v (i / 8) (x + 2 ^ (i % 8)) (j / 8) small e, e)
                (bit_keep (i % 8) (j % 8) x (other_bit i j ne e) free)
          | no apart ↦ rw (eq_false ne, byte_there v (i / 8) (x + 2 ^ (i % 8)) (j / 8) apart) refl
        ]
      ]

  pub unmark-bits :
      (v : Block) (i j : ℕ)
      → is_free byte set_byte v i ≡ false
      → is_free byte set_byte (unmark byte set_byte v i) j
        ≡ (if j == i then true else is_free byte set_byte v j)
  unfolding is_free unmark
  unmark-bits v i j used =
      let x : ℕ = byte v (i / 8) in
      let y : ℕ = x - 2 ^ (i % 8) in
      let (clear, fits) = bit_clear (i % 8) x (omega arith) used in
      let small : y < 256 = omega (arith, bytes.small v (i / 8)) in
      let sum : y + 2 ^ (i % 8) ≡ x = omega (arith, fits) in
      elim (ℕ_discrete j i) [
        | yes e ↦ rw (e, eq_true i, byte_here v (i / 8) y (i / 8) small refl) clear
        | no ne ↦ elim (ℕ_discrete (j / 8) (i / 8)) [
          | yes e ↦
              rw (eq_false ne, byte_here v (i / 8) y (j / 8) small e, e)
                (sym (bit_keep (i % 8) (j % 8) y (other_bit i j ne e) clear)
                  ∙ ap (λ z. z / 2 ^ (j % 8) % 2 == 0) sum)
          | no apart ↦ rw (eq_false ne, byte_there v (i / 8) y (j / 8) apart) refl
        ]
      ]
