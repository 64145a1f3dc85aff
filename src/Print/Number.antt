-- ===== src/Print/Number.antt =====
-- What printnum of kern/lib/printfmt.c puts: padding and the digits of the number.
use os_audio.Base.{
  ℕ, zero, suc, ◌+◌, ◌-◌, ◌*◌, ◌/◌, ◌%◌, ◌^◌, ◌≤◌, ◌<◌, ◌≡◌, ◌⊎◌, inl, inr, refl, sym, ap, ◌∙◌,
  arith, some, List, [], ◌∷◌, ◌++◌, length, length-append, replicate, All, get_or, false,
  Bool-cases, leb, if◌then◌else◌, append_assoc,
}
use native.Mathlib.Numerals.{unary_clauses}
use os_audio.Print.{digit_char, pad, printnum}

-- The bases that vprintfmt prints in.
abbrev pub IsBase : ℕ → Type 0
IsBase b = (b ≡ 8) ⊎ ((b ≡ 10) ⊎ (b ≡ 16))

-- A list of characters put one after the other.
abbrev pub feed {ℓ} : {S : Type ℓ} → (ℕ → S → S) → List ℕ → S → S
feed putch [] s = s
feed putch (c ∷ cs) s = feed putch cs (putch c s)

-- The characters '0' to '9', and 'a' to 'f' for the digits from ten on.
abbrev pub digit_of : ℕ → ℕ
digit_of d = if leb 10 d then 97 + (d - 10) else 48 + d

abbrev pub chars : List ℕ → List ℕ
chars [] = []
chars (d ∷ ds) = digit_of d ∷ chars ds

digit_char-digit_of : (d : ℕ) → digit_char d ≡ digit_of d
unfolding digit_char
digit_char-digit_of d = ground arith

-- The number that digits stand for, behind the number `acc`.
abbrev pub value : (base acc : ℕ) → List ℕ → ℕ
value base acc [] = acc
value base acc (d ∷ ds) = value base (acc * base + d) ds

-- The digits of a number: as few as they can be, each one below the base.
pub record AreDigits (base num : ℕ) (ds : List ℕ) : Type 0 where
  pub small : All (λ d. d < base) ds
  pub number : value base 0 ds ≡ num
  pub fewest : (ds ≡ num ∷ []) ⊎ (0 < get_or ds 0 0)

module _ {ℓ} {S : Type ℓ} (putch : ℕ → S → S) where
  pub feed-append :
      (cs ds : List ℕ) (s : S) → feed putch (cs ++ ds) s ≡ feed putch ds (feed putch cs s)
  feed-append [] ds s = refl
  feed-append (c ∷ cs) ds s = feed-append cs ds (putch c s)

  pub pad-feed : (k padc : ℕ) (s : S) → pad k putch padc s ≡ feed putch (replicate k padc) s
  unfolding pad
  pad-feed zero padc s = refl
  pad-feed (suc k) padc s = pad-feed k padc (putch padc s)

pub value-append :
    (base acc : ℕ) (ds es : List ℕ) → value base acc (ds ++ es) ≡ value base (value base acc ds) es
value-append base acc [] es = refl
value-append base acc (d ∷ ds) es = value-append base (acc * base + d) ds es

chars-append : (ds es : List ℕ) → chars (ds ++ es) ≡ chars ds ++ chars es
chars-append [] es = refl
chars-append (d ∷ ds) es = ap (λ x. digit_of d ∷ x) (chars-append ds es)

All-append {ℓ κ} :
    {A : Type ℓ} (P : A → Type κ) (xs ys : List A) → All P xs → All P ys → All P (xs ++ ys)
All-append P [] ys p q = q
All-append P (x ∷ xs) ys p q = (p.0, All-append P xs ys p.1 q)

get_or-append : (xs ys : List ℕ) → 0 < get_or xs 0 0 → 0 < get_or (xs ++ ys) 0 0
get_or-append [] ys h = absurd (omega arith)
get_or-append (x ∷ xs) ys h = h

-- A number without its last digit.
shorter :
    (num base bound : ℕ)
    → IsBase base
    → base ≤ num
    → num < bound * 2
    → (num / base < bound)
      × (0 < num / base)
      × (num / base * base + num % base ≡ num)
      × (num % base < base)
shorter num base bound (inl e) le lt = rw e (omega (arith, e, le, lt))
shorter num base bound (inr (inl e)) le lt = rw e (omega (arith, e, le, lt))
shorter num base bound (inr (inr e)) le lt = rw e (omega (arith, e, le, lt))

pow_suc : (f : ℕ) → 2 ^ suc f ≡ 2 ^ f * 2
pow_suc f = simp unary_clauses refl

fuel_left : (fuel q : ℕ) → 0 < q → q < 2 ^ fuel → 0 < fuel
fuel_left zero q pos bound = absurd (omega (arith, pos, bound))
fuel_left (suc fuel) q pos bound = omega arith

base_pos : (base : ℕ) → IsBase base → 0 < base
base_pos base (inl e) = omega arith
base_pos base (inr (inl e)) = omega arith
base_pos base (inr (inr e)) = omega arith

one_digit : (base num : ℕ) → IsBase base → num < base → num % base ≡ num
one_digit base num (inl e) lt = rw e (omega (arith, e, lt))
one_digit base num (inr (inl e)) lt = rw e (omega (arith, e, lt))
one_digit base num (inr (inr e)) lt = rw e (omega (arith, e, lt))

one-AreDigits : (base num : ℕ) → leb base num ≡ false → AreDigits base num (num ∷ [])
one-AreDigits base num single =
    let lt : num < base = ground arith in
    let z : 0 * base + num ≡ num = omega arith in
    record { small = (lt, tt); number = z; fewest = inl refl }

more-AreDigits :
    (base num q : ℕ) (ds : List ℕ)
    → AreDigits base q ds
    → 0 < q
    → q * base + num % base ≡ num
    → num % base < base
    → AreDigits base num (ds ++ ((num % base) ∷ []))
more-AreDigits base num q ds d pos e lt = record {
  small = All-append (λ x. x < base) ds ((num % base) ∷ []) d.small (lt, tt);
  number =
      value-append base 0 ds ((num % base) ∷ []) ∙ (ap (λ v. v * base + num % base) d.number ∙ e);
  fewest = inr (
      get_or-append ds ((num % base) ∷ [])
        (elim d.fewest [ inl same ↦ rw same pos | inr first ↦ first ]));
}

module _ {ℓ} {S : Type ℓ} (putch : ℕ → S → S) (base padc : ℕ) (is_base : IsBase base) where
  -- One more character, behind those of the digits before.
  last_digit :
      (k num : ℕ) (ds : List ℕ) (s : S)
      → putch (digit_char num) (feed putch (replicate k padc ++ chars ds) s)
        ≡ feed putch (replicate k padc ++ chars (ds ++ (num ∷ []))) s
  last_digit k num ds s =
      rw (digit_char-digit_of num, chars-append ds (num ∷ []))
        (sym (
          ap (λ x. feed putch x s)
            (sym (append_assoc (replicate k padc) (chars ds) (digit_of num ∷ [])))
          ∙ feed-append putch (replicate k padc ++ chars ds) (digit_of num ∷ []) s))

  -- `printnum` in base 8, 10 or 16, of a number that its fuel is enough for, returns: it puts the
  -- digits of the number, with 'a' to 'f' for those from ten on, the most significant first and no more than needed, and before them the
  -- pad character until the width is reached.
  pub printnum_lem :
      (fuel num width : ℕ) (s : S)
      → 0 < fuel
      → num < 2 ^ fuel
      → (ds : List ℕ) × AreDigits base num ds
        × (printnum fuel putch num base width padc s
            ≡ some (feed putch (replicate (width - length ds) padc ++ chars ds) s))
  unfolding printnum
  printnum_lem zero num width s some_fuel bound = absurd (omega arith)
  printnum_lem (suc fuel) num width s some_fuel bound = elim (Bool-cases (leb base num)) [
    | inr single ↦ (
      num ∷ [],
      one-AreDigits base num single,
      rw
          (
            single,
            one_digit base num is_base (ground arith),
            pad-feed putch (width - 1) padc s,
            digit_char-digit_of num,
          )
          (ap some (sym (feed-append putch (replicate (width - 1) padc) (digit_of num ∷ []) s))),
    )
    | inl longer ↦
        let q : ℕ = num / base in
        let (low, pos, whole, rem) =
          shorter num base (2 ^ fuel) is_base (ground arith) (rw (pow_suc fuel) at (bound)) in
        let (ds, digits, out) = printnum_lem fuel q (width - 1) s (fuel_left fuel q pos low) low in
        let len : width - 1 - length ds ≡ width - length (ds ++ ((num % base) ∷ [])) =
          omega (arith, length-append ds ((num % base) ∷ [])) in
        (
          ds ++ ((num % base) ∷ []),
          more-AreDigits base num q ds digits pos whole rem,
          rw (longer, out, sym len)
              (ap some (last_digit (width - 1 - length ds) (num % base) ds s)),
        )
  ]
