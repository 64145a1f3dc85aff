-- ===== src/User/Numbers.antt =====
-- user/lib/atoi.c, and strtol of user/lib/string.c. An `int` is its 32-bit pattern; `none` is a run
-- longer than the fuel.
use os_audio.Base.{
  ℕ, zero, suc, ◌+◌, ◌-◌, ◌*◌, ◌%◌, ◌≤◌, ◌<◌, ◌≡◌, refl, arith, true, false, ◌&&◌, ◌||◌, Option,
  none, some, leb, ◌==◌, if◌then◌else◌, ◌>>=◌, u32_mod, List, [], ◌∷◌, length, ◌^◌, eq_false,
}

-- The loop of atoi: `(loc, acc)`.
unfoldable pub atoi_loop : (fuel : ℕ) (m : ℕ → ℕ) (buf loc acc : ℕ) → Option (ℕ × ℕ)
atoi_loop zero m buf loc acc = none
atoi_loop (suc fuel) m buf loc acc =
    let c = m (buf + loc) in
    let rest = atoi_loop fuel m buf (loc + 1) ((acc * 10 + (c - 48)) % u32_mod) in
    if leb 48 c && leb c 57 then rest else some (loc, acc)

-- The number of bytes read, and what is written to `*i`, if anything.
unfoldable pub atoi : (fuel : ℕ) (m : ℕ → ℕ) (buf : ℕ) → Option (ℕ × Option ℕ)
atoi fuel m buf =
    let negative = m buf == 45 in
    let numstart = if m buf == 43 then 1 else if negative then 1 else 0 in
    do
      (loc, acc) ← atoi_loop fuel m buf numstart 0
      some (
          if numstart == loc
          then (0, none)
          else (loc, some (if negative then (u32_mod - acc) % u32_mod else acc)))

-- The value of one digit of strtol, in bases up to 36.
unfoldable pub digit : ℕ → Option ℕ
digit c =
    if leb 48 c && leb c 57
    then some (c - 48)
    else if leb 97 c && leb c 122
    then some (c - 97 + 10)
    else if leb 65 c && leb c 90
    then some (c - 65 + 10)
    else none

-- The whitespace before the number.
unfoldable pub skip_blanks : (fuel : ℕ) (m : ℕ → ℕ) (s : ℕ) → Option ℕ
skip_blanks zero m s = none
skip_blanks (suc fuel) m s =
    let rest = skip_blanks fuel m (s + 1) in if (m s == 32) || (m s == 9) then rest else some s

-- The digits: `(s, val)`.
unfoldable pub strtol_loop : (fuel : ℕ) (m : ℕ → ℕ) (s val base : ℕ) → Option (ℕ × ℕ)
strtol_loop zero m s val base = none
strtol_loop (suc fuel) m s val base = elim (digit (m s)) [
  | none ↦ some (s, val)
  | some dig ↦
      if leb base dig
      then some (s, val)
      else strtol_loop fuel m (s + 1) ((val * base + dig) % u32_mod) base
]

-- The base prefix: where the digits start, and their base.
unfoldable pub strtol_prefix : (m : ℕ → ℕ) (s base : ℕ) → ℕ × ℕ
strtol_prefix m s base =
    if ((base == 0) || (base == 16)) && ((m s == 48) && (m (s + 1) == 120))
    then (s + 2, 16)
    else if (base == 0) && (m s == 48)
    then (s + 1, 8)
    else if base == 0
    then (s, 10)
    else (s, base)

-- What is stored in `*endptr`, and the value.
unfoldable pub strtol : (fuel : ℕ) (m : ℕ → ℕ) (s base : ℕ) → Option (ℕ × ℕ)
unfolding skip_blanks strtol_prefix strtol_loop
strtol fuel m s base = do
  s ← skip_blanks fuel m s
  let neg = m s == 45
  let s = if m s == 43 then s + 1 else if neg then s + 1 else s
  let (s, base) = strtol_prefix m s base
  (s, val) ← strtol_loop fuel m s 0 base
  some (s, if neg then (u32_mod - val) % u32_mod else val)

-- The bytes from `s` on are the digits `ds`, and then a byte that is none.
abbrev pub IsDecimal : (ℕ → ℕ) → ℕ → List ℕ → Type 0
IsDecimal m s [] = (leb 48 (m s) && leb (m s) 57) ≡ false
IsDecimal m s (d ∷ ds) = (m s ≡ 48 + d) × (d < 10) × IsDecimal m (s + 1) ds

-- The number that digits stand for, behind the number `acc`.
abbrev pub value : (acc : ℕ) → List ℕ → ℕ
value acc [] = acc
value acc (d ∷ ds) = value (acc * 10 + d) ds

value_ge : (acc : ℕ) (ds : List ℕ) → acc ≤ value acc ds
value_ge acc [] = omega arith
value_ge acc (d ∷ ds) = omega (arith, value_ge (acc * 10 + d) ds)

atoi_loop_lem :
    (fuel : ℕ) (m : ℕ → ℕ) (buf loc acc : ℕ) (ds : List ℕ)
    → length ds < fuel
    → IsDecimal m (buf + loc) ds
    → value acc ds < u32_mod
    → atoi_loop fuel m buf loc acc ≡ some (loc + length ds, value acc ds)
unfolding atoi_loop
atoi_loop_lem zero m buf loc acc ds h dec small = absurd (omega arith)
atoi_loop_lem (suc fuel) m buf loc acc [] h dec small =
    let e : loc + 0 ≡ loc = omega arith in rw (dec, e) refl
atoi_loop_lem (suc fuel) m buf loc acc (d ∷ ds) h dec small =
    let is_digit : (leb 48 (48 + d) && leb (48 + d) 57) ≡ true = ground (arith, dec.1) in
    let bound : acc * 10 + d < u32_mod = omega (arith, value_ge (acc * 10 + d) ds) in
    let step : (acc * 10 + (48 + d - 48)) % u32_mod ≡ acc * 10 + d = omega arith in
    let next : buf + (loc + 1) ≡ buf + loc + 1 = omega arith in
    let len : loc + suc (length ds) ≡ loc + 1 + length ds = omega arith in
    rw (dec.0, is_digit, step, len)
      (atoi_loop_lem fuel m buf (loc + 1) (acc * 10 + d) ds (omega arith) (rw next dec.2) small)

-- `atoi` on at least one decimal digit, of a number below 2^31, with no sign before it, reads all of
-- the digits and stores the number that they stand for.
pub atoi_lem :
    (fuel : ℕ) (m : ℕ → ℕ) (buf d : ℕ) (ds : List ℕ)
    → length (d ∷ ds) < fuel
    → IsDecimal m buf (d ∷ ds)
    → value 0 (d ∷ ds) < 2 ^ 31
    → atoi fuel m buf ≡ some (length (d ∷ ds), some (value 0 (d ∷ ds)))
unfolding atoi
atoi_lem fuel m buf d ds h dec small =
    let here : buf + 0 ≡ buf = omega arith in
    let no_plus : (m buf == 43) ≡ false = ground (arith, dec.0, dec.1) in
    let no_minus : (m buf == 45) ≡ false = ground (arith, dec.0, dec.1) in
    let loop = atoi_loop_lem fuel m buf 0 0 (d ∷ ds) h (rw here dec) (omega arith) in
    let some_read : (0 == suc (length ds)) ≡ false = eq_false (omega arith) in
    let e : 0 + suc (length ds) ≡ suc (length ds) = omega arith in
    rw (no_plus, no_minus, loop, e, some_read) refl
