-- ===== src/Print/Decimal.antt =====
-- snprintf of user/lib/printfmt.c, and what atoi of user/lib/atoi.c reads back.
use os_audio.Base.{
  ℕ, zero, suc, ◌+◌, ◌-◌, ◌*◌, ◌%◌, ◌^◌, ◌≤◌, ◌<◌, ◌≡◌, ◌⊎◌, inl, inr, refl, sym, ◌∙◌, arith, some,
  update, List, [], ◌∷◌, length, get_or, min, All, false, ap, Bool,
}
use native.Mathlib.Decide.{ℕ_discrete, dec_lt}
use native.Mathlib.Numerals.{unary_clauses}
use os_audio.Strings.Compare.{IsString}
use os_audio.User.Numbers.{atoi, atoi_lem, IsDecimal}
use os_audio.User.Numbers
use os_audio.Print.{getuint}
use os_audio.Print.Number.{digit_of, feed, chars, value, AreDigits, printnum_lem}
use os_audio.Print.Format.{
  vprintfmt, format_loop, format_step, reswitch, convert, put_number, positive, initial, At, Spec,
}
use os_audio.Print.Bounds.{Holds-Printed}
use os_audio.Print.Buffer.{SprintBuf, sprintputch, vsnprintf, feed-Holds, start, start-Holds}

-- Numbers of ten digits.
pow_suc : (j : ℕ) → 10 ^ suc j ≡ 10 ^ j * 10
pow_suc j = simp unary_clauses refl

pow_mono : (k j : ℕ) → k ≤ j → 10 ^ k ≤ 10 ^ j
pow_mono k zero le = let e : k ≡ 0 = omega arith in rw e (omega arith)
pow_mono k (suc j) le = elim (ℕ_discrete k (suc j)) [
  | yes e ↦ rw e (omega arith)
  | no ne ↦ rw (pow_suc j) (omega (arith, pow_mono k j (omega arith)))
]

few_digits :
    (j k acc : ℕ) (ds : List ℕ) → 10 ^ j ≤ acc → value 10 acc ds < 10 ^ k → j + length ds < k
few_digits j k acc [] ge lt = elim (dec_lt j k) [
  | yes less ↦ omega arith
  | no more ↦ absurd (omega (arith, pow_mono k j (omega arith), lt, ge))
]
few_digits j k acc (d ∷ ds) ge lt =
    let rest = few_digits (suc j) k (acc * 10 + d) ds (rw (pow_suc j) (omega (arith, ge))) lt in
    omega (arith, rest)

ten_digits : (num : ℕ) (ds : List ℕ) → AreDigits 10 num ds → num < 2 ^ 31 → length ds ≤ 10
ten_digits num [] h lt = omega arith
ten_digits num (d ∷ ds) h lt = elim h.fewest [
  | inl one ↦ let e : length (d ∷ ds) ≡ 1 = ap length one in omega (arith, e)
  | inr pos ↦
      let z : 0 * 10 + d ≡ d = omega arith in
      let v : value 10 d ds ≡ num = sym (ap (λ a. value 10 a ds) z) ∙ h.number in
      let few = few_digits 0 10 d ds (omega (arith, pos)) (omega (arith, v, lt)) in
      omega (arith, few)
]

module _ {ℓ} {S : Type ℓ} (putch : ℕ → S → S) (mem : S → ℕ → ℕ) (args : ℕ → ℕ) (fmt va : ℕ) where
  to_text :
      (octal : Bool) (fuel : ℕ) (at : At) (f a : ℕ) (s t : S)
      → format_step putch mem octal (suc fuel) args at s ≡ some (At.text f a, t)
      → format_loop putch mem octal (suc fuel) args at s
        ≡ format_loop putch mem octal fuel args (At.text f a) t
  unfolding format_loop
  to_text octal fuel at f a s t e = rw (format_loop, e) refl

  to_escape :
      (octal : Bool) (fuel : ℕ) (at : At) (spec : Spec) (f a : ℕ) (s t : S)
      → format_step putch mem octal (suc fuel) args at s ≡ some (At.escape spec f a, t)
      → format_loop putch mem octal (suc fuel) args at s
        ≡ format_loop putch mem octal fuel args (At.escape spec f a) t
  unfolding format_loop
  to_escape octal fuel at spec f a s t e = rw (format_loop, e) refl

  end_step :
      (octal : Bool) (fuel f a : ℕ) (s : S)
      → mem s f ≡ 0
      → format_step putch mem octal fuel args (At.text f a) s ≡ some (At.finished, s)
  unfolding format_step
  end_step octal fuel f a s z = rw z refl

  to_end :
      (octal : Bool) (fuel : ℕ) (f a : ℕ) (s : S)
      → mem s f ≡ 0
      → format_loop putch mem octal (suc fuel) args (At.text f a) s ≡ some s
  unfolding format_loop
  to_end octal fuel f a s z = rw (format_loop, end_step octal (suc fuel) f a s z) refl

  percent_step :
      (octal : Bool) (fuel : ℕ) (f a : ℕ) (s : S)
      → mem s f ≡ 37
      → format_step putch mem octal fuel args (At.text f a) s
        ≡ some (At.escape initial (f + 1) a, s)
  unfolding format_step
  percent_step octal fuel f a s e = rw e refl

  unsigned_step :
      (octal : Bool) (fuel : ℕ) (f a : ℕ) (s t : S)
      → mem s f ≡ 117
      → put_number putch initial (args a % 2 ^ 32) 10 s ≡ some t
      → format_step putch mem octal fuel args (At.escape initial f a) s
        ≡ some (At.text (f + 1) (a + 1), t)
  unfolding format_step reswitch convert getuint
  unsigned_step octal fuel f a s t e out = rw (e, out) refl

  -- The format "%u".
  unsigned_format :
      (octal : Bool) (fuel : ℕ) (s t : S)
      → mem s fmt ≡ 37
      → mem s (fmt + 1) ≡ 117
      → mem t (fmt + 2) ≡ 0
      → put_number putch initial (args va % 2 ^ 32) 10 s ≡ some t
      → vprintfmt putch mem octal (suc (suc (suc fuel))) args fmt va s ≡ some t
  unfolding vprintfmt
  unsigned_format octal fuel s t p u z out =
      let e : fmt + 1 + 1 ≡ fmt + 2 = omega arith in
      to_escape octal (suc (suc fuel)) (At.text fmt va) initial (fmt + 1) va s s
        (percent_step octal (suc (suc (suc fuel))) fmt va s p)
      ∙ (to_text octal (suc fuel) (At.escape initial (fmt + 1) va) (fmt + 1 + 1) (va + 1) s t
            (unsigned_step octal (suc (suc fuel)) (fmt + 1) va s t u out)
          ∙ to_end octal fuel (fmt + 1 + 1) (va + 1) t (rw e z))

digit_of-small : (d : ℕ) → d < 10 → digit_of d % 256 ≡ 48 + d
digit_of-small d lt = ground arith

chars-IsDecimal :
    (m : ℕ → ℕ) (p : ℕ) (ds : List ℕ)
    → All (λ d. d < 10) ds
    → ((i : ℕ) → i < length ds → m (p + i) ≡ get_or (chars ds) i 0 % 256)
    → m (p + length ds) ≡ 0
    → IsDecimal m p ds
chars-IsDecimal m p [] small same end =
    let here : p + 0 ≡ p = omega arith in let z : m p ≡ 0 = rw here at end in rw z refl
chars-IsDecimal m p (d ∷ ds) small same end =
    let here : p + 0 ≡ p = omega arith in
    let next : p + suc (length ds) ≡ p + 1 + length ds = omega arith in
    (
      rw here at (same 0 (omega arith)) ∙ digit_of-small d small.0,
      small.0,
      chars-IsDecimal m (p + 1) ds small.1
          (λ i lt.
            let e : p + suc i ≡ p + 1 + i = omega arith in rw e at (same (suc i) (omega arith)))
          (rw next at end),
    )

length-chars : (ds : List ℕ) → length (chars ds) ≡ length ds
length-chars [] = refl
length-chars (d ∷ ds) = ap suc (length-chars ds)

value-value : (acc : ℕ) (ds : List ℕ) → Numbers.value acc ds ≡ value 10 acc ds
value-value acc [] = refl
value-value acc (d ∷ ds) = value-value (acc * 10 + d) ds

-- atoi of the digits of a number.
read_back :
    (m : ℕ → ℕ) (p num : ℕ) (ds : List ℕ)
    → AreDigits 10 num ds
    → num < 2 ^ 31
    → ((i : ℕ) → i < length ds → m (p + i) ≡ get_or (chars ds) i 0 % 256)
    → m (p + length ds) ≡ 0
    → atoi 12 m p ≡ some (length ds, some num)
read_back m p num [] h small same end = absurd (elim h.fewest [ inl e ↦ cc | inr lt ↦ omega arith ])
read_back m p num (d ∷ ds) h small same end =
    let v : Numbers.value 0 (d ∷ ds) ≡ num = value-value 0 (d ∷ ds) ∙ h.number in
    rw v at (
      atoi_lem 12 m p d ds (omega (arith, ten_digits num (d ∷ ds) h small))
        (chars-IsDecimal m p (d ∷ ds) h.small same end) (omega (arith, v, small)))

put_decimal :
    (m args : ℕ → ℕ) (num : ℕ) (s : SprintBuf)
    → num < 2 ^ 31
    → (ds : List ℕ) × AreDigits 10 num ds
      × (put_number sprintputch initial num 10 s ≡ some (feed sprintputch (chars ds) s))
unfolding put_number positive
put_decimal m args num s small =
    let (ds, digits, out) =
      printnum_lem sprintputch 10 32 (inr (inl refl)) 64 num 0 s (omega arith) (omega arith) in
    let none_left : 0 - length ds ≡ 0 = omega arith in (ds, digits, rw none_left at out)

-- `vsnprintf` of a number below 2^31 with the format "%u", into a buffer of at least 11 bytes
-- that the format is not in,
-- returns the number of digits, and `atoi` of the buffer then reads all of them and gives the number
-- back; no byte outside the buffer changes.
pub atoi-vsnprintf :
    (fuel : ℕ) (m args : ℕ → ℕ) (buf n fmt va : ℕ)
    → IsString m fmt (37 ∷ 117 ∷ [])
    → args va < 2 ^ 31
    → 11 ≤ n
    → (fmt + 3 ≤ buf) ⊎ (buf + n ≤ fmt)
    → (cnt : ℕ) × (m' : ℕ → ℕ) × (vsnprintf (suc (suc (suc fuel))) m args buf n fmt va
        ≡ some (cnt, m'))
      × (atoi 12 m' buf ≡ some (cnt, some (args va)))
      × ((a : ℕ) → (a < buf) ⊎ (buf + n ≤ a) → m' a ≡ m a)
unfolding vsnprintf
atoi-vsnprintf fuel m args buf n fmt va h small room apart =
    let s : SprintBuf = start m buf (n - 1) in
    let whole : args va % 2 ^ 32 ≡ args va = omega arith in
    let room1 : buf + n - 1 ≡ buf + (n - 1) = omega arith in
    let two : fmt + 1 + 1 ≡ fmt + 2 = omega arith in
    let (ds, digits, out) = put_decimal m args (args va) s small in
    let b : SprintBuf = feed sprintputch (chars ds) s in
    let held = feed-Holds m buf (n - 1) [] (chars ds) s (start-Holds m buf (n - 1)) in
    let p = Holds-Printed m buf n (chars ds) b (omega arith) held in
    let cut : min (length (chars ds)) (n - 1) ≡ length ds =
      omega (arith, length-chars ds, ten_digits (args va) ds digits small) in
    let ran : vprintfmt sprintputch SprintBuf.mem false (suc (suc (suc fuel))) args fmt va s
        ≡ some b =
      unsigned_format sprintputch SprintBuf.mem args fmt va false fuel s b h.0 h.3.0
        (held.outside (fmt + 2) (omega (arith, apart)) ∙ rw two at h.3.3) (rw whole out) in
    let cnt : b.cnt ≡ length ds = held.cnt ∙ length-chars ds in
    (
      length ds,
      update b.mem b.buf 0,
      rw (room1, ran, cnt) refl,
      read_back (update b.mem b.buf 0) buf (args va) ds digits small
          (λ i lt. p.inside i (omega (arith, cut))) (rw cut at p.end),
      p.outside,
    )
