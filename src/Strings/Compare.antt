-- ===== src/Strings/Compare.antt =====
-- strcmp, strnlen, strchr and strncpy of kern/lib/string.c on strings that end in a NUL.
use os_audio.Base.{
  ℕ, zero, suc, ◌+◌, ◌-◌, ◌≤◌, ◌<◌, ◌≡◌, ◌≢◌, ◌⊎◌, ◌↔◌, inl, refl, ◌∙◌, ap, arith, false, min, ◌==◌,
  update, update_self, update_ne, List, [], ◌∷◌, length, get_or, some, eq_true, eq_false,
}
use native.Mathlib.Decide.{ℕ_discrete}
use os_audio.Strings.Block.{fill_bytes-BytesSet}
use os_audio.Strings.{byte_diff, strcmp, strnlen, strncpy}

-- The bytes `xs`, none of them NUL, and then a NUL stand at `s`.
abbrev pub IsString : (ℕ → ℕ) → ℕ → List ℕ → Type 0
IsString m s [] = m s ≡ 0
IsString m s (x ∷ xs) = (m s ≡ x) × (1 ≤ x) × (x < 256) × IsString m (s + 1) xs

byte_diff_self : (a : ℕ) → byte_diff a a ≡ 0
byte_diff_self a = omega arith

byte_diff_ne : (a b : ℕ) → a < 256 → b < 256 → a ≢ b → byte_diff a b ≢ 0
byte_diff_ne a b ha hb ne e = ne (omega arith)

-- Two strings that differ in their first byte, or of which one has ended.
differ :
    (a b : ℕ) (P : Type 0)
    → a < 256
    → b < 256
    → a ≢ b
    → ¬ P
    → (r : ℕ) × (some (byte_diff a b) ≡ some r) × ((r ≡ 0) ↔ P)
differ a b P ha hb ne not_p =
    (byte_diff a b, refl, (λ e. absurd (byte_diff_ne a b ha hb ne e), λ p. absurd (not_p p)))

-- `strcmp` of two strings returns once it has seen at most one more byte than the first has, and
-- returns 0 exactly if the strings are equal.
strcmp_lem :
    (m : ℕ → ℕ) (p q : ℕ) (xs ys : List ℕ) (fuel : ℕ)
    → IsString m p xs
    → IsString m q ys
    → length xs < fuel
    → (r : ℕ) × (strcmp fuel m p q ≡ some r) × ((r ≡ 0) ↔ (xs ≡ ys))
unfolding strcmp
strcmp_lem m p q xs ys zero hp hq h = absurd (omega arith)
strcmp_lem m p q [] [] (suc fuel) hp hq h = rw (hp, hq) (0, refl, (λ _. refl, λ _. refl))
strcmp_lem m p q [] (y ∷ ys) (suc fuel) hp hq h =
    rw (hp, hq.0) (differ 0 y ([] ≡ y ∷ ys) (omega arith) hq.2 (omega (arith, hq.1)) (λ e. cc))
strcmp_lem m p q (x ∷ xs) [] (suc fuel) hp hq h =
    let nz : (x == 0) ≡ false = eq_false (omega (arith, hp.1)) in
    rw (hp.0, hq, nz) (differ x 0 (x ∷ xs ≡ []) hp.2 (omega arith) (omega (arith, hp.1)) (λ e. cc))
strcmp_lem m p q (x ∷ xs) (y ∷ ys) (suc fuel) hp hq h =
    let nz : (x == 0) ≡ false = eq_false (omega (arith, hp.1)) in
    elim (ℕ_discrete x y) [
      | yes e ↦
          let (r, out, iff) = strcmp_lem m (p + 1) (q + 1) xs ys fuel hp.3 hq.3 (omega arith) in
          rw (hp.0, hq.0, nz, ← e, eq_true x)
            (r, out, (λ z. ap (λ l. x ∷ l) (iff.0 z), λ l. iff.1 (tail_eq l)))
      | no ne ↦
          rw (hp.0, hq.0, nz, eq_false ne)
            (differ x y (x ∷ xs ≡ y ∷ ys) hp.2 hq.2 ne (λ e. ne (head_eq e)))
    ]
  where
    tail_eq : {a b : ℕ} {l k : List ℕ} → a ∷ l ≡ b ∷ k → l ≡ k
    tail_eq e = cc

    head_eq : {a b : ℕ} {l k : List ℕ} → a ∷ l ≡ b ∷ k → a ≡ b
    head_eq e = cc

-- `strnlen` is the length of the string, but at most `size`.
pub strnlen_lem :
    (m : ℕ → ℕ) (s size : ℕ) (xs : List ℕ)
    → IsString m s xs
    → strnlen m s size ≡ min size (length xs)
unfolding strnlen
strnlen_lem m s zero xs h = omega arith
strnlen_lem m s (suc size) [] h = rw h (omega arith)
strnlen_lem m s (suc size) (x ∷ xs) h =
    let nz : (x == 0) ≡ false = eq_false (omega (arith, h.1)) in
    rw (h.0, nz) (omega (arith, strnlen_lem m (s + 1) size xs h.3))

pub IsString-frame :
    (m m' : ℕ → ℕ) (s : ℕ) (xs : List ℕ)
    → ((a : ℕ) → s ≤ a → a ≤ s + length xs → m' a ≡ m a)
    → IsString m s xs
    → IsString m' s xs
IsString-frame m m' s [] same h = same s (omega arith) (omega arith) ∙ h
IsString-frame m m' s (x ∷ xs) same h = (
  same s (omega arith) (omega arith) ∙ h.0,
  h.1,
  h.2,
  IsString-frame m m' (s + 1) xs (λ a from below. same a (omega arith) (omega arith)) h.3,
)

pub get_or_later :
    (x : ℕ) (xs : List ℕ) (i d : ℕ) → i ≢ 0 → get_or (x ∷ xs) i d ≡ get_or xs (i - 1) d
get_or_later x xs zero d ne = absurd (ne refl)
get_or_later x xs (suc i) d ne = let e : suc i - 1 ≡ i = omega arith in rw e refl

-- `strncpy` of a string onto `n` bytes that do not overlap it: they are then the string, cut at `n`
-- or filled up with NULs, and no other byte changes.
strncpy_lem :
    (m : ℕ → ℕ) (s t n : ℕ) (xs : List ℕ)
    → IsString m t xs
    → (s + n ≤ t) ⊎ (t + length xs < s)
    → ((i : ℕ) → i < n → strncpy n m s t (s + i) ≡ get_or xs i 0)
      × ((a : ℕ) → (a < s) ⊎ (s + n ≤ a) → strncpy n m s t a ≡ m a)
unfolding strncpy
strncpy_lem m s t zero xs h apart = (λ i lt. absurd (omega arith), λ a out. refl)
strncpy_lem m s t (suc n) [] h apart =
    let pad = fill_bytes-BytesSet n (update m s 0) (s + 1) 0 in
    rw h (
      λ i lt. elim (ℕ_discrete i 0) [
        | yes e ↦
            let f : s + i ≡ s = omega arith in
            rw f (pad.outside s (inl (omega arith)) ∙ update_self m s 0)
        | no ne ↦
            let f : s + i ≡ s + 1 + (i - 1) = omega arith in rw f (pad.inside (i - 1) (omega arith))
      ],
      λ a out. pad.outside a (omega arith) ∙ update_ne m 0 (omega arith),
    )
strncpy_lem m s t (suc n) (x ∷ xs) h apart =
    let nz : (x == 0) ≡ false = eq_false (omega (arith, h.1)) in
    let m1 : ℕ → ℕ = update m s x in
    let string : IsString m1 (t + 1) xs =
      IsString-frame m m1 (t + 1) xs (λ a from below. update_ne m x (omega arith)) h.3 in
    let (inside, outside) = strncpy_lem m1 (s + 1) (t + 1) n xs string (omega arith) in
    rw (h.0, nz)
      (
        λ i lt. elim (ℕ_discrete i 0) [
          | yes e ↦
              let f : s + i ≡ s = omega arith in
              rw (f, e) (outside s (inl (omega arith)) ∙ update_self m s x)
          | no ne ↦
              let f : s + i ≡ s + 1 + (i - 1) = omega arith in
              rw (f, get_or_later x xs i 0 ne) (inside (i - 1) (omega arith))
        ],
        λ a out. outside a (omega arith) ∙ update_ne m x (omega arith),
      )
