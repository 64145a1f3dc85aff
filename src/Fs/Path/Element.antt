-- ===== src/Fs/Path/Element.antt =====
-- skipelem of path.c against the list of the bytes of a path.
use os_audio.Base.{
  ℕ, zero, suc, ◌+◌, ◌-◌, ◌≤◌, ◌<◌, ◌≡◌, ◌≢◌, ◌⊎◌, inl, inr, refl, ap, subst, ◌∙◌, arith, true,
  false, leb, min, some, update, update_self, update_ne, List, [], ◌∷◌, length, take, ◌==◌,
  if◌then◌else◌, eq_false, Option,
}
use native.Mathlib.Decide.{ℕ_discrete, dec_lt}
use os_audio.Strings.{memmove}
use os_audio.Strings.Block.{memmove_lem}
use os_audio.Strings.Compare.{IsString, IsString-frame}
use os_audio.Fs.Path.{skip_slashes, skip_name, copy_name, skipelem}

-- A path without its leading slashes, the element that it starts with, and what follows it.
abbrev pub no_slashes : List ℕ → List ℕ
no_slashes [] = []
no_slashes (x ∷ xs) = if x == 47 then no_slashes xs else x ∷ xs

abbrev pub element : List ℕ → List ℕ
element [] = []
element (x ∷ xs) = if x == 47 then [] else x ∷ element xs

abbrev pub after : List ℕ → List ℕ
after [] = []
after (x ∷ xs) = if x == 47 then x ∷ xs else after xs

-- `n` bytes of the string `xs` at `p` were passed, and the string `ys` is left.
record Passed (m : ℕ → ℕ) (p : ℕ) (xs : List ℕ) (n : ℕ) (ys : List ℕ) : Type 0 where
  pub count : n + length ys ≡ length xs
  pub left : IsString m (p + n) ys

Passed-here : {m : ℕ → ℕ} {p : ℕ} {xs : List ℕ} → IsString m p xs → Passed m p xs 0 xs
Passed-here {m = m} {p = p} {xs = xs} h =
    let e : p ≡ p + 0 = omega arith in
    record { count = omega arith; left = subst (λ q. IsString m q xs) e h }

Passed-step :
    {m : ℕ → ℕ} {p x n : ℕ} {xs ys : List ℕ}
    → Passed m (p + 1) xs n ys
    → Passed m p (x ∷ xs) (n + 1) ys
Passed-step {m = m} {p = p} {n = n} {ys = ys} h =
    let e : p + 1 + n ≡ p + (n + 1) = omega arith in
    record { count = omega (arith, h.count); left = subst (λ q. IsString m q ys) e h.left }

some-plus : (p n : ℕ) {o : Option ℕ} → o ≡ some (p + 1 + n) → o ≡ some (p + (n + 1))
some-plus p n h = let e : p + 1 + n ≡ p + (n + 1) = omega arith in h ∙ ap some e

slashes_lem :
    (fuel : ℕ) (m : ℕ → ℕ) (p : ℕ) (xs : List ℕ)
    → IsString m p xs
    → length xs < fuel
    → (n : ℕ) × (skip_slashes fuel m p ≡ some (p + n)) × Passed m p xs n (no_slashes xs)
unfolding skip_slashes
slashes_lem zero m p xs h lt = absurd (omega arith)
slashes_lem (suc fuel) m p [] h lt =
    let e : p + 0 ≡ p = omega arith in (0, rw (h, e) refl, Passed-here {xs = []} h)
slashes_lem (suc fuel) m p (x ∷ xs) h lt = elim (ℕ_discrete x 47) [
  | yes e ↦
      let slash : (x == 47) ≡ true = rw e refl in
      let (n, out, passed) = slashes_lem fuel m (p + 1) xs h.3 (omega arith) in
      rw (h.0, slash) (n + 1, some-plus p n out, Passed-step passed)
  | no ne ↦
      let e : p + 0 ≡ p = omega arith in
      rw (h.0, eq_false ne) (0, rw e refl, Passed-here {xs = x ∷ xs} h)
]

-- The bytes of the element are those up to where the walk stops.
name_lem :
    (fuel : ℕ) (m : ℕ → ℕ) (p : ℕ) (xs : List ℕ)
    → IsString m p xs
    → length xs < fuel
    → (skip_name fuel m p ≡ some (p + length (element xs)))
      × Passed m p xs (length (element xs)) (after xs)
unfolding skip_name
name_lem zero m p xs h lt = absurd (omega arith)
name_lem (suc fuel) m p [] h lt =
    let e : p + 0 ≡ p = omega arith in (rw (h, e) refl, Passed-here {xs = []} h)
name_lem (suc fuel) m p (x ∷ xs) h lt = elim (ℕ_discrete x 47) [
  | yes e ↦
      let slash : (x == 47) ≡ true = rw e refl in
      let f : p + 0 ≡ p = omega arith in rw (h.0, slash) (rw f refl, Passed-here {xs = x ∷ xs} h)
  | no ne ↦
      let nz : (x == 0) ≡ false = eq_false (omega (arith, h.1)) in
      let (out, passed) = name_lem fuel m (p + 1) xs h.3 (omega arith) in
      let one : suc (length (element xs)) ≡ length (element xs) + 1 = omega arith in
      rw (h.0, eq_false ne, nz, one) (some-plus p (length (element xs)) out, Passed-step passed)
]

-- A copy of the first bytes of an element, with a NUL behind them, is a string.
prefix-IsString :
    (m m' : ℕ → ℕ) (s d k : ℕ) (xs : List ℕ)
    → IsString m s xs
    → k ≤ length (element xs)
    → ((i : ℕ) → i < k → m' (d + i) ≡ m (s + i))
    → m' (d + k) ≡ 0
    → IsString m' d (take k (element xs))
prefix-IsString m m' s d zero xs h le same end = let e : d + 0 ≡ d = omega arith in rw e at end
prefix-IsString m m' s d (suc k) [] h le same end = absurd (omega arith)
prefix-IsString m m' s d (suc k) (x ∷ xs) h le same end = elim (ℕ_discrete x 47) [
  | yes e ↦
      let slash : (x == 47) ≡ true = rw e refl in
      absurd (let l : suc k ≤ 0 = rw slash at le in omega arith)
  | no ne ↦
      let name : (x == 47) ≡ false = eq_false ne in
      let l : suc k ≤ suc (length (element xs)) = rw name at le in
      let e : d + 0 ≡ d = omega arith in
      let f : s + 0 ≡ s = omega arith in
      let g : d + suc k ≡ d + 1 + k = omega arith in
      rw name (
        rw (e, f) at (same 0 (omega arith)) ∙ h.0,
        h.1,
        h.2,
        prefix-IsString m m' (s + 1) (d + 1) k xs h.3 (omega arith)
            (λ i lt.
              let a : d + 1 + i ≡ d + (i + 1) = omega arith in
              let b : s + 1 + i ≡ s + (i + 1) = omega arith in
              rw (a, b) (same (i + 1) (omega arith)))
            (rw g at end),
      )
]

take-min : (n : ℕ) (xs : List ℕ) → take (min n (length xs)) xs ≡ take n xs
take-min zero xs = let e : min 0 (length xs) ≡ 0 = omega arith in rw e refl
take-min (suc n) [] = let e : min (suc n) 0 ≡ 0 = omega arith in rw e refl
take-min (suc n) (x ∷ xs) =
    let e : min (suc n) (suc (length xs)) ≡ suc (min n (length xs)) = omega arith in
    rw (e, take-min n xs) refl

-- `m'` holds the element, cut at 13 bytes, at `name`, and differs from `m` at most there.
record Named (m : ℕ → ℕ) (name : ℕ) (xs : List ℕ) (m' : ℕ → ℕ) : Type 0 where
  pub string : IsString m' name (take 13 (element xs))
  pub outside : (a : ℕ) → (a < name) ⊎ (name + 14 ≤ a) → m' a ≡ m a

moved-Named :
    (m : ℕ → ℕ) (name s k : ℕ) (xs : List ℕ)
    → IsString m s xs
    → k ≡ min 13 (length (element xs))
    → Named m name xs (update (memmove m name s k) (name + k) 0)
moved-Named m name s k xs h e =
    let m1 : ℕ → ℕ = memmove m name s k in
    let (inside, outside) = memmove_lem m name s k in
    let string : IsString (update m1 (name + k) 0) name (take k (element xs)) =
      prefix-IsString m (update m1 (name + k) 0) s name k xs h (omega arith)
        (λ i lt. update_ne m1 0 (omega arith) ∙ inside i lt) (update_self m1 (name + k) 0) in
    record {
      string =
          subst (λ l. IsString (update m1 (name + k) 0) name l)
            (ap (λ (n : ℕ). take n (element xs)) e ∙ take-min 13 (element xs)) string;
      outside = λ a out. update_ne m1 0 (omega arith) ∙ outside a (omega arith);
    }

copy_name-Named :
    (m : ℕ → ℕ) (name s : ℕ) (xs : List ℕ)
    → IsString m s xs
    → Named m name xs (copy_name m name s (length (element xs)))
unfolding copy_name
copy_name-Named m name s xs h = elim (dec_lt (length (element xs)) 14) [
  | yes short ↦
      let t : leb 14 (length (element xs)) ≡ false = ground arith in
      rw t (moved-Named m name s (length (element xs)) xs h (omega arith))
  | no long ↦
      let t : leb 14 (length (element xs)) ≡ true = ground arith in
      rw t (moved-Named m name s 13 xs h (omega arith))
]

-- What skipelem makes of a path whose leading slashes leave `ys`.
abbrev pub Skipped : (fuel : ℕ) (m : ℕ → ℕ) (p name : ℕ) (ys : List ℕ) → Type 0
Skipped fuel m p name ys =
    ((ys ≡ []) × (skipelem fuel m p name ≡ some (0, m)))
    ⊎ ((ys ≢ [])
        × ((n : ℕ) × (m' : ℕ → ℕ) × (skipelem fuel m p name ≡ some (p + n, m'))
            × IsString m' (p + n) (no_slashes (after ys))
            × IsString m' name (take 13 (element ys))
            × ((a : ℕ) → (a < name) ⊎ (name + 14 ≤ a) → m' a ≡ m a)))

finish :
    (fuel : ℕ) (m : ℕ → ℕ) (p name n : ℕ) (xs ys : List ℕ)
    → length xs < fuel
    → (name + 14 ≤ p) ⊎ (p + length xs < name)
    → skip_slashes fuel m p ≡ some (p + n)
    → Passed m p xs n ys
    → Skipped fuel m p name ys
unfolding skipelem
finish fuel m p name n xs [] lt apart found passed =
    let z : (m (p + n) == 0) ≡ true = rw passed.left refl in inl (refl, rw (found, z) refl)
finish fuel m p name n xs (y ∷ ys) lt apart found passed =
    let s : ℕ = p + n in
    let h : IsString m s (y ∷ ys) = passed.left in
    let nz : (m s == 0) ≡ false = rw h.0 (eq_false (omega (arith, h.1))) in
    let (walk, behind) = name_lem fuel m s (y ∷ ys) h (omega (arith, passed.count)) in
    let len : ℕ = length (element (y ∷ ys)) in
    let named = copy_name-Named m name s (y ∷ ys) h in
    let m1 : ℕ → ℕ = copy_name m name s len in
    let rest : IsString m1 (s + len) (after (y ∷ ys)) =
      IsString-frame m m1 (s + len) (after (y ∷ ys))
        (λ a from below. named.outside a (omega (arith, passed.count, behind.count))) behind.left in
    let (k, again, last) =
      slashes_lem fuel m1 (s + len) (after (y ∷ ys)) rest
        (omega (arith, passed.count, behind.count)) in
    let size : s + len - s ≡ len = omega arith in
    let end : s + len + k ≡ p + (n + len + k) = omega arith in
    inr (
      λ e. cc,
      (
        n + len + k,
        m1,
        rw (found, nz, walk, size, again, end) refl,
        subst (λ q. IsString m1 q (no_slashes (after (y ∷ ys)))) end last.left,
        named.string,
        named.outside,
      ),
    )

-- `skipelem` of a path that is a string, into a `name` whose 14 bytes do not overlap it, returns
-- when its fuel exceeds the length of the path. If the path has no element the result is 0 and
-- memory is as before. Otherwise `name` is the first element, cut at 13 bytes, as a string, the
-- result points to what follows it without leading slashes, and no byte but those of `name` changes.
pub skipelem_lem :
    (fuel : ℕ) (m : ℕ → ℕ) (p name : ℕ) (xs : List ℕ)
    → IsString m p xs
    → length xs < fuel
    → (name + 14 ≤ p) ⊎ (p + length xs < name)
    → Skipped fuel m p name (no_slashes xs)
skipelem_lem fuel m p name xs h lt apart =
    let (n, found, passed) = slashes_lem fuel m p xs h lt in
    finish fuel m p name n xs (no_slashes xs) lt apart found passed
