-- ===== src/User/Strings.antt =====
-- user/lib/string.c, but for the routines that it shares, line for line, with kern/lib/string.c.
-- Memory is the byte at each address; `none` is a run longer than the fuel.
use os_audio.Base.{
  ℕ, zero, suc, ◌+◌, ◌-◌, ◌%◌, ◌≤◌, ◌<◌, ◌≡◌, ◌⊎◌, inl, refl, ◌∙◌, arith, false, not, Option, none,
  some, update, update_self, update_ne, ◌==◌, if◌then◌else◌, ◌>>=◌, List, [], ◌∷◌, length, get_or,
  eq_false, min,
}
use native.Mathlib.Decide.{ℕ_discrete}
use os_audio.Strings.Compare.{IsString, IsString-frame, get_or_later}

unfoldable pub strlen : (fuel : ℕ) (m : ℕ → ℕ) (s : ℕ) → Option ℕ
strlen zero m s = none
strlen (suc fuel) m s =
    let rest = strlen fuel m (s + 1) in if m s == 0 then some 0 else (do n ← rest; some (n + 1))

unfoldable pub strcpy : (fuel : ℕ) (m : ℕ → ℕ) (dst src : ℕ) → Option (ℕ → ℕ)
strcpy zero m dst src = none
strcpy (suc fuel) m dst src =
    let m' = update m dst (m src) in
    let rest = strcpy fuel m' (dst + 1) (src + 1) in if m src == 0 then some m' else rest

-- The loop on the `size - i` rounds left: `src` stays on the NUL.
unfoldable pub strncpy : (size : ℕ) (m : ℕ → ℕ) (dst src : ℕ) → ℕ → ℕ
strncpy zero m dst src = m
strncpy (suc size) m dst src =
    let m' = update m dst (m src) in
    strncpy size m' (dst + 1) (if not (m' src == 0) then src + 1 else src)

-- The loop of strlcpy, on the size that is left, at least 1: the memory, and where `dst` ends.
unfoldable pub strlcpy_loop : (size : ℕ) (m : ℕ → ℕ) (dst src : ℕ) → ℕ × (ℕ → ℕ)
strlcpy_loop zero m dst src = (dst, m)
strlcpy_loop (suc size) m dst src =
    let rest = strlcpy_loop size (update m dst (m src)) (dst + 1) (src + 1) in
    if not (m src == 0) then rest else (dst, m)

unfoldable pub strlcpy : (m : ℕ → ℕ) (dst src size : ℕ) → ℕ × (ℕ → ℕ)
unfolding strlcpy_loop
strlcpy m dst src zero = (0, m)
strlcpy m dst src (suc size) = let (d, m') = strlcpy_loop size m dst src in (d - dst, update m' d 0)

unfoldable pub strfind : (fuel : ℕ) (m : ℕ → ℕ) (s c : ℕ) → Option ℕ
strfind zero m s c = none
strfind (suc fuel) m s c =
    let rest = strfind fuel m (s + 1) c in
    if m s == 0 then some s else if m s == c then some s else rest

-- On the `ends - s` rounds left; 0 is NULL.
unfoldable pub memchr : (m : ℕ → ℕ) (s c n : ℕ) → ℕ
memchr m s c zero = 0
memchr m s c (suc n) = let rest = memchr m (s + 1) c n in if m s == c % 256 then s else rest

strlcpy_loop_lem :
    (m : ℕ → ℕ) (d s n : ℕ) (xs : List ℕ)
    → IsString m s xs
    → (d + n + 1 ≤ s) ⊎ (s + length xs < d)
    → ((strlcpy_loop n m d s).0 ≡ d + min n (length xs))
      × ((i : ℕ) → i < min n (length xs) → (strlcpy_loop n m d s).1 (d + i) ≡ get_or xs i 0)
      × ((a : ℕ) → (a < d) ⊎ (d + min n (length xs) ≤ a) → (strlcpy_loop n m d s).1 a ≡ m a)
unfolding strlcpy_loop
strlcpy_loop_lem m d s zero xs h apart = (omega arith, λ i lt. absurd (omega arith), λ a out. refl)
strlcpy_loop_lem m d s (suc n) [] h apart =
    rw h (omega arith, λ i lt. absurd (omega arith), λ a out. refl)
strlcpy_loop_lem m d s (suc n) (x ∷ xs) h apart =
    let nz : (x == 0) ≡ false = eq_false (omega (arith, h.1)) in
    let m1 : ℕ → ℕ = update m d x in
    let string : IsString m1 (s + 1) xs =
      IsString-frame m m1 (s + 1) xs (λ a from below. update_ne m x (omega arith)) h.3 in
    let (end, inside, outside) = strlcpy_loop_lem m1 (d + 1) (s + 1) n xs string (omega arith) in
    rw (h.0, nz)
      (
        omega (arith, end),
        λ i lt. elim (ℕ_discrete i 0) [
          | yes e ↦
              let f : d + i ≡ d = omega arith in
              rw (f, e) (outside d (inl (omega arith)) ∙ update_self m d x)
          | no ne ↦
              let f : d + i ≡ d + 1 + (i - 1) = omega arith in
              rw (f, get_or_later x xs i 0 ne) (inside (i - 1) (omega arith))
        ],
        λ a out. outside a (omega arith) ∙ update_ne m x (omega arith),
      )

-- `strlcpy` of a string into `size` bytes, at least one, that do not overlap it: it returns the
-- number of bytes copied, which is the length of the string cut at `size - 1`; they are the first
-- bytes of the string, a NUL follows them, and no other byte changes.
pub strlcpy_lem :
    (m : ℕ → ℕ) (d s size : ℕ) (xs : List ℕ)
    → IsString m s xs
    → 1 ≤ size
    → (d + size ≤ s) ⊎ (s + length xs < d)
    → let (n, m') = strlcpy m d s size in
      (n ≡ min (size - 1) (length xs))
      × ((i : ℕ) → i < n → m' (d + i) ≡ get_or xs i 0)
      × (m' (d + n) ≡ 0)
      × ((a : ℕ) → (a < d) ⊎ (d + n < a) → m' a ≡ m a)
unfolding strlcpy
strlcpy_lem m d s zero xs h one apart = absurd (omega arith)
strlcpy_lem m d s (suc size) xs h one apart =
    let (end, inside, outside) = strlcpy_loop_lem m d s size xs h (omega arith) in
    let k : ℕ = min size (length xs) in
    let m1 : ℕ → ℕ = (strlcpy_loop size m d s).1 in
    let e : suc size - 1 ≡ size = omega arith in
    let f : d + k - d ≡ k = omega arith in
    rw (end, e, f)
      (
        refl,
        λ i lt. update_ne m1 0 (omega arith) ∙ inside i lt,
        update_self m1 (d + k) 0,
        λ a out. update_ne m1 0 (omega arith) ∙ outside a (omega arith),
      )
