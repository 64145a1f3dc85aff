-- ===== src/Tests/Bytes.antt =====
-- Strings and numbers in a small memory (kern/lib/string.c, user/lib).
use os_audio.Base.{
  ℕ, ◌+◌, ◌-◌, ◌%◌, ◌≤◌, ◌<◌, ◌≡◌, ◌⊎◌, refl, arith, some, List, [], ◌∷◌, length, get_or, min, ◌==◌,
  if◌then◌else◌,
}
use os_audio.Strings.{memmove, memset}
use os_audio.Strings.Block.{memmove_lem, memset_lem}
use os_audio.Strings.Compare.{IsString}
use os_audio.User.Strings.{strlcpy, strlcpy_lem}
use os_audio.User.Numbers.{IsDecimal, value, atoi, atoi_loop, atoi_lem}

abbrev text : List ℕ
text = 52 ∷ 50 ∷ []

abbrev digits : List ℕ
digits = 4 ∷ 2 ∷ []

-- "42" at 100 and again at 200.
abbrev bytes : ℕ → ℕ
bytes a =
    if a == 100
    then 52
    else if a == 101
    then 50
    else if a == 200
    then 52
    else if a == 201
    then 50
    else 0

first-IsString : IsString bytes 100 text
first-IsString = (refl, omega arith, omega arith, (refl, omega arith, omega arith, refl))

bytes-IsDecimal : IsDecimal bytes 100 digits
bytes-IsDecimal = (refl, omega arith, (refl, omega arith, refl))

memmove_lem_example :
    ((i : ℕ) → i < 8 → memmove bytes 100 104 8 (100 + i) ≡ bytes (104 + i))
    × ((a : ℕ) → (a < 100) ⊎ (100 + 8 ≤ a) → memmove bytes 100 104 8 a ≡ bytes a)
memmove_lem_example = memmove_lem bytes 100 104 8

memset_lem_example :
    ((i : ℕ) → i < 6 → memset bytes 100 300 6 (100 + i) ≡ 300 % 256)
    × ((a : ℕ) → (a < 100) ⊎ (100 + 6 ≤ a) → memset bytes 100 300 6 a ≡ bytes a)
memset_lem_example = memset_lem bytes 100 300 6

strlcpy_lem_example :
    let (n, m') = strlcpy bytes 300 100 2 in
    (n ≡ min (2 - 1) 2)
    × ((i : ℕ) → i < n → m' (300 + i) ≡ get_or text i 0)
    × (m' (300 + n) ≡ 0)
    × ((a : ℕ) → (a < 300) ⊎ (300 + n < a) → m' a ≡ bytes a)
strlcpy_lem_example = strlcpy_lem bytes 300 100 2 text first-IsString (omega arith) (omega arith)

atoi_lem_example : atoi 3 bytes 100 ≡ some (length digits, some (value 0 digits))
atoi_lem_example = atoi_lem 3 bytes 100 4 (2 ∷ []) (omega arith) bytes-IsDecimal (omega arith)

-- Which is the number 42, in two bytes.
atoi_42 : atoi 3 bytes 100 ≡ some (2, some 42)
unfolding atoi atoi_loop
atoi_42 = refl
