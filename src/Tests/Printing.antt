-- ===== src/Tests/Printing.antt =====
-- printnum and snprintf (kern/lib/printfmt.c, user/lib/printfmt.c) on small formats.
use os_audio.Base.{
  ℕ, ◌+◌, ◌-◌, ◌≤◌, ◌<◌, ◌≡◌, ◌⊎◌, inr, refl, arith, some, List, [], ◌∷◌, ◌++◌, length, replicate,
  ◌==◌, if◌then◌else◌,
}
use os_audio.Print.{printnum}
use os_audio.Print.Number.{feed, chars, AreDigits, printnum_lem}
use os_audio.Print.Buffer.{vsnprintf}
use os_audio.Print.Decimal.{atoi-vsnprintf}
use os_audio.Strings.Compare.{IsString}
use os_audio.User.Numbers.{atoi}

abbrev push : ℕ → List ℕ → List ℕ
push c cs = c ∷ cs

-- 255 in base 16, in a field of four.
printnum_lem_example :
    (ds : List ℕ) × AreDigits 16 255 ds
    × (printnum 64 push 255 16 4 48 []
        ≡ some (feed push (replicate (4 - length ds) 48 ++ chars ds) []))
printnum_lem_example =
    printnum_lem push 16 48 (inr (inr refl)) 64 255 4 [] (omega arith) (omega arith)

-- "%u" at 10.
abbrev memory : ℕ → ℕ
memory a = if a == 10 then 37 else if a == 11 then 117 else 0

abbrev arguments : ℕ → ℕ
arguments i = if i == 0 then 4217 else 0

format-IsString : IsString memory 10 (37 ∷ 117 ∷ [])
format-IsString = (refl, omega arith, omega arith, (refl, omega arith, omega arith, refl))

atoi-vsnprintf_example :
    (cnt : ℕ) × (m' : ℕ → ℕ) × (vsnprintf 3 memory arguments 100 16 10 0 ≡ some (cnt, m'))
    × (atoi 12 m' 100 ≡ some (cnt, some 4217))
    × ((a : ℕ) → (a < 100) ⊎ (100 + 16 ≤ a) → m' a ≡ memory a)
atoi-vsnprintf_example =
    atoi-vsnprintf 0 memory arguments 100 16 10 0 format-IsString (omega arith) (omega arith)
      (omega arith)
