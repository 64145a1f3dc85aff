-- ===== src/Tests/Paths.antt =====
-- A path in memory (kern/fs/path.c).
use os_audio.Base.{ℕ, ◌≡◌, refl, arith, List, [], ◌∷◌, ◌==◌, if◌then◌else◌}
use os_audio.Strings.Compare.{IsString}
use os_audio.Fs.Path.Element.{no_slashes, Skipped, skipelem_lem}

-- "/a/b"
abbrev path : List ℕ
path = 47 ∷ 97 ∷ 47 ∷ 98 ∷ []

abbrev bytes : ℕ → ℕ
bytes a =
    if a == 300
    then 47
    else if a == 301
    then 97
    else if a == 302
    then 47
    else if a == 303
    then 98
    else 0

path-IsString : IsString bytes 300 path
path-IsString = (
  refl,
  omega arith,
  omega arith,
  (
    refl,
    omega arith,
    omega arith,
    (refl, omega arith, omega arith, (refl, omega arith, omega arith, refl)),
  ),
)

skipelem_lem_example : Skipped 5 bytes 300 200 (no_slashes path)
skipelem_lem_example = skipelem_lem 5 bytes 300 200 path path-IsString (omega arith) (omega arith)

-- The leading slash is left out.
no_slashes-path : no_slashes path ≡ 97 ∷ 47 ∷ 98 ∷ []
no_slashes-path = refl
