-- ===== src/Fs/Path.antt =====
-- skipelem of kern/fs/path.c: the first element of a path. Memory is the byte at each address, and
-- 47 is the slash; `none` is a run longer than the fuel.
pub mod Element
use os_audio.Base.{
  ℕ, zero, suc, ◌+◌, ◌-◌, ◌||◌, Option, none, some, update, leb, ◌==◌, if◌then◌else◌, ◌>>=◌,
}
use os_audio.Strings.{memmove}

-- DIRSIZ
abbrev pub dirsiz : ℕ
dirsiz = 14

-- `while (*path == '/') path++;`
pub skip_slashes : (fuel : ℕ) (m : ℕ → ℕ) (path : ℕ) → Option ℕ
skip_slashes zero m path = none
skip_slashes (suc fuel) m path =
    let rest = skip_slashes fuel m (path + 1) in if m path == 47 then rest else some path

-- `while (*path != '/' && *path != 0) path++;`
pub skip_name : (fuel : ℕ) (m : ℕ → ℕ) (path : ℕ) → Option ℕ
skip_name zero m path = none
skip_name (suc fuel) m path =
    let rest = skip_name fuel m (path + 1) in
    if (m path == 47) || (m path == 0) then some path else rest

-- The copy of an element of `len` bytes into `name`, cut at DIRSIZ - 1.
pub copy_name : (m : ℕ → ℕ) (name s len : ℕ) → ℕ → ℕ
copy_name m name s len =
    if leb dirsiz len
    then update (memmove m name s (dirsiz - 1)) (name + (dirsiz - 1)) 0
    else update (memmove m name s len) (name + len) 0

-- The pointer behind the element, 0 if there is none, and the memory.
unfoldable pub skipelem : (fuel : ℕ) (m : ℕ → ℕ) (path name : ℕ) → Option (ℕ × (ℕ → ℕ))
skipelem fuel m path name = do
  s ← skip_slashes fuel m path
  if m s == 0 then some (0, m) else (do
    path ← skip_name fuel m s
    let m' = copy_name m name s (path - s)
    path ← skip_slashes fuel m' path
    some (path, m'))
