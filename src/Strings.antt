-- ===== src/Strings.antt =====
-- kern/lib/string.c: memory and string routines. Memory is the byte at each address; an address does
-- not wrap. A routine that returns its first argument returns here only the memory.
pub mod Block
pub mod Compare
use os_audio.Base.{
  ℕ, zero, suc, ◌+◌, ◌-◌, ◌*◌, ◌/◌, ◌%◌, ◌^◌, Bool, ◌&&◌, ◌||◌, not, Option, none, some, update,
  ltb, leb, ◌==◌, if◌then◌else◌, u32_mod, ◌>>=◌,
}

-- The move of one block of `b` bytes (1 for movsb, 4 for movsl), read before it is written.
unfoldable pub move_block : (b : ℕ) (m : ℕ → ℕ) (d s : ℕ) → ℕ → ℕ
move_block b m d s a = if leb d a && ltb a (d + b) then m (s + (a - d)) else m a

-- `cld; rep movs`: `k` blocks, from the first to the last.
unfoldable pub copy_up : (b k : ℕ) (m : ℕ → ℕ) (d s : ℕ) → ℕ → ℕ
copy_up b zero m d s = m
copy_up b (suc k) m d s = copy_up b k (move_block b m d s) (d + b) (s + b)

-- `std; rep movs`: from the last to the first; `d` and `s` are where the blocks begin.
unfoldable pub copy_down : (b k : ℕ) (m : ℕ → ℕ) (d s : ℕ) → ℕ → ℕ
copy_down b zero m d s = m
copy_down b (suc k) m d s = copy_down b k (move_block b m (d + k * b) (s + k * b)) d s

unfoldable pub memmove : (m : ℕ → ℕ) (dst src n : ℕ) → ℕ → ℕ
memmove m dst src n =
    let aligned_up = (src % 4 == 0) && ((dst % 4 == 0) && (n % 4 == 0)) in
    let aligned_down = ((src + n) % 4 == 0) && (((dst + n) % 4 == 0) && (n % 4 == 0)) in
    if ltb src dst && ltb dst (src + n)
    then (if aligned_down then copy_down 4 (n / 4) m dst src else copy_down 1 n m dst src)
    else (if aligned_up then copy_up 4 (n / 4) m dst src else copy_up 1 n m dst src)

unfoldable pub memcpy : (m : ℕ → ℕ) (dst src n : ℕ) → ℕ → ℕ
memcpy m dst src n = memmove m dst src n

-- Byte `i` of a 32-bit word.
unfoldable pub byte_of : (w i : ℕ) → ℕ
byte_of w i =
    if i == 0
    then w % 256
    else if i == 1
    then w / 2 ^ 8 % 256
    else if i == 2
    then w / 2 ^ 16 % 256
    else w / 2 ^ 24 % 256

unfoldable pub store_word : (m : ℕ → ℕ) (v w : ℕ) → ℕ → ℕ
store_word m v w a = if leb v a && ltb a (v + 4) then byte_of w (a - v) else m a

-- `rep stosl` and `rep stosb`.
unfoldable pub fill_words : (k : ℕ) (m : ℕ → ℕ) (v w : ℕ) → ℕ → ℕ
fill_words zero m v w = m
fill_words (suc k) m v w = fill_words k (store_word m v w) (v + 4) w

unfoldable pub fill_bytes : (k : ℕ) (m : ℕ → ℕ) (v c : ℕ) → ℕ → ℕ
fill_bytes zero m v c = m
fill_bytes (suc k) m v c = fill_bytes k (update m v c) (v + 1) c

unfoldable pub memset : (m : ℕ → ℕ) (v c n : ℕ) → ℕ → ℕ
memset m v c n =
    let byte = c % 256 in
    if n == 0
    then m
    else if (v % 4 == 0) && (n % 4 == 0)
    then fill_words (n / 4) m v (byte * 2 ^ 24 + byte * 2 ^ 16 + byte * 2 ^ 8 + byte)
    else fill_bytes n m v byte

unfoldable pub memzero : (m : ℕ → ℕ) (v n : ℕ) → ℕ → ℕ
memzero m v n = memset m v 0 n

-- `(int) a - (int) b` of two bytes, as a 32-bit pattern.
abbrev pub byte_diff : (a b : ℕ) → ℕ
byte_diff a b = (a + u32_mod - b) % u32_mod

unfoldable pub strncmp : (m : ℕ → ℕ) (p q n : ℕ) → ℕ
strncmp m p q zero = 0
strncmp m p q (suc n) =
    let rest = strncmp m (p + 1) (q + 1) n in
    if not (m p == 0) && (m p == m q) then rest else byte_diff (m p) (m q)

unfoldable pub strnlen : (m : ℕ → ℕ) (s size : ℕ) → ℕ
strnlen m s zero = 0
strnlen m s (suc size) = let rest = strnlen m (s + 1) size in if m s == 0 then 0 else rest + 1

-- `none` is a run longer than the fuel.
unfoldable pub strcmp : (fuel : ℕ) (m : ℕ → ℕ) (p q : ℕ) → Option ℕ
strcmp zero m p q = none
strcmp (suc fuel) m p q =
    let rest = strcmp fuel m (p + 1) (q + 1) in
    if not (m p == 0) && (m p == m q) then rest else some (byte_diff (m p) (m q))

-- The result 0 is the null pointer.
unfoldable pub strchr : (fuel : ℕ) (m : ℕ → ℕ) (s c : ℕ) → Option ℕ
strchr zero m s c = none
strchr (suc fuel) m s c =
    let rest = strchr fuel m (s + 1) c in
    if m s == 0 then some 0 else if m s == c then some s else rest

unfoldable pub memcmp : (m : ℕ → ℕ) (v1 v2 n : ℕ) → ℕ
memcmp m v1 v2 zero = 0
memcmp m v1 v2 (suc n) =
    let rest = memcmp m (v1 + 1) (v2 + 1) n in
    if not (m v1 == m v2) then byte_diff (m v1) (m v2) else rest

-- For `n` at least 0. The second loop runs only when the first one has copied a NUL.
unfoldable pub strncpy : (n : ℕ) (m : ℕ → ℕ) (s t : ℕ) → ℕ → ℕ
strncpy zero m s t = m
strncpy (suc n) m s t =
    let m' = update m s (m t) in
    let rest = strncpy n m' (s + 1) (t + 1) in
    let padded = fill_bytes n m' (s + 1) 0 in if m t == 0 then padded else rest
