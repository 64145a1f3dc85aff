-- ===== src/Print.antt =====
-- printnum, getuint and getint of kern/lib/printfmt.c. `putch` is the character sink that the
-- caller passes, on whatever state `S` it keeps; `none` is a run longer than the fuel. A negative
-- width is 0 here: neither pads.
pub mod Number
pub mod Format
pub mod Buffer
pub mod Bounds
pub mod Decimal
use os_audio.Base.{
  ℕ, zero, suc, ◌+◌, ◌-◌, ◌*◌, ◌/◌, ◌%◌, ◌^◌, Option, none, some, ◌>>=◌, ltb, leb, ◌==◌,
  if◌then◌else◌,
}

-- "0123456789abcdef"[n]
unfoldable pub digit_char : ℕ → ℕ
digit_char n = if ltb n 10 then 48 + n else 87 + n

module _ {ℓ} {S : Type ℓ} where
  -- A loop that puts the same character `k` times.
  unfoldable pub pad : (k : ℕ) (putch : ℕ → S → S) (padc : ℕ) → S → S
  pad zero putch padc s = s
  pad (suc k) putch padc s = pad k putch padc (putch padc s)

  unfoldable pub printnum : (fuel : ℕ) (putch : ℕ → S → S) (num base width padc : ℕ) → S → Option S
  printnum zero putch num base width padc s = none
  printnum (suc fuel) putch num base width padc s =
      let more = printnum fuel putch (num / base) base (width - 1) padc s in
      do
        s ← if leb base num then more else some (pad (width - 1) putch padc s)
        some (putch (digit_char (num % base)) s)

-- The arguments of a variadic function are the 32-bit words from `ap` on.
-- `va_arg` of a word, and of a double word.
abbrev pub word_arg : (args : ℕ → ℕ) (ap : ℕ) → ℕ × ℕ
word_arg args ap = (args ap % 2 ^ 32, ap + 1)

abbrev pub long_long_arg : (args : ℕ → ℕ) (ap : ℕ) → ℕ × ℕ
long_long_arg args ap = (args ap % 2 ^ 32 + args (ap + 1) % 2 ^ 32 * 2 ^ 32, ap + 2)

-- The value and the next argument.
unfoldable pub getuint : (args : ℕ → ℕ) (ap lflag : ℕ) → ℕ × ℕ
getuint args ap lflag = if leb 2 lflag then long_long_arg args ap else word_arg args ap

-- The 64-bit pattern of a 32-bit `int`.
unfoldable pub sign_extend : ℕ → ℕ
sign_extend n = if leb (2 ^ 31) n then n + (2 ^ 64 - 2 ^ 32) else n

unfoldable pub getint : (args : ℕ → ℕ) (ap lflag : ℕ) → ℕ × ℕ
getint args ap lflag =
    if leb 2 lflag
    then long_long_arg args ap
    else let (n, ap) = word_arg args ap in (sign_extend n, ap)
