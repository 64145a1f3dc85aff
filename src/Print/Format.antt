-- ===== src/Print/Format.antt =====
-- vprintfmt of kern/lib/printfmt.c and, with another octal conversion, of user/lib/printfmt.c. A
-- negative `int` is `none` where only its sign matters, memory is the byte at each address, and
-- `none` as a result is a run longer than the fuel.
use os_audio.Base.{
  ℕ, zero, suc, ◌+◌, ◌-◌, ◌*◌, ◌^◌, Bool, true, false, not, ◌&&◌, ◌||◌, Option, none, some, ltb,
  leb, ◌==◌, if◌then◌else◌, ◌>>=◌,
}
use os_audio.Strings.{strnlen}
use os_audio.Print.{pad, printnum, word_arg, getuint, getint}

-- The flags of an escape sequence.
pub record Spec : Type 0 where
  pub padc : ℕ
  pub width : Option ℕ
  pub precision : Option ℕ
  pub lflag : ℕ
  pub altflag : Bool

abbrev pub initial : Spec
initial = record { padc = 32; width = none; precision = none; lflag = 0; altflag = false }

-- Where the two loops stand: in the text, in an escape sequence, or behind the format.
pub data At : Type 0 where
  text : (fmt ap : ℕ) → At
  escape : Spec → (fmt ap : ℕ) → At
  finished : At

-- `if (width < 0) width = precision, precision = -1;`
unfoldable pub process_precision : Spec → Spec
process_precision spec = elim spec.width [
  | none ↦ record spec { width = spec.precision; precision = none }
  | some w ↦ spec
]

-- The digits of a width: the number and where it ends.
unfoldable pub width_digits : (fuel : ℕ) (m : ℕ → ℕ) (precision ch fmt : ℕ) → Option (ℕ × ℕ)
width_digits zero m precision ch fmt = none
width_digits (suc fuel) m precision ch fmt =
    let precision = precision * 10 + (ch - 48) in
    let next = m fmt in
    let rest = width_digits fuel m precision next (fmt + 1) in
    if ltb next 48 || ltb 57 next then some (precision, fmt) else rest

-- `for (fmt--; fmt[-1] != '%'; fmt--);` behind its first step.
unfoldable pub back_up : (fuel : ℕ) (m : ℕ → ℕ) (fmt : ℕ) → Option ℕ
back_up zero m fmt = none
back_up (suc fuel) m fmt =
    let rest = back_up fuel m (fmt - 1) in if m (fmt - 1) == 37 then some fmt else rest

-- "(null)"
unfoldable pub null_text : ℕ → ℕ
null_text a =
    if a == 0
    then 40
    else if a == 1
    then 110
    else if a == 2
    then 117
    else if (a == 3) || (a == 4)
    then 108
    else if a == 5
    then 41
    else 0

unfoldable pub positive : Option ℕ → ℕ
positive none = 0
positive (some n) = n

-- `precision < 0 || --precision >= 0`: what is left of the precision, if the test holds.
unfoldable pub take_one : Option ℕ → Option (Option ℕ)
take_one none = some none
take_one (some zero) = none
take_one (some (suc k)) = some (some k)

-- The size that strnlen is given: that of a precision of -1 is beyond any string.
unfoldable pub limit : (fuel : ℕ) → Option ℕ → ℕ
limit fuel none = fuel
limit fuel (some n) = n

module _ {ℓ} {S : Type ℓ} (putch : ℕ → S → S) where
  -- The characters of a string, `width` down to what is left of it.
  unfoldable pub put_string :
      (fuel : ℕ) (read : S → ℕ → ℕ) (altflag : Bool) (precision : Option ℕ) (width p : ℕ)
      → S
      → Option (ℕ × S)
  put_string zero read altflag precision width p s = none
  put_string (suc fuel) read altflag precision width p s =
      let ch = read s p in
      if ch == 0 then some (width, s) else elim (take_one precision) [
        | none ↦ some (width, s)
        | some precision ↦
            put_string fuel read altflag precision (width - 1) (p + 1)
              (putch (if altflag && (ltb ch 32 || ltb 126 ch) then 63 else ch) s)
      ]

  -- `case 'd'`: the sign and the number.
  unfoldable pub put_sign : ℕ → S → ℕ × S
  put_sign num s = if leb (2 ^ 63) num then (2 ^ 64 - num, putch 45 s) else (num, s)

  unfoldable pub put_number : Spec → (num base : ℕ) → S → Option S
  put_number spec num base s = printnum 64 putch num base (positive spec.width) spec.padc s

  -- `case 'o'`, which user/lib/printfmt.c leaves out unless SOL is defined.
  unfoldable pub put_octal :
      (octal : Bool) (args : ℕ → ℕ) → Spec → (fmt ap : ℕ) → S → Option (At × S)
  put_octal octal args spec fmt ap s =
      if octal
      then (let (num, ap) = getuint args ap spec.lflag in
          do s ← put_number spec num 8 s; some (At.text fmt ap, s))
      else some (At.text fmt ap, putch 88 (putch 88 (putch 88 s)))

-- `mem` is the memory, the sink's buffer included, in which the format and the strings are.
module _ {ℓ} {S : Type ℓ} (putch : ℕ → S → S) (mem : S → ℕ → ℕ) where
  -- `case 's'`
  unfoldable pub put_s : (fuel : ℕ) → Spec → (p : ℕ) → S → Option S
  put_s fuel spec p s =
      let read = if p == 0 then (λ s. null_text) else mem in
      let width = positive spec.width in
      let left = ltb 0 width && not (spec.padc == 45) in
      let fill = width - strnlen (read s) p (limit fuel spec.precision) in
      let s = if left then pad fill putch spec.padc s else s in
      do
        (width, s) ←
            put_string putch fuel read spec.altflag spec.precision (if left then 0 else width) p s
        some (pad width putch 32 s)

  -- The conversions of the switch, the next argument, and the sink's state.
  unfoldable pub convert :
      (octal : Bool) (fuel : ℕ) (args : ℕ → ℕ) → Spec → (ch fmt ap : ℕ) → S → Option (At × S)
  convert octal fuel args spec ch fmt ap s =
      if ch == 99
      then (let (c, ap) = word_arg args ap in some (At.text fmt ap, putch c s))
      else if ch == 115
      then (let (p, ap) = word_arg args ap in do s ← put_s fuel spec p s; some (At.text fmt ap, s))
      else if ch == 100
      then (let (num, ap) = getint args ap spec.lflag in
          do
            let (num, s) = put_sign putch num s
            s ← put_number putch spec num 10 s
            some (At.text fmt ap, s))
      else if ch == 117
      then (let (num, ap) = getuint args ap spec.lflag in
          do s ← put_number putch spec num 10 s; some (At.text fmt ap, s))
      else if ch == 111
      then put_octal putch octal args spec fmt ap s
      else if ch == 112
      then (let (num, ap) = word_arg args ap in
          do s ← put_number putch spec num 16 (putch 120 (putch 48 s)); some (At.text fmt ap, s))
      else if ch == 120
      then (let (num, ap) = getuint args ap spec.lflag in
          do s ← put_number putch spec num 16 s; some (At.text fmt ap, s))
      else if ch == 37
      then some (At.text fmt ap, putch ch s)
      else (do fmt ← back_up fuel (mem s) (fmt - 1); some (At.text fmt ap, putch 37 s))

  -- The flags, and the conversions.
  unfoldable pub reswitch :
      (octal : Bool) (fuel : ℕ) (args : ℕ → ℕ) → Spec → (fmt ap : ℕ) → S → Option (At × S)
  reswitch octal fuel args spec fmt ap s =
      let ch = mem s fmt in
      let fmt = fmt + 1 in
      if ch == 45
      then some (At.escape (record spec { padc = 45 }) fmt ap, s)
      else if ch == 48
      then some (At.escape (record spec { padc = 48 }) fmt ap, s)
      else if leb 49 ch && leb ch 57
      then (do
        (n, fmt) ← width_digits fuel (mem s) 0 ch fmt
        some (At.escape (process_precision (record spec { precision = some n })) fmt ap, s))
      else if ch == 42
      then (let (n, ap) = word_arg args ap in
          let given = if leb (2 ^ 31) n then none else some n in
          some (At.escape (process_precision (record spec { precision = given })) fmt ap, s))
      else if ch == 46
      then some (At.escape (record spec { width = some (positive spec.width) }) fmt ap, s)
      else if ch == 35
      then some (At.escape (record spec { altflag = true }) fmt ap, s)
      else if ch == 108
      then some (At.escape (record spec { lflag = spec.lflag + 1 }) fmt ap, s)
      else convert octal fuel args spec ch fmt ap s

  -- One character of the text, or one of an escape sequence.
  unfoldable pub format_step : (octal : Bool) (fuel : ℕ) (args : ℕ → ℕ) → At → S → Option (At × S)
  format_step octal fuel args (At.text fmt ap) s =
      let ch = mem s fmt in
      if ch == 37
      then some (At.escape initial (fmt + 1) ap, s)
      else if ch == 0
      then some (At.finished, s)
      else some (At.text (fmt + 1) ap, putch ch s)
  format_step octal fuel args (At.escape spec fmt ap) s = reswitch octal fuel args spec fmt ap s
  format_step octal fuel args At.finished s = some (At.finished, s)

  -- `while (1)`
  unfoldable pub format_loop : (octal : Bool) (fuel : ℕ) (args : ℕ → ℕ) → At → S → Option S
  format_loop octal zero args at s = none
  format_loop octal (suc fuel) args at s = elim (format_step octal (suc fuel) args at s) [
    | none ↦ none
    | some (At.finished, s) ↦ some s
    | some (At.text fmt ap, s) ↦ format_loop octal fuel args (At.text fmt ap) s
    | some (At.escape spec fmt ap, s) ↦ format_loop octal fuel args (At.escape spec fmt ap) s
  ]

  unfoldable pub vprintfmt : (octal : Bool) (fuel : ℕ) (args : ℕ → ℕ) (fmt ap : ℕ) → S → Option S
  vprintfmt octal fuel args fmt ap s = format_loop octal fuel args (At.text fmt ap) s
