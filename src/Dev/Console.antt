-- ===== src/Dev/Console.antt =====
-- The console's input buffer (kern/dev/console.c), and the interrupt routines of the keyboard and of
-- the serial port (kern/dev/serial.c) that fill it. The bytes that the serial port will deliver are
-- a list. `none` is a lock that is held, or a run longer than the fuel.
pub mod Queue
pub mod Intr
pub mod Input
use os_audio.Base.{
  ℕ, zero, suc, ◌+◌, ◌%◌, Bool, Option, none, some, List, [], ◌∷◌, update, ◌==◌, if◌then◌else◌,
  ◌>>=◌,
}
use os_audio.Sync.{Spinlock, spinlock_acquire, spinlock_release}
use os_audio.Dev.Keyboard.{Keyboard, kbd_proc_data}

-- CONSOLE_BUFFER_SIZE
abbrev pub console_buffer_size : ℕ
console_buffer_size = 512

-- `cons`
pub record Cons : Type 0 where
  pub buf : ℕ → ℕ
  pub rpos : ℕ
  pub wpos : ℕ

pub record Console : Type 0 where
  pub cpu : ℕ
  pub cons_lk : Spinlock
  pub cons : Cons
  pub keyboard : Keyboard
  pub serial : List ℕ
  pub serial_exists : Bool

abbrev pub advance : ℕ → ℕ
advance pos = if pos + 1 == console_buffer_size then 0 else pos + 1

-- `cons.buf[cons.wpos++] = c`, into an array of `char`.
unfoldable pub put : Cons → (c : ℕ) → Cons
put r c = record r { buf = update r.buf r.wpos (c % 256); wpos = advance r.wpos }

module _ {ℓ} {S : Type ℓ} (proc : S → Option ℕ × S) where
  -- `while ((c = (*proc)()) != -1)`
  unfoldable pub intr_loop : (fuel : ℕ) → S → Cons → Option (S × Cons)
  intr_loop zero s r = none
  intr_loop (suc fuel) s r =
      let (o, s') = proc s in
      elim o [ none ↦ some (s', r) | some c ↦ intr_loop fuel s' (if c == 0 then r else put r c) ]

  unfoldable pub cons_intr : (fuel cpu : ℕ) → S → Spinlock → Cons → Option (S × (Spinlock × Cons))
  cons_intr fuel cpu s lk r = do
    lk ← spinlock_acquire cpu lk
    (s, r) ← intr_loop fuel s r
    some (s, (spinlock_release lk, r))

unfoldable pub serial_proc_data : List ℕ → Option ℕ × List ℕ
serial_proc_data [] = (none, [])
serial_proc_data (c ∷ rest) = (some c, rest)

unfoldable pub keyboard_intr : (fuel : ℕ) → Console → Option Console
keyboard_intr fuel k = do
  (s, (lk, r)) ← cons_intr kbd_proc_data fuel k.cpu k.keyboard k.cons_lk k.cons
  some (record k { keyboard = s; cons_lk = lk; cons = r })

unfoldable pub serial_intr : (fuel : ℕ) → Console → Option Console
serial_intr fuel k =
    if k.serial_exists
    then (do
      (s, (lk, r)) ← cons_intr serial_proc_data fuel k.cpu k.serial k.cons_lk k.cons
      some (record k { serial = s; cons_lk = lk; cons = r }))
    else some k

-- The next character, 0 if there is none, and the buffer.
unfoldable pub get : Cons → ℕ × Cons
get r = if r.rpos == r.wpos then (0, r) else (r.buf r.rpos, record r { rpos = advance r.rpos })

unfoldable pub cons_getc : (fuel : ℕ) → Console → Option (ℕ × Console)
cons_getc fuel k = do
  k ← serial_intr fuel k
  k ← keyboard_intr fuel k
  lk ← spinlock_acquire k.cpu k.cons_lk
  let (c, r) = get k.cons
  some (c, record k { cons_lk = spinlock_release lk; cons = r })
