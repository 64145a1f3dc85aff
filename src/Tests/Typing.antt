-- ===== src/Tests/Typing.antt =====
-- The console with one character from the serial port, and "A" typed (kern/dev).
use os_audio.Base.{ℕ, ◌≡◌, ◌⊎◌, refl, arith, some, List, [], ◌∷◌, ◌++◌, true, false}
use os_audio.Dev.Keyboard.{
  Keyboard, kbd_byte, pressed, set_shiftcode, toggle, caps, charcode, shiftmap,
}
use os_audio.Dev.Console.{Console, cons_getc}
use os_audio.Dev.Console.Queue.{Queued}
use os_audio.Dev.Console.Intr.{stored}
use os_audio.Dev.Console.Input.{typed, received, cons_getc_lem}

-- The shift key goes down, then A, and A goes up.
abbrev keys : Keyboard
keys = record {
  codes = 42 ∷ 30 ∷ 158 ∷ [];
  shift = record {
    shift = false;
    ctl = false;
    alt = false;
    capslock = false;
    numlock = false;
    scrolllock = false;
    e0esc = false;
  };
  out = [];
}

abbrev quiet : Console
quiet = record {
  cpu = 0;
  cons_lk = record { lock_holder = 9; lock = 0 };
  cons = record { buf = λ i. 0; rpos = 511; wpos = 511 };
  keyboard = keys;
  serial = 52 ∷ [];
  serial_exists = true;
}

typed-keys : (typed keys.codes keys).0 ≡ 0 ∷ 65 ∷ 0 ∷ []
unfolding kbd_byte pressed set_shiftcode toggle caps charcode shiftmap
typed-keys = refl

quiet-Queued : Queued quiet.cons []
quiet-Queued = record {
  read_pos = omega arith;
  write_pos = refl;
  room = omega arith;
  waits = λ i lt. absurd (omega arith);
}

cons_getc_lem_example :
    (c : ℕ) × (k' : Console) × (rest : List ℕ) × (cons_getc 4 quiet ≡ some (c, k'))
    × (let all = ([] ++ received quiet) ++ stored (typed keys.codes keys).0 in
        (all ≡ c ∷ rest) ⊎ ((all ≡ []) × ((c ≡ 0) × (rest ≡ []))))
    × Queued k'.cons rest
    × (k'.keyboard.codes ≡ [])
    × (k'.cons_lk.lock ≡ 0)
unfolding kbd_byte pressed set_shiftcode toggle caps charcode shiftmap
cons_getc_lem_example =
    cons_getc_lem 4 quiet [] quiet-Queued refl (omega arith) (omega arith) (omega arith)
