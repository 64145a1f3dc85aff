-- ===== src/Dev/Keyboard.antt =====
-- The keyboard of kern/dev/keyboard.c. The bytes that the controller will deliver at its data port
-- are a list: while it is not empty, KBS_DIB is set in the status port. The bits of the static
-- `shift` are the fields of a record. The message of Ctrl-Alt-Del is left out.
use os_audio.Base.{
  ℕ, ◌+◌, ◌-◌, ◌%◌, Bool, true, false, not, ◌&&◌, ◌||◌, Option, none, some, List, [], ◌∷◌, get_or,
  leb, ◌==◌, if◌then◌else◌,
}

pub record Shift : Type 0 where
  pub shift : Bool
  pub ctl : Bool
  pub alt : Bool
  pub capslock : Bool
  pub numlock : Bool
  pub scrolllock : Bool
  pub e0esc : Bool

-- The device, the static `shift` of kbd_proc_data, and the port writes.
pub record Keyboard : Type 0 where
  pub codes : List ℕ
  pub shift : Shift
  pub out : List (ℕ × ℕ)

-- Entries `(index, value)` of an initializer with designators.
abbrev pub designated : List (ℕ × ℕ) → (i : ℕ) → ℕ
designated [] i = 0
designated ((j, v) ∷ rest) i = if i == j then v else designated rest i

abbrev pub normalmap_row : List ℕ
normalmap_row =
    0 ∷ 27 ∷ 49 ∷ 50 ∷ 51 ∷ 52 ∷ 53 ∷ 54 ∷ 55 ∷ 56 ∷ 57 ∷ 48 ∷ 45 ∷ 61 ∷ 8 ∷ 9 ∷ 113 ∷ 119 ∷ 101
    ∷ 114 ∷ 116 ∷ 121 ∷ 117 ∷ 105 ∷ 111 ∷ 112 ∷ 91 ∷ 93 ∷ 10 ∷ 0 ∷ 97 ∷ 115 ∷ 100 ∷ 102 ∷ 103 ∷ 104
    ∷ 106 ∷ 107 ∷ 108 ∷ 59 ∷ 39 ∷ 96 ∷ 0 ∷ 92 ∷ 122 ∷ 120 ∷ 99 ∷ 118 ∷ 98 ∷ 110 ∷ 109 ∷ 44 ∷ 46 ∷ 47
    ∷ 0 ∷ 42 ∷ 0 ∷ 32 ∷ 0 ∷ 0 ∷ 0 ∷ 0 ∷ 0 ∷ 0 ∷ 0 ∷ 0 ∷ 0 ∷ 0 ∷ 0 ∷ 0 ∷ 0 ∷ 55 ∷ 56 ∷ 57 ∷ 45 ∷ 52
    ∷ 53 ∷ 54 ∷ 43 ∷ 49 ∷ 50 ∷ 51 ∷ 48 ∷ 46 ∷ 0 ∷ 0 ∷ 0 ∷ 0 ∷ []

abbrev pub normalmap_keys : List (ℕ × ℕ)
normalmap_keys =
    (199, 224)
    ∷ (156, 10)
    ∷ (181, 47)
    ∷ (200, 226)
    ∷ (201, 230)
    ∷ (203, 228)
    ∷ (205, 229)
    ∷ (207, 225)
    ∷ (208, 227)
    ∷ (209, 231)
    ∷ (210, 232)
    ∷ (211, 233)
    ∷ []

unfoldable pub normalmap : ℕ → ℕ
normalmap i = if leb 128 i then designated normalmap_keys i else get_or normalmap_row i 0

abbrev pub shiftmap_row : List ℕ
shiftmap_row =
    0 ∷ 27 ∷ 33 ∷ 64 ∷ 35 ∷ 36 ∷ 37 ∷ 94 ∷ 38 ∷ 42 ∷ 40 ∷ 41 ∷ 95 ∷ 43 ∷ 8 ∷ 9 ∷ 81 ∷ 87 ∷ 69 ∷ 82
    ∷ 84 ∷ 89 ∷ 85 ∷ 73 ∷ 79 ∷ 80 ∷ 123 ∷ 125 ∷ 10 ∷ 0 ∷ 65 ∷ 83 ∷ 68 ∷ 70 ∷ 71 ∷ 72 ∷ 74 ∷ 75 ∷ 76
    ∷ 58 ∷ 34 ∷ 126 ∷ 0 ∷ 124 ∷ 90 ∷ 88 ∷ 67 ∷ 86 ∷ 66 ∷ 78 ∷ 77 ∷ 60 ∷ 62 ∷ 63 ∷ 0 ∷ 42 ∷ 0 ∷ 32
    ∷ 0 ∷ 0 ∷ 0 ∷ 0 ∷ 0 ∷ 0 ∷ 0 ∷ 0 ∷ 0 ∷ 0 ∷ 0 ∷ 0 ∷ 0 ∷ 55 ∷ 56 ∷ 57 ∷ 45 ∷ 52 ∷ 53 ∷ 54 ∷ 43 ∷ 49
    ∷ 50 ∷ 51 ∷ 48 ∷ 46 ∷ 0 ∷ 0 ∷ 0 ∷ 0 ∷ []

abbrev pub shiftmap_keys : List (ℕ × ℕ)
shiftmap_keys =
    (199, 224)
    ∷ (156, 10)
    ∷ (181, 47)
    ∷ (200, 226)
    ∷ (201, 230)
    ∷ (203, 228)
    ∷ (205, 229)
    ∷ (207, 225)
    ∷ (208, 227)
    ∷ (209, 231)
    ∷ (210, 232)
    ∷ (211, 233)
    ∷ []

unfoldable pub shiftmap : ℕ → ℕ
shiftmap i = if leb 128 i then designated shiftmap_keys i else get_or shiftmap_row i 0

abbrev pub ctlmap_row : List ℕ
ctlmap_row =
    0 ∷ 0 ∷ 0 ∷ 0 ∷ 0 ∷ 0 ∷ 0 ∷ 0 ∷ 0 ∷ 0 ∷ 0 ∷ 0 ∷ 0 ∷ 0 ∷ 0 ∷ 0 ∷ 17 ∷ 23 ∷ 5 ∷ 18 ∷ 20 ∷ 25 ∷ 21
    ∷ 9 ∷ 15 ∷ 16 ∷ 0 ∷ 0 ∷ 13 ∷ 0 ∷ 1 ∷ 19 ∷ 4 ∷ 6 ∷ 7 ∷ 8 ∷ 10 ∷ 11 ∷ 12 ∷ 0 ∷ 0 ∷ 0 ∷ 0 ∷ 28 ∷ 26
    ∷ 24 ∷ 3 ∷ 22 ∷ 2 ∷ 14 ∷ 13 ∷ 0 ∷ 0 ∷ 239 ∷ 0 ∷ 0 ∷ []

abbrev pub ctlmap_keys : List (ℕ × ℕ)
ctlmap_keys =
    (151, 224)
    ∷ (181, 239)
    ∷ (200, 226)
    ∷ (201, 230)
    ∷ (203, 228)
    ∷ (205, 229)
    ∷ (207, 225)
    ∷ (208, 227)
    ∷ (209, 231)
    ∷ (210, 232)
    ∷ (211, 233)
    ∷ []

unfoldable pub ctlmap : ℕ → ℕ
ctlmap i = if leb 128 i then designated ctlmap_keys i else get_or ctlmap_row i 0

-- charcode[shift & (CTL | SHIFT)][data]
unfoldable pub charcode : Shift → ℕ → ℕ
charcode s i = if s.ctl then ctlmap i else if s.shift then shiftmap i else normalmap i

-- `shift |= shiftcode[data]` for `v` true, and `shift &= ~shiftcode[data]` for `v` false.
unfoldable pub set_shiftcode : (v : Bool) (i : ℕ) → Shift → Shift
set_shiftcode v i s =
    if (i == 29) || (i == 157)
    then record s { ctl = v }
    else if (i == 42) || (i == 54)
    then record s { shift = v }
    else if (i == 56) || (i == 184)
    then record s { alt = v }
    else s

-- `shift ^= togglecode[data]`
unfoldable pub toggle : (i : ℕ) → Shift → Shift
toggle i s =
    if i == 58
    then record s { capslock = not s.capslock }
    else if i == 69
    then record s { numlock = not s.numlock }
    else if i == 70
    then record s { scrolllock = not s.scrolllock }
    else s

unfoldable pub caps : Shift → ℕ → ℕ
caps s c =
    if not s.capslock
    then c
    else if leb 97 c && leb c 122
    then c - 32
    else if leb 65 c && leb c 90
    then c + 32
    else c

-- The rest of kbd_proc_data, for a key that was pressed.
unfoldable pub pressed : (i : ℕ) → Keyboard → ℕ × Keyboard
pressed i k =
    let s = toggle i (set_shiftcode true i k.shift) in
    let c = caps s (charcode s i) in
    let k' = record k { shift = s } in
    if s.ctl && (s.alt && (c == 233)) then (c, record k' { out = (146, 3) ∷ k.out }) else (c, k')

-- What kbd_proc_data does with the byte from the data port.
unfoldable pub kbd_byte : (byte : ℕ) → Keyboard → ℕ × Keyboard
kbd_byte byte k =
    let s = k.shift in
    if byte == 224
    then (0, record k { shift = record s { e0esc = true } })
    else if leb 128 byte
    then (
      0,
      record k {
        shift = record (set_shiftcode false (if s.e0esc then byte else byte % 128) s) {
          e0esc = false;
        };
      },
    )
    else pressed (if s.e0esc then byte + 128 else byte)
        (record k { shift = record s { e0esc = false } })

-- `none` is -1: no data.
unfoldable pub kbd_proc_data : Keyboard → Option ℕ × Keyboard
kbd_proc_data k = elim k.codes [
  | [] ↦ (none, k)
  | byte ∷ rest ↦ let (c, k') = kbd_byte byte (record k { codes = rest }) in (some c, k')
]
