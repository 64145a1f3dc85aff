-- ===== src/Dev/Console/Input.antt =====
-- cons_getc of kern/dev/console.c on what the devices deliver.
use os_audio.Base.{
  ℕ, suc, ◌+◌, ◌<◌, ◌≡◌, ◌⊎◌, inl, inr, refl, sym, ap, subst, arith, Bool, true, false, some, List,
  [], ◌∷◌, ◌++◌, length, length-append, append-nil, ◌==◌, if◌then◌else◌, Bool-cases, leb,
}
use os_audio.Sync.{spinlock_release}
use os_audio.Dev.Keyboard.{Keyboard, pressed, kbd_byte, kbd_proc_data}
use os_audio.Dev.Console.{
  Cons, Console, console_buffer_size, get, serial_proc_data, keyboard_intr, serial_intr, cons_getc,
}
use os_audio.Dev.Console.Queue.{Queued, get-Queued, get-empty}
use os_audio.Dev.Console.Intr.{Yields, stored, acquire-free, release-free, cons_intr_lem}

serial-Yields : (cs : List ℕ) → Yields serial_proc_data cs cs []
unfolding serial_proc_data
serial-Yields [] = Yields.done refl
serial-Yields (c ∷ cs) = Yields.one refl (serial-Yields cs)

-- What the keyboard makes of the bytes, and its state then.
abbrev pub typed : List ℕ → Keyboard → List ℕ × Keyboard
typed [] k = ([], k)
typed (b ∷ bs) k =
    let (c, k1) = kbd_byte b (record k { codes = bs }) in let (cs, k2) = typed bs k1 in (c ∷ cs, k2)

codes_if :
    (b : Bool) (p q : ℕ × Keyboard) (z : List ℕ)
    → p.1.codes ≡ z
    → q.1.codes ≡ z
    → (if b then p else q).1.codes ≡ z
codes_if true p q z e f = e
codes_if false p q z e f = f

pressed-codes : (i : ℕ) (k : Keyboard) → (pressed i k).1.codes ≡ k.codes
unfolding pressed
pressed-codes i k = codes_if _ _ _ k.codes refl refl

kbd_byte-codes : (b : ℕ) (k : Keyboard) → (kbd_byte b k).1.codes ≡ k.codes
unfolding kbd_byte
kbd_byte-codes b k = elim (Bool-cases (b == 224)) [
  | inl e ↦ rw e refl
  | inr e ↦ elim (Bool-cases (leb 128 b)) [
    | inl f ↦ rw (e, f) refl
    | inr f ↦ rw (e, f) (pressed-codes _ _)
  ]
]

kbd-Yields :
    (codes : List ℕ) (k : Keyboard)
    → k.codes ≡ codes
    → let (cs, k') = typed codes k in
      Yields kbd_proc_data k cs k' × (length cs ≡ length codes) × (k'.codes ≡ [])
unfolding kbd_proc_data
kbd-Yields [] k e = (Yields.done (rw e refl), refl, e)
kbd-Yields (b ∷ bs) k e =
    let rest =
      kbd-Yields bs (kbd_byte b (record k { codes = bs })).1
        (kbd_byte-codes b (record k { codes = bs })) in
    (Yields.one (rw e refl) rest.0, ap suc rest.1, rest.2)

-- What the serial port adds, if there is one.
abbrev pub received : Console → List ℕ
received k = if k.serial_exists then stored k.serial else []

-- The state after one of the two interrupt routines.
record Filled (k : Console) (ys : List ℕ) (k' : Console) : Type 0 where
  pub queue : Queued k'.cons ys
  pub free : k'.cons_lk.lock ≡ 0

serial_stage :
    (fuel : ℕ) (k : Console) (xs : List ℕ)
    → Queued k.cons xs
    → k.cons_lk.lock ≡ 0
    → length k.serial < fuel
    → length xs + length (received k) < console_buffer_size
    → (k' : Console) × (serial_intr fuel k ≡ some k')
      × Filled k (xs ++ received k) k'
      × (k'.keyboard ≡ k.keyboard)
unfolding serial_intr
serial_stage fuel k xs q free lt room = elim (Bool-cases k.serial_exists) [
  | inr none_there ↦ (
    k,
    rw none_there refl,
    rw none_there (record { queue = subst (Queued k.cons) (sym (append-nil xs)) q; free = free }),
    refl,
  )
  | inl there ↦
      let room1 : length xs + length (stored k.serial) < console_buffer_size = rw there at room in
      let (r', lk', out, open_lk, q') =
        cons_intr_lem serial_proc_data fuel k.cpu k.serial [] k.serial k.cons_lk k.cons xs
          (serial-Yields k.serial) lt free q room1 in
      (
        record k { serial = []; cons_lk = lk'; cons = r' },
        rw (there, out) refl,
        rw there (record { queue = q'; free = open_lk }),
        refl,
      )
]

keyboard_stage :
    (fuel : ℕ) (k : Console) (b : Keyboard) (xs : List ℕ)
    → k.keyboard ≡ b
    → Queued k.cons xs
    → k.cons_lk.lock ≡ 0
    → length b.codes < fuel
    → length xs + length (stored (typed b.codes b).0) < console_buffer_size
    → (k' : Console) × (keyboard_intr fuel k ≡ some k')
      × Filled k (xs ++ stored (typed b.codes b).0) k'
      × (k'.keyboard.codes ≡ [])
unfolding keyboard_intr
keyboard_stage fuel k b xs e q free lt room =
    let (y, len, empty) = kbd-Yields b.codes b refl in
    let (r', lk', out, open_lk, q') =
      cons_intr_lem kbd_proc_data fuel k.cpu b (typed b.codes b).1 (typed b.codes b).0 k.cons_lk
        k.cons xs y (omega (arith, len, lt)) free q room in
    (
      record k { keyboard = (typed b.codes b).1; cons_lk = lk'; cons = r' },
      rw (e, out) refl,
      record { queue = q'; free = open_lk },
      empty,
    )

-- What a ring of the characters `ys` gives.
get_stage :
    (r : Cons) (ys : List ℕ)
    → Queued r ys
    → (c : ℕ) × (r' : Cons) × (rest : List ℕ) × (get r ≡ (c, r'))
      × ((ys ≡ c ∷ rest) ⊎ ((ys ≡ []) × ((c ≡ 0) × (rest ≡ []))))
      × Queued r' rest
get_stage r [] q = (0, r, [], get-empty r q, inr (refl, (refl, refl)), q)
get_stage r (y ∷ ys) q = let (r', out, q') = get-Queued r y ys q in (y, r', ys, out, inl refl, q')

-- `cons_getc`, with its lock free, enough fuel for what the devices deliver and less than the ring's
-- 512 characters in all: it returns the first of the characters that waited, came from the serial
-- port and were typed, in this order, or 0 if there are none; the others wait, the keyboard is
-- empty and the lock free.
pub cons_getc_lem :
    (fuel : ℕ) (k : Console) (xs : List ℕ)
    → Queued k.cons xs
    → k.cons_lk.lock ≡ 0
    → length k.serial < fuel
    → length k.keyboard.codes < fuel
    → length xs + length (received k) + length (stored (typed k.keyboard.codes k.keyboard).0)
      < console_buffer_size
    → (c : ℕ) × (k' : Console) × (rest : List ℕ) × (cons_getc fuel k ≡ some (c, k'))
      × (let all = (xs ++ received k) ++ stored (typed k.keyboard.codes k.keyboard).0 in
          (all ≡ c ∷ rest) ⊎ ((all ≡ []) × ((c ≡ 0) × (rest ≡ []))))
      × Queued k'.cons rest
      × (k'.keyboard.codes ≡ [])
      × (k'.cons_lk.lock ≡ 0)
unfolding cons_getc
cons_getc_lem fuel k xs q free few_serial few_codes room =
    let len = length-append xs (received k) in
    let (k1, out1, f1, same) = serial_stage fuel k xs q free few_serial (omega (arith, room)) in
    let (k2, out2, f2, empty) =
      keyboard_stage fuel k1 k.keyboard (xs ++ received k) same f1.queue f1.free few_codes
        (omega (arith, room, len)) in
    let (held, took) = acquire-free k2.cpu k2.cons_lk f2.free in
    let (c, r', rest, out, first, q') =
      get_stage k2.cons ((xs ++ received k) ++ stored (typed k.keyboard.codes k.keyboard).0)
        f2.queue in
    (
      c,
      record k2 { cons_lk = spinlock_release held; cons = r' },
      rest,
      rw (out1, out2, took, out) refl,
      first,
      q',
      empty,
      release-free held,
    )
