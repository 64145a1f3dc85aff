-- ===== src/Dev/Console/Queue.antt =====
-- The ring of kern/dev/console.c as a queue of characters.
use os_audio.Base.{
  ℕ, suc, ◌+◌, ◌%◌, ◌<◌, ◌≡◌, ◌≢◌, refl, sym, ◌∙◌, arith, List, [], ◌∷◌, ◌++◌, length,
  length-append, get_or-early, get_or-last, get_or, update_self, update_ne, ◌==◌, eq_false, true,
}
use native.Mathlib.Decide.{ℕ_discrete}
use os_audio.Dev.Console.{Cons, console_buffer_size, advance, put, get}

-- The characters `xs` wait in the ring: fewer than it has places.
pub record Queued (r : Cons) (xs : List ℕ) : Type 0 where
  pub read_pos : r.rpos < console_buffer_size
  pub write_pos : r.wpos ≡ (r.rpos + length xs) % console_buffer_size
  pub room : length xs < console_buffer_size
  pub waits : (i : ℕ) → i < length xs → r.buf ((r.rpos + i) % console_buffer_size) ≡ get_or xs i 0

advance-mod : (p : ℕ) → p < console_buffer_size → advance p ≡ (p + 1) % console_buffer_size
advance-mod p lt = ground arith

-- One more character is behind those that wait.
pub put-Queued :
    (r : Cons) (xs : List ℕ) (c : ℕ)
    → Queued r xs
    → length xs + 1 < console_buffer_size
    → Queued (put r c) (xs ++ ((c % 256) ∷ []))
unfolding put
put-Queued r xs c q small =
    let len = length-append xs ((c % 256) ∷ []) in
    record {
      read_pos = q.read_pos;
      write_pos = advance-mod r.wpos (omega (arith, q.write_pos)) ∙ omega (arith, q.write_pos, len);
      room = omega (arith, len);
      waits = λ i lt. elim (ℕ_discrete i (length xs)) [
        | yes e ↦
            rw (e, sym q.write_pos, get_or-last xs (c % 256)) (update_self r.buf r.wpos (c % 256))
        | no ne ↦
            let low : i < length xs = omega (arith, lt, len) in
            let apart : (r.rpos + i) % console_buffer_size ≢ r.wpos =
              omega (arith, q.write_pos, small) in
            rw (get_or-early i xs ((c % 256) ∷ []) low)
              (update_ne r.buf (c % 256) apart ∙ q.waits i low)
      ];
    }

-- The oldest one comes out.
pub get-Queued :
    (r : Cons) (x : ℕ) (xs : List ℕ)
    → Queued r (x ∷ xs)
    → (r' : Cons) × (get r ≡ (x, r')) × Queued r' xs
unfolding get
get-Queued r x xs q =
    let apart : r.rpos ≢ r.wpos = omega (arith, q.write_pos, q.read_pos, q.room) in
    let first : r.buf r.rpos ≡ x =
      let e : (r.rpos + 0) % console_buffer_size ≡ r.rpos = omega (arith, q.read_pos) in
      rw e at (q.waits 0 (omega arith)) in
    let next = advance-mod r.rpos q.read_pos in
    (
      record r { rpos = advance r.rpos },
      rw (eq_false apart, first) refl,
      record {
        read_pos = omega (arith, next);
        write_pos = omega (arith, next, q.write_pos);
        room = omega (arith, q.room);
        waits = λ i lt.
            let e : (advance r.rpos + i) % console_buffer_size
                ≡ (r.rpos + suc i) % console_buffer_size =
              omega (arith, next) in
            rw e (q.waits (suc i) (omega arith));
      },
    )

pub get-empty : (r : Cons) → Queued r [] → get r ≡ (0, r)
unfolding get
get-empty r q =
    let e : r.rpos ≡ r.wpos = omega (arith, q.write_pos, q.read_pos) in
    let t : (r.rpos == r.wpos) ≡ true = ground (arith, e) in rw t refl
