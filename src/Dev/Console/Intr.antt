-- ===== src/Dev/Console/Intr.antt =====
-- cons_intr of kern/dev/console.c on what a device procedure yields.
use os_audio.Base.{
  ℕ, zero, suc, ◌+◌, ◌%◌, ◌<◌, ◌≡◌, ◌≢◌, refl, sym, ap, ◌∙◌, subst, arith, Option, none, some, List,
  [], ◌∷◌, ◌++◌, length, length-append, append-nil, append_assoc, ◌==◌, if◌then◌else◌, eq_false,
  ◌%◌,
}
use native.Mathlib.Decide.{ℕ_discrete}
use os_audio.Sync.{
  Spinlock, spinlock_acquire, spinlock_acquire_a, spinlock_release, spinlock_release_a,
}
use os_audio.Dev.Console.{Cons, console_buffer_size, put, intr_loop, cons_intr}
use os_audio.Dev.Console.Queue.{Queued, put-Queued}

-- The procedure returns `cs`, one after the other, and then that there is no more.
pub data Yields {ℓ} {S : Type ℓ} (proc : S → Option ℕ × S) : S → List ℕ → S → Type ℓ where
  done : {s s' : S} → proc s ≡ (none, s') → Yields proc s [] s'
  one :
      {s s1 s' : S} {c : ℕ} {cs : List ℕ}
      → proc s ≡ (some c, s1)
      → Yields proc s1 cs s'
      → Yields proc s (c ∷ cs) s'

-- What is stored of them: zeros are no characters.
abbrev pub stored : List ℕ → List ℕ
stored [] = []
stored (c ∷ cs) = if c == 0 then stored cs else (c % 256) ∷ stored cs

stored-zero : (c : ℕ) (cs : List ℕ) → c ≡ 0 → stored (c ∷ cs) ≡ stored cs
stored-zero c cs z = rw z refl

stored-char : (c : ℕ) (cs : List ℕ) → c ≢ 0 → stored (c ∷ cs) ≡ (c % 256) ∷ stored cs
stored-char c cs ne = rw (eq_false ne) refl

module _ {ℓ} {S : Type ℓ} (proc : S → Option ℕ × S) where
  after : (fuel : ℕ) (r : Cons) → Option ℕ × S → Option (S × Cons)
  after fuel r (none, s) = some (s, r)
  after fuel r (some c, s) = intr_loop proc fuel s (if c == 0 then r else put r c)

  by_cases :
      (fuel : ℕ) (r : Cons) (p : Option ℕ × S)
      → (elim p.0 [
        | none ↦ some (p.1, r)
        | some c ↦ intr_loop proc fuel p.1 (if c == 0 then r else put r c)
      ])
        ≡ after fuel r p
  unfolding after
  by_cases fuel r (none, t) = refl
  by_cases fuel r (some c, t) = refl

  loop-after : (fuel : ℕ) (s : S) (r : Cons) → intr_loop proc (suc fuel) s r ≡ after fuel r (proc s)
  unfolding intr_loop after
  loop-after fuel s r = by_cases fuel r (proc s)

  loop_done :
      (fuel : ℕ) (s s' : S) (r : Cons)
      → proc s ≡ (none, s')
      → intr_loop proc (suc fuel) s r ≡ some (s', r)
  unfolding after
  loop_done fuel s s' r e = loop-after fuel s r ∙ ap (after fuel r) e

  loop_step :
      (fuel : ℕ) (s s1 : S) (c : ℕ) (r : Cons)
      → proc s ≡ (some c, s1)
      → intr_loop proc (suc fuel) s r ≡ intr_loop proc fuel s1 (if c == 0 then r else put r c)
  unfolding after
  loop_step fuel s s1 c r e = loop-after fuel s r ∙ ap (after fuel r) e

  intr_loop_lem :
      (fuel : ℕ) (s s' : S) (cs : List ℕ) (r : Cons) (xs : List ℕ)
      → Yields proc s cs s'
      → length cs < fuel
      → Queued r xs
      → length xs + length (stored cs) < console_buffer_size
      → (r' : Cons) × (intr_loop proc fuel s r ≡ some (s', r')) × Queued r' (xs ++ stored cs)
  intr_loop_lem zero s s' cs r xs y lt q room = absurd (omega arith)
  intr_loop_lem (suc fuel) s s' [] r xs (Yields.done e) lt q room =
      (r, loop_done fuel s s' r e, subst (Queued r) (sym (append-nil xs)) q)
  intr_loop_lem (suc fuel) s s' (c ∷ cs) r xs (Yields.one {s1 = s1} e y) lt q room =
      elim (ℕ_discrete c 0) [
        | yes z ↦
            let same = stored-zero c cs z in
            let first : (if c == 0 then r else put r c) ≡ r = rw z refl in
            let (r', out, q') =
              intr_loop_lem fuel s1 s' cs r xs y (omega arith) q
                (omega (arith, room, ap length same)) in
            (
              r',
              loop_step fuel s s1 c r e ∙ (ap (intr_loop proc fuel s1) first ∙ out),
              subst (λ ys. Queued r' (xs ++ ys)) (sym same) q',
            )
        | no ne ↦
            let more = stored-char c cs ne in
            let count = ap length more in
            let first : (if c == 0 then r else put r c) ≡ put r c = rw (eq_false ne) refl in
            let len = length-append xs ((c % 256) ∷ []) in
            let (r', out, q') =
              intr_loop_lem fuel s1 s' cs (put r c) (xs ++ ((c % 256) ∷ [])) y (omega arith)
                (put-Queued r xs c q (omega (arith, room, count)))
                (omega (arith, room, count, len)) in
            (
              r',
              loop_step fuel s s1 c r e ∙ (ap (intr_loop proc fuel s1) first ∙ out),
              subst (λ ys. Queued r' (xs ++ ys)) (sym more)
                  (subst (Queued r') (append_assoc xs ((c % 256) ∷ []) (stored cs)) q'),
            )
      ]

pub acquire-free :
    (cpu : ℕ) (lk : Spinlock)
    → lk.lock ≡ 0
    → (lk' : Spinlock) × (spinlock_acquire cpu lk ≡ some lk')
unfolding spinlock_acquire spinlock_acquire_a
acquire-free cpu lk e = (record { lock_holder = cpu; lock = 1 }, rw e refl)

pub release-free : (lk : Spinlock) → (spinlock_release lk).lock ≡ 0
unfolding spinlock_release spinlock_release_a
release-free lk = refl

pub cons_intr_lem {ℓ} :
    {S : Type ℓ} (proc : S → Option ℕ × S) (fuel cpu : ℕ) (s s' : S) (cs : List ℕ) (lk : Spinlock)
    (r : Cons) (xs : List ℕ)
    → Yields proc s cs s'
    → length cs < fuel
    → lk.lock ≡ 0
    → Queued r xs
    → length xs + length (stored cs) < console_buffer_size
    → (r' : Cons) × (lk' : Spinlock) × (cons_intr proc fuel cpu s lk r ≡ some (s', (lk', r')))
      × (lk'.lock ≡ 0)
      × Queued r' (xs ++ stored cs)
unfolding cons_intr
cons_intr_lem proc fuel cpu s s' cs lk r xs y lt free q room =
    let (held, took) = acquire-free cpu lk free in
    let (r', out, q') = intr_loop_lem proc fuel s s' cs r xs y lt q room in
    (r', spinlock_release held, rw (took, out) refl, release-free held, q')
