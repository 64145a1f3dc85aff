-- ===== src/Thread/Queue/Chain.antt =====
-- Doubly linked chains of thread control blocks (the `prev` and `next` of PTCBIntro.c), and what
-- changing one link does to them.
use os_audio.Base.{
  ℕ, ◌<◌, ◌≡◌, ◌≢◌, refl, arith, Bool, true, false, ◌&&◌, ◌||◌, not, List, [], ◌∷◌, ◌++◌, has,
  distinct, sym, ◌∙◌,
}
use os_audio.Pmm.Container.{num_ids}
use os_audio.Thread.Tcb.{Tcb}

-- The first and the last thread, with what stands for it in an empty chain.
abbrev pub first : ℕ → List ℕ → ℕ
first e [] = e
first e (x ∷ xs) = x

abbrev pub last : ℕ → List ℕ → ℕ
last b [] = b
last b (x ∷ xs) = last x xs

-- The threads `xs` are linked both ways, between `b` before them and `e` behind them.
abbrev pub Linked : (ℕ → Tcb) → (b e : ℕ) → List ℕ → Type 0
Linked t b e [] = Unit
Linked t b e (x ∷ xs) =
    (x < num_ids) × ((t x).prev ≡ b) × ((t x).next ≡ first e xs) × Linked t x e xs

-- The two links of a thread are the same in both pools.
abbrev pub Same : (t t' : ℕ → Tcb) → ℕ → Type 0
Same t t' a = ((t' a).prev ≡ (t a).prev) × ((t' a).next ≡ (t a).next)

abbrev pub SameOn : (t t' : ℕ → Tcb) → List ℕ → Type 0
SameOn t t' xs = (a : ℕ) → has a xs ≡ true → Same t t' a

pub has_here : (x : ℕ) (xs : List ℕ) → has x (x ∷ xs) ≡ true
has_here x xs = ground arith

pub has_later : (a x : ℕ) (xs : List ℕ) → has a xs ≡ true → has a (x ∷ xs) ≡ true
has_later a x xs h = ground arith

pub ne_of_has : (a x : ℕ) (xs : List ℕ) → has x xs ≡ false → has a xs ≡ true → a ≢ x
ne_of_has a x xs out there e = let h : has x xs ≡ true = rw (← e) there in cc

not_and : (b c : Bool) → (not b && c) ≡ true → (b ≡ false) × (c ≡ true)
not_and true c h = cc
not_and false c h = (refl, h)

pub distinct_cons :
    (x : ℕ) (xs : List ℕ) → distinct (x ∷ xs) ≡ true → (has x xs ≡ false) × (distinct xs ≡ true)
distinct_cons x xs h = not_and (has x xs) (distinct xs) h

pub has-append : (a : ℕ) (xs ys : List ℕ) → has a (xs ++ ys) ≡ (has a xs || has a ys)
has-append a [] ys = refl
has-append a (x ∷ xs) ys = ground (arith, has-append a xs ys)

pub has-last : (x : ℕ) (xs : List ℕ) → has (last x xs) (x ∷ xs) ≡ true
has-last x [] = has_here x []
has-last x (y ∷ ys) = has_later (last y ys) x (y ∷ ys) (has-last y ys)

pub last_lt : (t : ℕ → Tcb) (b e x : ℕ) (xs : List ℕ) → Linked t b e (x ∷ xs) → last x xs < num_ids
last_lt t b e x [] l = l.0
last_lt t b e x (y ∷ ys) l = last_lt t x e y ys l.3

pub Linked-frame :
    (t t' : ℕ → Tcb) (b e : ℕ) (xs : List ℕ) → SameOn t t' xs → Linked t b e xs → Linked t' b e xs
Linked-frame t t' b e [] same l = tt
Linked-frame t t' b e (x ∷ xs) same l =
    let (p, n) = same x (has_here x xs) in
    (l.0, p ∙ l.1, n ∙ l.2, Linked-frame t t' x e xs (λ a h. same a (has_later a x xs h)) l.3)

-- Changing the `prev` of the first thread.
pub Linked-start :
    (t t' : ℕ → Tcb) (b b' e x : ℕ) (xs : List ℕ)
    → SameOn t t' xs
    → (t' x).prev ≡ b'
    → (t' x).next ≡ (t x).next
    → Linked t b e (x ∷ xs)
    → Linked t' b' e (x ∷ xs)
Linked-start t t' b b' e x xs same p n l = (l.0, p, n ∙ l.2, Linked-frame t t' x e xs same l.3)

-- Changing the `next` of the last thread.
pub Linked-end :
    (t t' : ℕ → Tcb) (b e e' x : ℕ) (xs : List ℕ)
    → distinct (x ∷ xs) ≡ true
    → ((a : ℕ) → has a (x ∷ xs) ≡ true → a ≢ last x xs → Same t t' a)
    → (t' (last x xs)).prev ≡ (t (last x xs)).prev
    → (t' (last x xs)).next ≡ e'
    → Linked t b e (x ∷ xs)
    → Linked t' b e' (x ∷ xs)
Linked-end t t' b e e' x [] d same p n l = (l.0, p ∙ l.1, n, tt)
Linked-end t t' b e e' x (y ∷ ys) d same p n l =
    let (out, d') = distinct_cons x (y ∷ ys) d in
    let ne : last y ys ≢ x = ne_of_has (last y ys) x (y ∷ ys) out (has-last y ys) in
    let (px, nx) = same x (has_here x (y ∷ ys)) (λ e. ne (sym e)) in
    (
      l.0,
      px ∙ l.1,
      nx ∙ l.2,
      Linked-end t t' x e e' y ys d' (λ a h. same a (has_later a x (y ∷ ys) h)) p n l.3,
    )

pub first-append : (e : ℕ) (xs ys : List ℕ) → first e (xs ++ ys) ≡ first (first e ys) xs
first-append e [] ys = refl
first-append e (x ∷ xs) ys = refl

-- Cutting a chain in two, and joining two.
pub Linked-split :
    (t : ℕ → Tcb) (b e : ℕ) (xs ys : List ℕ)
    → Linked t b e (xs ++ ys)
    → Linked t b (first e ys) xs × Linked t (last b xs) e ys
Linked-split t b e [] ys l = (tt, l)
Linked-split t b e (x ∷ xs) ys l =
    let (front, back) = Linked-split t x e xs ys l.3 in
    ((l.0, l.1, l.2 ∙ first-append e xs ys, front), back)

pub last-append : (b : ℕ) (xs ys : List ℕ) → last b (xs ++ ys) ≡ last (last b xs) ys
last-append b [] ys = refl
last-append b (x ∷ xs) ys = last-append x xs ys

pub Linked-append :
    (t : ℕ → Tcb) (b e : ℕ) (xs ys : List ℕ)
    → Linked t b (first e ys) xs
    → Linked t (last b xs) e ys
    → Linked t b e (xs ++ ys)
Linked-append t b e [] ys l m = m
Linked-append t b e (x ∷ xs) ys l m =
    (l.0, l.1, l.2 ∙ sym (first-append e xs ys), Linked-append t x e xs ys l.3 m)
