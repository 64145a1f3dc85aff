-- ===== src/Fs/Cache/Search.antt =====
-- The walks of bufcache_get over the list of buffers.
use os_audio.Base.{
  ℕ, zero, suc, ◌<◌, ◌≡◌, ◌≢◌, inl, inr, arith, Bool, true, false, Option, some, List, [], ◌∷◌,
  length, has, eq_false, Bool-cases,
}
use native.Mathlib.Decide.{ℕ_discrete}
use os_audio.Fs.Cache.{head, search}

-- From `b`, the links lead through `xs` and then to the head.
abbrev pub Walk : (step : ℕ → ℕ) (b : ℕ) → List ℕ → Type 0
Walk step b [] = b ≡ head
Walk step b (x ∷ xs) = (b ≡ x) × (x ≢ head) × Walk step (step x) xs

-- The first buffer on the way that passes the test, if there is one.
pub data Found (test : ℕ → Bool) (xs : List ℕ) : Option ℕ → Type 0 where
  nowhere : ((a : ℕ) → has a xs ≡ true → test a ≡ false) → Found test xs (some head)
  here : (b : ℕ) → has b xs ≡ true → b ≢ head → test b ≡ true → Found test xs (some b)

Found-later :
    (test : ℕ → Bool) (x : ℕ) (xs : List ℕ) (o : Option ℕ)
    → test x ≡ false
    → Found test xs o
    → Found test (x ∷ xs) o
Found-later test x xs o off (Found.nowhere none_there) = Found.nowhere (λ a h.
    elim (ℕ_discrete a x) [ yes e ↦ rw e off | no ne ↦ none_there a (rw (eq_false ne) at h) ])
Found-later test x xs o off (Found.here b there ne passes) =
    Found.here b (ground (arith, there)) ne passes

pub search_lem :
    (fuel : ℕ) (step : ℕ → ℕ) (test : ℕ → Bool) (b : ℕ) (xs : List ℕ)
    → Walk step b xs
    → length xs < fuel
    → Found test xs (search fuel step test b)
unfolding search
search_lem zero step test b xs walk lt = absurd (omega arith)
search_lem (suc fuel) step test b [] walk lt = rw walk (Found.nowhere (λ a h. cc))
search_lem (suc fuel) step test b (x ∷ xs) walk lt =
    rw (walk.0, eq_false walk.1)
      (elim (Bool-cases (test x)) [
        | inl yes_here ↦ rw yes_here (Found.here x (ground arith) walk.1 yes_here)
        | inr off ↦ rw off (
            Found-later test x xs (search fuel step test (step x)) off
              (search_lem fuel step test (step x) xs walk.2 (omega arith)))
      ])
