-- ===== src/Base/Arrays.antt =====
-- A static C array is a function of its index, and an assignment to an element an update.
-- An index outside the array is undefined behaviour in C: the theorems about a routine state
-- the range of the indices that it uses.
use Prim.Native.Nat.{ℕ, ◌^◌}
use mathlib.Core.Path.{◌≡◌}
use mathlib.Core.Logic.{◌≢◌}
use native.Mathlib.Omega.{arith}
use os_audio.Base.Tests.{◌==◌, if◌then◌else◌}

module _ {ℓ} {A : Type ℓ} where
  abbrev pub update : (ℕ → A) → ℕ → A → ℕ → A
  update f i v j = if j == i then v else f j

  pub update_self : (f : ℕ → A) (i : ℕ) (v : A) → update f i v i ≡ v
  update_self f i v = ground arith

  pub update_ne : (f : ℕ → A) {i j : ℕ} (v : A) → j ≢ i → update f i v j ≡ f j
  update_ne f v ne = ground arith

-- 2^32, the modulus of `unsigned int`
abbrev pub u32_mod : ℕ
u32_mod = 2 ^ 32
