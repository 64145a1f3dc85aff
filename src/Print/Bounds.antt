-- ===== src/Print/Bounds.antt =====
-- What vsnprintf of user/lib/printfmt.c leaves in its buffer.
use os_audio.Base.{
  ℕ, ◌+◌, ◌-◌, ◌%◌, ◌≤◌, ◌<◌, ◌≡◌, ◌⊎◌, sym, ◌∙◌, arith, update, update_self, update_ne, List,
  length, get_or, min,
}
use os_audio.Print.Buffer.{SprintBuf, Holds}

-- The memory after the NUL of vsnprintf.
pub record Printed (m : ℕ → ℕ) (buf n : ℕ) (cs : List ℕ) (m' : ℕ → ℕ) : Type 0 where
  pub inside : (i : ℕ) → i < min (length cs) (n - 1) → m' (buf + i) ≡ get_or cs i 0 % 256
  pub end : m' (buf + min (length cs) (n - 1)) ≡ 0
  pub outside : (a : ℕ) → (a < buf) ⊎ (buf + n ≤ a) → m' a ≡ m a

pub Holds-Printed :
    (m : ℕ → ℕ) (buf n : ℕ) (cs : List ℕ) (b : SprintBuf)
    → 0 < n
    → Holds m buf (n - 1) cs b
    → Printed m buf n cs (update b.mem b.buf 0)
Holds-Printed m buf n cs b pos h = record {
  inside = λ i lt. update_ne b.mem 0 (omega (arith, h.at)) ∙ h.inside i lt;
  end = rw (sym h.at) (update_self b.mem b.buf 0);
  outside = λ a out. update_ne b.mem 0 (omega (arith, h.at)) ∙ h.outside a (omega arith);
}
