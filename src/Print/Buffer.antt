-- ===== src/Print/Buffer.antt =====
-- The character sinks of user/lib/printfmt.c, user/lib/printf.c and kern/lib/dprintf.c, and the
-- functions that print into them. The format and the strings that it names are read from the
-- memory that the buffer is in, as it is at that moment. `none` is a run longer than the
-- fuel.
use os_audio.Base.{
  ℕ, ◌+◌, ◌-◌, ◌%◌, ◌^◌, ◌≤◌, ◌<◌, ◌≡◌, ◌⊎◌, inl, inr, refl, sym, ◌∙◌, arith, Option, some, ◌>>=◌,
  ltb, if◌then◌else◌, update, update_self, update_ne, List, [], ◌∷◌, ◌++◌, length, get_or, min,
  true, false, Bool-cases, subst, length-append, get_or-early, get_or-last, append-nil,
  append_assoc,
}
use native.Mathlib.Decide.{ℕ_discrete}
use os_audio.Print.Format.{vprintfmt}
use os_audio.Print.Number.{feed}

-- struct sprintbuf, and the memory that it points into.
pub record SprintBuf : Type 0 where
  pub buf : ℕ
  pub ebuf : ℕ
  pub cnt : ℕ
  pub mem : ℕ → ℕ

unfoldable pub sprintputch : (ch : ℕ) → SprintBuf → SprintBuf
sprintputch ch b =
    let counted = record b { cnt = b.cnt + 1 } in
    if ltb b.buf b.ebuf
    then record counted { mem = update b.mem b.buf (ch % 256); buf = b.buf + 1 }
    else counted

-- The count, and the memory.
unfoldable pub vsnprintf : (fuel : ℕ) (m args : ℕ → ℕ) (buf n fmt ap : ℕ) → Option (ℕ × (ℕ → ℕ))
vsnprintf fuel m args buf n fmt ap = do
  b ←
      vprintfmt sprintputch SprintBuf.mem false fuel args fmt ap
        (record { buf = buf; ebuf = buf + n - 1; cnt = 0; mem = m })
  some (b.cnt, update b.mem b.buf 0)

-- Whose buffer ends at the last address.
unfoldable pub vsprintf : (fuel : ℕ) (m args : ℕ → ℕ) (buf fmt ap : ℕ) → Option (ℕ × (ℕ → ℕ))
vsprintf fuel m args buf fmt ap = do
  b ←
      vprintfmt sprintputch SprintBuf.mem false fuel args fmt ap
        (record { buf = buf; ebuf = 2 ^ 32 - 1; cnt = 0; mem = m })
  some (b.cnt, update b.mem b.buf 0)

-- After `cs` characters, from the buffer at `buf` with room for `room`: the first ones are there.
pub record Holds (m : ℕ → ℕ) (buf room : ℕ) (cs : List ℕ) (b : SprintBuf) : Type 0 where
  pub ebuf : b.ebuf ≡ buf + room
  pub cnt : b.cnt ≡ length cs
  pub at : b.buf ≡ buf + min (length cs) room
  pub inside : (i : ℕ) → i < min (length cs) room → b.mem (buf + i) ≡ get_or cs i 0 % 256
  pub outside : (a : ℕ) → (a < buf) ⊎ (buf + room ≤ a) → b.mem a ≡ m a

ltb→lt : (a b : ℕ) → ltb a b ≡ true → a < b
ltb→lt a b e = ground arith

ltb_false→le : (a b : ℕ) → ltb a b ≡ false → b ≤ a
ltb_false→le a b e = ground arith

pub sprintputch-Holds :
    (m : ℕ → ℕ) (buf room : ℕ) (cs : List ℕ) (c : ℕ) (b : SprintBuf)
    → Holds m buf room cs b
    → Holds m buf room (cs ++ (c ∷ [])) (sprintputch c b)
unfolding sprintputch
sprintputch-Holds m buf room cs c b h =
    let len = length-append cs (c ∷ []) in
    elim (Bool-cases (ltb b.buf b.ebuf)) [
      | inl free ↦
          let lt : length cs < room = omega (arith, ltb→lt b.buf b.ebuf free, h.at, h.ebuf) in
          let here : buf + length cs ≡ b.buf = omega (arith, h.at) in
          rw free (record {
            ebuf = h.ebuf;
            cnt = omega (arith, h.cnt);
            at = omega (arith, h.at);
            inside = λ i low. elim (ℕ_discrete i (length cs)) [
              | yes e ↦ rw (e, here, get_or-last cs c) (update_self b.mem b.buf (c % 256))
              | no ne ↦
                  let small : i < length cs = omega (arith, low, len) in
                  rw (get_or-early i cs (c ∷ []) small)
                    (update_ne b.mem (c % 256) (omega (arith, here)) ∙ h.inside i (omega arith))
            ];
            outside =
                λ a out. update_ne b.mem (c % 256) (omega (arith, here, out)) ∙ h.outside a out;
          })
      | inr full ↦
          let ge : room ≤ length cs = omega (arith, ltb_false→le b.buf b.ebuf full, h.at, h.ebuf) in
          rw full (record {
            ebuf = h.ebuf;
            cnt = omega (arith, h.cnt);
            at = omega (arith, h.at);
            inside = λ i low.
                rw (get_or-early i cs (c ∷ []) (omega (arith, low, len)))
                  (h.inside i (omega (arith, low, len)));
            outside = h.outside;
          })
    ]

pub feed-Holds :
    (m : ℕ → ℕ) (buf room : ℕ) (cs ds : List ℕ) (b : SprintBuf)
    → Holds m buf room cs b
    → Holds m buf room (cs ++ ds) (feed sprintputch ds b)
feed-Holds m buf room cs [] b h = subst (λ xs. Holds m buf room xs b) (sym (append-nil cs)) h
feed-Holds m buf room cs (d ∷ ds) b h =
    subst (λ xs. Holds m buf room xs (feed sprintputch ds (sprintputch d b)))
      (append_assoc cs (d ∷ []) ds)
      (feed-Holds m buf room (cs ++ (d ∷ [])) ds (sprintputch d b)
        (sprintputch-Holds m buf room cs d b h))

abbrev pub start : (m : ℕ → ℕ) (buf room : ℕ) → SprintBuf
start m buf room = record { buf = buf; ebuf = buf + room; cnt = 0; mem = m }

pub start-Holds : (m : ℕ → ℕ) (buf room : ℕ) → Holds m buf room [] (start m buf room)
start-Holds m buf room = record {
  ebuf = refl;
  cnt = refl;
  at = omega arith;
  inside = λ i low. absurd (omega (arith, low));
  outside = λ a out. refl;
}
