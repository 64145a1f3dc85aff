-- ===== src/Dev/Mboot/Total.antt =====
-- pmmap_init of mboot.c: when it does not panic, and the memory map that it then leaves.
use os_audio.Base.{
  ℕ, suc, ◌+◌, ◌≤◌, ◌≡◌, refl, arith, some, All, length, ◌==◌, Bool-cases, inl, inr, Option, ◌>>=◌,
  List, [], ◌∷◌, ◌++◌, eq_false, false, update, ltb,
}
use os_audio.Dev.Mboot.Cover.{IsSorted, covers, low_slots, pmmap_init-IsSorted}
use native.Mathlib.Decide.{ℕ_discrete}
use os_audio.Dev.Mboot.{
  Pmmap, MbootMmap, MemoryMap, pmmap_sublist_nr, insert_slot, overlaps, merge_slots, pmmap_insert,
  pmmap_copy, pmmap_copy_all, pmmap_init, pmmap_merge, sort_by_type,
}

-- The four types that PMMAP_SUBLIST_NR knows.
abbrev pub IsKnown : ℕ → Type 0
IsKnown type = (1 ≤ type) × (type ≤ 4)

abbrev Known : Pmmap → Type 0
Known slot = IsKnown slot.type

insert_slot-Known :
    (new : Pmmap) (slots : List Pmmap)
    → Known new
    → All Known slots
    → All Known (insert_slot new slots)
unfolding insert_slot
insert_slot-Known new [] k all = (k, tt)
insert_slot-Known new (slot ∷ rest) k all = elim (Bool-cases (ltb new.start slot.start)) [
  | inl below ↦ rw below (k, all)
  | inr above ↦ rw above (all.0, insert_slot-Known new rest k all.1)
]

merge_slots-Known : (slots : List Pmmap) → All Known slots → All Known (merge_slots slots)
unfolding merge_slots
merge_slots-Known [] all = tt
merge_slots-Known (slot ∷ []) all = all
merge_slots-Known (slot ∷ next_slot ∷ rest) all = elim (Bool-cases (overlaps slot next_slot)) [
  | inl both ↦ rw both (all.0, merge_slots-Known rest all.1.1)
  | inr apart ↦ rw apart (all.0, merge_slots-Known (next_slot ∷ rest) all.1)
]

sublist_nr_some : (type : ℕ) → IsKnown type → (nr : ℕ) × (pmmap_sublist_nr type ≡ some nr)
unfolding pmmap_sublist_nr
sublist_nr_some type k = elim (ℕ_discrete type 1) [
  | yes e ↦ (0, rw e refl)
  | no n1 ↦ elim (ℕ_discrete type 2) [
    | yes e ↦ (1, rw e refl)
    | no n2 ↦ elim (ℕ_discrete type 3) [
      | yes e ↦ (2, rw e refl)
      | no n3 ↦ (3, let e : type ≡ 4 = omega arith in rw e refl)
    ]
  ]
]

-- A chain whose first step returns, and whose second step always does.
bind_some :
    {A B : Type 0} {m : Option A} {f : A → Option B} {a : A}
    → m ≡ some a
    → ((x : A) → (b : B) × (f x ≡ some b))
    → (b : B) × ((m >>= f) ≡ some b)
bind_some {a = a} e g = let (b, h) = g a in (b, rw e h)

sort_by_type-some :
    (slots : List Pmmap) (sub : ℕ → List Pmmap)
    → All Known slots
    → (sub' : ℕ → List Pmmap) × (sort_by_type slots sub ≡ some sub')
unfolding sort_by_type
sort_by_type-some [] sub all = (sub, refl)
sort_by_type-some (slot ∷ rest) sub all =
    let (nr, e) = sublist_nr_some slot.type all.0 in
    let (sub', e') = sort_by_type-some rest (update sub nr (sub nr ++ (slot ∷ []))) all.1 in
    (sub', rw e e')

-- A map under construction: room for `n` more slots, and only slots of a known type.
record HasRoom (n : ℕ) (s : MemoryMap) : Type 0 where
  pub room : s.pmmap_slots_next_free + n ≤ 128
  pub known : All Known s.pmmap_list

insert_some :
    (n : ℕ) (s : MemoryMap) (start end type : ℕ)
    → HasRoom (suc n) s
    → IsKnown type
    → (s' : MemoryMap) × (pmmap_insert s start end type ≡ some s') × HasRoom n s'
unfolding pmmap_insert
insert_some n s start end type h k =
    let new : Pmmap = record { start = start; end = end; type = type } in
    let full : (s.pmmap_slots_next_free == 128) ≡ false = eq_false (omega (arith, h.room)) in
    (
      record s {
        pmmap_slots_next_free = s.pmmap_slots_next_free + 1;
        pmmap_list = insert_slot new s.pmmap_list;
      },
      rw full refl,
      record { room = omega (arith, h.room); known = insert_slot-Known new s.pmmap_list k h.known },
    )

copy_some :
    (n : ℕ) (s : MemoryMap) (p : MbootMmap)
    → HasRoom (suc n) s
    → IsKnown p.type
    → (s' : MemoryMap) × (pmmap_copy s p ≡ some s') × HasRoom n s'
unfolding pmmap_copy
copy_some n s p h k = elim (Bool-cases (p.base_addr_high == 0)) [
  | inl low ↦ rw low (insert_some n s p.base_addr_low _ p.type h k)
  | inr high ↦ rw high (s, refl, record { room = omega (arith, h.room); known = h.known })
]

pmmap_copy_all-some :
    (mmap : List MbootMmap) (s : MemoryMap)
    → HasRoom (length mmap) s
    → All (λ (p : MbootMmap). IsKnown p.type) mmap
    → (s' : MemoryMap) × (pmmap_copy_all mmap s ≡ some s') × All Known s'.pmmap_list
unfolding pmmap_copy_all
pmmap_copy_all-some [] s h k = (s, refl, h.known)
pmmap_copy_all-some (p ∷ rest) s h k =
    let (m, first, room) = copy_some (length rest) s p h k.0 in
    let (s', later, known) = pmmap_copy_all-some rest m room k.1 in (s', rw first later, known)

merge_some : (s : MemoryMap) → All Known s.pmmap_list → (s' : MemoryMap) × (pmmap_merge s ≡ some s')
unfolding pmmap_merge
merge_some s all =
    let (sub, e) =
      sort_by_type-some (merge_slots s.pmmap_list) s.pmmap_sublist
        (merge_slots-Known s.pmmap_list all) in
    bind_some e (λ u. (_, refl))

pub pmmap_init-some :
    (mmap : List MbootMmap) (s : MemoryMap)
    → s.pmmap_slots_next_free + length mmap ≤ 128
    → All (λ (p : MbootMmap). IsKnown p.type) mmap
    → (s' : MemoryMap) × (pmmap_init mmap s ≡ some s')
unfolding pmmap_init
pmmap_init-some mmap s room known =
    let s0 : MemoryMap = record s { pmmap_list = []; pmmap_sublist = λ nr. [] } in
    let (m, first, all) = pmmap_copy_all-some mmap s0 (record { room = room; known = tt }) known in
    rw first (bind_some (merge_some m all).1 (λ u. (_, refl)))

-- On at most as many multiboot entries as there are free slots, all of the four known types, and a
-- count that starts at 0, `pmmap_init` returns. The memory map that it leaves is sorted by start
-- address, and an address has a type in it exactly if it has that type in the entries below 4 GB:
-- the merge of overlapping slots neither loses nor adds an address. The slots are counted.
pub pmmap_init_lem :
    (mmap : List MbootMmap) (s : MemoryMap)
    → s.pmmap_slots_next_free + length mmap ≤ 128
    → All (λ (p : MbootMmap). IsKnown p.type) mmap
    → s.pmmap_nentries ≡ 0
    → (s' : MemoryMap) × (pmmap_init mmap s ≡ some s')
      × IsSorted 0 s'.pmmap_list
      × ((t a : ℕ) → covers s'.pmmap_list t a ≡ covers (low_slots mmap) t a)
      × (s'.pmmap_nentries ≡ length s'.pmmap_list)
pmmap_init_lem mmap s room known zero_entries =
    let (s', e) = pmmap_init-some mmap s room known in
    let (sorted, cover, counted) = pmmap_init-IsSorted mmap s e zero_entries in
    (s', e, sorted, cover, counted)
