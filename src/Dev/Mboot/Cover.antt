-- ===== src/Dev/Mboot/Cover.antt =====
-- The memory map of mboot.c: order, and the addresses that the slots of a type cover.
use os_audio.Base.{
  ℕ, ◌+◌, ◌-◌, ◌≤◌, ◌≡◌, refl, arith, ltb, leb, ◌&&◌, ◌||◌, not, some, ◌∙◌, sym, subst, ap,
  eq_of_some, bind-eq_some, length, ◌==◌, if◌then◌else◌, Bool, false, Bool-cases, inl, inr, List,
  [], ◌∷◌,
}
use mathlib.Core.Bool.{or_assoc}
use os_audio.Dev.Mboot.{
  Pmmap, MbootMmap, MemoryMap, insert_slot, overlaps, merge_slots, pmmap_insert, pmmap_copy,
  pmmap_copy_all, pmmap_init, pmmap_merge, sort_by_type,
}

-- Slots in the order of their starts, from a lower bound on.
abbrev pub IsSorted : ℕ → List Pmmap → Type 0
IsSorted b [] = Unit
IsSorted b (slot ∷ rest) = (b ≤ slot.start) × IsSorted slot.start rest

-- The map says of address `a` that it has type `t`.
pub covers : List Pmmap → (t a : ℕ) → Bool
covers [] t a = false
covers (slot ∷ rest) t a =
    ((slot.type == t) && (leb slot.start a && ltb a slot.end)) || covers rest t a

-- Inserting a slot keeps the order.
pub insert_slot-IsSorted :
    (new : Pmmap) (b : ℕ) (slots : List Pmmap)
    → b ≤ new.start
    → IsSorted b slots
    → IsSorted b (insert_slot new slots)
unfolding insert_slot
insert_slot-IsSorted new b [] h sorted = (h, tt)
insert_slot-IsSorted new b (slot ∷ rest) h sorted = elim (Bool-cases (ltb new.start slot.start)) [
  | inl below ↦ rw below (h, (ground arith, sorted.1))
  | inr above ↦
      rw above (sorted.0, insert_slot-IsSorted new slot.start rest (ground arith) sorted.1)
]

-- And adds exactly what the new slot covers.
pub covers-insert_slot :
    (new : Pmmap) (slots : List Pmmap) (t a : ℕ)
    → covers (insert_slot new slots) t a ≡ covers (new ∷ slots) t a
unfolding covers insert_slot
covers-insert_slot new [] t a = refl
covers-insert_slot new (slot ∷ rest) t a = ground (arith, covers-insert_slot new rest t a)

-- Merging keeps what each type covers.
pub covers-merge_slots :
    (slots : List Pmmap) (t a : ℕ) → covers (merge_slots slots) t a ≡ covers slots t a
unfolding covers merge_slots
covers-merge_slots [] t a = refl
covers-merge_slots (slot ∷ []) t a = refl
covers-merge_slots (slot ∷ next_slot ∷ rest) t a =
    ground (arith, covers-merge_slots rest t a, covers-merge_slots (next_slot ∷ rest) t a)

IsSorted-lower : {b c : ℕ} (slots : List Pmmap) → b ≤ c → IsSorted c slots → IsSorted b slots
IsSorted-lower [] h sorted = tt
IsSorted-lower (slot ∷ rest) h sorted = (omega arith, sorted.1)

-- And the order.
pub merge_slots-IsSorted :
    (b : ℕ) (slots : List Pmmap) → IsSorted b slots → IsSorted b (merge_slots slots)
unfolding merge_slots
merge_slots-IsSorted b [] sorted = tt
merge_slots-IsSorted b (slot ∷ []) sorted = sorted
merge_slots-IsSorted b (slot ∷ next_slot ∷ rest) sorted =
    elim (Bool-cases (overlaps slot next_slot)) [
      | inl joined ↦ rw joined (
        sorted.0,
        merge_slots-IsSorted slot.start rest (IsSorted-lower rest sorted.1.0 sorted.1.1),
      )
      | inr apart ↦ rw apart (sorted.0, merge_slots-IsSorted slot.start (next_slot ∷ rest) sorted.1)
    ]

-- The slots that pmmap_init makes of the multiboot entries: those below 4 GB, cut off there.
pub low_slots : List MbootMmap → List Pmmap
low_slots [] = []
low_slots (p ∷ rest) =
    if p.base_addr_high == 0
    then (record {
      start = p.base_addr_low;
      end =
          if not (p.length_high == 0) || leb (0xffff_ffff - p.base_addr_low) p.length_low
          then 0xffff_ffff
          else p.base_addr_low + p.length_low;
      type = p.type;
    })
      ∷ low_slots rest
    else low_slots rest

-- What the copying loop keeps: the slots are sorted, and cover what was copied.
abbrev Copied : List Pmmap → List MbootMmap → List Pmmap → Type 0
Copied before mmap slots =
    IsSorted 0 slots
    × ((t a : ℕ) → covers slots t a ≡ (covers before t a || covers (low_slots mmap) t a))

pmmap_insert_list :
    (s : MemoryMap) (start end type : ℕ) {s' : MemoryMap}
    → pmmap_insert s start end type ≡ some s'
    → s'.pmmap_list ≡ insert_slot (record { start = start; end = end; type = type }) s.pmmap_list
unfolding pmmap_insert
pmmap_insert_list s start end type h = ground arith

covers-cons :
    (slot : Pmmap) (rest : List Pmmap) (t a : ℕ)
    → covers (slot ∷ rest) t a ≡ (covers rest t a || covers (slot ∷ []) t a)
unfolding covers
covers-cons slot rest t a = ground arith

covers-nil : (t a : ℕ) → covers [] t a ≡ false
unfolding covers
covers-nil t a = refl

or_nothing : (b : Bool) (t a : ℕ) → (b || covers [] t a) ≡ b
unfolding covers
or_nothing b t a = ground arith

covers-append_low :
    (p : MbootMmap) (rest : List MbootMmap) (t a : ℕ)
    → covers (low_slots (p ∷ rest)) t a
      ≡ (covers (low_slots (p ∷ [])) t a || covers (low_slots rest) t a)
unfolding covers low_slots
covers-append_low p rest t a = ground arith

-- One round: the slots afterwards, whether or not the entry was below 4 GB.
copy-Copied :
    (s : MemoryMap) (p : MbootMmap) {s' : MemoryMap}
    → pmmap_copy s p ≡ some s'
    → IsSorted 0 s.pmmap_list
    → Copied s.pmmap_list (p ∷ []) s'.pmmap_list
unfolding pmmap_copy low_slots
copy-Copied s p {s'} h sorted = elim (Bool-cases (p.base_addr_high == 0)) [
  | inl low ↦
      let e = pmmap_insert_list s _ _ _ (rw low at h) in
      rw (low, e)
        (
          insert_slot-IsSorted _ 0 s.pmmap_list (omega arith) sorted,
          λ t a. covers-insert_slot _ s.pmmap_list t a ∙ covers-cons _ s.pmmap_list t a,
        )
  | inr high ↦
      subst (λ (u : MemoryMap). Copied s.pmmap_list (p ∷ []) u.pmmap_list)
        (eq_of_some (rw high at h))
        (rw high (sorted, λ t a. sym (or_nothing (covers s.pmmap_list t a) t a)))
]

copy_all-Copied :
    (mmap : List MbootMmap) (s : MemoryMap) {s' : MemoryMap}
    → pmmap_copy_all mmap s ≡ some s'
    → IsSorted 0 s.pmmap_list
    → Copied s.pmmap_list mmap s'.pmmap_list
unfolding pmmap_copy_all low_slots
copy_all-Copied [] s h sorted =
    subst (λ (u : MemoryMap). Copied s.pmmap_list [] u.pmmap_list) (eq_of_some h)
      (sorted, λ t a. sym (or_nothing (covers s.pmmap_list t a) t a))
copy_all-Copied (p ∷ rest) s {s'} h sorted =
    let (m, first, later) = bind-eq_some (pmmap_copy s p) (pmmap_copy_all rest) h in
    let (sorted', cover) = copy-Copied s p first sorted in
    let (sorted'', cover') = copy_all-Copied rest m later sorted' in
    (
      sorted'',
      λ t a.
          rw (cover' t a, cover t a, covers-append_low p rest t a)
            (or_assoc (covers s.pmmap_list t a) (covers (low_slots (p ∷ [])) t a)
              (covers (low_slots rest) t a)),
    )

pmmap_merge_lem :
    (s : MemoryMap) {s' : MemoryMap}
    → pmmap_merge s ≡ some s'
    → (s'.pmmap_list ≡ merge_slots s.pmmap_list) × (s'.pmmap_nentries ≡ s.pmmap_nentries)
unfolding pmmap_merge
pmmap_merge_lem s h =
    let (sub, _, done) =
      bind-eq_some (sort_by_type (merge_slots s.pmmap_list) s.pmmap_sublist) _ h in
    (
      sym (ap (λ (u : MemoryMap). u.pmmap_list) (eq_of_some done)),
      sym (ap (λ (u : MemoryMap). u.pmmap_nentries) (eq_of_some done)),
    )

copy-nentries :
    (p : MbootMmap) (s : MemoryMap) {s' : MemoryMap}
    → pmmap_copy s p ≡ some s'
    → s'.pmmap_nentries ≡ s.pmmap_nentries
unfolding pmmap_copy
copy-nentries p s h = ground arith

copy_all-nentries :
    (mmap : List MbootMmap) (s : MemoryMap) {s' : MemoryMap}
    → pmmap_copy_all mmap s ≡ some s'
    → s'.pmmap_nentries ≡ s.pmmap_nentries
unfolding pmmap_copy_all
copy_all-nentries [] s h = sym (ap (λ (u : MemoryMap). u.pmmap_nentries) (eq_of_some h))
copy_all-nentries (p ∷ rest) s h =
    let (m, first, later) = bind-eq_some (pmmap_copy s p) (pmmap_copy_all rest) h in
    copy_all-nentries rest m later ∙ copy-nentries p s first

-- The map that pmmap_init leaves, where it returns.
pub pmmap_init-IsSorted :
    (mmap : List MbootMmap) (s : MemoryMap) {s' : MemoryMap}
    → pmmap_init mmap s ≡ some s'
    → s.pmmap_nentries ≡ 0
    → IsSorted 0 s'.pmmap_list
      × ((t a : ℕ) → covers s'.pmmap_list t a ≡ covers (low_slots mmap) t a)
      × (s'.pmmap_nentries ≡ length s'.pmmap_list)
unfolding pmmap_init
pmmap_init-IsSorted mmap s h zero_entries =
    let s0 : MemoryMap = record s { pmmap_list = []; pmmap_sublist = λ nr. [] } in
    let (copied, first, later) = bind-eq_some (pmmap_copy_all mmap s0) _ h in
    let (merged, second, done) = bind-eq_some (pmmap_merge copied) _ later in
    let (sorted, cover) = copy_all-Copied mmap s0 first tt in
    let (slots, entries) = pmmap_merge_lem copied second in
    let kept : copied.pmmap_nentries ≡ s.pmmap_nentries = copy_all-nentries mmap s0 first in
    subst Mapped (eq_of_some done) (
      rw slots (
        merge_slots-IsSorted 0 copied.pmmap_list sorted,
        λ t a. covers-merge_slots copied.pmmap_list t a ∙ (cover t a ∙ nothing_or t a),
        rw (entries, kept, zero_entries) (omega arith),
      ))
  where
    Mapped : MemoryMap → Type 0
    Mapped u =
        IsSorted 0 u.pmmap_list
        × ((t a : ℕ) → covers u.pmmap_list t a ≡ covers (low_slots mmap) t a)
        × (u.pmmap_nentries ≡ length u.pmmap_list)

    nothing_or :
        (t a : ℕ) → (covers [] t a || covers (low_slots mmap) t a) ≡ covers (low_slots mmap) t a
    nothing_or t a = rw (covers-nil t a) refl
