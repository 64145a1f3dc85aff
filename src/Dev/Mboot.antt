-- ===== src/Dev/Mboot.antt =====
-- kern/dev/mboot.c: the physical memory map. An SLIST is the list of its slots in order; of a slot
-- only the fields are modelled, since a slot is never changed after the merge that builds the lists.
pub mod Cover
pub mod Total
use os_audio.Base.{
  ℕ, zero, suc, ◌+◌, ◌-◌, ◌*◌, ◌/◌, ◌%◌, ◌^◌, ◌||◌, Bool, ◌&&◌, not, Option, none, some, List, [],
  ◌∷◌, ◌++◌, update, ltb, leb, ◌==◌, if◌then◌else◌, ◌>>=◌, length,
}

-- `struct pmmap`
pub record Pmmap : Type 0 where
  pub start : ℕ
  pub end : ℕ
  pub type : ℕ

-- An entry of the multiboot memory map (`mboot_mmap_t`).
pub record MbootMmap : Type 0 where
  pub base_addr_low : ℕ
  pub base_addr_high : ℕ
  pub length_low : ℕ
  pub length_high : ℕ
  pub type : ℕ

-- The static variables of the file.
pub record MemoryMap : Type 0 where
  pub pmmap_slots_next_free : ℕ
  pub pmmap_list : List Pmmap
  pub pmmap_sublist : ℕ → List Pmmap
  pub max_usable_memory : ℕ
  pub mem_npages : ℕ
  pub pmmap_nentries : ℕ

abbrev pub mem_ram : ℕ
mem_ram = 1

-- PMMAP_SUBLIST_NR, with `none` for -1
unfoldable pub pmmap_sublist_nr : ℕ → Option ℕ
pmmap_sublist_nr type =
    if type == 1
    then some 0
    else if type == 2
    then some 1
    else if type == 3
    then some 2
    else if type == 4
    then some 3
    else none

-- `none` is NULL: all 128 slots are taken.
unfoldable pub pmmap_alloc_slot : MemoryMap → Option MemoryMap
pmmap_alloc_slot s =
    if s.pmmap_slots_next_free == 128
    then none
    else some (record s { pmmap_slots_next_free = s.pmmap_slots_next_free + 1 })

-- The walk of pmmap_insert to the last slot that does not start above the new one, and the
-- insertion behind it, or at the head if there is none.
unfoldable pub insert_slot : Pmmap → List Pmmap → List Pmmap
insert_slot new [] = new ∷ []
insert_slot new (slot ∷ rest) =
    if ltb new.start slot.start then new ∷ slot ∷ rest else slot ∷ insert_slot new rest

-- `none` is the panic on more than 128 entries.
unfoldable pub pmmap_insert : MemoryMap → (start end type : ℕ) → Option MemoryMap
unfolding pmmap_alloc_slot insert_slot
pmmap_insert s start end type = do
  s ← pmmap_alloc_slot s
  let free_slot : Pmmap = record { start = start; end = end; type = type }
  some (record s { pmmap_list = insert_slot free_slot s.pmmap_list })

-- The test of step 1 of pmmap_merge.
unfoldable pub overlaps : Pmmap → Pmmap → Bool
overlaps slot next_slot =
    leb slot.start next_slot.start
    && (leb next_slot.start slot.end && (slot.type == next_slot.type))

max_of : ℕ → ℕ → ℕ
max_of a b = if ltb b a then a else b

-- Step 1 of pmmap_merge: a slot takes in the one behind it at most once, since the walk then goes
-- on to the slot that follows.
unfoldable pub merge_slots : List Pmmap → List Pmmap
unfolding overlaps max_of
merge_slots [] = []
merge_slots (slot ∷ []) = slot ∷ []
merge_slots (slot ∷ next_slot ∷ rest) =
    let kept = merge_slots (next_slot ∷ rest) in
    let merged = merge_slots rest in
    if overlaps slot next_slot
    then (record slot { end = max_of slot.end next_slot.end }) ∷ merged
    else slot ∷ kept

-- Step 2: each slot goes to the end of the list of its type; `none` is the failed assertion.
unfoldable pub sort_by_type : List Pmmap → (ℕ → List Pmmap) → Option (ℕ → List Pmmap)
unfolding pmmap_sublist_nr
sort_by_type [] sub = some sub
sort_by_type (slot ∷ rest) sub = do
  nr ← pmmap_sublist_nr slot.type
  sort_by_type rest (update sub nr (sub nr ++ (slot ∷ [])))

last_end : List Pmmap → ℕ → ℕ
last_end [] none_yet = none_yet
last_end (slot ∷ rest) none_yet = last_end rest slot.end

unfoldable pub pmmap_merge : MemoryMap → Option MemoryMap
unfolding merge_slots sort_by_type last_end
pmmap_merge s = do
  let slots = merge_slots s.pmmap_list
  sub ← sort_by_type slots s.pmmap_sublist
  some (record s {
    pmmap_list = slots;
    pmmap_sublist = sub;
    max_usable_memory = last_end (sub 0) s.max_usable_memory;
  })

-- One round of pmmap_init's copying loop.
unfoldable pub pmmap_copy : MemoryMap → MbootMmap → Option MemoryMap
unfolding pmmap_insert
pmmap_copy s p =
    if p.base_addr_high == 0
    then pmmap_insert s p.base_addr_low
        (if not (p.length_high == 0) || leb (0xffff_ffff - p.base_addr_low) p.length_low
          then 0xffff_ffff
          else p.base_addr_low + p.length_low)
        p.type
    else some s

pmmap_copy_all : List MbootMmap → MemoryMap → Option MemoryMap
unfolding pmmap_copy
pmmap_copy_all [] s = some s
pmmap_copy_all (p ∷ rest) s = do s ← pmmap_copy s p; pmmap_copy_all rest s

-- `mmap` is the array of entries that the multiboot information points to.
unfoldable pub pmmap_init : List MbootMmap → MemoryMap → Option MemoryMap
unfolding pmmap_copy_all pmmap_merge
pmmap_init mmap s = do
  s ← pmmap_copy_all mmap (record s { pmmap_list = []; pmmap_sublist = λ nr. [] })
  s ← pmmap_merge s
  some (record s {
    pmmap_nentries = s.pmmap_nentries + length s.pmmap_list;
    mem_npages = s.max_usable_memory / 4096;
  })

abbrev pub get_size : MemoryMap → ℕ
get_size s = s.pmmap_nentries

-- The walk that get_mms, get_mml and is_usable share: the slot at an index, if there is one.
unfoldable pub slot_at : List Pmmap → ℕ → Option Pmmap
slot_at [] idx = none
slot_at (slot ∷ rest) zero = some slot
slot_at (slot ∷ rest) (suc idx) = slot_at rest idx

found_slot : MemoryMap → ℕ → Option Pmmap
unfolding slot_at
found_slot s idx = if idx == s.pmmap_nentries then none else slot_at s.pmmap_list idx

unfoldable pub get_mms : MemoryMap → ℕ → ℕ
unfolding found_slot
get_mms s idx = elim (found_slot s idx) [ none ↦ 0 | some slot ↦ slot.start ]

unfoldable pub get_mml : MemoryMap → ℕ → ℕ
unfolding found_slot
get_mml s idx = elim (found_slot s idx) [
  | none ↦ 0
  | some slot ↦ (slot.end + 2 ^ 32 - slot.start) % 2 ^ 32
]

unfoldable pub is_usable : MemoryMap → ℕ → ℕ
unfolding found_slot
is_usable s idx = elim (found_slot s idx) [
  | none ↦ 0
  | some slot ↦ if slot.type == mem_ram then 1 else 0
]
