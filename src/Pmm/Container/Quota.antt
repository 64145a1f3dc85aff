-- ===== src/Pmm/Container/Quota.antt =====
-- The quota discipline of MContainer.c.
use os_audio.Base.{
  ℕ, ◌%◌, ◌+◌, ◌-◌, ◌*◌, ◌^◌, ◌≤◌, ◌<◌, ◌≡◌, ◌≢◌, ◌⊎◌, inl, inr, refl, sym, ap, ◌∙◌, update_self,
  update_ne, ◌&&◌, arith, ltb, ◌==◌, ==_iff, Bool-cases, some, update, u32_mod, if◌then◌else◌,
  false,
}
use native.Mathlib.Nat.{mod-eq_of_lt}
use native.Mathlib.Decide.{ℕ_discrete}
use os_audio.Pmm.Alloc.Palloc.{IsReady, Outcome, palloc_lem, Outcome-IsReady, pfree_lem}
use os_audio.Pmm.Container.{
  SContainer, Containers, num_ids, max_children, child_index, container_can_consume,
  container_split, container_alloc, container_free,
}

-- No process uses more than its quota, and quotas are non-negative `int`s.
pub record IsSound (c : ℕ → SContainer) : Type 0 where
  pub within : (i : ℕ) → (c i).usage ≤ (c i).quota
  pub small : (i : ℕ) → (c i).quota < 2 ^ 31

-- One entry changed in a sound way keeps the table sound.
IsSound-update :
    {c : ℕ → SContainer} (i : ℕ) (x : SContainer)
    → IsSound c
    → x.usage ≤ x.quota
    → x.quota < 2 ^ 31
    → IsSound (update c i x)
IsSound-update {c} i x v u q = record {
  within = λ j. ground (arith, v.within j);
  small = λ j. ground (arith, v.small j);
}

abbrev pub charge : (ℕ → SContainer) → ℕ → ℕ → SContainer
charge c id = update c id (record (c id) { usage = (c id).usage + 1 })

-- What container_alloc has done when it returns `r` in state `s'`.
abbrev pub AllocOutcome : Containers → ℕ → ℕ → Containers → Type 0
AllocOutcome s id r s' =
    (((s.container id).usage ≡ (s.container id).quota) × (r ≡ 0) × (s' ≡ s))
    ⊎ (((s.container id).usage < (s.container id).quota)
        × (s'.container ≡ charge s.container id)
        × Outcome s.pmm r s'.pmm)

-- `container_alloc` returns on a sound table, with the memory lock free, and keeps it sound. At its
-- quota a process gets 0 and nothing changes. Below it the process is charged one page, no other
-- process's account changes, and the result and the allocation table are what `palloc` makes of
-- them: the charge stands also where `palloc` returns 0.
pub container_alloc_lem :
    (s : Containers) (id : ℕ)
    → IsSound s.container
    → IsReady s.pmm
    → (r : ℕ) × (s' : Containers) × (container_alloc s id ≡ some (r, s'))
      × AllocOutcome s id r s'
      × IsSound s'.container
      × IsReady s'.pmm
unfolding container_alloc
container_alloc_lem s id v ready =
    elim (Bool-cases ((s.container id).usage == (s.container id).quota)) [
      | inl full ↦ (0, s, rw full, inl ((==_iff _ _).0 full, refl, refl), v, ready)
      | inr below ↦
          let (r, pmm, e, out) = palloc_lem s.pmm ready in
          let lt : (s.container id).usage < (s.container id).quota = ground (arith, v.within id) in
          let small : (s.container id).usage + 1 < u32_mod = omega (arith, v.small id) in
          (
            r,
            record { pmm = pmm; container = charge s.container id },
            rw (below, e, mod-eq_of_lt small),
            inr (lt, refl, out),
            IsSound-update id (record (s.container id) { usage = (s.container id).usage + 1 }) v
                (omega (arith, lt)) (v.small id),
            Outcome-IsReady out,
          )
    ]

abbrev fresh : ℕ → ℕ → SContainer
fresh id quota = record { quota = quota; usage = 0; parent = id; nchildren = 0; used = 1 }

abbrev parent_after : SContainer → ℕ → SContainer
parent_after p quota = record p { usage = p.usage + quota; nchildren = p.nchildren + 1 }

abbrev split_table : (ℕ → SContainer) → (id child quota : ℕ) → ℕ → SContainer
split_table c id child quota =
    update (update c child (fresh id quota)) id (parent_after (c id) quota)

split-eq :
    (s : Containers) (id quota child : ℕ)
    → child ≡ id * max_children + 1 + (s.container id).nchildren
    → child < u32_mod
    → id ≢ child
    → (s.container id).usage + quota < u32_mod
    → (s.container id).nchildren + 1 < u32_mod
    → container_split s id quota
      ≡ (child, record s { container = split_table s.container id child quota })
unfolding container_split
split-eq s id quota child e below apart u n =
    let here : child_index s id ≡ child = mod-eq_of_lt (rw (← e) below) ∙ sym e in
    let other : (id == child) ≡ false = ground arith in
    rw (here, other, mod-eq_of_lt u, mod-eq_of_lt n)

split_table_lem :
    {c : ℕ → SContainer} (id child quota : ℕ)
    → IsSound c
    → id ≢ child
    → (c id).usage + quota ≤ (c id).quota
    → quota < 2 ^ 31
    → let t = split_table c id child quota in
      IsSound t
      × (t id ≡ parent_after (c id) quota)
      × (t child ≡ fresh id quota)
      × ((i : ℕ) → i ≢ id → i ≢ child → t i ≡ c i)
split_table_lem {c} id child quota v apart fits small =
    let mid : ℕ → SContainer = update c child (fresh id quota) in
    let new = IsSound-update child (fresh id quota) v (omega arith) small in
    (
      IsSound-update id (parent_after (c id) quota) new fits (v.small id),
      update_self mid id (parent_after (c id) quota),
      update_ne mid (parent_after (c id) quota) (λ e. apart (sym e))
          ∙ update_self c child (fresh id quota),
      λ i ne ne'. update_ne mid (parent_after (c id) quota) ne ∙ update_ne c (fresh id quota) ne',
    )

-- `container_split`, of a process below NUM_IDS with fewer than three children, whose next child is
-- below NUM_IDS too, and of a quota below 2^31, after `container_can_consume` has agreed keeps the table sound: the parent is charged the
-- child's whole quota, which stays within its own, and the child starts with nothing used. The
-- child's index is above the parent's, and no third entry changes.
pub container_split_lem :
    (s : Containers) (id quota : ℕ)
    → IsSound s.container
    → id < num_ids
    → (s.container id).nchildren < max_children
    → id * 3 + 1 + (s.container id).nchildren < num_ids
    → quota < 2 ^ 31
    → container_can_consume s id quota ≡ 1
    → let (child, s') = container_split s id quota in
      IsSound s'.container
      × (child ≡ id * 3 + 1 + (s.container id).nchildren)
      × (s'.container id ≡ record (s.container id) {
        usage = (s.container id).usage + quota;
        nchildren = (s.container id).nchildren + 1;
      })
      × (s'.container child
          ≡ record { quota = quota; usage = 0; parent = id; nchildren = 0; used = 1 })
      × ((i : ℕ) → i ≢ id → i ≢ child → s'.container i ≡ s.container i)
unfolding container_can_consume
container_split_lem s id quota v id_in nc child_in small can =
    let fits : (s.container id).usage + quota ≤ (s.container id).quota =
      ground (arith, v.within id, v.small id) in
    let below : id * 3 + 1 + (s.container id).nchildren < u32_mod = omega arith in
    let apart : id ≢ id * 3 + 1 + (s.container id).nchildren = omega arith in
    rw (split-eq s id quota _ refl below apart (omega (arith, v.small id)) (omega arith)) (
      let (sound, parent, child, others) =
        split_table_lem id (id * 3 + 1 + (s.container id).nchildren) quota v apart fits small in
      (sound, refl, parent, child, others))

abbrev give_back : (ℕ → SContainer) → ℕ → ℕ → SContainer
give_back c id =
    if ltb 0 (c id).usage && ltb (c id).usage (2 ^ 31)
    then update c id (record (c id) { usage = ((c id).usage + (u32_mod - 1)) % u32_mod })
    else c

give_back_lem :
    {c : ℕ → SContainer} (id : ℕ)
    → IsSound c
    → IsSound (give_back c id)
      × ((give_back c id id).usage ≡ (if (c id).usage == 0 then 0 else (c id).usage - 1))
      × ((i : ℕ) → i ≢ id → give_back c id i ≡ c i)
give_back_lem {c} id v = elim (Bool-cases (ltb 0 (c id).usage && ltb (c id).usage (2 ^ 31))) [
  | inl yes' ↦
      let x = record (c id) { usage = ((c id).usage + (u32_mod - 1)) % u32_mod } in
      let some_used : 0 < (c id).usage = ground arith in
      let less : ((c id).usage + (u32_mod - 1)) % u32_mod ≡ (c id).usage - 1 =
        omega (arith, some_used, v.within id, v.small id) in
      let nonzero : ((c id).usage == 0) ≡ false = ground arith in
      rw yes' (
        IsSound-update id x v (omega (arith, less, v.within id)) (v.small id),
        ap (λ (s : SContainer). s.usage) (update_self c id x) ∙ (less ∙ rw nonzero refl),
        λ i ne. update_ne c x ne,
      )
  | inr no' ↦
      let empty : (c id).usage ≡ 0 = ground (arith, v.within id, v.small id) in
      rw no' (v, empty ∙ rw empty refl, λ i ne. refl)
]

-- `container_free` returns on a sound table, with the memory lock free, and keeps it sound. A page
-- that is not allocated is left alone, and so is everything else. An allocated one becomes free,
-- and the process is given back one page, unless it has none to give back; no other entry of either
-- table changes.
pub container_free_lem :
    (s : Containers) (id page : ℕ)
    → IsSound s.container
    → IsReady s.pmm
    → (s' : Containers) × (container_free s id page ≡ some s')
      × IsSound s'.container
      × IsReady s'.pmm
      × ((((s.pmm.table page).allocated ≡ 0) × (s' ≡ s))
          ⊎ (((s.pmm.table page).allocated ≢ 0)
              × (s'.pmm.table
                  ≡ update s.pmm.table page (record (s.pmm.table page) { allocated = 0 }))
              × ((s'.container id).usage
                  ≡ (if (s.container id).usage == 0 then 0 else (s.container id).usage - 1))
              × ((i : ℕ) → i ≢ id → s'.container i ≡ s.container i)))
unfolding container_free
container_free_lem s id page v ready = elim (ℕ_discrete (s.pmm.table page).allocated 0) [
  | yes unused ↦ (s, ground arith, v, ready, inl (unused, refl))
  | no used ↦
      let (pmm, e, table, ready', _, _) = pfree_lem s.pmm page ready in
      let marked : ((s.pmm.table page).allocated == 0) ≡ false = ground arith in
      let (sound, usage, others) = give_back_lem id v in
      (
        record { pmm = pmm; container = give_back s.container id },
        rw (marked, e),
        sound,
        ready',
        inr (used, table, usage, others),
      )
]
