-- ===== src/Vmm/Table/Entry.antt =====
-- Addresses of page table entries, and reading back what was written (MPTIntro.c, MPTOp.c).
use os_audio.Base.{
  ℕ, ◌+◌, ◌*◌, ◌/◌, ◌%◌, ◌<◌, ◌≡◌, ◌≢◌, ◌⊎◌, refl, sym, ◌∙◌, ap, arith, u32_mod, ◌==◌,
  if◌then◌else◌, update, update_ne,
}
use os_audio.Vmm.Table.{
  Paging, page_size, write_pde, pte_addr, pde_of, pte_of, get_ptbl_entry_by_va,
}

-- Every page directory entry is a 32-bit word.
abbrev pub AreWords : Paging → Type 0
AreWords s = (p d : ℕ) → s.pdir_pool p d < u32_mod

-- The start of the table that a directory entry points to.
abbrev pub base : Paging → (p d : ℕ) → ℕ
base s p d = s.pdir_pool p d / 4096 * 4096

-- Inside a table the address of an entry does not wrap.
pub pte_addr_lem :
    (s : Paging) (p d i : ℕ) → AreWords s → i < 1024 → pte_addr s p d i ≡ base s p d + i * 4
pte_addr_lem s p d i w h = omega (arith, w p d)

-- Entries of different tables, or at different places, have different addresses.
pub pte_addr-injective :
    (s : Paging) (p d i p' d' i' : ℕ)
    → AreWords s
    → i < 1024
    → i' < 1024
    → pte_addr s p d i ≡ pte_addr s p' d' i'
    → (base s p d ≡ base s p' d') × (i ≡ i')
pte_addr-injective s p d i p' d' i' w h h' e =
    (omega (arith, w p d, w p' d'), omega (arith, w p d, w p' d'))

pub write_pde_self : (s : Paging) (p d e : ℕ) → (write_pde s p d e).pdir_pool p d ≡ e
write_pde_self s p d e = ground arith

pub write_pde_ne :
    (s : Paging) (p d e p' d' : ℕ)
    → (p' ≢ p) ⊎ (d' ≢ d)
    → (write_pde s p d e).pdir_pool p' d' ≡ s.pdir_pool p' d'
write_pde_ne s p d e p' d' ne = ground arith

pub write_pde-AreWords :
    (s : Paging) (p d e : ℕ) → AreWords s → e < u32_mod → AreWords (write_pde s p d e)
write_pde-AreWords s p d e w h p' d' = ground (arith, w p' d')

-- Whether two virtual addresses of two processes go through the same page table entry.
abbrev pub SameEntry : Paging → (p va p' va' : ℕ) → Type 0
SameEntry s p va p' va' = (base s p (pde_of va) ≡ base s p' (pde_of va')) × (pte_of va ≡ pte_of va')

pub get-write_self :
    (s : Paging) (p va v : ℕ)
    → s.pdir_pool p (pde_of va) ≢ 0
    → get_ptbl_entry_by_va
        (record s { memory = update s.memory (pte_addr s p (pde_of va) (pte_of va)) v })
        p
        va
      ≡ v
unfolding get_ptbl_entry_by_va
get-write_self s p va v present = ground arith

pub get-write_ne :
    (s : Paging) (p va v p' va' : ℕ)
    → AreWords s
    → ¬ SameEntry s p va p' va'
    → get_ptbl_entry_by_va
        (record s { memory = update s.memory (pte_addr s p (pde_of va) (pte_of va)) v })
        p'
        va'
      ≡ get_ptbl_entry_by_va s p' va'
unfolding get_ptbl_entry_by_va
get-write_ne s p va v p' va' w apart =
    let ne : pte_addr s p' (pde_of va') (pte_of va') ≢ pte_addr s p (pde_of va) (pte_of va) = λ e.
      apart (
        pte_addr-injective s p (pde_of va) (pte_of va) p' (pde_of va') (pte_of va') w (omega arith)
          (omega arith) (sym e)) in
    rw (update_ne s.memory v ne) refl

pub get_absent :
    (s : Paging) (p va : ℕ) → s.pdir_pool p (pde_of va) ≡ 0 → get_ptbl_entry_by_va s p va ≡ 0
unfolding get_ptbl_entry_by_va
get_absent s p va e = ground arith

-- The walk through one directory entry.
abbrev look : (memory : ℕ → ℕ) → (pde i : ℕ) → ℕ
look memory pde i = if pde == 0 then 0 else memory ((pde / page_size * page_size + i * 4) % u32_mod)

-- A translation depends on its directory entry and on the word of its table entry.
pub get_eq :
    (s s' : Paging) (p va : ℕ)
    → s'.pdir_pool p (pde_of va) ≡ s.pdir_pool p (pde_of va)
    → s'.memory (pte_addr s p (pde_of va) (pte_of va))
      ≡ s.memory (pte_addr s p (pde_of va) (pte_of va))
    → get_ptbl_entry_by_va s' p va ≡ get_ptbl_entry_by_va s p va
unfolding get_ptbl_entry_by_va
get_eq s s' p va e m =
    ap (λ (d : ℕ). look s'.memory d (pte_of va)) e
    ∙ ap (λ (v : ℕ). if s.pdir_pool p (pde_of va) == 0 then 0 else v) m

pub get_present :
    (s : Paging) (p va : ℕ)
    → s.pdir_pool p (pde_of va) ≢ 0
    → get_ptbl_entry_by_va s p va ≡ s.memory (pte_addr s p (pde_of va) (pte_of va))
unfolding get_ptbl_entry_by_va
get_present s p va present = ground arith
