-- ===== src/Vmm/Table/Identity.antt =====
-- The identity tables that idptbl_init of MPTOp.c leaves in memory.
use os_audio.Base.{
  ℕ, zero, suc, ◌+◌, ◌*◌, ◌%◌, ◌≤◌, ◌<◌, ◌≡◌, ◌⊎◌, inl, refl, ◌∙◌, arith, u32_mod, update_self,
  update_ne,
}
use native.Mathlib.Decide.{ℕ_discrete}
use os_audio.Pmm.Table.{Pmm}
use os_audio.Pmm.Container.{container_init}
use os_audio.Vmm.Table.{
  Paging, idptbl_addr, idptbl_perm, set_ptbl_entry_identity, idptbl_row, idptbl_rows, idptbl_init,
}

-- All but the memory.
record OnlyMemory (s s' : Paging) : Type 0 where
  pub containers : s'.containers ≡ s.containers
  pub pdir_pool : s'.pdir_pool ≡ s.pdir_pool
  pub idptbl : s'.idptbl ≡ s.idptbl
  pub pt_lk : s'.pt_lk ≡ s.pt_lk

abbrev entry : (i j perm : ℕ) → ℕ
entry i j perm = ((i * 1024 + j) * 4096 + perm) % u32_mod

record Row (s : Paging) (i j k perm : ℕ) (s' : Paging) : Type 0 where
  pub only : OnlyMemory s s'
  pub inside : (n : ℕ) → j ≤ n → n < j + k → s'.memory (idptbl_addr s i n) ≡ entry i n perm
  pub outside :
      (a : ℕ) → (a < idptbl_addr s i j) ⊎ (idptbl_addr s i (j + k) ≤ a) → s'.memory a ≡ s.memory a

idptbl_row-Row : (k i j perm : ℕ) (s : Paging) → Row s i j k perm (idptbl_row k i j perm s)
unfolding idptbl_row set_ptbl_entry_identity
idptbl_row-Row zero i j perm s = record {
  only = record { containers = refl; pdir_pool = refl; idptbl = refl; pt_lk = refl };
  inside = λ n from below. absurd (omega arith);
  outside = λ a out. refl;
}
idptbl_row-Row (suc k) i j perm s =
    let rest = idptbl_row-Row k i (j + 1) perm (set_ptbl_entry_identity s i j perm) in
    record {
      only = record {
        containers = rest.only.containers;
        pdir_pool = rest.only.pdir_pool;
        idptbl = rest.only.idptbl;
        pt_lk = rest.only.pt_lk;
      };
      inside = λ n from below. elim (ℕ_discrete n j) [
        | yes e ↦ rw e (
            rest.outside (idptbl_addr s i j) (inl (omega arith))
            ∙ update_self s.memory (idptbl_addr s i j) (entry i j perm))
        | no ne ↦ rest.inside n (omega arith) (omega arith)
      ];
      outside =
          λ a out. rest.outside a (omega arith) ∙ update_ne s.memory (entry i j perm) (omega arith);
    }

record Rows (s : Paging) (i k : ℕ) (s' : Paging) : Type 0 where
  pub only : OnlyMemory s s'
  pub inside :
      (m n : ℕ)
      → i ≤ m
      → m < i + k
      → n < 1024
      → s'.memory (idptbl_addr s m n) ≡ entry m n (idptbl_perm m)
  pub before : (a : ℕ) → a < idptbl_addr s i 0 → s'.memory a ≡ s.memory a

idptbl_rows-Rows : (k i : ℕ) (s : Paging) → Rows s i k (idptbl_rows k i s)
unfolding idptbl_rows
idptbl_rows-Rows zero i s = record {
  only = record { containers = refl; pdir_pool = refl; idptbl = refl; pt_lk = refl };
  inside = λ m n from below small. absurd (omega arith);
  before = λ a out. refl;
}
idptbl_rows-Rows (suc k) i s =
    let s1 : Paging = idptbl_row 1024 i 0 (idptbl_perm i) s in
    let row = idptbl_row-Row 1024 i 0 (idptbl_perm i) s in
    let rest = idptbl_rows-Rows k (i + 1) s1 in
    let same : (m n : ℕ) → idptbl_addr s1 m n ≡ idptbl_addr s m n =
      λ m n. omega (arith, row.only.idptbl) in
    record {
      only = record {
        containers = rest.only.containers ∙ row.only.containers;
        pdir_pool = rest.only.pdir_pool ∙ row.only.pdir_pool;
        idptbl = rest.only.idptbl ∙ row.only.idptbl;
        pt_lk = rest.only.pt_lk ∙ row.only.pt_lk;
      };
      inside = λ m n from below small. elim (ℕ_discrete m i) [
        | yes e ↦ rw e (
            rest.before (idptbl_addr s i n) (omega (arith, row.only.idptbl))
            ∙ row.inside n (omega arith) (omega arith))
        | no ne ↦ rw (← same m n) (rest.inside m n (omega arith) (omega arith) small)
      ];
      before =
          λ a out. rest.before a (omega (arith, row.only.idptbl)) ∙ row.outside a (omega arith);
    }

-- The page structures before the directories are set up.
pub record IdentityTables (pmm : Pmm) (s s' : Paging) : Type 0 where
  pub containers : s'.containers ≡ container_init pmm s.containers
  pub idptbl : s'.idptbl ≡ s.idptbl
  pub pt_lk : s'.pt_lk ≡ s.pt_lk
  pub entries :
      (m n : ℕ)
      → m < 1024
      → n < 1024
      → s'.memory (s.idptbl + m * 4096 + n * 4) ≡ ((m * 1024 + n) * 4096 + idptbl_perm m) % u32_mod

pub idptbl_init-IdentityTables : (pmm : Pmm) (s : Paging) → IdentityTables pmm s (idptbl_init pmm s)
unfolding idptbl_init
idptbl_init-IdentityTables pmm s =
    let r = idptbl_rows-Rows 1024 0 (record s { containers = container_init pmm s.containers }) in
    record {
      containers = r.only.containers;
      idptbl = r.only.idptbl;
      pt_lk = r.only.pt_lk;
      entries = λ m n below small. r.inside m n (omega arith) (omega arith) small;
    }
