-- ===== src/Vmm/Boot/Directories.antt =====
-- The page directories that pdir_init and pdir_init_kern leave.
use os_audio.Base.{
  ℕ, zero, suc, ◌+◌, ◌*◌, ◌%◌, ◌≤◌, ◌<◌, ◌≡◌, ◌≢◌, ◌⊎◌, inl, inr, refl, ap, ◌∙◌, arith, u32_mod,
  ltb, leb, ◌||◌, if◌then◌else◌, Bool-cases,
}
use native.Mathlib.Decide.{ℕ_discrete}
use os_audio.Vmm.Table.{Paging, write_pde, set_pdir_entry_identity, rmv_pdir_entry}
use os_audio.Vmm.Table.Entry.{write_pde_self, write_pde_ne}
use os_audio.Vmm.Boot.{pdir_row, pdir_rows, kern_row}

-- All but the directories.
pub record OnlyDirectories (s s' : Paging) : Type 0 where
  pub containers : s'.containers ≡ s.containers
  pub memory : s'.memory ≡ s.memory
  pub idptbl : s'.idptbl ≡ s.idptbl
  pub pt_lk : s'.pt_lk ≡ s.pt_lk

OnlyDirectories-refl : (s : Paging) → OnlyDirectories s s
OnlyDirectories-refl s = record { containers = refl; memory = refl; idptbl = refl; pt_lk = refl }

OnlyDirectories-trans :
    {s t u : Paging} → OnlyDirectories s t → OnlyDirectories t u → OnlyDirectories s u
OnlyDirectories-trans a b = record {
  containers = b.containers ∙ a.containers;
  memory = b.memory ∙ a.memory;
  idptbl = b.idptbl ∙ a.idptbl;
  pt_lk = b.pt_lk ∙ a.pt_lk;
}

-- The entry for identity table `d`, and the one that pdir_init gives a directory.
abbrev pub id_pde : (idptbl d : ℕ) → ℕ
id_pde idptbl d = (idptbl + d * 4096 + 7) % u32_mod

abbrev pub kern_pde : (idptbl d : ℕ) → ℕ
kern_pde idptbl d = if ltb d 256 || leb 960 d then id_pde idptbl d else 0

-- The step of pdir_init's inner loop.
abbrev step : Paging → (i j : ℕ) → Paging
step s i j = if ltb j 256 || leb 960 j then set_pdir_entry_identity s i j else rmv_pdir_entry s i j

step_lem : (s : Paging) (i j : ℕ) → step s i j ≡ write_pde s i j (kern_pde s.idptbl j)
unfolding set_pdir_entry_identity rmv_pdir_entry
step_lem s i j = elim (Bool-cases (ltb j 256 || leb 960 j)) [
  | inl kern ↦ rw kern refl
  | inr user ↦ rw user refl
]

record DirRow (s : Paging) (i j k : ℕ) (s' : Paging) : Type 0 where
  pub only : OnlyDirectories s s'
  pub inside : (d : ℕ) → j ≤ d → d < j + k → s'.pdir_pool i d ≡ kern_pde s.idptbl d
  pub outside : (p d : ℕ) → (p ≢ i) ⊎ ((d < j) ⊎ (j + k ≤ d)) → s'.pdir_pool p d ≡ s.pdir_pool p d

pdir_row-DirRow : (k i j : ℕ) (s : Paging) → DirRow s i j k (pdir_row k i j s)
unfolding pdir_row
pdir_row-DirRow zero i j s = record {
  only = OnlyDirectories-refl s;
  inside = λ d from below. absurd (omega arith);
  outside = λ p d out. refl;
}
pdir_row-DirRow (suc k) i j s =
    let v : ℕ = kern_pde s.idptbl j in
    let s1 : Paging = write_pde s i j v in
    let rest = pdir_row-DirRow k i (j + 1) s1 in
    rw (step_lem s i j) (record {
      only = record {
        containers = rest.only.containers;
        memory = rest.only.memory;
        idptbl = rest.only.idptbl;
        pt_lk = rest.only.pt_lk;
      };
      inside = λ d from below. elim (ℕ_discrete d j) [
        | yes e ↦ rw e (rest.outside i j (inr (inl (omega arith))) ∙ write_pde_self s i j v)
        | no ne ↦ rest.inside d (omega arith) (omega arith)
      ];
      outside = λ p d out.
          rest.outside p d (omega (arith, out)) ∙ write_pde_ne s i j v p d (omega (arith, out));
    })

pub record DirRows (s : Paging) (i k : ℕ) (s' : Paging) : Type 0 where
  pub only : OnlyDirectories s s'
  pub inside : (p d : ℕ) → i ≤ p → p < i + k → d < 1024 → s'.pdir_pool p d ≡ kern_pde s.idptbl d
  pub before : (p d : ℕ) → p < i → s'.pdir_pool p d ≡ s.pdir_pool p d

pub pdir_rows-DirRows : (k i : ℕ) (s : Paging) → DirRows s i k (pdir_rows k i s)
unfolding pdir_rows
pdir_rows-DirRows zero i s = record {
  only = OnlyDirectories-refl s;
  inside = λ p d from below small. absurd (omega arith);
  before = λ p d out. refl;
}
pdir_rows-DirRows (suc k) i s =
    let s1 : Paging = pdir_row 1024 i 0 s in
    let row = pdir_row-DirRow 1024 i 0 s in
    let rest = pdir_rows-DirRows k (i + 1) s1 in
    record {
      only = OnlyDirectories-trans row.only rest.only;
      inside = λ p d from below small. elim (ℕ_discrete p i) [
        | yes e ↦ rw e (rest.before i d (omega arith) ∙ row.inside d (omega arith) (omega arith))
        | no ne ↦
            rest.inside p d (omega arith) (omega arith) small
            ∙ ap (λ (b : ℕ). kern_pde b d) row.only.idptbl
      ];
      before = λ p d out. rest.before p d (omega arith) ∙ row.outside p d (inl (omega arith));
    }

pub record KernRow (s : Paging) (i k : ℕ) (s' : Paging) : Type 0 where
  pub only : OnlyDirectories s s'
  pub inside : (d : ℕ) → i ≤ d → d < i + k → s'.pdir_pool 0 d ≡ id_pde s.idptbl d
  pub outside : (p d : ℕ) → (p ≢ 0) ⊎ ((d < i) ⊎ (i + k ≤ d)) → s'.pdir_pool p d ≡ s.pdir_pool p d

pub kern_row-KernRow : (k i : ℕ) (s : Paging) → KernRow s i k (kern_row k i s)
unfolding kern_row set_pdir_entry_identity
kern_row-KernRow zero i s = record {
  only = OnlyDirectories-refl s;
  inside = λ d from below. absurd (omega arith);
  outside = λ p d out. refl;
}
kern_row-KernRow (suc k) i s =
    let v : ℕ = id_pde s.idptbl i in
    let s1 : Paging = write_pde s 0 i v in
    let rest = kern_row-KernRow k (i + 1) s1 in
    record {
      only = record {
        containers = rest.only.containers;
        memory = rest.only.memory;
        idptbl = rest.only.idptbl;
        pt_lk = rest.only.pt_lk;
      };
      inside = λ d from below. elim (ℕ_discrete d i) [
        | yes e ↦ rw e (rest.outside 0 i (inr (inl (omega arith))) ∙ write_pde_self s 0 i v)
        | no ne ↦ rest.inside d (omega arith) (omega arith)
      ];
      outside = λ p d out.
          rest.outside p d (omega (arith, out)) ∙ write_pde_ne s 0 i v p d (omega (arith, out));
    }
