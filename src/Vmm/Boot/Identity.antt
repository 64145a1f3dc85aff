-- ===== src/Vmm/Boot/Identity.antt =====
-- The address spaces that paging_init of MPTInit.c sets up.
use os_audio.Base.{
  ℕ, ◌+◌, ◌*◌, ◌/◌, ◌%◌, ◌^◌, ◌≤◌, ◌<◌, ◌≡◌, ◌≢◌, ◌⊎◌, inl, inr, refl, ap, ◌∙◌, arith, u32_mod,
  some, ltb, leb, ◌||◌, ◌&&◌, ◌==◌, if◌then◌else◌, true, false, Bool,
}
use os_audio.Sync.{Spinlock, num_cpus}
use os_audio.Pmm.Table.{Pmm}
use os_audio.Pmm.Container.{num_ids, container_init}
use os_audio.Vmm.Table.{
  Paging, pde_of, pte_of, pte_addr, idptbl_perm, get_ptbl_entry_by_va, idptbl_init,
}
use os_audio.Vmm.Table.Entry.{get_absent, get_present}
use os_audio.Vmm.Table.Identity.{idptbl_init-IdentityTables}
use os_audio.Vmm.Boot.{pdir_rows, pdir_init, pdir_init_kern, paging_init}
use os_audio.Vmm.Boot.Directories.{id_pde, kern_pde, pdir_rows-DirRows, kern_row-KernRow}

-- Whether an address lies in [VM_USERLO, VM_USERHI).
abbrev pub user : (va : ℕ) → Bool
user va = leb 0x40000000 va && ltb va 0xf0000000

user-perm : (va : ℕ) → idptbl_perm (pde_of va) ≡ (if user va then 3 else 0x103)
user-perm va = ground arith

-- Whether boot maps a part of an address space: all of process 0's, and the kernel's of the others.
abbrev mapped : (p d : ℕ) → Bool
mapped p d = (p == 0) || (ltb d 256 || leb 960 d)

-- What pdir_init_kern leaves.
record Booted (pmm : Pmm) (s s' : Paging) : Type 0 where
  pub containers : s'.containers ≡ container_init pmm s.containers
  pub pt_lk : s'.pt_lk ≡ s.pt_lk
  pub entries :
      (m n : ℕ)
      → m < 1024
      → n < 1024
      → s'.memory (s.idptbl + m * 4096 + n * 4) ≡ ((m * 1024 + n) * 4096 + idptbl_perm m) % u32_mod
  pub directories :
      (p d : ℕ)
      → p < 64
      → d < 1024
      → s'.pdir_pool p d ≡ (if mapped p d then id_pde s.idptbl d else 0)

pdir_init_kern-Booted : (pmm : Pmm) (s : Paging) → Booted pmm s (pdir_init_kern pmm s)
unfolding pdir_init_kern pdir_init
pdir_init_kern-Booted pmm s =
    let s1 : Paging = idptbl_init pmm s in
    let tables = idptbl_init-IdentityTables pmm s in
    let s2 : Paging = pdir_rows num_ids 0 s1 in
    let dirs = pdir_rows-DirRows num_ids 0 s1 in
    let kern = kern_row-KernRow 704 256 s2 in
    let at2 : s2.idptbl ≡ s.idptbl = dirs.only.idptbl ∙ tables.idptbl in
    record {
      containers = kern.only.containers ∙ (dirs.only.containers ∙ tables.containers);
      pt_lk = kern.only.pt_lk ∙ (dirs.only.pt_lk ∙ tables.pt_lk);
      entries = λ m n hm hn.
          ap (λ (f : ℕ → ℕ). f (s.idptbl + m * 4096 + n * 4)) (kern.only.memory ∙ dirs.only.memory)
          ∙ tables.entries m n hm hn;
      directories = λ p d hp hd.
          let dir : s2.pdir_pool p d ≡ kern_pde s.idptbl d =
            dirs.inside p d (omega arith) (omega arith) hd
            ∙ ap (λ (b : ℕ). kern_pde b d) tables.idptbl in
          elim (inner p d) [
            | inl (z, from, below) ↦
                let yes' : mapped p d ≡ true = ground arith in
                rw (yes', z)
                  (kern.inside d (omega arith) (omega arith) ∙ ap (λ (b : ℕ). id_pde b d) at2)
            | inr out ↦
                let same : mapped p d ≡ (ltb d 256 || leb 960 d) = ground arith in
                kern.outside p d (omega (arith, out)) ∙ (dir ∙ rw same refl)
          ];
    }
  where
    inner : (p d : ℕ) → ((p ≡ 0) × (256 ≤ d) × (d < 960)) ⊎ ((p ≢ 0) ⊎ ((d < 256) ⊎ (960 ≤ d)))
    inner p d = ground arith

directory_word :
    (s : Paging) (va : ℕ)
    → s.idptbl % 4096 ≡ 0
    → s.idptbl + 2 ^ 22 ≤ u32_mod
    → va < u32_mod
    → id_pde s.idptbl (pde_of va) ≡ s.idptbl + pde_of va * 4096 + 7
directory_word s va aligned fits small = omega arith

-- The translation through the identity tables.
identity :
    (s t : Paging) (p va : ℕ)
    → s.idptbl % 4096 ≡ 0
    → s.idptbl + 2 ^ 22 ≤ u32_mod
    → va < u32_mod
    → t.pdir_pool p (pde_of va) ≡ id_pde s.idptbl (pde_of va)
    → ((m n : ℕ)
        → m < 1024
        → n < 1024
        → t.memory (s.idptbl + m * 4096 + n * 4)
          ≡ ((m * 1024 + n) * 4096 + idptbl_perm m) % u32_mod)
    → get_ptbl_entry_by_va t p va ≡ va / 4096 * 4096 + idptbl_perm (pde_of va)
identity s t p va aligned fits small pde entries =
    let d : ℕ = pde_of va in
    let d_lt : d < 1024 = omega arith in
    let word : id_pde s.idptbl d ≡ s.idptbl + d * 4096 + 7 =
      directory_word s va aligned fits small in
    let present : t.pdir_pool p d ≢ 0 = λ e. omega (arith, pde, word, e) in
    let slot : pte_addr t p d (pte_of va) ≡ s.idptbl + d * 4096 + pte_of va * 4 =
      rw (pde, word) (omega arith) in
    let perm : idptbl_perm d < 4096 = ground arith in
    get_present t p va present
    ∙ (ap t.memory slot ∙ (entries d (pte_of va) d_lt (omega arith) ∙ omega (arith, perm)))

-- `paging_init`, with IDPTbl on a page boundary and below the end of the address space, returns with
-- the lock on the page structures free, process 0's directory loaded, and the accounts of
-- container_init. Every address of process 0, and every kernel address of the others (below 1 GB, or
-- from 0xf0000000 on), translates to itself through a present directory
-- entry, as present and writable, and as global outside [1 GB, 0xf0000000); every user address of
-- the others has no entry.
pub paging_init_lem :
    (pmm : Pmm) (s : Paging)
    → s.idptbl % 4096 ≡ 0
    → s.idptbl + 2 ^ 22 ≤ u32_mod
    → (s' : Paging) × (paging_init pmm s ≡ some s')
      × (s'.pt_lk.lock ≡ 0)
      × (s'.pdir_base ≡ 0)
      × (s'.containers ≡ container_init pmm s.containers)
      × ((p va : ℕ)
          → p < 64
          → va < u32_mod
          → (p ≡ 0) ⊎ ((va < 0x40000000) ⊎ (0xf0000000 ≤ va))
          → (s'.pdir_pool p (pde_of va) ≡ s.idptbl + pde_of va * 4096 + 7)
            × (get_ptbl_entry_by_va s' p va ≡ va / 4096 * 4096 + (if user va then 3 else 0x103)))
      × ((p va : ℕ)
          → p < 64
          → p ≢ 0
          → 0x40000000 ≤ va
          → va < 0xf0000000
          → get_ptbl_entry_by_va s' p va ≡ 0)
unfolding paging_init
paging_init_lem pmm s aligned fits =
    let s0 : Paging = record s { pt_lk = record { lock_holder = num_cpus + 1; lock = 0 } } in
    let t : Paging = pdir_init_kern pmm s0 in
    let b = pdir_init_kern-Booted pmm s0 in
    let unlocked : t.pt_lk.lock ≡ 0 = ap (λ (l : Spinlock). l.lock) b.pt_lk in
    let s' : Paging = record t {
      pt_lk = record { lock_holder = num_cpus + 1; lock = 0 };
      pdir_base = 0;
    } in
    (
      s',
      rw unlocked refl,
      refl,
      refl,
      b.containers,
      λ p va hp small where_.
          let there : mapped p (pde_of va) ≡ true = ground (arith, where_) in
          let pde : t.pdir_pool p (pde_of va) ≡ id_pde s.idptbl (pde_of va) =
            b.directories p (pde_of va) hp (omega arith) ∙ rw there refl in
          (
            pde ∙ directory_word s va aligned fits small,
            identity s s' p va aligned fits small pde b.entries
                ∙ ap (λ k. va / 4096 * 4096 + k) (user-perm va),
          ),
      λ p va hp other from below.
          let not_there : mapped p (pde_of va) ≡ false = ground (arith, other) in
          get_absent s' p va (b.directories p (pde_of va) hp (omega arith) ∙ rw not_there refl),
    )
