-- ===== src/Vmm/Map/Clear.antt =====
-- The loop of alloc_ptbl (MPTComm.c) that clears a new table.
use os_audio.Base.{
  ℕ, zero, suc, ◌+◌, ◌*◌, ◌≤◌, ◌<◌, ◌≡◌, ◌⊎◌, inl, refl, ◌∙◌, arith, update, update_self, update_ne,
}
use native.Mathlib.Decide.{ℕ_discrete}
use os_audio.Vmm.Table.{Paging, pte_addr}
use os_audio.Vmm.Table.Entry.{AreWords, base, pte_addr_lem}
use os_audio.Vmm.Map.{clear_ptbl}

-- The cleared table: what the loop of alloc_ptbl does to memory and to nothing else.
pub record Cleared (s : Paging) (p d i j : ℕ) (s' : Paging) : Type 0 where
  pub inside : (n : ℕ) → i ≤ n → n < j → s'.memory (base s p d + n * 4) ≡ 0
  pub outside :
      (a : ℕ) → (a < base s p d + i * 4) ⊎ (base s p d + j * 4 ≤ a) → s'.memory a ≡ s.memory a
  pub pdir_pool : s'.pdir_pool ≡ s.pdir_pool
  pub containers : s'.containers ≡ s.containers
  pub pt_lk : s'.pt_lk ≡ s.pt_lk

pub clear_ptbl-Cleared :
    (s : Paging) (p d k i : ℕ)
    → AreWords s
    → i + k ≤ 1024
    → Cleared s p d i (i + k) (clear_ptbl k i p d s)
unfolding clear_ptbl
clear_ptbl-Cleared s p d zero i w h = record {
  inside = λ n from below. absurd (omega arith);
  outside = λ a out. refl;
  pdir_pool = refl;
  containers = refl;
  pt_lk = refl;
}
clear_ptbl-Cleared s p d (suc k) i w h =
    let s1 : Paging = record s { memory = update s.memory (pte_addr s p d i) 0 } in
    let rest = clear_ptbl-Cleared s1 p d k (i + 1) w (omega arith) in
    let here : pte_addr s p d i ≡ base s p d + i * 4 = pte_addr_lem s p d i w (omega arith) in
    record {
      inside = λ n from below. elim (ℕ_discrete n i) [
        | yes e ↦
            rest.outside (base s p d + n * 4) (inl (omega arith))
            ∙ rw (e, here) (update_self s.memory (base s p d + i * 4) 0)
        | no ne ↦ rest.inside n (omega arith) (omega arith)
      ];
      outside =
          λ a out. rest.outside a (omega arith) ∙ rw here (update_ne s.memory 0 (omega arith));
      pdir_pool = rest.pdir_pool;
      containers = rest.containers;
      pt_lk = rest.pt_lk;
    }
