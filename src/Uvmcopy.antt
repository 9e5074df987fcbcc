-- ===== src/Uvmcopy.antt =====
-- Copies of user memory and its first contents, from kernel/vm.c.
use noy_hadar.Base.{
  ℕ, zero, suc, ◌+◌, ◌/◌, ltb, leb, if◌then◌else◌, Bool, true, false, not, none, some,
}
use noy_hadar.Kalloc.{Kmem, kalloc, page_size}
use noy_hadar.Strings.{memmove}
use noy_hadar.Vm.{Pagetable, Run, ◌>>=◌, pte_pa, set_pte, walk, mappages, zeroed_page}
use noy_hadar.Uvm.{user_perm, free_page, uvmunmap}

module _ (kernel_end : ℕ) where
  -- The code behind `err` in `uvmcopy`.
  pub copy_failed : ℕ → Pagetable → Kmem → Run (Bool × Pagetable × Kmem)
  copy_failed i new k = uvmunmap kernel_end 0 (i / page_size) true new k >>= λ (new', k').
      Run.returned (false, new', k')

  -- The loop of `uvmcopy`; true for 0 and false for -1.
  pub copy_from : ℕ → ℕ → ℕ → Pagetable → Pagetable → Kmem → Run (Bool × Pagetable × Kmem)
  unfolding walk copy_failed
  copy_from zero i sz old new k = Run.lost
  copy_from (suc fuel) i sz old new k = elim (ltb i sz) [
    | false ↦ Run.returned (true, new, k)
    | true ↦ walk i old >>= λ o. elim o [
      | none ↦ Run.panic
      | some p ↦
          if not p.valid
          then Run.panic
          else (let (page, k1) = kalloc k in
              elim page [
                | none ↦ copy_failed i new k1
                | some mem ↦
                    mappages i page_size mem p new
                      (record k1 { mem = memmove mem (pte_pa p) page_size k1.mem })
                    >>= λ (ok, new1, k2). elim ok [
                      | false ↦ free_page kernel_end mem k2 >>= λ k3. copy_failed i new1 k3
                      | true ↦ copy_from fuel (i + page_size) sz old new1 k2
                    ]
              ])
    ]
  ]

  pub uvmcopy : Pagetable → Pagetable → ℕ → Kmem → Run (Bool × Pagetable × Kmem)
  unfolding copy_from
  uvmcopy old new sz k = copy_from (sz / page_size + 2) 0 sz old new k

pub uvmclear : ℕ → Pagetable → Run Pagetable
unfolding walk
uvmclear va pt = walk va pt >>= λ o. elim o [
  | none ↦ Run.panic
  | some p ↦ Run.returned (set_pte va (record p { user = false }) pt)
]

-- With the bytes of the program at `src`; without a page the code writes to address 0.
pub uvminit : ℕ → ℕ → Pagetable → Kmem → Run (Pagetable × Kmem)
uvminit src sz pt k =
    if leb page_size sz
    then Run.panic
    else (let (page, k1) = zeroed_page k in
        elim page [
          | none ↦ Run.lost
          | some mem ↦ mappages 0 page_size mem user_perm pt k1 >>= λ (_, pt', k2).
              Run.returned (pt', record k2 { mem = memmove mem src sz k2.mem })
        ])
