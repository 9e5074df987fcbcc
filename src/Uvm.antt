-- ===== src/Uvm.antt =====
-- User address spaces, from kernel/vm.c and kernel/proc.c, on the page tables of `Vm` and the
-- allocator of `Kalloc`. `kernel_end` is `end` of kernel.ld. Sizes do not wrap at 64 bits.
pub mod Unmap
pub mod Grown
pub mod Enough
pub mod Alloc
mod Tests
use noy_hadar.Base.{
  ℕ, zero, suc, ◌+◌, ◌-◌, ◌*◌, ◌/◌, ◌%◌, ◌^◌, ◌==◌, ◌/=◌, ltb, leb, if◌then◌else◌, Bool, true,
  false, not, ◌&&◌, ◌||◌, Option, none, some, update,
}
use noy_hadar.Kalloc.{Kmem, Memory, kalloc, kfree, memset_at, page_size, page_round_up}
use noy_hadar.Vm.{
  Pte, zero_pte, Leaves, Dir, Pagetable, Run, ◌>>=◌, max_va, pte_pa, find_pte, set_pte, walk,
  mappages, zeroed_page,
}

-- `PTE_W|PTE_X|PTE_R|PTE_U`
abbrev pub user_perm : Pte
user_perm = record zero_pte { read = true; write = true; exec = true; user = true }

abbrev pub trampoline_va : ℕ
trampoline_va = max_va - page_size

abbrev pub trapframe_va : ℕ
trapframe_va = trampoline_va - page_size

-- `PTE_FLAGS(*pte) == PTE_V` of a valid PTE.
pub is_leaf : Pte → Bool
is_leaf p = p.read || p.write || p.exec || p.user

-- Returns 0 if it fails.
unfoldable pub uvmcreate : Kmem → Option Pagetable × Kmem
uvmcreate k =
    let (page, k') = zeroed_page k in
    elim page [ none ↦ (none, k') | some p ↦ (some (record { page = p; entries = λ _. none }), k') ]

-- `PGROUNDUP(x) / PGSIZE`
abbrev pub pages_of : ℕ → ℕ
pages_of x = page_round_up x / page_size

module _ (kernel_end : ℕ) where
  pub free_page : ℕ → Kmem → Run Kmem
  free_page pa k = elim (kfree kernel_end pa k) [ none ↦ Run.panic | some k' ↦ Run.returned k' ]

  -- `if(do_free)` of the loop of `uvmunmap`, for the PTE that it has found.
  pub release_page : Bool → Pte → Kmem → Run Kmem
  unfolding free_page
  release_page do_free p k = if do_free then free_page (pte_pa p) k else Run.returned k

  -- A round of the loop of `uvmunmap`.
  pub unmap_page : ℕ → Bool → Pagetable → Kmem → Run (Pagetable × Kmem)
  unfolding walk is_leaf release_page
  unmap_page a do_free pt k = walk a pt >>= λ o. elim o [
    | none ↦ Run.panic
    | some p ↦
        if not p.valid
        then Run.panic
        else if not (is_leaf p)
        then Run.panic
        else release_page do_free p k >>= λ k'. Run.returned (set_pte a zero_pte pt, k')
  ]

  -- The loop, for the pages that are left.
  pub unmap_from : ℕ → ℕ → Bool → Pagetable → Kmem → Run (Pagetable × Kmem)
  unfolding unmap_page
  unmap_from zero a do_free pt k = Run.returned (pt, k)
  unmap_from (suc npages) a do_free pt k =
      unmap_page a do_free pt k >>= λ (pt', k'). unmap_from npages (a + page_size) do_free pt' k'

  pub uvmunmap : ℕ → ℕ → Bool → Pagetable → Kmem → Run (Pagetable × Kmem)
  unfolding unmap_from
  uvmunmap va npages do_free pt k =
      if (va % page_size) /= 0 then Run.panic else unmap_from npages va do_free pt k

  -- With the new size.
  pub uvmdealloc : ℕ → ℕ → Pagetable → Kmem → Run (ℕ × Pagetable × Kmem)
  unfolding uvmunmap
  uvmdealloc oldsz newsz pt k =
      if leb oldsz newsz
      then Run.returned (oldsz, pt, k)
      else if ltb (page_round_up newsz) (page_round_up oldsz)
      then (uvmunmap (page_round_up newsz) ((page_round_up oldsz - page_round_up newsz) / page_size)
            true pt k
          >>= λ (pt', k'). Run.returned (newsz, pt', k'))
      else Run.returned (newsz, pt, k)

  -- `uvmalloc` gives back the pages before `a`.
  pub undo_growth : ℕ → ℕ → Pagetable → Kmem → Run (ℕ × Pagetable × Kmem)
  unfolding uvmdealloc
  undo_growth a oldsz pt k = uvmdealloc a oldsz pt k >>= λ (_, pt', k'). Run.returned (0, pt', k')

  -- The loop of `uvmalloc` from `a` on, for the rounded old size; it returns 0 if it fails.
  pub grow_from : ℕ → ℕ → ℕ → ℕ → Pagetable → Kmem → Run (ℕ × Pagetable × Kmem)
  unfolding undo_growth free_page
  grow_from zero a oldsz newsz pt k = Run.lost
  grow_from (suc fuel) a oldsz newsz pt k = elim (ltb a newsz) [
    | false ↦ Run.returned (newsz, pt, k)
    | true ↦ elim (zeroed_page k).0 [
      | none ↦ undo_growth a oldsz pt (zeroed_page k).1
      | some mem ↦ mappages a page_size mem user_perm pt (zeroed_page k).1 >>= λ (ok, pt1, k1).
          elim ok [
            | false ↦ free_page mem k1 >>= undo_growth a oldsz pt1
            | true ↦ grow_from fuel (a + page_size) oldsz newsz pt1 k1
          ]
    ]
  ]

  pub uvmalloc : ℕ → ℕ → Pagetable → Kmem → Run (ℕ × Pagetable × Kmem)
  unfolding grow_from
  uvmalloc oldsz newsz pt k =
      if ltb newsz oldsz
      then Run.returned (oldsz, pt, k)
      else grow_from (newsz / page_size + 2) (page_round_up oldsz) (page_round_up oldsz) newsz pt k

-- The flags that a level 0 entry needs to be a leaf: `PTE_R|PTE_W|PTE_X`.
pub is_mapped : Pte → Bool
is_mapped p = p.valid && (p.read || p.write || p.exec)

module _ (kernel_end : ℕ) where
  -- `freewalk` on a page of the lowest level, from entry `i` on. A valid entry without those flags
  -- would be followed as a pointer to a table.
  pub free_leaves : ℕ → ℕ → Leaves → Kmem → Run Kmem
  unfolding is_mapped
  free_leaves zero i t k = Run.returned k
  free_leaves (suc rounds) i t k =
      let rest = free_leaves rounds (i + 1) t k in
      if not (t i).valid then rest else if is_mapped (t i) then Run.panic else Run.lost

  pub freewalk0 : ℕ → Leaves → Kmem → Run Kmem
  unfolding free_leaves free_page
  freewalk0 page t k = free_leaves 512 0 t k >>= λ k'. free_page kernel_end page k'

  -- The loop of `freewalk` on the upper levels, for what it does with a lower page. A leaf in an
  -- upper level, which the kernel does not make, is not represented.
  pub free_children : {A : Type 0} → (ℕ → A → Kmem → Run Kmem) → ℕ → ℕ → Dir A → Kmem → Run Kmem
  free_children free zero i d k = Run.returned k
  free_children free (suc rounds) i d k =
      (elim (d i) [ none ↦ Run.returned k | some (page, t) ↦ free page t k ]) >>= λ k'.
      free_children free rounds (i + 1) d k'

  pub freewalk1 : ℕ → Dir Leaves → Kmem → Run Kmem
  unfolding freewalk0 free_children free_page
  freewalk1 page t k = free_children freewalk0 512 0 t k >>= λ k'. free_page kernel_end page k'

  pub freewalk : Pagetable → Kmem → Run Kmem
  unfolding freewalk1 free_children free_page
  freewalk pt k =
      free_children freewalk1 512 0 pt.entries k >>= λ k'. free_page kernel_end pt.page k'

  pub uvmfree : Pagetable → ℕ → Kmem → Run Kmem
  unfolding freewalk uvmunmap
  uvmfree pt sz k =
      (if ltb 0 sz then uvmunmap kernel_end 0 (pages_of sz) true pt k else Run.returned (pt, k))
      >>= λ (pt', k'). freewalk pt' k'
