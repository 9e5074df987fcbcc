-- ===== src/Procmem.antt =====
-- proc_pagetable and proc_freepagetable of kernel/proc.c: the page table of a process with no
-- user memory, and its end. The code of the trampoline stands at `trampoline`.
pub mod Fixed
mod Tests
use noy_hadar.Base.{ℕ, Bool, true, false, Option, none, some}
use noy_hadar.Kalloc.{Kmem, page_size}
use noy_hadar.Vm.{Pte, zero_pte, Pagetable, Run, ◌>>=◌, mappages}
use noy_hadar.Uvm.{trampoline_va, trapframe_va, uvmcreate, uvmunmap, uvmfree}

-- `PTE_R | PTE_X` and `PTE_R | PTE_W`
abbrev pub code_perm : Pte
code_perm = record zero_pte { read = true; exec = true }

abbrev pub data_perm : Pte
data_perm = record zero_pte { read = true; write = true }

module _ (kernel_end trampoline : ℕ) where
  -- The parts of `proc_pagetable` behind each of its calls of `mappages`; none for 0.
  unfoldable pub with_trapframe : Bool × Pagetable × Kmem → Run (Option Pagetable × Kmem)
  with_trapframe (true, pt, k) = Run.returned (some pt, k)
  with_trapframe (false, pt, k) = uvmunmap kernel_end trampoline_va 1 false pt k >>= λ (pt', k').
      uvmfree kernel_end pt' 0 k' >>= λ k''. Run.returned (none, k'')

  unfoldable pub with_trampoline : ℕ → Bool × Pagetable × Kmem → Run (Option Pagetable × Kmem)
  unfolding mappages with_trapframe
  with_trampoline frame (true, pt, k) =
      mappages trapframe_va page_size frame data_perm pt k >>= with_trapframe
  with_trampoline frame (false, pt, k) = uvmfree kernel_end pt 0 k >>= λ k'. Run.returned (none, k')

  unfoldable pub proc_pagetable : ℕ → Kmem → Run (Option Pagetable × Kmem)
  unfolding uvmcreate mappages with_trampoline
  proc_pagetable frame k =
      let (table, k1) = uvmcreate k in
      elim table [
        | none ↦ Run.returned (none, k1)
        | some pt ↦
            mappages trampoline_va page_size trampoline code_perm pt k1 >>= with_trampoline frame
      ]

module _ (kernel_end : ℕ) where
  pub proc_freepagetable : Pagetable → ℕ → Kmem → Run Kmem
  proc_freepagetable pt sz k = uvmunmap kernel_end trampoline_va 1 false pt k >>= λ (pt1, k1).
      uvmunmap kernel_end trapframe_va 1 false pt1 k1 >>= λ (pt2, k2). uvmfree kernel_end pt2 sz k2
