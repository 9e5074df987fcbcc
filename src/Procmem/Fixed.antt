-- ===== src/Procmem/Fixed.antt =====
-- What `proc_pagetable` of kernel/proc.c maps.
use noy_hadar.Base.{
  ℕ, ◌+◌, ◌-◌, ◌≤◌, ◌<◌, Bool, true, false, none, some, ◌≡◌, inl, inr, refl, ap, subst, ◌∙◌, arith,
  Option-cases, some_inj, none-some,
}
use noy_hadar.Kalloc.{Kmem, page_size, page_round_down}
use noy_hadar.Vm.{Pte, Pagetable, Run, ◌>>=◌, max_va, make_pte, zeroed_page, mappages, find_pte}
use noy_hadar.Vm.Lookup.{mapping, >>=-eq-returned}
use noy_hadar.Vm.Map.{mappages_one}
use noy_hadar.Uvm.{trampoline_va, trapframe_va, uvmcreate, uvmunmap, uvmfree}
use noy_hadar.Procmem.{code_perm, data_perm, with_trapframe, with_trampoline, proc_pagetable}

-- The trampoline and the trapframe are mapped, each to its page, and nothing else.
pub record Fixed (trampoline frame : ℕ) (pt : Pagetable) : Type 0 where
  pub code :
      (v : ℕ) → v < max_va → trampoline_va ≤ v → mapping v pt ≡ some (make_pte trampoline code_perm)
  pub frame_page :
      (v : ℕ)
      → trapframe_va ≤ v
      → v < trampoline_va
      → mapping v pt ≡ some (make_pte frame data_perm)
  pub nothing : (v : ℕ) → v < trapframe_va → mapping v pt ≡ none

at_start : (pa d : ℕ) (perm : Pte) → d ≡ 0 → some (make_pte (pa + d) perm) ≡ some (make_pte pa perm)
at_start pa d perm e = rw e (ap (λ (x : ℕ). some (make_pte x perm)) (omega arith))

module _ (kernel_end trampoline : ℕ) where
  returned_inj : {A : Type 0} {a b : A} → Run.returned a ≡ Run.returned b → a ≡ b
  returned_inj e = cc

  frame-some :
      (r : Bool × Pagetable × Kmem) {pt : Pagetable} {k' : Kmem}
      → with_trapframe kernel_end trampoline r ≡ Run.returned (some pt, k')
      → (r.0 ≡ true) × (r.1 ≡ pt)
  unfolding with_trapframe
  frame-some (true, pt, k) h = (refl, some_inj (ap (λ r. r.0) (returned_inj h)))
  frame-some (false, pt, k) h =
      let ((pt1, k1), _, rest) =
        >>=-eq-returned (uvmunmap kernel_end trampoline_va 1 false pt k)
          (λ (pt1, k1). uvmfree kernel_end pt1 0 k1 >>= λ k2. Run.returned (none, k2)) h in
      let (_, _, last) =
        >>=-eq-returned (uvmfree kernel_end pt1 0 k1) (λ k2. Run.returned (none, k2)) rest in
      absurd (none-some (ap (λ r. r.0) (returned_inj last)))

  code-some :
      (frame : ℕ) (r : Bool × Pagetable × Kmem) {pt : Pagetable} {k' : Kmem}
      → with_trampoline kernel_end trampoline frame r ≡ Run.returned (some pt, k')
      → (r.0 ≡ true)
        × (k2 : Kmem) × (mappages trapframe_va page_size frame data_perm r.1 r.2
            ≡ Run.returned (true, pt, k2))
  unfolding with_trampoline
  code-some frame (true, pt1, k) h =
      let ((ok, pt2, k2), mapped, rest) =
        >>=-eq-returned (mappages trapframe_va page_size frame data_perm pt1 k)
          (with_trapframe kernel_end trampoline) h in
      let (yes_, same) = frame-some (ok, pt2, k2) rest in
      (
        refl,
        k2,
        mapped
            ∙ ap (λ r. Run.returned r)
                (ap (λ (o : Bool). (o, pt2, k2)) yes_ ∙ ap (λ (q : Pagetable). (true, q, k2)) same),
      )
  code-some frame (false, pt1, k) h =
      let (_, _, last) =
        >>=-eq-returned (uvmfree kernel_end pt1 0 k) (λ k2. Run.returned (none, k2)) h in
      absurd (none-some (ap (λ r. r.0) (returned_inj last)))

  -- A new page table has no entry.
  uvmcreate-empty :
      (k : Kmem) {pt : Pagetable} → (uvmcreate k).0 ≡ some pt → (v : ℕ) → mapping v pt ≡ none
  unfolding uvmcreate mapping find_pte
  uvmcreate-empty k {pt} h v = elim (Option-cases (zeroed_page k).0) [
    | inl e ↦ absurd (none-some (rw (e, uvmcreate) at h))
    | inr (p, e) ↦
        subst (λ (q : Pagetable). mapping v q ≡ none) (some_inj (rw (e, uvmcreate) at h)) refl
  ]

  proc_pagetable-some :
      (frame : ℕ) (k : Kmem) {pt : Pagetable} {k' : Kmem}
      → proc_pagetable kernel_end trampoline frame k ≡ Run.returned (some pt, k')
      → (pt0 pt1 : Pagetable) × (k1 k2 : Kmem) × ((uvmcreate k).0 ≡ some pt0)
        × (mappages trampoline_va page_size trampoline code_perm pt0 (uvmcreate k).1
            ≡ Run.returned (true, pt1, k1))
        × (mappages trapframe_va page_size frame data_perm pt1 k1 ≡ Run.returned (true, pt, k2))
  unfolding proc_pagetable
  proc_pagetable-some frame k {pt} {k'} h = elim (Option-cases (uvmcreate k).0) [
    | inl e ↦ absurd (none-some (ap (λ r. r.0) (returned_inj (rw (e, proc_pagetable) at h))))
    | inr (pt0, e) ↦
        let ((ok, pt1, k1), first, rest) =
          >>=-eq-returned
            (mappages trampoline_va page_size trampoline code_perm pt0 (uvmcreate k).1)
            (with_trampoline kernel_end trampoline frame) (rw (e, proc_pagetable) at h) in
        let (yes_, k2, second) = code-some frame (ok, pt1, k1) rest in
        (pt0, pt1, k1, k2, e, first ∙ ap (λ (o : Bool). Run.returned (o, pt1, k1)) yes_, second)
  ]

  -- When `proc_pagetable` returns a page table, the top page of the address space maps to the
  -- trampoline, readable and executable, the page below it to the trapframe, readable and
  -- writable, both for the kernel only, and no address below them is mapped.
  pub proc_pagetable-Fixed :
      (frame : ℕ) (k : Kmem) {pt : Pagetable} {k' : Kmem}
      → proc_pagetable kernel_end trampoline frame k ≡ Run.returned (some pt, k')
      → Fixed trampoline frame pt
  proc_pagetable-Fixed frame k {pt} h =
      let (pt0, pt1, k1, k2, made, first, second) = proc_pagetable-some frame k h in
      let one =
        (mappages_one trampoline_va trampoline code_perm pt0 (uvmcreate k).1 true refl first).0
          refl in
      let two = (mappages_one trapframe_va frame data_perm pt1 k1 true refl second).0 refl in
      record {
        code = λ v lt le.
            two.outside v lt (inr (omega arith))
            ∙ one.inside v lt le (omega arith)
            ∙ at_start trampoline (page_round_down v - trampoline_va) code_perm (omega arith);
        frame_page = λ v le lt.
            two.inside v (omega arith) le (omega arith)
            ∙ at_start frame (page_round_down v - trapframe_va) data_perm (omega arith);
        nothing = λ v lt.
            two.outside v (omega arith) (inl lt)
            ∙ one.outside v (omega arith) (inl (omega arith))
            ∙ uvmcreate-empty k made v;
      }
