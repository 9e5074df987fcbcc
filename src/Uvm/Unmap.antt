-- ===== src/Uvm/Unmap.antt =====
-- `uvmunmap` of kernel/vm.c unmaps its pages and nothing else.
use noy_hadar.Base.{
  ℕ, zero, suc, ◌+◌, ◌*◌, ◌%◌, ◌≤◌, ◌<◌, ◌==◌, Bool, none, ◌≡◌, ◌≢◌, ◌⊎◌, inl, inr, refl, subst,
  ◌∙◌, arith, Bool-cases, ==_iff, dec_lt,
}
use noy_hadar.Kalloc.{Kmem, page_size}
use noy_hadar.Vm.{zero_pte, Pagetable, Run, max_va, find_pte, set_pte}
use noy_hadar.Vm.Lookup.{
  mapping, mapping_page, mapping-set_pte_ne, mapping-set_pte_self, >>=-eq-returned,
}
use noy_hadar.Uvm.{unmap_page, unmap_from, uvmunmap}

-- The `n` pages from `a` on were mapped and are not any more; every other address maps to what it
-- did.
pub record Unmapped (a n : ℕ) (pt pt' : Pagetable) : Type 0 where
  pub there : (v : ℕ) → a ≤ v → v < a + page_size * n → (v < max_va) × (mapping v pt ≢ none)
  pub gone : (v : ℕ) → a ≤ v → v < a + page_size * n → mapping v pt' ≡ none
  pub outside :
      (v : ℕ) → v < max_va → (v < a) ⊎ (a + page_size * n ≤ v) → mapping v pt' ≡ mapping v pt

empty-Unmapped : (a : ℕ) (pt : Pagetable) → Unmapped a 0 pt pt
empty-Unmapped a pt = record {
  there = λ v h h'. absurd (omega arith);
  gone = λ v h h'. absurd (omega arith);
  outside = λ v lv h. refl;
}

more-Unmapped :
    (a n : ℕ) (pt : Pagetable) {pt' : Pagetable}
    → a % page_size ≡ 0
    → a < max_va
    → find_pte a pt ≢ none
    → mapping a pt ≢ none
    → Unmapped (a + page_size) n (set_pte a zero_pte pt) pt'
    → Unmapped a (suc n) pt pt'
more-Unmapped a n pt {pt'} al low found mapped u = record {
  there = there';
  gone = gone';
  outside = λ v lv h.
      u.outside v lv (omega arith) ∙ mapping-set_pte_ne a v zero_pte pt low lv (λ q. omega arith);
}
  where
    there' : (v : ℕ) → a ≤ v → v < a + page_size * suc n → (v < max_va) × (mapping v pt ≢ none)
    there' v h h' = elim (dec_lt v (a + page_size)) [
      | yes near ↦ (omega arith, λ q. mapped (mapping_page a v pt (omega arith) ∙ q))
      | no far ↦
          let (lv, m) = u.there v (omega arith) (omega arith) in
          (lv, λ q. m (mapping-set_pte_ne a v zero_pte pt low lv (λ e. omega arith) ∙ q))
    ]

    gone' : (v : ℕ) → a ≤ v → v < a + page_size * suc n → mapping v pt' ≡ none
    gone' v h h' = elim (dec_lt v (a + page_size)) [
      | yes near ↦
          u.outside v (omega arith) (inl near)
          ∙ mapping-set_pte_self a v zero_pte pt found (omega arith)
      | no far ↦ u.gone v (omega arith) (omega arith)
    ]

module _ (kernel_end : ℕ) where
  unmap_page_lem :
      (a : ℕ) (do_free : Bool) (pt : Pagetable) (k : Kmem) {pt' : Pagetable} {k' : Kmem}
      → unmap_page kernel_end a do_free pt k ≡ Run.returned (pt', k')
      → (a < max_va)
        × (find_pte a pt ≢ none)
        × (mapping a pt ≢ none)
        × (pt' ≡ set_pte a zero_pte pt)
  unfolding unmap_page mapping
  unmap_page_lem a do_free pt k h =
      (ground arith, λ q. ground arith, λ q. ground arith, ground arith)

  unmap_from-Unmapped :
      (n a : ℕ) (do_free : Bool) (pt : Pagetable) (k : Kmem) {pt' : Pagetable} {k' : Kmem}
      → a % page_size ≡ 0
      → unmap_from kernel_end n a do_free pt k ≡ Run.returned (pt', k')
      → Unmapped a n pt pt'
  unfolding unmap_from
  unmap_from-Unmapped zero a do_free pt k al h =
      subst (Unmapped a 0 pt) (ground arith) (empty-Unmapped a pt)
  unmap_from-Unmapped (suc n) a do_free pt k {pt'} al h =
      let ((pt1, k1), e, rest) =
        >>=-eq-returned (unmap_page kernel_end a do_free pt k)
          (λ (pt1, k1). unmap_from kernel_end n (a + page_size) do_free pt1 k1) h in
      let (low, found, mapped, same) = unmap_page_lem a do_free pt k e in
      more-Unmapped a n pt al low found mapped (
        subst (λ (q : Pagetable). Unmapped (a + page_size) n q pt') same
          (unmap_from-Unmapped n (a + page_size) do_free pt1 k1 (omega arith) rest))

  -- When `uvmunmap` returns, the address was the start of a page, all its pages were mapped, and
  -- now none of them is; every other address below `MAXVA` maps to what it did.
  pub uvmunmap-Unmapped :
      (va n : ℕ) (do_free : Bool) (pt : Pagetable) (k : Kmem) {pt' : Pagetable} {k' : Kmem}
      → uvmunmap kernel_end va n do_free pt k ≡ Run.returned (pt', k')
      → (va % page_size ≡ 0) × Unmapped va n pt pt'
  unfolding uvmunmap
  uvmunmap-Unmapped va n do_free pt k {pt'} {k'} h = elim (Bool-cases ((va % page_size) == 0)) [
    | inr e ↦ absurd (ground (arith, e))
    | inl e ↦
        let al : va % page_size ≡ 0 = (==_iff (va % page_size) 0).0 e in
        (al, unmap_from-Unmapped n va do_free pt k {k' = k'} al (ground (arith, e)))
  ]
