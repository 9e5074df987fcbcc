-- ===== src/Uvm/Alloc.antt =====
-- `uvmalloc` of kernel/vm.c grows an address space, or leaves it as it was.
use noy_hadar.Base.{
  ℕ, zero, suc, ◌+◌, ◌-◌, ◌*◌, ◌/◌, ◌%◌, ◌≤◌, ◌<◌, ltb, Bool, true, false, ◌≡◌, ◌⊎◌, inl, inr, refl,
  ap, sym, subst, ◌∙◌, arith, Option-cases, Bool-cases, dec_lt, ltb→lt, ltb-false→le, le→leb,
  lt→leb-false, lt→ltb, le→ltb-false,
}
use noy_hadar.Kalloc.{Kmem, page_size, page_round_up}
use noy_hadar.Vm.{Pagetable, Run, ◌>>=◌, zeroed_page, mappages}
use noy_hadar.Vm.Lookup.{mapping, >>=-eq-returned}
use noy_hadar.Vm.Map.{mappages_one}
use noy_hadar.Vm.Memory.{free_pages}
use noy_hadar.Uvm.{user_perm, free_page, uvmunmap, uvmdealloc, undo_growth, grow_from, uvmalloc}
use noy_hadar.Uvm.Grown.{Grown, Unchanged, empty-Grown, Grown-same, Grown-page, Grown-Unmapped}
use noy_hadar.Uvm.Enough.{uvmalloc-enough}
use noy_hadar.Uvm.Unmap.{uvmunmap-Unmapped}

module _ (kernel_end : ℕ) where
  uvmdealloc_none :
      (oldsz newsz : ℕ) (pt : Pagetable) (k : Kmem)
      → oldsz ≤ newsz
      → uvmdealloc kernel_end oldsz newsz pt k ≡ Run.returned (oldsz, pt, k)
  unfolding uvmdealloc
  uvmdealloc_none oldsz newsz pt k le = rw (le→leb oldsz newsz le)

  uvmdealloc_some :
      (a lo : ℕ) (pt : Pagetable) (k : Kmem)
      → lo < a
      → a % page_size ≡ 0
      → lo % page_size ≡ 0
      → uvmdealloc kernel_end a lo pt k ≡ (
          uvmunmap kernel_end lo ((a - lo) / page_size) true pt k >>= λ (pt', k').
          Run.returned (lo, pt', k'))
  unfolding uvmdealloc
  uvmdealloc_some a lo pt k lt al al' =
      let up_a : page_round_up a ≡ a = omega arith in
      let up_lo : page_round_up lo ≡ lo = omega arith in
      simp (lt→leb-false a lo lt, up_a, up_lo, lt→ltb lo a lt)

  undo_growth-Unchanged :
      (lo a : ℕ) (pt pt' : Pagetable) (k : Kmem) {n : ℕ} {pt2 : Pagetable} {k2 : Kmem}
      → a % page_size ≡ 0
      → lo % page_size ≡ 0
      → lo ≤ a
      → Grown lo a pt pt'
      → undo_growth kernel_end a lo pt' k ≡ Run.returned (n, pt2, k2)
      → (n ≡ 0) × Unchanged pt pt2
  unfolding undo_growth
  undo_growth-Unchanged lo a pt pt' k {n} {pt2} {k2} al al' le g h =
      let ((x, pt3, k3), e, r) =
        >>=-eq-returned (uvmdealloc kernel_end a lo pt' k)
          (λ (_, pt4, k4). Run.returned (0, pt4, k4)) h in
      let same : pt3 ≡ pt2 = cc in
      elim (dec_lt lo a) [
        | no eq ↦
            let at : pt' ≡ pt2 = cc (uvmdealloc_none a lo pt' k (omega arith)) in
            (cc, λ v lv. ap (mapping v) (sym at) ∙ g.outside v lv (omega arith))
        | yes lt ↦
            let ((pt4, k4), e', r') =
              >>=-eq-returned (uvmunmap kernel_end lo ((a - lo) / page_size) true pt' k)
                (λ (pt5, k5). Run.returned (lo, pt5, k5))
                (sym (uvmdealloc_some a lo pt' k lt al al') ∙ e) in
            let (_, u) = uvmunmap-Unmapped kernel_end lo ((a - lo) / page_size) true pt' k e' in
            let at : pt4 ≡ pt2 = cc in
            (
              cc,
              subst (Unchanged pt) at
                  (Grown-Unmapped lo a ((a - lo) / page_size) (omega arith) g u),
            )
      ]

  -- How a call of `uvmalloc` that returns ends: the pages are there, or nothing is changed.
  abbrev Ends : ℕ → ℕ → Pagetable → ℕ → Pagetable → Type 0
  Ends lo newsz pt n pt' =
      ((n ≡ newsz) × Grown lo (page_round_up newsz) pt pt') ⊎ ((n ≡ 0) × Unchanged pt pt')

  -- Behind `mappages` in a round.
  after_map :
      (a lo newsz mem : ℕ) (pt pt' : Pagetable) (k : Kmem) (ok : Bool) {pt1 : Pagetable} {k1 : Kmem}
      {next : Run (ℕ × Pagetable × Kmem)} {n : ℕ} {pt2 : Pagetable} {k2 : Kmem}
      → a % page_size ≡ 0
      → lo % page_size ≡ 0
      → lo ≤ a
      → Grown lo a pt pt'
      → mappages a page_size mem user_perm pt' k ≡ Run.returned (ok, pt1, k1)
      → (next ≡ Run.returned (n, pt2, k2)
          → Grown lo (a + page_size) pt pt1
          → Ends lo newsz pt n pt2)
      → (elim ok [
        | true ↦ next
        | false ↦ free_page kernel_end mem k1 >>= undo_growth kernel_end a lo pt1
      ])
        ≡ Run.returned (n, pt2, k2)
      → Ends lo newsz pt n pt2
  after_map a lo newsz mem pt pt' k true al al' le g e go r =
      go r (Grown-page lo a mem al le g ((mappages_one a mem user_perm pt' k true al e).0 refl))
  after_map a lo newsz mem pt pt' k false {pt1} {k1} al al' le g e go r =
      let (k3, _, undone) =
        >>=-eq-returned (free_page kernel_end mem k1) (undo_growth kernel_end a lo pt1) r in
      inr (
        undo_growth-Unchanged lo a pt pt1 k3 al al' le
          (Grown-same lo a g ((mappages_one a mem user_perm pt' k false al e).1 refl)) undone)

  grow_from-Ends :
      (fuel a lo newsz : ℕ) (pt pt' : Pagetable) (k : Kmem) {n : ℕ} {pt2 : Pagetable} {k2 : Kmem}
      → a % page_size ≡ 0
      → lo % page_size ≡ 0
      → lo ≤ a
      → a ≤ page_round_up newsz
      → Grown lo a pt pt'
      → grow_from kernel_end fuel a lo newsz pt' k ≡ Run.returned (n, pt2, k2)
      → Ends lo newsz pt n pt2
  unfolding grow_from
  grow_from-Ends zero a lo newsz pt pt' k al al' le up g h = absurd (cc)
  grow_from-Ends (suc fuel) a lo newsz pt pt' k {n} {pt2} {k2} al al' le up g h =
      elim (Bool-cases (ltb a newsz)) [
        | inr full ↦
            let e : Run.returned (newsz, pt', k) ≡ Run.returned (n, pt2, k2) =
              rw (full, grow_from) at h in
            let end : page_round_up newsz ≡ a = omega (arith, ltb-false→le a newsz full) in
            inl (cc, subst (λ (x : ℕ). Grown lo x pt pt2) (sym end) (subst (Grown lo a pt) (cc) g))
        | inl more ↦ elim (Option-cases (zeroed_page k).0) [
          | inl out ↦ inr (
              undo_growth-Unchanged lo a pt pt' (zeroed_page k).1 al al' le g
                (rw (more, grow_from, out) at h))
          | inr (mem, got) ↦
              let ((ok, pt1, k1), e, r) =
                >>=-eq-returned (mappages a page_size mem user_perm pt' (zeroed_page k).1) _
                  (rw (more, grow_from, got) at h) in
              after_map a lo newsz mem pt pt' (zeroed_page k).1 ok al al' le g e
                (λ e' g'.
                  grow_from-Ends fuel (a + page_size) lo newsz pt pt1 k1 (omega arith) al'
                    (omega arith) (omega (arith, ltb→lt a newsz more)) g' e')
                r
        ]
      ]

  uvmalloc-Returns :
      (oldsz newsz : ℕ) (pt : Pagetable) (k : Kmem) {n : ℕ} {pt' : Pagetable} {k' : Kmem}
      → oldsz ≤ newsz
      → uvmalloc kernel_end oldsz newsz pt k ≡ Run.returned (n, pt', k')
      → Ends (page_round_up oldsz) newsz pt n pt'
  unfolding uvmalloc
  uvmalloc-Returns oldsz newsz pt k {n} {pt'} {k'} le h =
      grow_from-Ends (newsz / page_size + 2) (page_round_up oldsz) (page_round_up oldsz) newsz pt pt
        k (omega arith) (omega arith) (omega arith) (omega arith)
        (empty-Grown (page_round_up oldsz) pt) (simp (le→ltb-false newsz oldsz le) at h)

  -- When `uvmalloc` returns, for a new size that is not below the old: either it returns the new
  -- size, and exactly the pages from the old end to the new one are added, to be written by the
  -- user; or it returns 0, there were fewer than three free pages for each page to add, which are
  -- that page and those that its place in the page table may take, and every address below `MAXVA`
  -- maps to what it did.
  pub uvmalloc-Ends :
      (oldsz newsz : ℕ) (pt : Pagetable) (k : Kmem) {n : ℕ} {pt' : Pagetable} {k' : Kmem}
      → oldsz ≤ newsz
      → uvmalloc kernel_end oldsz newsz pt k ≡ Run.returned (n, pt', k')
      → ((n ≡ newsz) × Grown (page_round_up oldsz) (page_round_up newsz) pt pt')
        ⊎ ((n ≡ 0)
            × (free_pages k < 3 * ((page_round_up newsz - page_round_up oldsz) / page_size))
            × Unchanged pt pt')
  uvmalloc-Ends oldsz newsz pt k {n} {pt'} {k'} le h =
      elim (uvmalloc-Returns oldsz newsz pt k le h) [
        | inl e ↦ inl e
        | inr (zero_size, same) ↦
            elim (dec_lt (free_pages k)
              (3 * ((page_round_up newsz - page_round_up oldsz) / page_size))) [
                | yes few ↦ inr (zero_size, few, same)
                | no room ↦
                    let full = uvmalloc-enough kernel_end oldsz newsz pt k le (omega arith) h in
                    inl (full, no_growth (omega arith) (omega arith) same)
              ]
      ]
    where
      no_growth :
          page_round_up oldsz ≡ 0
          → page_round_up newsz ≡ 0
          → Unchanged pt pt'
          → Grown (page_round_up oldsz) (page_round_up newsz) pt pt'
      no_growth lo hi same = record {
        fresh = λ v a b. absurd (omega arith);
        inside = λ v a b. absurd (omega arith);
        outside = λ v lv _. same v lv;
      }
