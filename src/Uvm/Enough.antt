-- ===== src/Uvm/Enough.antt =====
-- How much memory `uvmalloc` of kernel/vm.c needs.
use noy_hadar.Base.{
  ℕ, zero, suc, ◌+◌, ◌-◌, ◌*◌, ◌/◌, ◌%◌, ◌≤◌, ltb, Bool, true, false, ◌≡◌, inl, inr, refl, ap,
  arith, Option-cases, Bool-cases, ltb→lt, le→ltb-false,
}
use noy_hadar.Kalloc.{Kmem, page_size, page_round_up}
use noy_hadar.Vm.{Pagetable, Run, ◌>>=◌, zeroed_page, mappages}
use noy_hadar.Vm.Lookup.{>>=-eq-returned}
use noy_hadar.Vm.Map.{}
use noy_hadar.Vm.Memory.{Takes, free_pages, is_some, zeroed_page-Takes, mappages-Takes}
use noy_hadar.Uvm.{user_perm, free_page, undo_growth, grow_from, uvmalloc}
use noy_hadar.Uvm.Unmap.{}

module _ (kernel_end : ℕ) where
  -- Behind `mappages` in a round, with enough memory.
  after_map-enough :
      (a lo newsz mem : ℕ) (k : Kmem) (ok : Bool) (pt1 : Pagetable) (k1 : Kmem)
      {next : Run (ℕ × Pagetable × Kmem)} {n : ℕ} {pt2 : Pagetable} {k2 : Kmem}
      → Takes 2 ok k k1
      → 2 ≤ free_pages k
      → (next ≡ Run.returned (n, pt2, k2) → n ≡ newsz)
      → (elim ok [
        | true ↦ next
        | false ↦ free_page kernel_end mem k1 >>= undo_growth kernel_end a lo pt1
      ])
        ≡ Run.returned (n, pt2, k2)
      → n ≡ newsz
  after_map-enough a lo newsz mem k true pt1 k1 t room go r = go r
  after_map-enough a lo newsz mem k false pt1 k1 t room go r = absurd (omega (arith, t.failed refl))

  -- With three free pages for each page to add, the loop ends at the new size.
  grow_from-enough :
      (fuel a lo newsz : ℕ) (pt : Pagetable) (k : Kmem) {n : ℕ} {pt2 : Pagetable} {k2 : Kmem}
      → a % page_size ≡ 0
      → a ≤ page_round_up newsz
      → 3 * ((page_round_up newsz - a) / page_size) ≤ free_pages k
      → grow_from kernel_end fuel a lo newsz pt k ≡ Run.returned (n, pt2, k2)
      → n ≡ newsz
  unfolding grow_from
  grow_from-enough zero a lo newsz pt k al up room h = absurd (cc)
  grow_from-enough (suc fuel) a lo newsz pt k {n} {pt2} {k2} al up room h =
      elim (Bool-cases (ltb a newsz)) [
        | inr full ↦
            let e : Run.returned (newsz, pt, k) ≡ Run.returned (n, pt2, k2) =
              rw (full, grow_from) at h in
            cc
        | inl more ↦
            let lt = ltb→lt a newsz more in
            let t = zeroed_page-Takes k in
            elim (Option-cases (zeroed_page k).0) [
              | inl out ↦ absurd (omega (arith, t.failed (ap is_some out)))
              | inr (mem, got) ↦
                  let ((ok, pt1, k1), e, r) =
                    >>=-eq-returned (mappages a page_size mem user_perm pt (zeroed_page k).1) _
                      (rw (more, grow_from, got) at h) in
                  let u = mappages-Takes a mem user_perm pt (zeroed_page k).1 al e in
                  after_map-enough a lo newsz mem (zeroed_page k).1 ok pt1 k1 u
                    (omega (arith, t.most))
                    (λ e'.
                      grow_from-enough fuel (a + page_size) lo newsz pt1 k1 (omega arith)
                        (omega arith) (omega (arith, t.most, u.most)) e')
                    r
            ]
      ]

  pub uvmalloc-enough :
      (oldsz newsz : ℕ) (pt : Pagetable) (k : Kmem) {n : ℕ} {pt' : Pagetable} {k' : Kmem}
      → oldsz ≤ newsz
      → 3 * ((page_round_up newsz - page_round_up oldsz) / page_size) ≤ free_pages k
      → uvmalloc kernel_end oldsz newsz pt k ≡ Run.returned (n, pt', k')
      → n ≡ newsz
  unfolding uvmalloc
  uvmalloc-enough oldsz newsz pt k {n} {pt'} {k'} le room h =
      grow_from-enough (newsz / page_size + 2) (page_round_up oldsz) (page_round_up oldsz) newsz pt
        k (omega arith) (omega arith) room (simp (le→ltb-false newsz oldsz le) at h)
