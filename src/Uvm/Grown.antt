-- ===== src/Uvm/Grown.antt =====
-- Address spaces before and after `uvmalloc` of kernel/vm.c.
use noy_hadar.Base.{
  ℕ, ◌+◌, ◌*◌, ◌%◌, ◌≤◌, ◌<◌, true, none, some, ◌≡◌, ◌⊎◌, inl, inr, refl, sym, ◌∙◌, arith, dec_lt,
}
use noy_hadar.Kalloc.{page_size}
use noy_hadar.Vm.{Pte, Pagetable, max_va, make_pte}
use noy_hadar.Vm.Lookup.{mapping}
use noy_hadar.Vm.Map.{Mapped}
use noy_hadar.Vm.Memory.{}
use noy_hadar.Uvm.{user_perm}
use noy_hadar.Uvm.Unmap.{Unmapped}

-- The pages from `lo` to `hi` were not mapped, and now map to pages that the user may write; every
-- other address maps to what it did.
pub record Grown (lo hi : ℕ) (pt pt' : Pagetable) : Type 0 where
  pub fresh : (v : ℕ) → lo ≤ v → v < hi → (v < max_va) × (mapping v pt ≡ none)
  pub inside :
      (v : ℕ)
      → lo ≤ v
      → v < hi
      → (p : Pte) × (mapping v pt' ≡ some p) × (p.user ≡ true) × (p.write ≡ true)
  pub outside : (v : ℕ) → v < max_va → (v < lo) ⊎ (hi ≤ v) → mapping v pt' ≡ mapping v pt

abbrev pub Unchanged : Pagetable → Pagetable → Type 0
Unchanged pt pt' = (v : ℕ) → v < max_va → mapping v pt' ≡ mapping v pt

pub empty-Grown : (a : ℕ) (pt : Pagetable) → Grown a a pt pt
empty-Grown a pt = record {
  fresh = λ v h h'. absurd (omega arith);
  inside = λ v h h'. absurd (omega arith);
  outside = λ v lv h. refl;
}

pub Grown-same :
    (lo hi : ℕ) {pt pt' pt2 : Pagetable}
    → Grown lo hi pt pt'
    → ((v : ℕ) → mapping v pt2 ≡ mapping v pt')
    → Grown lo hi pt pt2
Grown-same lo hi g same = record {
  fresh = g.fresh;
  inside = λ v h h'. let (p, e, u, w) = g.inside v h h' in (p, same v ∙ e, u, w);
  outside = λ v lv h. same v ∙ g.outside v lv h;
}

pub Grown-page :
    (lo a mem : ℕ) {pt pt' pt2 : Pagetable}
    → a % page_size ≡ 0
    → lo ≤ a
    → Grown lo a pt pt'
    → Mapped a a mem user_perm pt' pt2
    → Grown lo (a + page_size) pt pt2
Grown-page lo a mem {pt} {pt'} {pt2} al above g m = record {
  fresh = fresh';
  inside = inside';
  outside = λ v lv h. m.outside v lv (omega arith) ∙ g.outside v lv (omega arith);
}
  where
    fresh' : (v : ℕ) → lo ≤ v → v < a + page_size → (v < max_va) × (mapping v pt ≡ none)
    fresh' v h h' = elim (dec_lt v a) [
      | yes old ↦ g.fresh v h old
      | no new ↦
          let lv : v < max_va = omega (arith, m.high) in
          (lv, sym (g.outside v lv (inr (omega arith))) ∙ m.fresh v lv (omega arith) h')
    ]

    inside' :
        (v : ℕ)
        → lo ≤ v
        → v < a + page_size
        → (p : Pte) × (mapping v pt2 ≡ some p) × (p.user ≡ true) × (p.write ≡ true)
    inside' v h h' = elim (dec_lt v a) [
      | yes old ↦
          let (p, e, u, w) = g.inside v h old in
          (p, m.outside v (g.fresh v h old).0 (inl old) ∙ e, u, w)
      | no new ↦
          (make_pte _ user_perm, m.inside v (omega (arith, m.high)) (omega arith) h', refl, refl)
    ]

-- Unmapping what was grown brings the old mapping back.
pub Grown-Unmapped :
    (lo hi n : ℕ) {pt pt' pt2 : Pagetable}
    → lo + page_size * n ≡ hi
    → Grown lo hi pt pt'
    → Unmapped lo n pt' pt2
    → Unchanged pt pt2
Grown-Unmapped lo hi n {pt} {pt'} {pt2} e g u v lv = elim (dec_lt v lo) [
  | yes low ↦ u.outside v lv (inl low) ∙ g.outside v lv (inl low)
  | no above ↦ elim (dec_lt v hi) [
    | yes in_range ↦ u.gone v (omega arith) (omega arith) ∙ sym (g.fresh v (omega arith) in_range).1
    | no high ↦ u.outside v lv (inr (omega arith)) ∙ g.outside v lv (inr (omega arith))
  ]
]
