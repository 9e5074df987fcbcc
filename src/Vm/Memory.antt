-- ===== src/Vm/Memory.antt =====
-- How many pages the page tables of kernel/vm.c take from the allocator.
use noy_hadar.Base.{
  ℕ, suc, ◌+◌, ◌/◌, ◌%◌, ◌≤◌, ◌<◌, Bool, true, false, Option, none, some, List, [], ◌∷◌, length,
  update, ◌≡◌, refl, ap, subst, arith,
}
use noy_hadar.Kalloc.{Kmem, take_page, kalloc, memset_at, page_size}
use noy_hadar.Vm.{
  Pte, Dir, Leaves, Pagetable, Run, zeroed_page, descend, make_path, no_tables, no_leaves, px2, px1,
  walk_alloc, map_from, mappages, max_va,
}
use noy_hadar.Vm.Map.{mappages-first}

abbrev pub free_pages : Kmem → ℕ
free_pages k = length k.freelist

-- At most `n` pages are taken, and all that there are if it fails.
pub record Takes (n : ℕ) (found : Bool) (k k' : Kmem) : Type 0 where
  pub most : free_pages k ≤ free_pages k' + n
  pub failed : found ≡ false → free_pages k < n

abbrev pub is_some : {A : Type 0} → Option A → Bool
is_some none = false
is_some (some _) = true

zeroed-list :
    (l : List ℕ) (k : Kmem)
    → k.freelist ≡ l
    → Takes 1 (is_some (take_page l k).0) k (take_page l k).1
unfolding take_page
zeroed-list [] k e = record { most = omega arith; failed = λ _. omega (arith, ap length e) }
zeroed-list (r ∷ next) k e = record { most = omega (arith, ap length e); failed = λ q. absurd (cc) }

-- `zeroed_page` behind its `kalloc`.
abbrev zero_it : Option ℕ × Kmem → Option ℕ × Kmem
zero_it (page, k') = elim page [
  | none ↦ (none, k')
  | some p ↦ (some p, record k' { mem = memset_at p 0 page_size k'.mem })
]

zero_it-Takes :
    (k : Kmem) (r : Option ℕ × Kmem)
    → Takes 1 (is_some r.0) k r.1
    → Takes 1 (is_some (zero_it r).0) k (zero_it r).1
zero_it-Takes k (none, k') t = t
zero_it-Takes k (some p, k') t = record { most = t.most; failed = t.failed }

pub zeroed_page-Takes : (k : Kmem) → Takes 1 (is_some (zeroed_page k).0) k (zeroed_page k).1
unfolding zeroed_page kalloc
zeroed_page-Takes k = zero_it-Takes k (take_page k.freelist k) (zeroed-list k.freelist k refl)

-- `descend` behind its `zeroed_page`.
abbrev fresh_entry : {A : Type 0} → A → Option ℕ × Kmem → Option (ℕ × A) × Kmem
fresh_entry fresh (page, k') = elim page [ none ↦ (none, k') | some p ↦ (some (p, fresh), k') ]

fresh_entry-Takes :
    {A : Type 0} (fresh : A) (k : Kmem) (r : Option ℕ × Kmem)
    → Takes 1 (is_some r.0) k r.1
    → Takes 1 (is_some (fresh_entry fresh r).0) k (fresh_entry fresh r).1
fresh_entry-Takes fresh k (none, k') t = t
fresh_entry-Takes fresh k (some p, k') t = t

descend-Takes :
    {A : Type 0} (fresh : A) (i : ℕ) (d : Dir A) (k : Kmem)
    → Takes 1 (is_some (descend fresh i d k).0) k (descend fresh i d k).1
unfolding descend
descend-Takes {A} fresh i d k = go (d i)
  where
    go :
        (e : Option (ℕ × A))
        → let r : Option (ℕ × A) × Kmem = elim e [
          | some x ↦ (some x, k)
          | none ↦ fresh_entry fresh (zeroed_page k)
        ] in
          Takes 1 (is_some r.0) k r.1
    go none = fresh_entry-Takes fresh k (zeroed_page k) (zeroed_page-Takes k)
    go (some x) = record { most = omega arith; failed = λ q. absurd (cc) }

-- `make_path` behind its first `descend`, and behind its second.
abbrev last_table :
    ℕ → Pagetable → ℕ → Dir Leaves → Option (ℕ × Leaves) × Kmem → Bool × Pagetable × Kmem
last_table va pt a1 t1 (e0, k0) = elim e0 [
  | none ↦ (false, record pt { entries = update pt.entries (px2 va) (some (a1, t1)) }, k0)
  | some (a0, t0) ↦ (
    true,
    record pt {
      entries = update pt.entries (px2 va) (some (a1, update t1 (px1 va) (some (a0, t0))));
    },
    k0,
  )
]

abbrev first_table : ℕ → Pagetable → Option (ℕ × Dir Leaves) × Kmem → Bool × Pagetable × Kmem
first_table va pt (e1, k1) = elim e1 [
  | none ↦ (false, pt, k1)
  | some (a1, t1) ↦ last_table va pt a1 t1 (descend no_leaves (px1 va) t1 k1)
]

last_table-Takes :
    (va : ℕ) (pt : Pagetable) (a1 : ℕ) (t1 : Dir Leaves) (k k1 : Kmem)
    (r : Option (ℕ × Leaves) × Kmem)
    → Takes 1 true k k1
    → Takes 1 (is_some r.0) k1 r.1
    → Takes 2 (last_table va pt a1 t1 r).0 k (last_table va pt a1 t1 r).2
last_table-Takes va pt a1 t1 k k1 (none, k0) t u = record {
  most = omega (arith, t.most, u.most);
  failed = λ q. omega (arith, t.most, u.failed refl);
}
last_table-Takes va pt a1 t1 k k1 (some _, k0) t u = record {
  most = omega (arith, t.most, u.most);
  failed = λ q. absurd (cc);
}

first_table-Takes :
    (va : ℕ) (pt : Pagetable) (k : Kmem) (r : Option (ℕ × Dir Leaves) × Kmem)
    → Takes 1 (is_some r.0) k r.1
    → Takes 2 (first_table va pt r).0 k (first_table va pt r).2
first_table-Takes va pt k (none, k1) t = record {
  most = omega (arith, t.most);
  failed = λ q. omega (arith, t.failed refl);
}
first_table-Takes va pt k (some (a1, t1), k1) t =
    last_table-Takes va pt a1 t1 k k1 (descend no_leaves (px1 va) t1 k1) t
      (descend-Takes no_leaves (px1 va) t1 k1)

make_path-Takes :
    (va : ℕ) (pt : Pagetable) (k : Kmem) → Takes 2 (make_path va pt k).0 k (make_path va pt k).2
unfolding make_path
make_path-Takes va pt k =
    first_table-Takes va pt k (descend no_tables (px2 va) pt.entries k)
      (descend-Takes no_tables (px2 va) pt.entries k)

-- What one round of `mappages` takes is what its `walk` takes.
map_from-walk :
    (fuel a pa : ℕ) (perm : Pte) (pt : Pagetable) (k : Kmem) {ok : Bool} {pt' : Pagetable}
    {k' : Kmem}
    → map_from (suc fuel) a a pa perm pt k ≡ Run.returned (ok, pt', k')
    → ((make_path a pt k).0 ≡ ok) × ((make_path a pt k).2 ≡ k')
unfolding map_from walk_alloc
map_from-walk fuel a pa perm pt k h = ground arith

-- `mappages` of one page takes at most two pages, for tables, and fails only with fewer free.
pub mappages-Takes :
    (a pa : ℕ) (perm : Pte) (pt : Pagetable) (k : Kmem) {ok : Bool} {pt' : Pagetable} {k' : Kmem}
    → a % page_size ≡ 0
    → mappages a page_size pa perm pt k ≡ Run.returned (ok, pt', k')
    → Takes 2 ok k k'
mappages-Takes a pa perm pt k {ok} {pt'} {k'} al h =
    let (e, f) =
      map_from-walk (max_va / page_size) a pa perm pt k (mappages-first a pa perm pt k al h) in
    subst (Takes 2 ok k) f
      (subst (λ (b : Bool). Takes 2 b k (make_path a pt k).2) e (make_path-Takes a pt k))
