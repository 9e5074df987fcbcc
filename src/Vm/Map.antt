-- ===== src/Vm/Map.antt =====
-- `mappages` of kernel/vm.c maps its range and nothing else, and ends.
use noy_hadar.Base.{
  ℕ, zero, suc, ◌+◌, ◌-◌, ◌*◌, ◌/◌, ◌%◌, ◌^◌, ◌≤◌, ◌<◌, ◌==◌, Bool, true, false, none, some, ◌≡◌,
  ◌≢◌, ◌⊎◌, inl, inr, ap, sym, subst, ◌∙◌, arith, Option-cases, Bool-cases, ==-false→ne, dec_lt,
  le→leb,
}
use noy_hadar.Kalloc.{Kmem, page_size, page_round_down}
use noy_hadar.Vm.{
  Pte, Pagetable, Run, max_va, find_pte, set_pte, make_pte, make_path, walk_alloc, map_from,
  map_rounds, mappages,
}
use noy_hadar.Vm.Lookup.{
  mapping, mapping_page, make_path-mapping, make_path-found, mapping-set_pte_ne,
  mapping-set_pte_self,
}

-- The table after one round of `mappages`.
abbrev round : ℕ → ℕ → Pte → Pagetable → Kmem → Pagetable
round a pa perm pt k = set_pte a (make_pte pa perm) (make_path a pt k).1

-- What a round that does not fail did.
record Round (fuel a last pa : ℕ) (perm : Pte) (pt : Pagetable) (k : Kmem) (pt' : Pagetable)
    (k' : Kmem) : Type 0 where
  low : a < max_va
  found : (make_path a pt k).0 ≡ true
  fresh : mapping a pt ≡ none
  next :
      ((a ≡ last) × (pt' ≡ round a pa perm pt k))
      ⊎ ((a ≢ last)
          × (map_from fuel
                (a + page_size)
                last
                (pa + page_size)
                perm
                (round a pa perm pt k)
                (make_path a pt k).2
              ≡ Run.returned (true, pt', k')))

map_from-Round :
    (fuel a last pa : ℕ) (perm : Pte) (pt : Pagetable) (k : Kmem) {pt' : Pagetable} {k' : Kmem}
    → map_from (suc fuel) a last pa perm pt k ≡ Run.returned (true, pt', k')
    → Round fuel a last pa perm pt k pt' k'
unfolding map_from walk_alloc mapping
map_from-Round fuel a last pa perm pt k {pt'} {k'} h = record {
  low = ground arith;
  found = ground arith;
  fresh = sym (make_path-mapping a a pt k) ∙ ground arith;
  next = elim (Bool-cases (a == last)) [
    | inl e ↦ inl (ground (arith, e), ground (arith, e))
    | inr e ↦ inr (==-false→ne a last e, ground (arith, e))
  ];
}

round_other :
    (a v pa : ℕ) (perm : Pte) (pt : Pagetable) (k : Kmem)
    → a < max_va
    → v < max_va
    → a / page_size ≢ v / page_size
    → mapping v (round a pa perm pt k) ≡ mapping v pt
round_other a v pa perm pt k la lv ne =
    mapping-set_pte_ne a v (make_pte pa perm) (make_path a pt k).1 la lv ne
    ∙ make_path-mapping a v pt k

round_self :
    (a v pa : ℕ) (perm : Pte) (pt : Pagetable) (k : Kmem)
    → (make_path a pt k).0 ≡ true
    → a / page_size ≡ v / page_size
    → mapping v (round a pa perm pt k) ≡ some (make_pte pa perm)
round_self a v pa perm pt k ok e =
    mapping-set_pte_self a v (make_pte pa perm) (make_path a pt k).1 (make_path-found a pt k ok) e

-- The pages from `a` to `last`, none of them mapped before, map to those from `pa` on; every other
-- address maps to what it did.
pub record Mapped (a last pa : ℕ) (perm : Pte) (pt pt' : Pagetable) : Type 0 where
  pub below : a ≤ last
  pub high : last < max_va
  pub fresh : (v : ℕ) → v < max_va → a ≤ v → v < last + page_size → mapping v pt ≡ none
  pub inside :
      (v : ℕ)
      → v < max_va
      → a ≤ v
      → v < last + page_size
      → mapping v pt' ≡ some (make_pte (pa + (page_round_down v - a)) perm)
  pub outside :
      (v : ℕ) → v < max_va → (v < a) ⊎ (last + page_size ≤ v) → mapping v pt' ≡ mapping v pt

one_page :
    (a pa : ℕ) (perm : Pte) (pt : Pagetable) (k : Kmem)
    → a % page_size ≡ 0
    → a < max_va
    → (make_path a pt k).0 ≡ true
    → mapping a pt ≡ none
    → Mapped a a pa perm pt (round a pa perm pt k)
one_page a pa perm pt k al low ok fresh = record {
  below = omega arith;
  high = low;
  fresh = λ v lv h h'. mapping_page v a pt (omega arith) ∙ fresh;
  inside = λ v lv h h'.
      round_self a v pa perm pt k ok (omega arith)
      ∙ ap (λ (x : ℕ). some (make_pte x perm)) (omega arith);
  outside = λ v lv h. round_other a v pa perm pt k low lv (λ q. omega arith);
}

more_pages :
    (a last pa : ℕ) (perm : Pte) (pt : Pagetable) (k : Kmem) {pt' : Pagetable}
    → a % page_size ≡ 0
    → a < max_va
    → (make_path a pt k).0 ≡ true
    → mapping a pt ≡ none
    → Mapped (a + page_size) last (pa + page_size) perm (round a pa perm pt k) pt'
    → Mapped a last pa perm pt pt'
more_pages a last pa perm pt k {pt'} al low ok fresh m = record {
  below = omega (arith, m.below);
  high = m.high;
  fresh = fresh';
  inside = inside';
  outside = λ v lv h.
      m.outside v lv (omega (arith, m.below))
      ∙ round_other a v pa perm pt k low lv (λ q. omega (arith, m.below));
}
  where
    fresh' : (v : ℕ) → v < max_va → a ≤ v → v < last + page_size → mapping v pt ≡ none
    fresh' v lv h h' = elim (dec_lt v (a + page_size)) [
      | yes near ↦ mapping_page v a pt (omega arith) ∙ fresh
      | no far ↦
          sym (round_other a v pa perm pt k low lv (λ q. omega arith))
          ∙ m.fresh v lv (omega arith) h'
    ]

    inside' :
        (v : ℕ)
        → v < max_va
        → a ≤ v
        → v < last + page_size
        → mapping v pt' ≡ some (make_pte (pa + (page_round_down v - a)) perm)
    inside' v lv h h' = elim (dec_lt v (a + page_size)) [
      | yes near ↦
          m.outside v lv (inl near)
          ∙ round_self a v pa perm pt k ok (omega arith)
          ∙ ap (λ (x : ℕ). some (make_pte x perm)) (omega arith)
      | no far ↦
          m.inside v lv (omega arith) h' ∙ ap (λ (x : ℕ). some (make_pte x perm)) (omega arith)
    ]

map_from-Mapped :
    (fuel a last pa : ℕ) (perm : Pte) (pt : Pagetable) (k : Kmem) {pt' : Pagetable} {k' : Kmem}
    → a % page_size ≡ 0
    → map_from fuel a last pa perm pt k ≡ Run.returned (true, pt', k')
    → Mapped a last pa perm pt pt'
unfolding map_from
map_from-Mapped zero a last pa perm pt k al h = absurd (cc)
map_from-Mapped (suc fuel) a last pa perm pt k {pt'} {k'} al h =
    let r : Round fuel a last pa perm pt k pt' k' = map_from-Round fuel a last pa perm pt k h in
    elim r.next [
      | inl (e, same) ↦
          subst (λ (l : ℕ). Mapped a l pa perm pt pt') e
            (subst (Mapped a a pa perm pt) (sym same)
              (one_page a pa perm pt k al r.low r.found r.fresh))
      | inr (_, rest) ↦ more_pages a last pa perm pt k al r.low r.found r.fresh (
          map_from-Mapped fuel (a + page_size) last (pa + page_size) perm (round a pa perm pt k)
            (make_path a pt k).2 (omega arith) rest)
    ]

-- When `mappages` returns 0, none of the pages that the range touches was mapped before, each now
-- maps to its physical page with the flags that were asked for, and every other address below
-- `MAXVA` maps to what it did.
pub mappages-Mapped :
    (va size pa : ℕ) (perm : Pte) (pt : Pagetable) (k : Kmem) {pt' : Pagetable} {k' : Kmem}
    → mappages va size pa perm pt k ≡ Run.returned (true, pt', k')
    → Mapped
        (page_round_down va)
        (page_round_down ((va + size + 2 ^ 64 - 1) % 2 ^ 64))
        pa
        perm
        pt
        pt'
unfolding mappages
mappages-Mapped va size pa perm pt k h =
    map_from-Mapped map_rounds (page_round_down va)
      (page_round_down ((va + size + 2 ^ 64 - 1) % 2 ^ 64)) pa perm pt k (omega arith) h

find_pte-some :
    (a : ℕ) (pt : Pagetable) → find_pte a pt ≢ none → (p : Pte) × (find_pte a pt ≡ some p)
find_pte-some a pt h = elim (Option-cases (find_pte a pt)) [ inl e ↦ absurd (h e) | inr r ↦ r ]

-- Only the rounds behind a round can be lost.
map_from-lost :
    (fuel a last pa : ℕ) (perm : Pte) (pt : Pagetable) (k : Kmem)
    → map_from (suc fuel) a last pa perm pt k ≡ Run.lost
    → (a < max_va)
      × (map_from fuel
            (a + page_size)
            last
            (pa + page_size)
            perm
            (round a pa perm pt k)
            (make_path a pt k).2
          ≡ Run.lost)
unfolding map_from walk_alloc
map_from-lost fuel a last pa perm pt k h = elim (Bool-cases (make_path a pt k).0) [
  | inr bad ↦ absurd (ground (arith, bad))
  | inl ok ↦
      let (p, found) = find_pte-some a (make_path a pt k).1 (make_path-found a pt k ok) in
      (ground (arith, ok, found), ground (arith, ok, found))
]

map_from-ends :
    (fuel a last pa : ℕ) (perm : Pte) (pt : Pagetable) (k : Kmem)
    → a % page_size ≡ 0
    → 0 < fuel
    → max_va < a + page_size * fuel
    → map_from fuel a last pa perm pt k ≢ Run.lost
map_from-ends zero a last pa perm pt k al pos enough = absurd (omega arith)
map_from-ends (suc fuel) a last pa perm pt k al pos enough = λ q.
    let (low, rest) = map_from-lost fuel a last pa perm pt k q in
    map_from-ends fuel (a + page_size) last (pa + page_size) perm (round a pa perm pt k)
      (make_path a pt k).2 (omega arith) (omega arith) (omega arith) rest

-- `mappages` always ends: whatever its arguments, an address that wraps or a size of 0 included, it
-- panics or returns within its rounds.
pub mappages_ends :
    (va size pa : ℕ) (perm : Pte) (pt : Pagetable) (k : Kmem)
    → mappages va size pa perm pt k ≢ Run.lost
unfolding mappages map_rounds
mappages_ends va size pa perm pt k =
    map_from-ends (max_va / page_size + 1) (page_round_down va)
      (page_round_down ((va + size + 2 ^ 64 - 1) % 2 ^ 64)) pa perm pt k (omega arith) (omega arith)
      (omega arith)

returned-ne-panic : {A : Type 0} {a : A} → Run.returned a ≡ Run.panic → ⊥
returned-ne-panic e = cc

map_from-false :
    (fuel a pa : ℕ) (perm : Pte) (pt : Pagetable) (k : Kmem) {pt' : Pagetable} {k' : Kmem}
    → map_from (suc fuel) a a pa perm pt k ≡ Run.returned (false, pt', k')
    → pt' ≡ (make_path a pt k).1
unfolding map_from walk_alloc
map_from-false fuel a pa perm pt k h = ground arith

map_from-low :
    (fuel a last pa : ℕ) (perm : Pte) (pt : Pagetable) (k : Kmem) {r : Bool × Pagetable × Kmem}
    → map_from (suc fuel) a last pa perm pt k ≡ Run.returned r
    → a < max_va
unfolding map_from walk_alloc
map_from-low fuel a last pa perm pt k h = elim (dec_lt a max_va) [
  | yes low ↦ low
  | no high ↦ absurd (returned-ne-panic (sym h ∙ rw (le→leb max_va a (omega arith), map_from)))
]

-- `mappages` of one page, behind the computation of its range.
mappages-one_round :
    (fuel a pa : ℕ) (perm : Pte) (pt : Pagetable) (k : Kmem) {r : Bool × Pagetable × Kmem}
    → a % page_size ≡ 0
    → map_from
        (suc fuel)
        (page_round_down a)
        (page_round_down ((a + page_size + 2 ^ 64 - 1) % 2 ^ 64))
        pa
        perm
        pt
        k
      ≡ Run.returned r
    → map_from (suc fuel) a a pa perm pt k ≡ Run.returned r
mappages-one_round fuel a pa perm pt k {r} al h =
    let first : page_round_down a ≡ a = omega arith in
    let at_a =
      subst
        (λ (x : ℕ).
          map_from (suc fuel) x (page_round_down ((a + page_size + 2 ^ 64 - 1) % 2 ^ 64)) pa perm pt
            k
          ≡ Run.returned r)
        first h in
    let low =
      map_from-low fuel a (page_round_down ((a + page_size + 2 ^ 64 - 1) % 2 ^ 64)) pa perm pt k
        at_a in
    let last : page_round_down ((a + page_size + 2 ^ 64 - 1) % 2 ^ 64) ≡ a = omega arith in
    subst (λ (x : ℕ). map_from (suc fuel) a x pa perm pt k ≡ Run.returned r) last at_a

pub mappages-first :
    (a pa : ℕ) (perm : Pte) (pt : Pagetable) (k : Kmem) {r : Bool × Pagetable × Kmem}
    → a % page_size ≡ 0
    → mappages a page_size pa perm pt k ≡ Run.returned r
    → map_from (suc (max_va / page_size)) a a pa perm pt k ≡ Run.returned r
unfolding mappages map_rounds
mappages-first a pa perm pt k al h = mappages-one_round (max_va / page_size) a pa perm pt k al h

-- One page: either it is mapped, or nothing changes.
pub mappages_one :
    (a pa : ℕ) (perm : Pte) (pt : Pagetable) (k : Kmem) (ok : Bool) {pt' : Pagetable} {k' : Kmem}
    → a % page_size ≡ 0
    → mappages a page_size pa perm pt k ≡ Run.returned (ok, pt', k')
    → (ok ≡ true → Mapped a a pa perm pt pt')
      × (ok ≡ false → (v : ℕ) → mapping v pt' ≡ mapping v pt)
mappages_one a pa perm pt k true {pt'} {k'} al h = (
  λ _.
      map_from-Mapped (suc (max_va / page_size)) a a pa perm pt k al
        (mappages-first a pa perm pt k al h),
  λ q. absurd (cc),
)
mappages_one a pa perm pt k false {pt'} {k'} al h = (
  λ q. absurd (cc),
  λ _ v.
      ap (mapping v)
        (map_from-false (max_va / page_size) a pa perm pt k (mappages-first a pa perm pt k al h))
      ∙ make_path-mapping a v pt k,
)
