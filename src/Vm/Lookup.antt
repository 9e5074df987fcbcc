-- ===== src/Vm/Lookup.antt =====
-- What an address maps to, under the changes of a table that kernel/vm.c makes.
use noy_hadar.Base.{
  ℕ, ◌/◌, ◌<◌, if◌then◌else◌, true, Option, none, some, ◌≡◌, ◌≢◌, ◌⊎◌, inl, inr, refl, sym, ◌∙◌,
  arith, ℕ_discrete,
}
use noy_hadar.Kalloc.{Kmem, page_size}
use noy_hadar.Vm.{
  Run, ◌>>=◌, Pte, Pagetable, max_va, px0, px1, px2, find_pte, set_pte, descend, make_path,
}

-- The valid PTE of an address.
unfoldable pub mapping : ℕ → Pagetable → Option Pte
unfolding find_pte
mapping va pt = elim (find_pte va pt) [ none ↦ none | some p ↦ if p.valid then some p else none ]

px_same :
    (u v : ℕ)
    → u < max_va
    → v < max_va
    → px0 u ≡ px0 v
    → px1 u ≡ px1 v
    → px2 u ≡ px2 v
    → u / page_size ≡ v / page_size
px_same u v a b e0 e1 e2 = omega arith

px_page :
    (u v : ℕ) → u / page_size ≡ v / page_size → (px0 u ≡ px0 v) × (px1 u ≡ px1 v) × (px2 u ≡ px2 v)
px_page u v e = omega arith

pub find_pte_page :
    (u v : ℕ) (pt : Pagetable) → u / page_size ≡ v / page_size → find_pte u pt ≡ find_pte v pt
unfolding find_pte
find_pte_page u v pt e = let (a, b, c) = px_page u v e in ground (arith, a, b, c)

pub mapping_page :
    (u v : ℕ) (pt : Pagetable) → u / page_size ≡ v / page_size → mapping u pt ≡ mapping v pt
unfolding mapping
mapping_page u v pt e = rw (find_pte_page u v pt e, mapping)

-- `walk` maps nothing by itself.
pub make_path-mapping :
    (va v : ℕ) (pt : Pagetable) (k : Kmem) → mapping v (make_path va pt k).1 ≡ mapping v pt
unfolding mapping make_path descend
make_path-mapping va v pt k = ground arith

pub make_path-found :
    (va : ℕ) (pt : Pagetable) (k : Kmem)
    → (make_path va pt k).0 ≡ true
    → find_pte va (make_path va pt k).1 ≢ none
unfolding find_pte make_path descend
make_path-found va pt k h q = ground arith

pub find_pte-set_pte_self :
    (va : ℕ) (p : Pte) (pt : Pagetable)
    → find_pte va pt ≢ none
    → find_pte va (set_pte va p pt) ≡ some p
unfolding find_pte set_pte
find_pte-set_pte_self va p pt h = ground arith

px_apart :
    (u v : ℕ)
    → u < max_va
    → v < max_va
    → u / page_size ≢ v / page_size
    → (px0 u ≢ px0 v) ⊎ (px1 u ≢ px1 v) ⊎ (px2 u ≢ px2 v)
px_apart u v a b ne = elim (ℕ_discrete (px0 u) (px0 v)) [
  | no n ↦ inl n
  | yes e0 ↦ elim (ℕ_discrete (px1 u) (px1 v)) [
    | no n ↦ inr (inl n)
    | yes e1 ↦ inr (inr (λ e2. ne (px_same u v a b e0 e1 e2)))
  ]
]

pub find_pte-set_pte_ne :
    (va v : ℕ) (p : Pte) (pt : Pagetable)
    → va < max_va
    → v < max_va
    → va / page_size ≢ v / page_size
    → find_pte v (set_pte va p pt) ≡ find_pte v pt
unfolding find_pte set_pte
find_pte-set_pte_ne va v p pt a b ne = elim (px_apart va v a b ne) [
  | inl n ↦ ground arith
  | inr (inl n) ↦ ground arith
  | inr (inr n) ↦ ground arith
]

pub mapping-set_pte_ne :
    (va v : ℕ) (p : Pte) (pt : Pagetable)
    → va < max_va
    → v < max_va
    → va / page_size ≢ v / page_size
    → mapping v (set_pte va p pt) ≡ mapping v pt
unfolding mapping
mapping-set_pte_ne va v p pt a b ne = rw (find_pte-set_pte_ne va v p pt a b ne, mapping)

pub mapping-set_pte_self :
    (va v : ℕ) (p : Pte) (pt : Pagetable)
    → find_pte va pt ≢ none
    → va / page_size ≡ v / page_size
    → mapping v (set_pte va p pt) ≡ (if p.valid then some p else none)
unfolding mapping
mapping-set_pte_self va v p pt h e =
    mapping_page v va (set_pte va p pt) (sym e) ∙ rw (find_pte-set_pte_self va p pt h, mapping)

pub >>=-eq-returned :
    {A B : Type 0} (m : Run A) (f : A → Run B) {b : B}
    → (m >>= f) ≡ Run.returned b
    → (a : A) × (m ≡ Run.returned a) × (f a ≡ Run.returned b)
>>=-eq-returned Run.panic f h = absurd (cc)
>>=-eq-returned Run.lost f h = absurd (cc)
>>=-eq-returned (Run.returned a) f h = (a, refl, h)
