-- ===== src/Kalloc/Pages.antt =====
-- Which pages kernel/kalloc.c hands out.
use noy_hadar.Base.{
  ℕ, zero, suc, ◌+◌, ◌*◌, ◌/◌, ◌%◌, ◌≤◌, ◌<◌, ◌==◌, leb, if◌then◌else◌, true, some, List, [], ◌∷◌,
  ◌++◌, ◌≡◌, inl, inr, refl, arith, ap, sym, ◌∙◌, Bool-cases, leb→le, none-some, some_inj,
}
use noy_hadar.Kalloc.{
  page_size, phys_top, page_round_up, memset_at, Memory, Kmem, kfree, freerange_from, freerange,
  kinit, kalloc, take_page,
}

-- How often a page stands in a list.
pub count : ℕ → List ℕ → ℕ
count a [] = 0
count a (x ∷ xs) = if x == a then suc (count a xs) else count a xs

pub count-append : (a : ℕ) (xs ys : List ℕ) → count a (xs ++ ys) ≡ count a xs + count a ys
unfolding count
count-append a [] ys = omega arith
count-append a (x ∷ xs) ys = ground (arith, count-append a xs ys)

count-cons : (a p : ℕ) (xs : List ℕ) → count a (p ∷ xs) ≡ count a (p ∷ []) + count a xs
unfolding count
count-cons a p xs = ground arith

abbrev pub IsPage : ℕ → ℕ → Type 0
IsPage kernel_end a = (a % page_size ≡ 0) × (kernel_end ≤ a) × (a < phys_top)

module _ (kernel_end : ℕ) where
  -- Exactly the pages from `lo` up to `hi` are added to the list, each once.
  abbrev Filled : ℕ → ℕ → List ℕ → List ℕ → Type 0
  Filled lo hi old new =
      (a : ℕ)
      → count a new
        ≡ count a old
          + (if (a % page_size) == 0
              then if leb lo a then if leb (a + page_size) hi then 1 else 0 else 0
              else 0)

  kfree-ok :
      (p : ℕ) (k : Kmem)
      → IsPage kernel_end p
      → (k' : Kmem) × (kfree kernel_end p k ≡ some k') × (k'.freelist ≡ p ∷ k.freelist)
  unfolding kfree
  kfree-ok p k h = (
    record k { freelist = p ∷ k.freelist; mem = memset_at p 1 page_size k.mem },
    ground arith,
    refl,
  )

  one_more :
      (p pa_end a : ℕ) (old mid : List ℕ)
      → p % page_size ≡ 0
      → p + page_size ≤ pa_end
      → mid ≡ p ∷ old
      → count a mid
          + (if (a % page_size) == 0
              then if leb (p + page_size) a then if leb (a + page_size) pa_end then 1 else 0 else 0
              else 0)
        ≡ count a old
          + (if (a % page_size) == 0
              then if leb p a then if leb (a + page_size) pa_end then 1 else 0 else 0
              else 0)
  unfolding count
  one_more p pa_end a old mid al le e = rw e (ground arith)

  step :
      (fuel p pa_end : ℕ) (k k1 : Kmem)
      → leb (p + page_size) pa_end ≡ true
      → kfree kernel_end p k ≡ some k1
      → freerange_from kernel_end (suc fuel) p pa_end k
        ≡ freerange_from kernel_end fuel (p + page_size) pa_end k1
  unfolding freerange_from
  step fuel p pa_end k k1 more freed = rw (more, freed, freerange_from)

  freerange_from-Filled :
      (fuel p pa_end : ℕ) (k : Kmem)
      → p % page_size ≡ 0
      → kernel_end ≤ p
      → pa_end ≤ phys_top
      → 0 < fuel
      → pa_end < p + page_size * fuel
      → (k' : Kmem) × (freerange_from kernel_end fuel p pa_end k ≡ some k')
        × Filled p pa_end k.freelist k'.freelist
  unfolding freerange_from
  freerange_from-Filled zero p pa_end k al lo hi pos enough = absurd (omega arith)
  freerange_from-Filled (suc fuel) p pa_end k al lo hi pos enough =
      elim (Bool-cases (leb (p + page_size) pa_end)) [
        | inr stop ↦ (k, rw (stop, freerange_from), λ a. ground arith)
        | inl more ↦
            let (k1, freed, on) =
              kfree-ok p k (al, lo, omega (arith, leb→le (p + page_size) pa_end more)) in
            let (k', done, filled) =
              freerange_from-Filled fuel (p + page_size) pa_end k1 (omega arith) (omega arith) hi
                (omega (arith, leb→le (p + page_size) pa_end more)) (omega arith) in
            (
              k',
              step fuel p pa_end k k1 more freed ∙ done,
              λ a.
                  filled a
                  ∙ one_more p pa_end a k.freelist k1.freelist al
                      (leb→le (p + page_size) pa_end more) on,
            )
      ]

freerange-Filled :
    (kernel_end pa_end : ℕ) (k : Kmem)
    → pa_end ≤ phys_top
    → (k' : Kmem) × (freerange kernel_end kernel_end pa_end k ≡ some k')
      × Filled kernel_end (page_round_up kernel_end) pa_end k.freelist k'.freelist
unfolding freerange
freerange-Filled kernel_end pa_end k hi =
    freerange_from-Filled kernel_end (suc (pa_end / page_size)) (page_round_up kernel_end) pa_end k
      (omega arith) (omega arith) hi (omega arith) (omega arith)

-- 1 for the pages between the kernel's end and the top of memory, and 0 for other addresses.
abbrev pub one_if_page : ℕ → ℕ → ℕ
one_if_page kernel_end a =
    if (a % page_size) == 0
    then if leb (page_round_up kernel_end) a
      then if leb (a + page_size) phys_top then 1 else 0
      else 0
    else 0

zero_plus : (n : ℕ) → 0 + n ≡ n
zero_plus n = omega arith

-- `kinit` does not panic, and fills the free list with exactly the pages between the kernel's end
-- and the top of memory, each once.
pub kinit-pages :
    (kernel_end : ℕ) (mem : Memory)
    → (k : Kmem) × (kinit kernel_end mem ≡ some k)
      × ((a : ℕ) → count a k.freelist ≡ one_if_page kernel_end a)
unfolding kinit count
kinit-pages kernel_end mem =
    let (k, e, filled) =
      freerange-Filled kernel_end phys_top (record { freelist = []; mem = mem }) (omega arith) in
    (k, e, λ a. filled a ∙ zero_plus (one_if_page kernel_end a))

-- A kernel that allocates pages, and frees only pages that it has.
pub data History (kernel_end : ℕ) (mem : Memory) : Kmem → List ℕ → Type 0 where
  booted : {k : Kmem} → kinit kernel_end mem ≡ some k → History kernel_end mem k []
  allocated :
      {k : Kmem} {has : List ℕ} (p : ℕ)
      → History kernel_end mem k has
      → (kalloc k).0 ≡ some p
      → History kernel_end mem (kalloc k).1 (p ∷ has)
  freed :
      {k k' : Kmem} (xs ys : List ℕ) (p : ℕ)
      → History kernel_end mem k (xs ++ p ∷ ys)
      → kfree kernel_end p k ≡ some k'
      → History kernel_end mem k' (xs ++ ys)

count_self : (p : ℕ) (xs : List ℕ) → count p (p ∷ xs) ≡ suc (count p xs)
unfolding count
count_self p xs = ground arith

-- Every page is free, or allocated once, and there are no others.
abbrev Accounted : ℕ → Kmem → List ℕ → Type 0
Accounted kernel_end k has =
    (a : ℕ)
    → (count a k.freelist + count a has ≤ 1)
      × (0 < count a k.freelist + count a has → IsPage kernel_end a)

take-count :
    (a p : ℕ) (l : List ℕ) (k : Kmem)
    → (take_page l k).0 ≡ some p
    → count a (take_page l k).1.freelist + count a (p ∷ []) ≡ count a l
unfolding take_page count
take-count a p [] k e = absurd (none-some e)
take-count a p (r ∷ next) k e = rw (some_inj e) (ground arith)

kfree-count :
    (kernel_end p a : ℕ) (k k' : Kmem)
    → kfree kernel_end p k ≡ some k'
    → count a k'.freelist ≡ count a (p ∷ []) + count a k.freelist
unfolding kfree count
kfree-count kernel_end p a k k' e = ground arith

History-Accounted :
    {kernel_end : ℕ} {mem : Memory} {k : Kmem} {has : List ℕ}
    → History kernel_end mem k has
    → Accounted kernel_end k has
unfolding kalloc count
History-Accounted {kernel_end} {mem} (booted {k} e) a =
    let (k', e', filled) = kinit-pages kernel_end mem in
    let n : count a k.freelist ≡ one_if_page kernel_end a =
      ap (λ (x : Kmem). count a x.freelist) (some_inj (sym e ∙ e')) ∙ filled a in
    (ground (arith, n), λ pos. ground (arith, n))
History-Accounted (allocated {k} {has} p h e) a =
    let (le, page) = History-Accounted h a in
    (
      omega (arith, count-cons a p has, take-count a p k.freelist k e),
      λ pos. page (omega (arith, count-cons a p has, take-count a p k.freelist k e)),
    )
History-Accounted {kernel_end} (freed {k} {k'} xs ys p h e) a =
    let (le, page) = History-Accounted h a in
    (
      omega (
        arith,
        count-append a xs (p ∷ ys),
        count-append a xs ys,
        count-cons a p ys,
        kfree-count kernel_end p a k k' e,
      ),
      λ pos. page (
          omega (
            arith,
            count-append a xs (p ∷ ys),
            count-append a xs ys,
            count-cons a p ys,
            kfree-count kernel_end p a k k' e,
          )),
    )

-- Through any history from `kinit` on, in which pages are freed only by those who have them: a page
-- that `kalloc` returns is a page of physical memory above the kernel's end, nobody has it already,
-- and it is not in the free list any more.
pub kalloc-fresh :
    {kernel_end : ℕ} {mem : Memory} {k : Kmem} {has : List ℕ} (p : ℕ)
    → History kernel_end mem k has
    → (kalloc k).0 ≡ some p
    → IsPage kernel_end p × (count p has ≡ 0) × (count p (kalloc k).1.freelist ≡ 0)
kalloc-fresh {has = has} p h e =
    let (le, page) = History-Accounted (allocated p h e) p in
    let mine : count p (p ∷ has) ≡ suc (count p has) = count_self p has in
    (page (omega arith), omega arith, omega arith)
