-- ===== src/Usercopy/Strings.antt =====
-- `copyinstr` of kernel/vm.c does what a loop over bytes does, and ends.
use noy_hadar.Base.{
  ℕ, zero, suc, ◌+◌, ◌-◌, ◌≤◌, ◌<◌, ◌==◌, if◌then◌else◌, Bool, true, false, List, [], ◌∷◌, ◌++◌,
  length, All, ◌≡◌, ◌≢◌, inl, inr, refl, ap, sym, ◌∙◌, arith, Bool-cases, ==_iff, ne→==-false,
  ==-false→ne, ℕ_discrete,
}
use noy_hadar.Kalloc.{Memory, page_size, page_round_down}
use noy_hadar.Vm.{Pagetable, Run, walkaddr}
use noy_hadar.Usercopy.{chunk, in_page, scan, copyinstr_loop, copyinstr}
use noy_hadar.Usercopy.Bytes.{load_string, reachable, place}
use noy_hadar.Usercopy.Pages.{Chunk, chunk_lem}
use noy_hadar.Usercopy.Loads.{
  then_load, prepend, prepend-append, prepend-nil, string-page, next-load, load_string-zero,
  load-unreachable,
}

found_cases :
    (found : Bool × List ℕ) (dst : List ℕ) (r : Bool × List ℕ) (rest : Run (Bool × List ℕ))
    → rest ≡ Run.returned (prepend (dst ++ found.1) r)
    → (if found.0 then Run.returned (true, dst ++ found.1) else rest)
      ≡ Run.returned (prepend dst (then_load found r))
found_cases (true, l) dst r rest e = refl
found_cases (false, l) dst r rest e = e ∙ ap Run.returned (prepend-append dst l r)

copyinstr_loop-eq :
    (fuel : ℕ) (pt : Pagetable) (dst : List ℕ) (va max : ℕ) (mem : Memory)
    → max < fuel
    → copyinstr_loop fuel pt dst va max mem ≡ Run.returned (prepend dst (load_string pt va max mem))
unfolding copyinstr_loop
copyinstr_loop-eq zero pt dst va max mem h = absurd (omega arith)
copyinstr_loop-eq (suc fuel) pt dst va max mem h = elim (ℕ_discrete max 0) [
  | yes z ↦ rw ((==_iff max 0).1 z) (
      ap Run.returned (
        prepend-nil dst false
        ∙ ap (prepend dst)
            (sym (load_string-zero pt va mem) ∙ ap (λ (m : ℕ). load_string pt va m mem) (sym z))))
  | no pos ↦ elim (ℕ_discrete (walkaddr pt (page_round_down va)) 0) [
    | yes e ↦
        simp (ne→==-false max 0 pos, e)
          (ap Run.returned (
            prepend-nil dst false
            ∙ ap (prepend dst) (sym (load-unreachable pt va max mem e (omega arith)).1)))
    | no ne ↦
        let n : ℕ = chunk va max in
        let c : Chunk va max n = chunk_lem va max (omega arith) in
        let found : Bool × List ℕ = scan n (in_page (walkaddr pt (page_round_down va)) va) mem in
        simp (ne→==-false max 0 pos, ne→==-false (walkaddr pt (page_round_down va)) 0 ne)
          (found_cases found dst (load_string pt (page_round_down va + page_size) (max - n) mem) _ (
              copyinstr_loop-eq fuel pt (dst ++ found.1) (page_round_down va + page_size) (max - n)
                mem (omega (arith, c.some_bytes)))
            ∙ ap Run.returned (
                ap (λ (r : Bool × List ℕ). prepend dst (then_load found r))
                  (next-load load_string pt va n max mem
                    (λ u v. load_string-zero pt u mem ∙ sym (load_string-zero pt v mem)) c)
                ∙ ap (prepend dst) (
                    sym (
                      string-page n pt (page_round_down va) va (walkaddr pt (page_round_down va))
                        max mem (omega arith) (omega arith) c.one_page refl ne c.not_more))))
  ]
]

true-false : false ≡ true → ⊥
true-false e = cc

returned_inj : {A : Type 0} {x y : A} → Run.returned x ≡ Run.returned y → x ≡ y
returned_inj e = cc

load_string-length :
    (pt : Pagetable) (va max : ℕ) (mem : Memory) → length (load_string pt va max mem).1 ≤ max
unfolding load_string
load_string-length pt va zero mem = omega arith
load_string-length pt va (suc n) mem = ground (arith, load_string-length pt (va + 1) n mem)

load_string-ends :
    (pt : Pagetable) (va max : ℕ) (mem : Memory)
    → (load_string pt va max mem).0 ≡ true
    → (l : List ℕ) × ((load_string pt va max mem).1 ≡ l ++ 0 ∷ []) × All (λ x. x ≢ 0) l
unfolding load_string
load_string-ends pt va zero mem h = absurd (cc)
load_string-ends pt va (suc n) mem h = elim (Bool-cases (reachable pt va)) [
  | inr lost_page ↦ absurd (true-false (simp lost_page at h))
  | inl ok ↦ elim (Bool-cases (mem (place pt va) == 0)) [
    | inl nul ↦ ([], simp (ok, nul), tt)
    | inr more ↦
        let (l, e, all) = load_string-ends pt (va + 1) n mem (simp (ok, more) at h) in
        (
          mem (place pt va) ∷ l,
          simp (ok, more) (ap (λ r. mem (place pt va) ∷ r) e),
          (==-false→ne (mem (place pt va)) 0 more, all),
        )
  ]
]

-- `copyinstr` always returns, and does what loading byte by byte does: it loads bytes up to and
-- with the first NUL and returns 0, or it returns -1 where a page cannot be reached or no NUL
-- stands within `max` bytes.
pub copyinstr-eq :
    (pt : Pagetable) (va max : ℕ) (mem : Memory)
    → copyinstr pt va max mem ≡ Run.returned (load_string pt va max mem)
unfolding copyinstr
copyinstr-eq pt va max mem = copyinstr_loop-eq (suc max) pt [] va max mem (omega arith)

-- The buffer of `max` bytes is never overrun, and what `copyinstr` gets with a return value of 0
-- ends in the only NUL that it holds.
pub copyinstr_bounds :
    (pt : Pagetable) (va max : ℕ) (mem : Memory) {ok : Bool} {bytes : List ℕ}
    → copyinstr pt va max mem ≡ Run.returned (ok, bytes)
    → (length bytes ≤ max) × (ok ≡ true → (l : List ℕ) × (bytes ≡ l ++ 0 ∷ []) × All (λ x. x ≢ 0) l)
copyinstr_bounds pt va max mem {ok} {bytes} h =
    let e : load_string pt va max mem ≡ (ok, bytes) =
      returned_inj (sym (copyinstr-eq pt va max mem) ∙ h) in
    (
      omega (arith, ap (λ (r : Bool × List ℕ). length r.1) e, load_string-length pt va max mem),
      λ good.
          let (l, q, all) =
            load_string-ends pt va max mem (ap (λ (r : Bool × List ℕ). r.0) e ∙ good) in
          (l, sym (ap (λ (r : Bool × List ℕ). r.1) e) ∙ q, all),
    )
