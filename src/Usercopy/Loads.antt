-- ===== src/Usercopy/Loads.antt =====
-- `copyin` of kernel/vm.c does what a loop over bytes does, and ends.
use noy_hadar.Base.{
  ℕ, zero, suc, ◌+◌, ◌-◌, ◌%◌, ◌≤◌, ◌<◌, ◌==◌, if◌then◌else◌, Bool, true, false, List, [], ◌∷◌,
  ◌++◌, ◌≡◌, ◌≢◌, inl, inr, refl, ap, ap₂, sym, ◌∙◌, arith, Bool-cases, append_assoc, append-nil,
  ==_iff, ne→==-false, ℕ_discrete,
}
use noy_hadar.Kalloc.{Memory, page_size, page_round_down}
use noy_hadar.Vm.{Pagetable, Run, walkaddr}
use noy_hadar.Usercopy.{read_bytes, chunk, in_page, copyin_loop, copyin, scan}
use noy_hadar.Usercopy.Bytes.{load_user, load_string, reachable, place}
use noy_hadar.Usercopy.Pages.{Chunk, chunk_lem, in_base, reach-base}

-- Bytes in front of what a call loads.
abbrev pub prepend : List ℕ → Bool × List ℕ → Bool × List ℕ
prepend l r = (r.0, l ++ r.1)

pub prepend-append :
    (l m : List ℕ) (r : Bool × List ℕ) → prepend (l ++ m) r ≡ prepend l (prepend m r)
prepend-append l m r = ap (λ (x : List ℕ). (r.0, x)) (append_assoc l m r.1)

load-page :
    (n : ℕ) (pt : Pagetable) (base va pa0 len : ℕ) (mem : Memory)
    → base % page_size ≡ 0
    → base ≤ va
    → va + n ≤ base + page_size
    → walkaddr pt base ≡ pa0
    → pa0 ≢ 0
    → n ≤ len
    → load_user pt va len mem
      ≡ prepend (read_bytes n (pa0 + (va - base)) mem) (load_user pt (va + n) (len - n) mem)
unfolding read_bytes load_user
load-page zero pt base va pa0 len mem al le room e ne short =
    ap₂ (λ (v m : ℕ). load_user pt v m mem) (omega arith) (omega arith)
load-page (suc n) pt base va pa0 zero mem al le room e ne short = absurd (omega arith)
load-page (suc n) pt base va pa0 (suc len) mem al le room e ne short =
    let (r, p) = reach-base pt base va pa0 (in_base base va al le (omega arith)) e ne in
    simp (r, p)
      (ap (prepend (mem (pa0 + (va - base)) ∷ [])) (
        load-page n pt base (va + 1) pa0 len mem al (omega arith) (omega arith) e ne (omega arith)
        ∙ ap (λ (a : ℕ). prepend (read_bytes n a mem) (load_user pt (va + 1 + n) (len - n) mem))
            (omega arith)
        ∙ ap₂
            (λ (v m : ℕ). prepend (read_bytes n (pa0 + (va - base) + 1) mem) (load_user pt v m mem))
            (omega arith) (omega arith)))

-- What a scan found, and the rest only if it found no NUL.
abbrev pub then_load : Bool × List ℕ → Bool × List ℕ → Bool × List ℕ
then_load (true, l) r = (true, l)
then_load (false, l) r = prepend l r

then_load-prepend :
    (x : ℕ) (s r : Bool × List ℕ)
    → prepend (x ∷ []) (then_load s r) ≡ then_load (prepend (x ∷ []) s) r
then_load-prepend x (true, l) r = refl
then_load-prepend x (false, l) r = refl

string-step :
    (pt : Pagetable) (va len p : ℕ) (mem : Memory)
    → reachable pt va ≡ true
    → place pt va ≡ p
    → load_string pt va (suc len) mem ≡ (
        if mem p == 0
        then (true, 0 ∷ [])
        else prepend (mem p ∷ []) (load_string pt (va + 1) len mem))
unfolding load_string
string-step pt va len p mem r e = simp (r, e)

pub string-page :
    (n : ℕ) (pt : Pagetable) (base va pa0 len : ℕ) (mem : Memory)
    → base % page_size ≡ 0
    → base ≤ va
    → va + n ≤ base + page_size
    → walkaddr pt base ≡ pa0
    → pa0 ≢ 0
    → n ≤ len
    → load_string pt va len mem
      ≡ then_load (scan n (pa0 + (va - base)) mem) (load_string pt (va + n) (len - n) mem)
unfolding scan
string-page zero pt base va pa0 len mem al le room e ne short =
    ap₂ (λ (v m : ℕ). load_string pt v m mem) (omega arith) (omega arith)
string-page (suc n) pt base va pa0 zero mem al le room e ne short = absurd (omega arith)
string-page (suc n) pt base va pa0 (suc len) mem al le room e ne short =
    let (r, p) = reach-base pt base va pa0 (in_base base va al le (omega arith)) e ne in
    let first = string-step pt va len (pa0 + (va - base)) mem r p in
    let x : ℕ = mem (pa0 + (va - base)) in
    elim (Bool-cases (x == 0)) [
      | inl nul ↦ first ∙ rw nul
      | inr more ↦
          first
          ∙ rw more (
              ap (prepend (x ∷ [])) (
                string-page n pt base (va + 1) pa0 len mem al (omega arith) (omega arith) e ne
                  (omega arith)
                ∙ ap
                    (λ (a : ℕ).
                      then_load (scan n a mem) (load_string pt (va + 1 + n) (len - n) mem))
                    (omega arith)
                ∙ ap₂
                    (λ (v m : ℕ).
                      then_load (scan n (pa0 + (va - base) + 1) mem) (load_string pt v m mem))
                    (omega arith) (omega arith))
              ∙ then_load-prepend x (scan n (pa0 + (va - base) + 1) mem)
                  (load_string pt (va + suc n) (suc len - suc n) mem))
    ]

-- Where a round ends, the next begins, if there is one.
pub next-load :
    (f : Pagetable → ℕ → ℕ → Memory → Bool × List ℕ) (pt : Pagetable) (va n len : ℕ) (mem : Memory)
    → ((u v : ℕ) → f pt u 0 mem ≡ f pt v 0 mem)
    → Chunk va len n
    → f pt (page_round_down va + page_size) (len - n) mem ≡ f pt (va + n) (len - n) mem
next-load f pt va n len mem end c = elim c.next [
  | inr e ↦ ap (λ (v : ℕ). f pt v (len - n) mem) e
  | inl all ↦
      let nothing : len - n ≡ 0 = omega (arith, c.not_more) in
      ap (λ (r : ℕ). f pt (page_round_down va + page_size) r mem) nothing
      ∙ end (page_round_down va + page_size) (va + n)
      ∙ sym (ap (λ (r : ℕ). f pt (va + n) r mem) nothing)
]

load_user-zero : (pt : Pagetable) (va : ℕ) (mem : Memory) → load_user pt va 0 mem ≡ (true, [])
unfolding load_user
load_user-zero pt va mem = refl

pub load_string-zero :
    (pt : Pagetable) (va : ℕ) (mem : Memory) → load_string pt va 0 mem ≡ (false, [])
unfolding load_string
load_string-zero pt va mem = refl

pub load-unreachable :
    (pt : Pagetable) (va len : ℕ) (mem : Memory)
    → walkaddr pt (page_round_down va) ≡ 0
    → 0 < len
    → (load_user pt va len mem ≡ (false, [])) × (load_string pt va len mem ≡ (false, []))
unfolding load_user load_string
load-unreachable pt va zero mem e pos = absurd (omega arith)
load-unreachable pt va (suc len) mem e pos = (rw e, rw e)

pub prepend-nil : (dst : List ℕ) (b : Bool) → (b, dst) ≡ prepend dst (b, [])
prepend-nil dst b = ap (λ (l : List ℕ). (b, l)) (sym (append-nil dst))

copyin_loop-eq :
    (fuel : ℕ) (pt : Pagetable) (dst : List ℕ) (va len : ℕ) (mem : Memory)
    → len < fuel
    → copyin_loop fuel pt dst va len mem ≡ Run.returned (prepend dst (load_user pt va len mem))
unfolding copyin_loop
copyin_loop-eq zero pt dst va len mem h = absurd (omega arith)
copyin_loop-eq (suc fuel) pt dst va len mem h = elim (ℕ_discrete len 0) [
  | yes z ↦ rw ((==_iff len 0).1 z) (
      ap Run.returned (
        prepend-nil dst true
        ∙ ap (prepend dst)
            (sym (load_user-zero pt va mem) ∙ ap (λ (m : ℕ). load_user pt va m mem) (sym z))))
  | no pos ↦ elim (ℕ_discrete (walkaddr pt (page_round_down va)) 0) [
    | yes e ↦
        simp (ne→==-false len 0 pos, e)
          (ap Run.returned (
            prepend-nil dst false
            ∙ ap (prepend dst) (sym (load-unreachable pt va len mem e (omega arith)).0)))
    | no ne ↦
        let n : ℕ = chunk va len in
        let c : Chunk va len n = chunk_lem va len (omega arith) in
        let l : List ℕ = read_bytes n (in_page (walkaddr pt (page_round_down va)) va) mem in
        simp (ne→==-false len 0 pos, ne→==-false (walkaddr pt (page_round_down va)) 0 ne)
          (copyin_loop-eq fuel pt (dst ++ l) (page_round_down va + page_size) (len - n) mem
              (omega (arith, c.some_bytes))
            ∙ ap Run.returned (
                prepend-append dst l _
                ∙ ap (λ (r : Bool × List ℕ). prepend dst (prepend l r))
                    (next-load load_user pt va n len mem
                      (λ u v. load_user-zero pt u mem ∙ sym (load_user-zero pt v mem)) c)
                ∙ ap (prepend dst) (
                    sym (
                      load-page n pt (page_round_down va) va (walkaddr pt (page_round_down va)) len
                        mem (omega arith) (omega arith) c.one_page refl ne c.not_more))))
  ]
]

-- `copyin` always returns, and does what loading byte by byte does: it loads the bytes up to the
-- first whose page the user cannot reach, and returns 0 exactly if there is none.
pub copyin-eq :
    (pt : Pagetable) (va len : ℕ) (mem : Memory)
    → copyin pt va len mem ≡ Run.returned (load_user pt va len mem)
unfolding copyin
copyin-eq pt va len mem = copyin_loop-eq (suc len) pt [] va len mem (omega arith)
