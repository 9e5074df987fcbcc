-- ===== src/Syscall/Fetch.antt =====
-- What the arguments that kernel/syscall.c fetches are.
use noy_hadar.Base.{
  ℕ, suc, ◌<◌, if◌then◌else◌, Option, none, some, List, [], ◌∷◌, ◌++◌, length, length-append, All,
  inl, inr, ◌≡◌, ◌≢◌, refl, ap, sym, ◌∙◌, arith, Bool-cases, some_inj, none-some,
}
use noy_hadar.Kalloc.{Memory}
use noy_hadar.Vm.{Pagetable, Run}
use noy_hadar.Vm.Lookup.{>>=-eq-returned}
use noy_hadar.Usercopy.{copyinstr}
use noy_hadar.Usercopy.Strings.{copyinstr_bounds}
use noy_hadar.Syscall.{fetchstr, strlen}

returned_inj : {A : Type 0} {a b : A} → Run.returned a ≡ Run.returned b → a ≡ b
returned_inj e = cc

strlen_more : (b : ℕ) (l : List ℕ) → b ≢ 0 → strlen (b ∷ l) ≡ suc (strlen l)
unfolding strlen
strlen_more b l ne = ground arith

strlen-append : (l : List ℕ) → All (λ x. x ≢ 0) l → strlen (l ++ 0 ∷ []) ≡ length l
unfolding strlen
strlen-append [] _ = refl
strlen-append (b ∷ l) (ne, all) = strlen_more b (l ++ 0 ∷ []) ne ∙ ap suc (strlen-append l all)

-- `fetchstr` returns the length of the string that it leaves in the buffer, which ends in the only
-- NUL that it holds and fits into the `max` bytes.
pub fetchstr_ends :
    (pt : Pagetable) (addr max : ℕ) (mem : Memory) {n : ℕ} {bytes : List ℕ}
    → fetchstr pt addr max mem ≡ Run.returned (some n, bytes)
    → (n < max) × (l : List ℕ) × (bytes ≡ l ++ 0 ∷ []) × (length l ≡ n) × All (λ x. x ≢ 0) l
unfolding fetchstr
fetchstr_ends pt addr max mem {n} {bytes} h =
    let (r, got, rest) =
      >>=-eq-returned (copyinstr pt addr max mem)
        (λ r. Run.returned (if r.0 then some (strlen r.1) else none, r.1)) h in
    let e = returned_inj {A = Option ℕ × List ℕ} rest in
    let number : (if r.0 then some (strlen r.1) else none) ≡ some n =
      ap (λ (q : Option ℕ × List ℕ). q.0) e in
    let same : r.1 ≡ bytes = ap (λ (q : Option ℕ × List ℕ). q.1) e in
    elim (Bool-cases r.0) [
      | inr bad ↦ absurd (none-some (rw bad at number))
      | inl good ↦
          let (fits, ends) = copyinstr_bounds pt addr max mem got in
          let (l, q, all) = ends good in
          let len : length l ≡ n =
            sym (strlen-append l all) ∙ ap strlen (sym q) ∙ some_inj (rw good at number) in
          (
            omega (arith, fits, ap length q, length-append l (0 ∷ []), len),
            l,
            sym same ∙ q,
            len,
            all,
          )
    ]
