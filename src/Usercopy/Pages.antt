-- ===== src/Usercopy/Pages.antt =====
-- The loops of kernel/vm.c over pages do what the loops over bytes do, and end.
use noy_hadar.Base.{
  ℕ, zero, suc, ◌+◌, ◌-◌, ◌%◌, ◌≤◌, ◌<◌, true, false, List, [], ◌∷◌, update, length, take, drop,
  ◌≡◌, ◌≢◌, ◌⊎◌, inl, inr, refl, ap, ap₂, sym, ◌∙◌, arith, ne→==-false, ℕ_discrete, dec_lt,
}
use noy_hadar.Kalloc.{Memory, page_size, page_round_down}
use noy_hadar.Vm.{Pagetable, Run, walkaddr}
use noy_hadar.Usercopy.{write_bytes, chunk, in_page, copyout_loop, copyout}
use noy_hadar.Usercopy.Bytes.{store_user, reachable, place}

-- What a round takes.
pub record Chunk (va len n : ℕ) : Type 0 where
  pub some_bytes : 0 < n
  pub not_more : n ≤ len
  pub one_page : va + n ≤ page_round_down va + page_size
  pub next : (n ≡ len) ⊎ (page_round_down va + page_size ≡ va + n)

pub chunk_lem : (va len : ℕ) → 0 < len → Chunk va len (chunk va len)
unfolding chunk
chunk_lem va len pos = elim (dec_lt len (page_size - (va - page_round_down va))) [
  | yes h ↦ record {
    some_bytes = ground (arith, h);
    not_more = ground (arith, h);
    one_page = ground (arith, h);
    next = inl (ground (arith, h));
  }
  | no h ↦ record {
    some_bytes = ground (arith, h);
    not_more = ground (arith, h);
    one_page = ground (arith, h);
    next = inr (ground (arith, h));
  }
]

length-drop {ℓ} :
    {A : Type ℓ} (n : ℕ) (xs : List A) → n ≤ length xs → length (drop n xs) + n ≡ length xs
length-drop zero xs h = omega arith
length-drop (suc n) [] h = absurd (omega arith)
length-drop (suc n) (x ∷ xs) h = omega (arith, length-drop n xs)

length-zero {ℓ} : {A : Type ℓ} (xs : List A) → length xs ≡ 0 → xs ≡ []
length-zero [] h = refl
length-zero (x ∷ xs) h = absurd (omega arith)

-- In a page whose base is `base`.
pub in_base :
    (base va : ℕ)
    → base % page_size ≡ 0
    → base ≤ va
    → va < base + page_size
    → page_round_down va ≡ base
in_base base va al le lt = omega arith

pub reach-base :
    (pt : Pagetable) (base va pa0 : ℕ)
    → page_round_down va ≡ base
    → walkaddr pt base ≡ pa0
    → pa0 ≢ 0
    → (reachable pt va ≡ true) × (place pt va ≡ pa0 + (va - base))
reach-base pt base va pa0 at e ne =
    let w : walkaddr pt (page_round_down va) ≡ pa0 = ap (walkaddr pt) at ∙ e in
    (rw w (rw (ne→==-false pa0 0 ne)), ap₂ (λ (p q : ℕ). p + (va - q)) w at)

store-page :
    (n : ℕ) (pt : Pagetable) (base va pa0 : ℕ) (l : List ℕ) (mem : Memory)
    → base % page_size ≡ 0
    → base ≤ va
    → va + n ≤ base + page_size
    → walkaddr pt base ≡ pa0
    → pa0 ≢ 0
    → n ≤ length l
    → store_user pt va l mem
      ≡ store_user pt (va + n) (drop n l) (write_bytes (pa0 + (va - base)) (take n l) mem)
unfolding write_bytes store_user
store-page zero pt base va pa0 l mem al le room e ne short =
    ap (λ (v : ℕ). store_user pt v l mem) (omega arith)
store-page (suc n) pt base va pa0 [] mem al le room e ne short = absurd (omega arith)
store-page (suc n) pt base va pa0 (b ∷ l) mem al le room e ne short =
    let (r, p) = reach-base pt base va pa0 (in_base base va al le (omega arith)) e ne in
    simp (r, p)
      (store-page n pt base (va + 1) pa0 l (update mem (pa0 + (va - base)) b) al (omega arith)
          (omega arith) e ne (omega arith)
        ∙ ap₂
            (λ (v a : ℕ).
              store_user pt v (drop n l)
                (write_bytes a (take n l) (update mem (pa0 + (va - base)) b)))
            (omega arith) (omega arith))

next-store :
    (pt : Pagetable) (va n : ℕ) (l : List ℕ) (mem : Memory)
    → Chunk va (length l) n
    → store_user pt (page_round_down va + page_size) (drop n l) mem
      ≡ store_user pt (va + n) (drop n l) mem
unfolding store_user
next-store pt va n l mem c = elim c.next [
  | inr e ↦ ap (λ (v : ℕ). store_user pt v (drop n l) mem) e
  | inl all ↦
      let nothing : drop n l ≡ [] =
        length-zero (drop n l) (omega (arith, length-drop n l c.not_more)) in
      ap (λ (r : List ℕ). store_user pt (page_round_down va + page_size) r mem) nothing
      ∙ sym (ap (λ (r : List ℕ). store_user pt (va + n) r mem) nothing)
]

store-unreachable :
    (pt : Pagetable) (va b : ℕ) (l : List ℕ) (mem : Memory)
    → walkaddr pt (page_round_down va) ≡ 0
    → store_user pt va (b ∷ l) mem ≡ (false, mem)
unfolding store_user
store-unreachable pt va b l mem e = rw e

copyout_loop-eq :
    (fuel : ℕ) (pt : Pagetable) (va : ℕ) (l : List ℕ) (mem : Memory)
    → length l < fuel
    → copyout_loop fuel pt va l mem ≡ Run.returned (store_user pt va l mem)
unfolding copyout_loop
copyout_loop-eq zero pt va l mem h = absurd (omega arith)
copyout_loop-eq (suc fuel) pt va [] mem h = unfold store_user in refl
copyout_loop-eq (suc fuel) pt va (b ∷ l) mem h =
    elim (ℕ_discrete (walkaddr pt (page_round_down va)) 0) [
      | yes e ↦ simp e (ap Run.returned (sym (store-unreachable pt va b l mem e)))
      | no ne ↦
          let n : ℕ = chunk va (length (b ∷ l)) in
          let c : Chunk va (length (b ∷ l)) n = chunk_lem va (length (b ∷ l)) (omega arith) in
          simp (ne→==-false (walkaddr pt (page_round_down va)) 0 ne) (
            copyout_loop-eq fuel pt (page_round_down va + page_size) (drop n (b ∷ l))
              (write_bytes (in_page (walkaddr pt (page_round_down va)) va) (take n (b ∷ l)) mem)
              (omega (arith, length-drop n (b ∷ l) c.not_more, c.some_bytes))
            ∙ ap Run.returned (
                next-store pt va n (b ∷ l) _ c
                ∙ sym (
                    store-page n pt (page_round_down va) va (walkaddr pt (page_round_down va))
                      (b ∷ l) mem (omega arith) (omega arith) c.one_page refl ne c.not_more)))
    ]

-- `copyout` always returns, and does what storing byte by byte does: it stores the bytes up to the
-- first whose page the user cannot reach, and returns 0 exactly if there is none.
pub copyout-eq :
    (pt : Pagetable) (va : ℕ) (src : List ℕ) (mem : Memory)
    → copyout pt va src mem ≡ Run.returned (store_user pt va src mem)
unfolding copyout
copyout-eq pt va src mem = copyout_loop-eq (suc (length src)) pt va src mem (omega arith)
