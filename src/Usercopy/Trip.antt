-- ===== src/Usercopy/Trip.antt =====
-- What `copyout` of kernel/vm.c wrote, `copyin` reads.
use noy_hadar.Base.{
  ℕ, suc, ◌+◌, ◌<◌, Bool, true, false, List, [], ◌∷◌, update, update_self, update_ne, length, inl,
  inr, ◌≡◌, ◌≢◌, refl, ap, sym, ◌∙◌, arith, Bool-cases,
}
use noy_hadar.Kalloc.{Memory}
use noy_hadar.Vm.{Pagetable, Run}
use noy_hadar.Usercopy.{copyout, copyin}
use noy_hadar.Usercopy.Bytes.{store_user, load_user, reachable, place}
use noy_hadar.Usercopy.Pages.{copyout-eq}
use noy_hadar.Usercopy.Loads.{copyin-eq}

-- No two of the `n` bytes from `va` on stand at one physical address.
abbrev pub IsApart : Pagetable → ℕ → ℕ → Type 0
IsApart pt va n = (i j : ℕ) → i < n → j < n → place pt (va + i) ≡ place pt (va + j) → i ≡ j

store_user-other :
    (pt : Pagetable) (va : ℕ) (l : List ℕ) (mem : Memory) (a : ℕ)
    → ((i : ℕ) → i < length l → place pt (va + i) ≢ a)
    → (store_user pt va l mem).1 a ≡ mem a
unfolding store_user
store_user-other pt va [] mem a h = refl
store_user-other pt va (b ∷ l) mem a h = elim (Bool-cases (reachable pt va)) [
  | inr no_page ↦ simp no_page
  | inl ok ↦ simp ok (
      store_user-other pt (va + 1) l (update mem (place pt va) b) a
        (λ i lt q. h (suc i) (omega arith) (ap (place pt) (omega arith) ∙ q))
      ∙ update_ne mem (place pt va) b a (λ q. h 0 (omega arith) (ap (place pt) (omega arith) ∙ q)))
]

true-false : false ≡ true → ⊥
true-false e = cc

suc_inj : {m n : ℕ} → suc m ≡ suc n → m ≡ n
suc_inj e = omega arith

zero_suc : {n : ℕ} → 0 ≡ suc n → ⊥
zero_suc e = omega arith

returned_inj : {A : Type 0} {x y : A} → Run.returned x ≡ Run.returned y → x ≡ y
returned_inj e = cc

load-store :
    (pt : Pagetable) (va : ℕ) (l : List ℕ) (mem : Memory)
    → IsApart pt va (length l)
    → (store_user pt va l mem).0 ≡ true
    → load_user pt va (length l) (store_user pt va l mem).1 ≡ (true, l)
unfolding store_user load_user
load-store pt va [] mem apart h = refl
load-store pt va (b ∷ l) mem apart h = elim (Bool-cases (reachable pt va)) [
  | inr no_page ↦ absurd (true-false (simp no_page at h))
  | inl ok ↦
      let mem1 : Memory = update mem (place pt va) b in
      let ih =
        load-store pt (va + 1) l mem1
          (λ i j p q e. suc_inj (
            apart (suc i) (suc j) (omega arith) (omega arith)
              (ap (place pt) (omega arith) ∙ e ∙ ap (place pt) (omega arith))))
          (simp ok at h) in
      let kept =
        store_user-other pt (va + 1) l mem1 (place pt va) (λ i lt q. zero_suc (
          apart 0 (suc i) (omega arith) (omega arith)
            (ap (place pt) (omega arith) ∙ sym q ∙ ap (place pt) (omega arith))))
        ∙ update_self mem (place pt va) b in
      simp (ok, ih, kept)
]

-- For bytes that stand at different physical addresses: what `copyout` wrote with a return value of
-- 0, `copyin` from the same address reads back with a return value of 0.
pub copyin-copyout :
    (pt : Pagetable) (va : ℕ) (src : List ℕ) (mem : Memory) {mem' : Memory}
    → IsApart pt va (length src)
    → copyout pt va src mem ≡ Run.returned (true, mem')
    → copyin pt va (length src) mem' ≡ Run.returned (true, src)
copyin-copyout pt va src mem {mem'} apart h =
    let e : store_user pt va src mem ≡ (true, mem') =
      returned_inj (sym (copyout-eq pt va src mem) ∙ h) in
    copyin-eq pt va (length src) mem'
    ∙ ap Run.returned (
        ap (λ (r : Bool × Memory). load_user pt va (length src) r.1) (sym e)
        ∙ load-store pt va src mem apart (ap (λ (r : Bool × Memory). r.0) e))
