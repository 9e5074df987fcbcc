-- ===== src/Pipe/Lossy.antt =====
-- Bytes of a pipe of kernel/pipe.c that `piperead` takes, and those of them that a reader gets.
use noy_hadar.Base.{ℕ, suc, ◌+◌, List, [], ◌∷◌, ◌++◌, length, ◌≡◌, refl, ap, arith, subst}

-- `taken` is `outs` with `lost` further bytes put in between.
pub data Lossy : (taken outs : List ℕ) (lost : ℕ) → Type 0 where
  done : Lossy [] [] 0
  got :
      {taken outs : List ℕ} {lost : ℕ} (x : ℕ)
      → Lossy taken outs lost
      → Lossy (x ∷ taken) (x ∷ outs) lost
  gone :
      {taken outs : List ℕ} {lost : ℕ} (x : ℕ)
      → Lossy taken outs lost
      → Lossy (x ∷ taken) outs (suc lost)

pub Lossy-all-append : (l lost : List ℕ) → Lossy (l ++ lost) l (length lost)
Lossy-all-append [] [] = Lossy.done
Lossy-all-append [] (x ∷ lost) = Lossy.gone x (Lossy-all-append [] lost)
Lossy-all-append (y ∷ l) lost = Lossy.got y (Lossy-all-append l lost)

pub Lossy-append :
    {taken outs taken' outs' : List ℕ} {lost lost' : ℕ}
    → Lossy taken outs lost
    → Lossy taken' outs' lost'
    → Lossy (taken ++ taken') (outs ++ outs') (lost + lost')
Lossy-append {taken' = taken'} {outs' = outs'} {lost' = lost'} Lossy.done m =
    subst (Lossy taken' outs') (omega arith) m
Lossy-append (Lossy.got x l) m = Lossy.got x (Lossy-append l m)
Lossy-append {taken' = taken'} {outs' = outs'} {lost' = lost'}
      (Lossy.gone {taken} {outs} {lost} x l) m =
    subst (Lossy (x ∷ (taken ++ taken')) (outs ++ outs')) (omega arith)
      (Lossy.gone x (Lossy-append l m))

-- Without a loss, the readers have all that was taken.
pub Lossy-zero : {taken outs : List ℕ} {lost : ℕ} → Lossy taken outs lost → lost ≡ 0 → taken ≡ outs
Lossy-zero Lossy.done e = refl
Lossy-zero (Lossy.got x l) e = ap (λ (m : List ℕ). x ∷ m) (Lossy-zero l e)
Lossy-zero (Lossy.gone x l) e = absurd (omega arith)
