-- ===== src/Strings/Move.antt =====
-- `memmove` of kernel/string.c between regions that may overlap.
use noy_hadar.Base.{
  ℕ, zero, suc, ◌+◌, ◌-◌, ◌≤◌, ◌<◌, ltb, false, ◌&&◌, update, update_self, update_ne, ◌≡◌, ◌⊎◌, inl,
  inr, refl, ap, ◌∙◌, arith, ℕ_discrete, ap₂, lt→ltb, dec_lt,
}
use noy_hadar.Strings.{Bytes, copy_up, copy_down, memmove}

copy_up_out : (n d s a : ℕ) (mem : Bytes) → (a < d) ⊎ (d + n ≤ a) → copy_up n d s mem a ≡ mem a
unfolding copy_up
copy_up_out zero d s a mem h = refl
copy_up_out (suc n) d s a mem h =
    copy_up_out n (d + 1) (s + 1) a (update mem d (mem s)) (omega arith)
    ∙ update_ne mem d (mem s) a (λ q. omega arith)

copy_up_in :
    (n d s i : ℕ) (mem : Bytes)
    → (d ≤ s) ⊎ (s + n ≤ d)
    → i < n
    → copy_up n d s mem (d + i) ≡ mem (s + i)
unfolding copy_up
copy_up_in zero d s i mem apart lt = absurd (omega arith)
copy_up_in (suc n) d s zero mem apart lt =
    copy_up_out n (d + 1) (s + 1) (d + 0) (update mem d (mem s)) (inl (omega arith))
    ∙ ap (update mem d (mem s)) (omega arith)
    ∙ update_self mem d (mem s)
    ∙ ap mem (omega arith)
copy_up_in (suc n) d s (suc i) mem apart lt =
    ap (copy_up n (d + 1) (s + 1) (update mem d (mem s))) (omega arith)
    ∙ copy_up_in n (d + 1) (s + 1) i (update mem d (mem s)) (omega arith) (omega arith)
    ∙ update_ne mem d (mem s) (s + 1 + i) (λ q. omega arith)
    ∙ ap mem (omega arith)

copy_down_out :
    (n d s a : ℕ) (mem : Bytes) → n ≤ d → (a + n < d) ⊎ (d ≤ a) → copy_down n d s mem a ≡ mem a
unfolding copy_down
copy_down_out zero d s a mem le h = refl
copy_down_out (suc n) d s a mem le h =
    copy_down_out n (d - 1) (s - 1) a (update mem (d - 1) (mem (s - 1))) (omega arith) (omega arith)
    ∙ update_ne mem (d - 1) (mem (s - 1)) a (λ q. omega arith)

copy_down_in :
    (n d s i : ℕ) (mem : Bytes)
    → s < d
    → i < n
    → copy_down n (d + n) (s + n) mem (d + i) ≡ mem (s + i)
unfolding copy_down
copy_down_in zero d s i mem below lt = absurd (omega arith)
copy_down_in (suc n) d s i mem below lt = elim (ℕ_discrete i n) [
  | yes e ↦
      copy_down_out n (d + suc n - 1) (s + suc n - 1) (d + i) mem' (omega arith) (inr (omega arith))
      ∙ ap mem' (omega arith)
      ∙ update_self mem (d + suc n - 1) (mem (s + suc n - 1))
      ∙ ap mem (omega arith)
  | no ne ↦
      ap₂ (λ (x y : ℕ). copy_down n x y mem' (d + i)) (omega arith) (omega arith)
      ∙ copy_down_in n d s i mem' below (omega arith)
      ∙ update_ne mem (d + suc n - 1) (mem (s + suc n - 1)) (s + i) (λ q. omega arith)
]
  where
    mem' : Bytes
    mem' = update mem (d + suc n - 1) (mem (s + suc n - 1))

memmove-down :
    (dst src n : ℕ) (mem : Bytes)
    → src < dst
    → dst < src + n
    → memmove dst src n mem ≡ copy_down n (dst + n) (src + n) mem
unfolding memmove
memmove-down dst src n mem h k = rw (lt→ltb src dst h, lt→ltb dst (src + n) k)

up_test :
    (dst src n : ℕ) → (dst ≤ src) ⊎ (src + n ≤ dst) → (ltb src dst && ltb dst (src + n)) ≡ false
up_test dst src n h = ground arith

overlap : (dst src n : ℕ) → ((src < dst) × (dst < src + n)) ⊎ ((dst ≤ src) ⊎ (src + n ≤ dst))
overlap dst src n = elim (dec_lt src dst) [
  | no ge ↦ inr (inl (omega arith))
  | yes lt ↦ elim (dec_lt dst (src + n)) [ yes k ↦ inl (lt, k) | no far ↦ inr (inr (omega arith)) ]
]

memmove-up :
    (dst src n : ℕ) (mem : Bytes)
    → (dst ≤ src) ⊎ (src + n ≤ dst)
    → memmove dst src n mem ≡ copy_up n dst src mem
unfolding memmove
memmove-up dst src n mem h = rw (up_test dst src n h)

-- `memmove` copies as if through a buffer of its own, however the regions overlap: every byte of
-- the destination is what the source's byte was before the call, and no other byte changes.
pub memmove_moves :
    (dst src n : ℕ) (mem : Bytes)
    → ((i : ℕ) → i < n → memmove dst src n mem (dst + i) ≡ mem (src + i))
      × ((a : ℕ) → (a < dst) ⊎ (dst + n ≤ a) → memmove dst src n mem a ≡ mem a)
memmove_moves dst src n mem = elim (overlap dst src n) [
  | inl (h, k) ↦ (
    λ i lt.
        ap (λ (m : Bytes). m (dst + i)) (memmove-down dst src n mem h k)
        ∙ copy_down_in n dst src i mem h lt,
    λ a out.
        ap (λ (m : Bytes). m a) (memmove-down dst src n mem h k)
        ∙ copy_down_out n (dst + n) (src + n) a mem (omega arith) (omega arith),
  )
  | inr apart ↦ (
    λ i lt.
        ap (λ (m : Bytes). m (dst + i)) (memmove-up dst src n mem apart)
        ∙ copy_up_in n dst src i mem apart lt,
    λ a out.
        ap (λ (m : Bytes). m a) (memmove-up dst src n mem apart) ∙ copy_up_out n dst src a mem out,
  )
]
