-- ===== src/Fs/Bytes.antt =====
-- Numbers in the bytes of a block.
use noy_hadar.Base.{
  ℕ, zero, suc, ◌+◌, ◌*◌, ◌/◌, ◌%◌, ◌^◌, ◌≤◌, ◌<◌, update, update_self, update_ne, ◌≡◌, ◌⊎◌, inl,
  refl, ap₂, ◌∙◌, arith,
}
use native.Mathlib.Nat.{pow-succ'}
use noy_hadar.Fs.{Block, get_le, put_le}

pub put_le_outside :
    (n at v : ℕ) (b : Block) (i : ℕ) → (i < at) ⊎ (at + n ≤ i) → put_le n at v b i ≡ b i
unfolding put_le
put_le_outside zero at v b i out = refl
put_le_outside (suc n) at v b i out =
    put_le_outside n (at + 1) (v / 256) (update b at (v % 256)) i (omega arith)
    ∙ update_ne b at (v % 256) i (λ q. omega arith)

pub get_le_same :
    (n at : ℕ) (b c : Block)
    → ((i : ℕ) → at ≤ i → i < at + n → b i ≡ c i)
    → get_le n at b ≡ get_le n at c
unfolding get_le
get_le_same zero at b c same = refl
get_le_same (suc n) at b c same =
    ap₂ (λ (x y : ℕ). x + 256 * y) (same at (omega arith) (omega arith))
      (get_le_same n (at + 1) b c (λ i lo hi. same i (omega arith) (omega arith)))

-- A number that fits is read as it was written.
pub get_le-put_le : (n at v : ℕ) (b : Block) → v < 256 ^ n → get_le n at (put_le n at v b) ≡ v
unfolding get_le put_le
get_le-put_le zero at v b lt = omega arith
get_le-put_le (suc n) at v b lt =
    let head : put_le n (at + 1) (v / 256) (update b at (v % 256)) at ≡ v % 256 =
      put_le_outside n (at + 1) (v / 256) (update b at (v % 256)) at (inl (omega arith))
      ∙ update_self b at (v % 256) in
    let small : v / 256 < 256 ^ n = omega (arith, pow-succ' 256 n) in
    let tail = get_le-put_le n (at + 1) (v / 256) (update b at (v % 256)) small in
    omega (arith, head, tail)

pub get_le-put_le_apart :
    (n at m to v : ℕ) (b : Block)
    → (at + n ≤ to) ⊎ (to + m ≤ at)
    → get_le n at (put_le m to v b) ≡ get_le n at b
get_le-put_le_apart n at m to v b apart =
    get_le_same n at (put_le m to v b) b (λ i lo hi. put_le_outside m to v b i (omega arith))
