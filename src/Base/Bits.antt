-- ===== src/Base/Bits.antt =====
-- The bits of a machine word: what `bit_and` and `bit_or` do to each bit, and the single-bit
-- masks `1 << i` and `~(1 << i)` of a 32-bit word.
use Prim.Native.Nat.{
  ℕ, zero, suc, ◌+◌, ◌-◌, ◌*◌, ◌/◌, ◌%◌, ◌^◌, ◌≤◌, ◌<◌, min, max, bit_and, bit_or, digits,
  bit_and-bitwise, bit_or-bitwise,
}
use mathlib.Core.Path.{◌≡◌, refl, ap, ◌∙◌}
use mathlib.Core.Logic.{◌≢◌}
use mathlib.Core.Bool.{Bool, false, not, ◌&&◌, ◌||◌}
use native.Mathlib.Decide.{ℕ_discrete}
use native.Mathlib.Omega.{arith}
use native.Mathlib.Nat.{pow-succ', pow-le-pow_right, one-le-pow}
use noy_hadar.Base.Cond.{◌==◌, ◌/=◌}

-- Bit `i` of `x`, as 0 or 1.
pub bit : ℕ → ℕ → ℕ
bit x zero = x % 2
bit x (suc i) = bit (x / 2) i

pub bit-lt-two : (x i : ℕ) → bit x i < 2
unfolding bit
bit-lt-two x zero = omega arith
bit-lt-two x (suc i) = bit-lt-two (x / 2) i

bit_of_zero : (i : ℕ) → bit 0 i ≡ 0
unfolding bit
bit_of_zero zero = refl
bit_of_zero (suc i) = bit_of_zero i

bit_first : (r d : ℕ) → d ≤ 1 → bit (r * 2 + d) zero ≡ d
unfolding bit
bit_first r d h = omega arith

bit_next : (r d i : ℕ) → d ≤ 1 → bit (r * 2 + d) (suc i) ≡ bit r i
unfolding bit
bit_next r d i h = let e : (r * 2 + d) / 2 ≡ r = omega arith in ap (λ x. bit x i) e

-- The recursion on digits, read off bit by bit: `n` is its fuel.
bit-digits_or : (n a b i : ℕ) → a ≤ n → bit (digits (λ y. y) max n a b) i ≡ max (bit a i) (bit b i)
bit-digits_or zero zero b i h = omega (arith, bit_of_zero i)
bit-digits_or zero (suc a) b i h = absurd (omega arith)
bit-digits_or (suc n) zero b i h = omega (arith, bit_of_zero i)
bit-digits_or (suc n) (suc a) b zero h =
    bit_first (digits (λ y. y) max n (suc a / 2) (b / 2)) (max (suc a % 2) (b % 2)) (omega arith)
    ∙ unfold bit in refl
bit-digits_or (suc n) (suc a) b (suc i) h =
    bit_next (digits (λ y. y) max n (suc a / 2) (b / 2)) (max (suc a % 2) (b % 2)) i (omega arith)
    ∙ bit-digits_or n (suc a / 2) (b / 2) i (omega arith)
    ∙ unfold bit in refl

bit-digits_and : (n a b i : ℕ) → a ≤ n → bit (digits (λ y. 0) min n a b) i ≡ min (bit a i) (bit b i)
bit-digits_and zero zero b i h = omega (arith, bit_of_zero i)
bit-digits_and zero (suc a) b i h = absurd (omega arith)
bit-digits_and (suc n) zero b i h = omega (arith, bit_of_zero i)
bit-digits_and (suc n) (suc a) b zero h =
    bit_first (digits (λ y. 0) min n (suc a / 2) (b / 2)) (min (suc a % 2) (b % 2)) (omega arith)
    ∙ unfold bit in refl
bit-digits_and (suc n) (suc a) b (suc i) h =
    bit_next (digits (λ y. 0) min n (suc a / 2) (b / 2)) (min (suc a % 2) (b % 2)) i (omega arith)
    ∙ bit-digits_and n (suc a / 2) (b / 2) i (omega arith)
    ∙ unfold bit in refl

pub bit-bit_or : (a b i : ℕ) → bit (bit_or a b) i ≡ max (bit a i) (bit b i)
bit-bit_or a b i = ap (λ x. bit x i) (bit_or-bitwise a b) ∙ bit-digits_or a a b i (omega arith)

pub bit-bit_and : (a b i : ℕ) → bit (bit_and a b) i ≡ min (bit a i) (bit b i)
bit-bit_and a b i = ap (λ x. bit x i) (bit_and-bitwise a b) ∙ bit-digits_and a a b i (omega arith)

-- A single bit.
pub bit-pow_self : (k : ℕ) → bit (2 ^ k) k ≡ 1
unfolding bit
bit-pow_self zero = refl
bit-pow_self (suc k) =
    let e : 2 ^ suc k / 2 ≡ 2 ^ k = omega (arith, pow-succ' 2 k) in
    ap (λ x. bit x k) e ∙ bit-pow_self k

pub bit-pow_ne : (k i : ℕ) → k ≢ i → bit (2 ^ k) i ≡ 0
unfolding bit
bit-pow_ne zero zero h = absurd (h refl)
bit-pow_ne zero (suc i) h = bit_of_zero i
bit-pow_ne (suc k) zero h = omega (arith, pow-succ' 2 k)
bit-pow_ne (suc k) (suc i) h =
    let e : 2 ^ suc k / 2 ≡ 2 ^ k = omega (arith, pow-succ' 2 k) in
    ap (λ x. bit x i) e ∙ bit-pow_ne k i (λ p. h (ap suc p))

-- The complement in a word of `w` bits.
pub bit-complement : (w x i : ℕ) → x < 2 ^ w → i < w → bit (2 ^ w - 1 - x) i ≡ 1 - bit x i
unfolding bit
bit-complement zero x i hx hi = absurd (omega arith)
bit-complement (suc w) x zero hx hi = omega (arith, pow-succ' 2 w)
bit-complement (suc w) x (suc i) hx hi =
    let e : (2 ^ suc w - 1 - x) / 2 ≡ 2 ^ w - 1 - x / 2 = omega (arith, pow-succ' 2 w) in
    ap (λ y. bit y i) e ∙ bit-complement w (x / 2) i (omega (arith, pow-succ' 2 w)) (omega arith)

-- A number is zero when its bits below a bound on it are.
eq_zero_of_bits : (w x : ℕ) → x < 2 ^ w → ((i : ℕ) → i < w → bit x i ≡ 0) → x ≡ 0
eq_zero_of_bits zero x h all = omega arith
eq_zero_of_bits (suc w) x h all =
    let half : x / 2 ≡ 0 =
      eq_zero_of_bits w (x / 2) (omega (arith, pow-succ' 2 w))
        (λ i hi. unfold bit in all (suc i) (omega arith)) in
    let low : x % 2 ≡ 0 = unfold bit in all 0 (omega arith) in omega arith

lt-pow : (n : ℕ) → n < 2 ^ n
lt-pow zero = omega arith
lt-pow (suc n) = omega (arith, lt-pow n, pow-succ' 2 n)

bit-bit_and' : (x k i : ℕ) → bit x k ≡ 0 → bit (bit_and x (2 ^ k)) i ≡ 0
bit-bit_and' x k i h = elim (ℕ_discrete k i) [
  | yes e ↦ omega (arith, bit-bit_and x (2 ^ k) i, ap (bit x) e)
  | no ne ↦ omega (arith, bit-bit_and x (2 ^ k) i, bit-pow_ne k i ne)
]

bit_and_zero : (x k : ℕ) → bit x k ≡ 0 → bit_and x (2 ^ k) ≡ 0
bit_and_zero x k h =
    eq_zero_of_bits (bit_and x (2 ^ k)) (bit_and x (2 ^ k)) (lt-pow _) (λ i _. bit-bit_and' x k i h)

bit_and_pos : (x k : ℕ) → bit x k ≡ 1 → bit_and x (2 ^ k) ≢ 0
bit_and_pos x k h e =
    omega (arith, bit-bit_and x (2 ^ k) k, bit-pow_self k, ap (λ y. bit y k) e, bit_of_zero k)

-- The C test `(1 << i) & x`.
unfoldable pub has : ℕ → ℕ → Bool
has x i = bit_and x (2 ^ i) /= 0

-- `x | 1 << i`
unfoldable pub with_bit : ℕ → ℕ → ℕ
with_bit x i = bit_or x (2 ^ i)

-- `x & (~ (1 << i))` in a 32-bit word
unfoldable pub without_bit : ℕ → ℕ → ℕ
without_bit x i = bit_and x (2 ^ 32 - 1 - 2 ^ i)

has-bit : (x i : ℕ) → has x i ≡ (bit x i == 1)
unfolding has
has-bit x i = elim (ℕ_discrete (bit x i) 1) [
  | yes e ↦ ground (arith, bit_and_pos x i e, e)
  | no ne ↦ ground (arith, bit_and_zero x i (omega (arith, bit-lt-two x i)), ne)
]

pub has-with_bit : (x k i : ℕ) → has (with_bit x k) i ≡ (has x i || k == i)
unfolding with_bit
has-with_bit x k i = elim (ℕ_discrete k i) [
  | yes e ↦ ground (
    arith,
    has-bit (bit_or x (2 ^ k)) i,
    has-bit x i,
    bit-bit_or x (2 ^ k) i,
    bit-pow_self k,
    bit-lt-two x i,
    ap (λ j. bit (2 ^ k) j) e,
  )
  | no ne ↦
      ground (
        arith,
        has-bit (bit_or x (2 ^ k)) i,
        has-bit x i,
        bit-bit_or x (2 ^ k) i,
        bit-pow_ne k i ne,
      )
]

pow-lt-word : (k : ℕ) → k < 32 → 2 ^ k < 2 ^ 32
pow-lt-word k h = omega (
  arith,
  pow-le-pow_right {n = 2} (omega arith) {i = suc k} {j = 32} h,
  pow-succ' 2 k,
  one-le-pow k 2 (omega arith),
)

pub has-without_bit :
    (x k i : ℕ) → k < 32 → i < 32 → has (without_bit x k) i ≡ (has x i && not (k == i))
unfolding without_bit
has-without_bit x k i hk hi = elim (ℕ_discrete k i) [
  | yes e ↦ ground (
    arith,
    has-bit (bit_and x (2 ^ 32 - 1 - 2 ^ k)) i,
    has-bit x i,
    bit-bit_and x (2 ^ 32 - 1 - 2 ^ k) i,
    bit-complement 32 (2 ^ k) i (pow-lt-word k hk) hi,
    bit-pow_self k,
    bit-lt-two x i,
    ap (λ j. bit (2 ^ k) j) e,
  )
  | no ne ↦ ground (
    arith,
    has-bit (bit_and x (2 ^ 32 - 1 - 2 ^ k)) i,
    has-bit x i,
    bit-bit_and x (2 ^ 32 - 1 - 2 ^ k) i,
    bit-complement 32 (2 ^ k) i (pow-lt-word k hk) hi,
    bit-pow_ne k i ne,
    bit-lt-two x i,
  )
]

pub has-zero : (i : ℕ) → has 0 i ≡ false
has-zero i = has-bit 0 i ∙ ground (arith, bit_of_zero i)
