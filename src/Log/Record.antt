-- ===== src/Log/Record.antt =====
-- `log_write` of kernel/log.c: which blocks the header lists, and absorption.
use noy_hadar.Base.{
  ℕ_discrete, update_self, update_ne, ne→==-false, ℕ, zero, suc, ◌+◌, ◌≤◌, ◌<◌, ◌==◌, false, some,
  update, ◌≡◌, ◌≢◌, ◌⊎◌, inl, inr, refl, sym, ◌∙◌, arith, subst, Bool-cases, ==_iff, ==-false→ne,
}
use noy_hadar.Log.{Log, find_block, record_block, log_write}

-- `find_block` returns the first index at which `b` stands, or the end.
record Found (block : ℕ → ℕ) (b from to k : ℕ) : Type 0 where
  above : from ≤ k
  below : k ≤ to
  here : k < to → block k ≡ b
  before : (m : ℕ) → from ≤ m → m < k → block m ≢ b

find_block-Found :
    (block : ℕ → ℕ) (b rounds i to : ℕ)
    → i + rounds ≡ to
    → Found block b i to (find_block block b rounds i)
unfolding find_block
find_block-Found block b zero i to e = record {
  above = omega arith;
  below = omega arith;
  here = λ h. absurd (omega arith);
  before = λ m p q. absurd (omega arith);
}
find_block-Found block b (suc rounds) i to e = elim (Bool-cases (block i == b)) [
  | inl hit ↦
      rw (hit, find_block)
        (record {
          above = omega arith;
          below = omega arith;
          here = λ _. (==_iff (block i) b).0 hit;
          before = λ m p q. absurd (omega arith);
        })
  | inr miss ↦
      rw (miss, find_block) (later (find_block-Found block b rounds (i + 1) to (omega arith)) miss)
]
  where
    later : {k : ℕ} → Found block b (i + 1) to k → (block i == b) ≡ false → Found block b i to k
    later {k} f miss = record {
      above = omega (arith, f.above);
      below = f.below;
      here = f.here;
      before = λ m p q. elim (ℕ_discrete i m) [
        | yes e ↦ subst (λ (x : ℕ). block x ≢ b) e (==-false→ne (block i) b miss)
        | no ne ↦ f.before m (omega arith) q
      ];
    }

-- No block is listed twice.
pub record IsDistinct (l : Log) : Type 0 where
  pub distinct : (i j : ℕ) → i < l.n → j < l.n → l.block i ≡ l.block j → i ≡ j

-- What `log_write` does with the list of blocks.
pub record Recorded (b : ℕ) (l l' : Log) : Type 0 where
  pub place : ℕ
  pub place_in : place < l'.n
  pub listed : l'.block place ≡ b
  pub kept : (i : ℕ) → i < l.n → l'.block i ≡ l.block i
  pub grown : (l'.n ≡ l.n) ⊎ ((l'.n ≡ l.n + 1) × ((i : ℕ) → i < l.n → l.block i ≢ b))
  pub unique : IsDistinct l'

record_block-Recorded :
    (b k : ℕ) (l : Log) → IsDistinct l → Found l.block b 0 l.n k → Recorded b l (record_block b k l)
unfolding record_block
record_block-Recorded b k l u f = elim (ℕ_discrete k l.n) [
  | yes e ↦ rw ((==_iff k l.n).1 e) (record {
    place = k;
    place_in = omega arith;
    listed = update_self l.block k b;
    kept = λ i lt. update_ne l.block k b i (λ q. omega arith);
    grown = inr (refl, λ i lt. f.before i (omega arith) (omega arith));
    unique = record { distinct = λ i j p q r. apart i j r (omega arith) (omega arith) e };
  })
  | no ne ↦ rw (ne→==-false k l.n ne) (record {
    place = k;
    place_in = omega (arith, f.below);
    listed = update_self l.block k b;
    kept = same (omega (arith, f.below));
    grown = inl refl;
    unique = record {
      distinct = λ i j p q r.
          u.distinct i j p q
            (sym (same (omega (arith, f.below)) i p) ∙ r ∙ same (omega (arith, f.below)) j q);
    };
  })
]
  where
    same : k < l.n → (i : ℕ) → i < l.n → update l.block k b i ≡ l.block i
    same lt i _ = elim (ℕ_discrete k i) [
      | yes e ↦
          subst (λ (m : ℕ). update l.block k b m ≡ l.block m) e
            (update_self l.block k b ∙ sym (f.here lt))
      | no away ↦ update_ne l.block k b i away
    ]

    apart :
        (i j : ℕ)
        → update l.block k b i ≡ update l.block k b j
        → i ≤ l.n
        → j ≤ l.n
        → k ≡ l.n
        → i ≡ j
    apart i j r p q e = ground (arith, u.distinct i j, f.before i, f.before j)

log_write-eq :
    (b : ℕ) (l : Log) {l' : Log}
    → log_write b l ≡ some l'
    → l' ≡ record_block b (find_block l.block b l.n 0) l
unfolding log_write
log_write-eq b l e = ground arith

-- If no block is listed twice, a `log_write` that does not panic lists the block, leaves no block
-- listed twice, and keeps what the list held; it adds an entry only for a block not listed yet.
pub log_write-Recorded :
    (b : ℕ) (l : Log) {l' : Log} → IsDistinct l → log_write b l ≡ some l' → Recorded b l l'
log_write-Recorded b l u e = subst (Recorded b l) (sym (log_write-eq b l e)) (
    record_block-Recorded b (find_block l.block b l.n 0) l u
      (find_block-Found l.block b l.n 0 l.n (omega arith)))
