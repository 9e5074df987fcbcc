-- ===== src/Semaphore/Ids.antt =====
-- The numbers of the semaphores of kernel/proc.c, through any sequence of calls.
use noy_hadar.Base.{
  ℕ, zero, suc, ◌+◌, ◌%◌, ◌^◌, ◌≤◌, ◌<◌, Bool, true, false, none, some, ◌≡◌, ◌≢◌, inl, inr, refl,
  ap, sym, ◌∙◌, arith, Bool-cases, some_inj, none-some,
}
use noy_hadar.Semaphore.{Semaphore, Bsems, find_slot, alloc_at, free_at, set_locked}

-- The loop over the table returns a slot that passes the test.
pub record Passes (test : Semaphore → Bool) (slot : ℕ → Semaphore) (from to k : ℕ) : Type 0 where
  pub above : from ≤ k
  pub below : k < to
  pub passed : test (slot k) ≡ true

pub find_slot-Passes :
    (test : Semaphore → Bool) (slot : ℕ → Semaphore) (rounds i to : ℕ) {k : ℕ}
    → i + rounds ≡ to
    → find_slot test slot rounds i ≡ some k
    → Passes test slot i to k
unfolding find_slot
find_slot-Passes test slot zero i to e h = absurd (none-some h)
find_slot-Passes test slot (suc rounds) i to {k} e h = elim (Bool-cases (test (slot i))) [
  | inl hit ↦
      let at : i ≡ k = some_inj (rw (hit, find_slot) at h) in
      record {
        above = omega arith;
        below = omega arith;
        passed = ap (λ (m : ℕ). test (slot m)) (sym at) ∙ hit;
      }
  | inr miss ↦
      let p : Passes test slot (i + 1) to k =
        find_slot-Passes test slot rounds (i + 1) to (omega arith) (rw (miss, find_slot) at h) in
      record { above = omega (arith, p.above); below = p.below; passed = p.passed }
]

-- A slot that passes the test, and alone does, is the one that is found.
pub find_slot-only :
    (test : Semaphore → Bool) (slot : ℕ → Semaphore) (rounds i k : ℕ)
    → i ≤ k
    → k < i + rounds
    → test (slot k) ≡ true
    → ((j : ℕ) → i ≤ j → j < i + rounds → test (slot j) ≡ true → j ≡ k)
    → find_slot test slot rounds i ≡ some k
unfolding find_slot
find_slot-only test slot zero i k a b t u = absurd (omega arith)
find_slot-only test slot (suc rounds) i k a b t u = elim (Bool-cases (test (slot i))) [
  | inl hit ↦ rw (hit, find_slot) (ap some (u i (omega arith) (omega arith) hit))
  | inr miss ↦
      rw (miss, find_slot)
        (find_slot-only test slot rounds (i + 1) k (omega (arith, other miss)) (omega arith) t
          (λ j c d q. u j (omega arith) (omega arith) q))
]
  where
    other : test (slot i) ≡ false → i ≢ k
    other miss e = cc (ap (λ (m : ℕ). test (slot m)) e)

pub find_slot-none :
    (test : Semaphore → Bool) (slot : ℕ → Semaphore) (rounds i : ℕ)
    → ((j : ℕ) → i ≤ j → j < i + rounds → test (slot j) ≡ false)
    → find_slot test slot rounds i ≡ none
unfolding find_slot
find_slot-none test slot zero i u = refl
find_slot-none test slot (suc rounds) i u =
    rw (u i (omega arith) (omega arith), find_slot)
      (find_slot-none test slot rounds (i + 1) (λ j a b. u j (omega arith) (omega arith)))

-- The semaphores in use have numbers of their own, from 1 on; the others have number 0.
pub record IsValid (b : Bsems) : Type 0 where
  pub next : 0 < b.nextsid
  pub unused : (i : ℕ) → (b.slot i).is_used ≡ false → (b.slot i).id ≡ 0
  pub used : (i : ℕ) → (b.slot i).is_used ≡ true → (0 < (b.slot i).id) × ((b.slot i).id < b.nextsid)
  pub distinct :
      (i j : ℕ)
      → (b.slot i).is_used ≡ true
      → (b.slot j).is_used ≡ true
      → (b.slot i).id ≡ (b.slot j).id
      → i ≡ j

pub alloc_at-IsValid :
    (i : ℕ) (b : Bsems) → b.nextsid + 1 < 2 ^ 32 → IsValid b → IsValid (alloc_at i b)
unfolding alloc_at
alloc_at-IsValid i b small v =
    let step : (b.nextsid + 1) % 2 ^ 32 ≡ b.nextsid + 1 = omega arith in
    record {
      next = omega (arith, step);
      unused = λ j h. ground (arith, v.unused j);
      used = λ j h. ground (arith, step, v.used j, v.next);
      distinct = λ j k h h' e. ground (arith, v.distinct j k, v.used j, v.used k);
    }

pub free_at-IsValid : (i : ℕ) (b : Bsems) → IsValid b → IsValid (free_at i b)
unfolding free_at
free_at-IsValid i b v = record {
  next = v.next;
  unused = λ j h. ground (arith, v.unused j);
  used = λ j h. ground (arith, v.used j);
  distinct = λ j k h h' e. ground (arith, v.distinct j k);
}

pub set_locked-IsValid : (x : Bool) (i : ℕ) (b : Bsems) → IsValid b → IsValid (set_locked x i b)
unfolding set_locked
set_locked-IsValid x i b v = record {
  next = v.next;
  unused = λ j h. ground (arith, v.unused j);
  used = λ j h. ground (arith, v.used j);
  distinct = λ j k h h' e. ground (arith, v.distinct j k, ap (λ (s : Semaphore). s.id) refl);
}
