-- ===== src/Spinlock/Exclusion.antt =====
-- CPUs that acquire and release one lock of kernel/spinlock.c, interleaved at each access to it.
use noy_hadar.Base.{ℕ, suc, ◌<◌, Bool, true, false, none, some, update, ◌≡◌, ◌≢◌, refl, arith}
use noy_hadar.Spinlock.{
  Cpu, Spinlock, initlock, push_off, pop_off, holding, acquire_start, test_and_set, acquire_finish,
  release_start, release_finish,
}

-- Where a CPU stands: outside, in the loop of `acquire`, behind the swap that took the lock, with
-- the lock acquired, or within `release`.
pub data Pc : Type 0 where
  outside spinning taken held leaving : Pc

pub record System : Type 0 where
  pub lock : Spinlock
  pub cpu : ℕ → Cpu
  pub pc : ℕ → Pc

pub data Step (s : System) : System → Type 0 where
  start :
      (i : ℕ) (c : Cpu)
      → s.pc i ≡ Pc.outside
      → acquire_start i s.lock (s.cpu i) ≡ some c
      → Step s (record s { cpu = update s.cpu i c; pc = update s.pc i Pc.spinning })
  spin :
      (i : ℕ)
      → s.pc i ≡ Pc.spinning
      → (test_and_set s.lock).0 ≡ true
      → Step s (record s { lock = (test_and_set s.lock).1 })
  take :
      (i : ℕ)
      → s.pc i ≡ Pc.spinning
      → (test_and_set s.lock).0 ≡ false
      → Step s (record s { lock = (test_and_set s.lock).1; pc = update s.pc i Pc.taken })
  enter :
      (i : ℕ)
      → s.pc i ≡ Pc.taken
      → Step s (record s { lock = acquire_finish i s.lock; pc = update s.pc i Pc.held })
  leave :
      (i : ℕ) (lk : Spinlock)
      → s.pc i ≡ Pc.held
      → release_start i s.lock ≡ some lk
      → Step s (record s { lock = lk; pc = update s.pc i Pc.leaving })
  free :
      (i : ℕ) (lk : Spinlock) (c : Cpu)
      → s.pc i ≡ Pc.leaving
      → release_finish s.lock (s.cpu i) ≡ some (lk, c)
      → Step s (record s { lock = lk; cpu = update s.cpu i c; pc = update s.pc i Pc.outside })

-- The lock as `initlock` makes it, and CPUs in any state that are all outside.
pub data Reach : System → Type 0 where
  init : (cpu : ℕ → Cpu) → Reach (record { lock = initlock; cpu = cpu; pc = λ _. Pc.outside })
  next : {s t : System} → Reach s → Step s t → Reach t

-- From the swap that takes the lock to the store that frees it.
abbrev pub owns : Pc → Bool
owns Pc.outside = false
owns Pc.spinning = false
owns _ = true

record Inv (s : System) : Type 0 where
  locked : (i : ℕ) → owns (s.pc i) ≡ true → s.lock.locked ≡ true
  unique : (i j : ℕ) → owns (s.pc i) ≡ true → owns (s.pc j) ≡ true → i ≡ j
  named : (i : ℕ) → s.pc i ≡ Pc.held → s.lock.cpu ≡ suc i
  unnamed : (i : ℕ) → s.lock.cpu ≡ suc i → s.pc i ≡ Pc.held
  off : (i : ℕ) → s.pc i ≢ Pc.outside → (0 < (s.cpu i).noff) × ((s.cpu i).interrupts ≡ false)

Step-Inv : {s t : System} → Step s t → Inv s → Inv t
unfolding acquire_start push_off test_and_set acquire_finish release_start release_finish pop_off
Step-Inv {s} (start i c e g) v = record {
  locked = λ j h. ground (arith, v.locked j);
  unique = λ j k h h'. ground (arith, v.unique j k);
  named = λ j h. ground (arith, v.named j);
  unnamed = λ j h. ground (arith, v.unnamed j);
  off = λ j h. ground (arith, v.off j);
}
Step-Inv {s} (spin i e g) v = record {
  locked = λ j h. refl;
  unique = v.unique;
  named = v.named;
  unnamed = v.unnamed;
  off = v.off;
}
Step-Inv {s} (take i e g) v = record {
  locked = λ j h. refl;
  unique = λ j k h h'. ground (arith, v.unique j k, v.locked j, v.locked k);
  named = λ j h. ground (arith, v.named j);
  unnamed = λ j h. ground (arith, v.unnamed j);
  off = λ j h. ground (arith, v.off j);
}
Step-Inv {s} (enter i e) v = record {
  locked = λ j h. ground (arith, v.locked i);
  unique = λ j k h h'. ground (arith, v.unique j k, v.unique i j, v.unique i k);
  named = λ j h. ground (arith, v.named j, v.unique i j);
  unnamed = λ j h. ground (arith, v.unnamed j);
  off = λ j h. ground (arith, v.off j, v.off i);
}
Step-Inv {s} (leave i lk e g) v = record {
  locked = λ j h. ground (arith, v.locked j, v.locked i);
  unique = λ j k h h'. ground (arith, v.unique j k, v.unique i j, v.unique i k);
  named = λ j h. ground (arith, v.named j, v.unique i j);
  unnamed = λ j h. ground (arith, v.unnamed j);
  off = λ j h. ground (arith, v.off j, v.off i);
}
Step-Inv {s} (free i lk c e g) v = record {
  locked = λ j h. ground (arith, v.locked j, v.unique i j);
  unique = λ j k h h'. ground (arith, v.unique j k, v.unique i j, v.unique i k);
  named = λ j h. ground (arith, v.named j, v.unique i j);
  unnamed = λ j h. ground (arith, v.unnamed j);
  off = λ j h. ground (arith, v.off j, v.off i);
}

Reach-Inv : {s : System} → Reach s → Inv s
unfolding initlock
Reach-Inv (init cpu) = record {
  locked = λ j h. absurd (cc);
  unique = λ j k h h'. absurd (cc);
  named = λ j h. absurd (cc);
  unnamed = λ j h. absurd (omega arith);
  off = λ j h. absurd (h refl);
}
Reach-Inv (next r st) = Step-Inv st (Reach-Inv r)

-- However the CPUs interleave, two never own the lock together: between the swap that takes it and
-- the store that frees it there is at most one.
pub mutual_exclusion :
    {s : System} → Reach s → (i j : ℕ) → owns (s.pc i) ≡ true → owns (s.pc j) ≡ true → i ≡ j
mutual_exclusion r = (Reach-Inv r).unique

-- However the CPUs interleave, a CPU that releases the lock that it acquired passes the test of
-- `release` and those of `pop_off`, and interrupts are off on it from the start of `acquire` to the
-- end of `release`.
pub release_never_panics :
    {s : System}
    → Reach s
    → (i : ℕ)
    → (s.pc i ≡ Pc.held → release_start i s.lock ≢ none)
      × (s.pc i ≡ Pc.leaving → release_finish s.lock (s.cpu i) ≢ none)
      × (s.pc i ≢ Pc.outside → (s.cpu i).interrupts ≡ false)
unfolding release_start release_finish pop_off holding
release_never_panics {s} r i =
    let v = Reach-Inv r in
    (
      λ e q. ground (arith, v.named i, v.locked i),
      λ e q. ground (arith, v.off i),
      λ ne. (v.off i ne).1,
    )

-- However the CPUs interleave, `acquire` panics exactly when its own CPU holds the lock.
pub acquire_panics_iff :
    {s : System}
    → Reach s
    → (i : ℕ)
    → (s.pc i ≡ Pc.held → acquire_start i s.lock (s.cpu i) ≡ none)
      × (s.pc i ≢ Pc.held → acquire_start i s.lock (s.cpu i) ≢ none)
unfolding acquire_start holding
acquire_panics_iff {s} r i =
    let v = Reach-Inv r in
    (λ e. ground (arith, v.named i, v.locked i), λ ne q. ne (ground (arith, v.unnamed i)))
