-- ===== src/Semaphore/Reach.antt =====
-- The states of the semaphores of kernel/proc.c that calls lead to.
use noy_hadar.Base.{
  ℕ, ◌<◌, ◌==◌, true, false, not, ◌&&◌, ◌≡◌, inl, inr, refl, arith, ◌+◌, ◌^◌, ◌%◌, ◌≤◌, Bool-cases,
  Option-cases,
}
use noy_hadar.Semaphore.{
  Bsems, max_bsem, at_boot, find_slot, bsem_alloc, free_at, bsem_free, set_locked, down_at,
  bsem_down, bsem_up,
}
use noy_hadar.Semaphore.Ids.{IsValid, alloc_at-IsValid, free_at-IsValid, set_locked-IsValid}

-- Any sequence of calls by any processes, and of wake-ups of sleepers, with `allocs` calls of
-- `bsem_alloc`.
pub data Reach : ℕ → Bsems → Type 0 where
  booted : Reach 0 at_boot
  allocated : {allocs : ℕ} {b : Bsems} → Reach allocs b → Reach (allocs + 1) (bsem_alloc b).1
  freed :
      {allocs : ℕ} {b : Bsems} (bsem_id : ℕ) → Reach allocs b → Reach allocs (bsem_free bsem_id b)
  downed :
      {allocs : ℕ} {b : Bsems} (bsem_id : ℕ) → Reach allocs b → Reach allocs (bsem_down bsem_id b).1
  woken : {allocs : ℕ} {b : Bsems} (i : ℕ) → Reach allocs b → Reach allocs (down_at i b).1
  upped :
      {allocs : ℕ} {b : Bsems} (bsem_id : ℕ) → Reach allocs b → Reach allocs (bsem_up bsem_id b).1

-- What the next number is, too, before it wraps.
pub record IsCounted (allocs : ℕ) (b : Bsems) : Type 0 where
  pub valid : IsValid b
  pub count : b.nextsid ≤ allocs + 1

at_boot-IsValid : IsValid at_boot
unfolding at_boot
at_boot-IsValid = record {
  next = omega arith;
  unused = λ i h. refl;
  used = λ i h. absurd (cc);
  distinct = λ i j h h' e. absurd (cc);
}

down_at-IsValid : (i : ℕ) (b : Bsems) → IsValid b → IsValid (down_at i b).1
unfolding down_at
down_at-IsValid i b v = elim (Bool-cases (b.slot i).is_locked) [
  | inl locked ↦ simp locked v
  | inr open_slot ↦ simp open_slot (set_locked-IsValid true i b v)
]

bsem_alloc-IsCounted :
    (allocs : ℕ) (b : Bsems)
    → allocs + 2 < 2 ^ 32
    → IsCounted allocs b
    → IsCounted (allocs + 1) (bsem_alloc b).1
unfolding bsem_alloc
bsem_alloc-IsCounted allocs b small v =
    elim (Option-cases (find_slot (λ s. not s.is_used) b.slot max_bsem 0)) [
      | inl e ↦ rw (e, bsem_alloc) (record { valid = v.valid; count = omega (arith, v.count) })
      | inr (i, e) ↦
          rw (e, bsem_alloc)
            (record {
              valid = alloc_at-IsValid i b (omega (arith, v.count)) v.valid;
              count = alloc_at-count;
            })
    ]
  where
    alloc_at-count : (b.nextsid + 1) % 2 ^ 32 ≤ (allocs + 1) + 1
    alloc_at-count = omega (arith, v.count)

-- The other calls leave the next number.
free_same : (n : ℕ) (b : Bsems) → (bsem_free n b).nextsid ≡ b.nextsid
unfolding bsem_free free_at
free_same n b = elim (Option-cases (find_slot (λ s. s.id == n) b.slot max_bsem 0)) [
  | inl e ↦ rw (e, bsem_free)
  | inr (i, e) ↦ rw (e, bsem_free)
]

down_at_same : (i : ℕ) (b : Bsems) → (down_at i b).1.nextsid ≡ b.nextsid
unfolding down_at set_locked
down_at_same i b = elim (Bool-cases (b.slot i).is_locked) [ inl e ↦ simp e | inr e ↦ simp e ]

down_same : (n : ℕ) (b : Bsems) → (bsem_down n b).1.nextsid ≡ b.nextsid
unfolding bsem_down
down_same n b = elim (Option-cases (find_slot (λ s. s.id == n) b.slot max_bsem 0)) [
  | inl e ↦ rw (e, bsem_down)
  | inr (i, e) ↦ rw (e, bsem_down) (down_at_same i b)
]

up_same : (n : ℕ) (b : Bsems) → (bsem_up n b).1.nextsid ≡ b.nextsid
unfolding bsem_up set_locked
up_same n b = elim (Option-cases (find_slot (λ s. s.id == n && s.is_locked) b.slot max_bsem 0)) [
  | inl e ↦ rw (e, bsem_up)
  | inr (i, e) ↦ rw (e, bsem_up)
]

bsem_free-IsValid : (bsem_id : ℕ) (b : Bsems) → IsValid b → IsValid (bsem_free bsem_id b)
unfolding bsem_free
bsem_free-IsValid n b v = elim (Option-cases (find_slot (λ s. s.id == n) b.slot max_bsem 0)) [
  | inl e ↦ rw (e, bsem_free) v
  | inr (i, e) ↦ rw (e, bsem_free) (free_at-IsValid i b v)
]

bsem_down-IsValid : (bsem_id : ℕ) (b : Bsems) → IsValid b → IsValid (bsem_down bsem_id b).1
unfolding bsem_down
bsem_down-IsValid n b v = elim (Option-cases (find_slot (λ s. s.id == n) b.slot max_bsem 0)) [
  | inl e ↦ rw (e, bsem_down) v
  | inr (i, e) ↦ rw (e, bsem_down) (down_at-IsValid i b v)
]

bsem_up-IsValid : (bsem_id : ℕ) (b : Bsems) → IsValid b → IsValid (bsem_up bsem_id b).1
unfolding bsem_up
bsem_up-IsValid n b v =
    elim (Option-cases (find_slot (λ s. s.id == n && s.is_locked) b.slot max_bsem 0)) [
      | inl e ↦ rw (e, bsem_up) v
      | inr (i, e) ↦ rw (e, bsem_up) (set_locked-IsValid false i b v)
    ]

Reach-IsCounted :
    {allocs : ℕ} {b : Bsems} → Reach allocs b → allocs + 1 < 2 ^ 31 → IsCounted allocs b
Reach-IsCounted booted lt = record {
  valid = at_boot-IsValid;
  count = unfold at_boot in omega arith;
}
Reach-IsCounted (allocated {allocs} {b} r) lt =
    bsem_alloc-IsCounted allocs b (omega arith) (Reach-IsCounted r (omega arith))
Reach-IsCounted (freed {b = b} n r) lt =
    let v = Reach-IsCounted r lt in
    record { valid = bsem_free-IsValid n b v.valid; count = omega (arith, v.count, free_same n b) }
Reach-IsCounted (downed {b = b} n r) lt =
    let v = Reach-IsCounted r lt in
    record { valid = bsem_down-IsValid n b v.valid; count = omega (arith, v.count, down_same n b) }
Reach-IsCounted (woken {b = b} i r) lt =
    let v = Reach-IsCounted r lt in
    record { valid = down_at-IsValid i b v.valid; count = omega (arith, v.count, down_at_same i b) }
Reach-IsCounted (upped {b = b} n r) lt =
    let v = Reach-IsCounted r lt in
    record { valid = bsem_up-IsValid n b v.valid; count = omega (arith, v.count, up_same n b) }

pub Reach-IsValid : {allocs : ℕ} {b : Bsems} → Reach allocs b → allocs + 1 < 2 ^ 31 → IsValid b
Reach-IsValid r lt = let v = Reach-IsCounted r lt in v.valid
