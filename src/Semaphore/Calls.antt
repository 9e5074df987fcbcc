-- ===== src/Semaphore/Calls.antt =====
-- Which semaphore a call of kernel/proc.c works on, through any sequence of calls.
use noy_hadar.Base.{
  ℕ, ◌<◌, ◌==◌, if◌then◌else◌, Bool, true, false, ◌&&◌, none, some, ◌≡◌, inl, inr, refl, ap, ◌∙◌,
  arith, ◌+◌, ◌^◌, ◌≢◌, Option, sym, subst, update_self, update_ne, ==_iff, ==_refl, Bool-cases,
}
use noy_hadar.Semaphore.{
  Semaphore, Bsems, Down, max_bsem, find_slot, free_at, bsem_free, set_locked, down_at, bsem_down,
  bsem_up,
}
use noy_hadar.Semaphore.Reach.{Reach, Reach-IsValid}
use noy_hadar.Semaphore.Ids.{find_slot-only, find_slot-none, IsValid}

-- The slot of a semaphore in use is the only one with its number.
only_slot :
    (k j : ℕ) (b : Bsems)
    → IsValid b
    → (b.slot k).is_used ≡ true
    → ((b.slot j).id == (b.slot k).id) ≡ true
    → j ≡ k
only_slot k j b v u e = elim (Bool-cases (b.slot j).is_used) [
  | inl uj ↦ v.distinct j k uj u ((==_iff (b.slot j).id (b.slot k).id).0 e)
  | inr not_used ↦
      absurd (
        omega
          (arith, (v.used k u).0, v.unused j not_used, (==_iff (b.slot j).id (b.slot k).id).0 e))
]

find_id :
    (k : ℕ) (b : Bsems)
    → IsValid b
    → k < max_bsem
    → (b.slot k).is_used ≡ true
    → find_slot (λ s. s.id == (b.slot k).id) b.slot max_bsem 0 ≡ some k
find_id k b v lt u =
    find_slot-only (λ s. s.id == (b.slot k).id) b.slot max_bsem 0 k (omega arith) lt
      (==_refl (b.slot k).id) (λ j _ _ e. only_slot k j b v u e)

and_first : (x y : Bool) → (x && y) ≡ true → x ≡ true
and_first x y h = ground arith

find_locked :
    (k : ℕ) (b : Bsems)
    → IsValid b
    → k < max_bsem
    → (b.slot k).is_used ≡ true
    → find_slot (λ s. s.id == (b.slot k).id && s.is_locked) b.slot max_bsem 0
      ≡ (if (b.slot k).is_locked then some k else none)
find_locked k b v lt u = elim (Bool-cases (b.slot k).is_locked) [
  | inl locked ↦
      find_slot-only (λ s. s.id == (b.slot k).id && s.is_locked) b.slot max_bsem 0 k (omega arith)
        lt (ground (arith, locked))
        (λ j _ _ e.
          only_slot k j b v u (and_first ((b.slot j).id == (b.slot k).id) (b.slot j).is_locked e))
      ∙ ground (arith, locked)
  | inr open_slot ↦
      find_slot-none (λ s. s.id == (b.slot k).id && s.is_locked) b.slot max_bsem 0
        (λ j _ _. elim (Bool-cases ((b.slot j).id == (b.slot k).id)) [
          | inr ne ↦ ground (arith, ne)
          | inl e ↦
              ground
                (arith, ap (λ (m : ℕ). (b.slot m).is_locked) (only_slot k j b v u e), open_slot)
        ])
      ∙ ground (arith, open_slot)
]

down_found :
    (n k : ℕ) (b : Bsems)
    → find_slot (λ s. s.id == n) b.slot max_bsem 0 ≡ some k
    → bsem_down n b ≡ down_at k b
unfolding bsem_down
down_found n k b e = rw (e, bsem_down)

free_found :
    (n k : ℕ) (b : Bsems)
    → find_slot (λ s. s.id == n) b.slot max_bsem 0 ≡ some k
    → bsem_free n b ≡ free_at k b
unfolding bsem_free
free_found n k b e = rw (e, bsem_free)

up_found :
    (n k : ℕ) (locked : Bool) (b : Bsems)
    → find_slot (λ s. s.id == n && s.is_locked) b.slot max_bsem 0
      ≡ (if locked then some k else none)
    → bsem_up n b ≡ (if locked then (some k, set_locked false k b) else (none, b))
unfolding bsem_up
up_found n k true b e = rw (e, bsem_up)
up_found n k false b e = rw (e, bsem_up)

-- How each call ends on the slot that it works on, by the model's parts of the calls.
pub found_slot :
    {allocs : ℕ} {b : Bsems} (k : ℕ)
    → Reach allocs b
    → allocs + 1 < 2 ^ 31
    → k < max_bsem
    → (b.slot k).is_used ≡ true
    → (bsem_down (b.slot k).id b ≡ down_at k b)
      × (bsem_free (b.slot k).id b ≡ free_at k b)
      × (bsem_up (b.slot k).id b
          ≡ (if (b.slot k).is_locked then (some k, set_locked false k b) else (none, b)))
found_slot {b = b} k r small lt u =
    let v = Reach-IsValid r small in
    (
      down_found (b.slot k).id k b (find_id k b v lt u),
      free_found (b.slot k).id k b (find_id k b v lt u),
      up_found (b.slot k).id k (b.slot k).is_locked b (find_locked k b v lt u),
    )

-- Slot `k` becomes `s`, and nothing else changes.
pub record OnlySlot (k : ℕ) (s : Semaphore) (b b' : Bsems) : Type 0 where
  pub slot_at : b'.slot k ≡ s
  pub others : (j : ℕ) → k ≢ j → b'.slot j ≡ b.slot j
  pub next_number : b'.nextsid ≡ b.nextsid

set_locked-OnlySlot :
    (x : Bool) (k : ℕ) (b : Bsems)
    → OnlySlot k (record (b.slot k) { is_locked = x }) b (set_locked x k b)
unfolding set_locked
set_locked-OnlySlot x k b = record {
  slot_at = update_self b.slot k _;
  others = λ j ne. update_ne b.slot k _ j ne;
  next_number = refl;
}

free_at-OnlySlot :
    (k : ℕ) (b : Bsems)
    → OnlySlot k (record { id = 0; is_locked = false; is_used = false }) b (free_at k b)
unfolding free_at
free_at-OnlySlot k b = record {
  slot_at = update_self b.slot k _;
  others = λ j ne. update_ne b.slot k _ j ne;
  next_number = refl;
}

-- What a `bsem_down` does with slot `k`: it sleeps on a locked one, and locks an open one.
pub data Downed (k : ℕ) (b : Bsems) : Bool → Down × Bsems → Type 0 where
  sleeps : Downed k b true (Down.asleep k, b)
  takes :
      (b' : Bsems)
      → OnlySlot k (record (b.slot k) { is_locked = true }) b b'
      → Downed k b false (Down.returned, b')

-- What a `bsem_up` does with slot `k`: it opens a locked one and wakes its sleepers, and leaves an
-- open one.
pub data Upped (k : ℕ) (b : Bsems) : Bool → Option ℕ × Bsems → Type 0 where
  opens :
      (b' : Bsems)
      → OnlySlot k (record (b.slot k) { is_locked = false }) b b'
      → Upped k b true (some k, b')
  leaves : Upped k b false (none, b)

down_at-Downed : (k : ℕ) (b : Bsems) → Downed k b (b.slot k).is_locked (down_at k b)
unfolding down_at
down_at-Downed k b = elim (Bool-cases (b.slot k).is_locked) [
  | inl e ↦ rw e Downed.sleeps
  | inr e ↦ rw e (Downed.takes (set_locked true k b) (set_locked-OnlySlot true k b))
]

up-Upped :
    (k : ℕ) (b : Bsems) (locked : Bool)
    → Upped k b locked (if locked then (some k, set_locked false k b) else (none, b))
up-Upped k b true = Upped.opens (set_locked false k b) (set_locked-OnlySlot false k b)
up-Upped k b false = Upped.leaves

-- After any calls and wake-ups, in any order, of which fewer than 2^31 - 1 are of `bsem_alloc`, a
-- call with the number of the semaphore in use at slot `k` works on that slot, and no other slot
-- changes: `bsem_down` sleeps on it if it is locked and locks it otherwise, `bsem_free` clears it,
-- and `bsem_up` opens it and wakes its sleepers if it is locked and does nothing otherwise.
pub calls_find_slot :
    {allocs : ℕ} {b : Bsems} (k : ℕ)
    → Reach allocs b
    → allocs + 1 < 2 ^ 31
    → k < max_bsem
    → (b.slot k).is_used ≡ true
    → Downed k b (b.slot k).is_locked (bsem_down (b.slot k).id b)
      × OnlySlot k
          (record { id = 0; is_locked = false; is_used = false })
          b
          (bsem_free (b.slot k).id b)
      × Upped k b (b.slot k).is_locked (bsem_up (b.slot k).id b)
calls_find_slot {b = b} k r small lt u =
    let (down, free, up) = found_slot k r small lt u in
    (
      subst (Downed k b (b.slot k).is_locked) (sym down) (down_at-Downed k b),
      subst (OnlySlot k (record { id = 0; is_locked = false; is_used = false }) b) (sym free)
          (free_at-OnlySlot k b),
      subst (Upped k b (b.slot k).is_locked) (sym up) (up-Upped k b (b.slot k).is_locked),
    )
