-- ===== src/Semaphore.antt =====
-- The binary semaphores of kernel/proc.c. Each call holds `bsem_lock`; `bsem_down` gives it up
-- where it sleeps on a slot of the table, and when woken goes on at that slot with `down_at`.
-- `nextsid` is the 32 bits of an `int`, and wraps.
pub mod Ids
pub mod Reach
pub mod Calls
pub mod Cycle
mod Tests
use noy_hadar.Base.{
  ℕ, zero, suc, ◌+◌, ◌%◌, ◌^◌, ◌==◌, if◌then◌else◌, Bool, true, false, not, ◌&&◌, Option, none,
  some, update,
}

abbrev pub max_bsem : ℕ
max_bsem = 128

-- `struct semaphore`
pub record Semaphore : Type 0 where
  pub id : ℕ
  pub is_locked : Bool
  pub is_used : Bool

-- `binSemArray` and `nextsid`
pub record Bsems : Type 0 where
  pub slot : ℕ → Semaphore
  pub nextsid : ℕ

-- Both as the kernel starts.
pub at_boot : Bsems
at_boot = record { slot = λ _. record { id = 0; is_locked = false; is_used = false }; nextsid = 1 }

-- The loops over the table: the first slot from `i` on that passes a test.
pub find_slot : (Semaphore → Bool) → (ℕ → Semaphore) → ℕ → ℕ → Option ℕ
find_slot test slot zero i = none
find_slot test slot (suc rounds) i = elim (test (slot i)) [
  | true ↦ some i
  | false ↦ find_slot test slot rounds (i + 1)
]

-- `bsem_alloc` with `allocsid`, for the slot that its loop finds.
pub alloc_at : ℕ → Bsems → Bsems
alloc_at i b = record {
  slot = update b.slot i (record { id = b.nextsid; is_locked = false; is_used = true });
  nextsid = (b.nextsid + 1) % 2 ^ 32;
}

-- `none` is -1.
pub bsem_alloc : Bsems → Option ℕ × Bsems
unfolding alloc_at
bsem_alloc b = elim (find_slot (λ s. not s.is_used) b.slot max_bsem 0) [
  | none ↦ (none, b)
  | some i ↦ (some b.nextsid, alloc_at i b)
]

pub free_at : ℕ → Bsems → Bsems
free_at i b = record b {
  slot = update b.slot i (record { id = 0; is_locked = false; is_used = false });
}

pub bsem_free : ℕ → Bsems → Bsems
unfolding free_at
bsem_free bsem_id b = elim (find_slot (λ s. s.id == bsem_id) b.slot max_bsem 0) [
  | none ↦ b
  | some i ↦ free_at i b
]

pub set_locked : Bool → ℕ → Bsems → Bsems
set_locked v i b = record b { slot = update b.slot i (record (b.slot i) { is_locked = v }) }

-- How `bsem_down` goes on: it returns, or it sleeps on a slot.
pub data Down : Type 0 where
  returned : Down
  asleep : ℕ → Down

-- The inner loop of `bsem_down`, from its test on.
pub down_at : ℕ → Bsems → Down × Bsems
unfolding set_locked
down_at i b =
    if (b.slot i).is_locked then (Down.asleep i, b) else (Down.returned, set_locked true i b)

pub bsem_down : ℕ → Bsems → Down × Bsems
unfolding down_at
bsem_down bsem_id b = elim (find_slot (λ s. s.id == bsem_id) b.slot max_bsem 0) [
  | none ↦ (Down.returned, b)
  | some i ↦ down_at i b
]

-- The slot whose sleepers are woken, if any. The loop goes on behind a slot that is not locked.
pub bsem_up : ℕ → Bsems → Option ℕ × Bsems
unfolding set_locked
bsem_up bsem_id b = elim (find_slot (λ s. s.id == bsem_id && s.is_locked) b.slot max_bsem 0) [
  | none ↦ (none, b)
  | some i ↦ (some i, set_locked false i b)
]
