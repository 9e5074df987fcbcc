-- ===== src/Semaphore/Tests.antt =====
-- Runs of the binary semaphores of kernel/proc.c.
use noy_hadar.Base.{ℕ, ◌<◌, true, false, some, ◌≡◌, ◌≢◌, refl, arith}
use noy_hadar.Semaphore.{
  Bsems, max_bsem, at_boot, find_slot, alloc_at, bsem_alloc, bsem_free, Down, bsem_down, bsem_up,
}
use noy_hadar.Semaphore.Reach.{Reach}
use noy_hadar.Semaphore.Calls.{OnlySlot, Downed, Upped, calls_find_slot}
use noy_hadar.Semaphore.Cycle.{down_up, alloc_fresh}

abbrev one_semaphore : Bsems
one_semaphore = alloc_at 0 at_boot

first_alloc : bsem_alloc at_boot ≡ (some 1, one_semaphore)
unfolding bsem_alloc at_boot find_slot alloc_at
first_alloc = refl

one_semaphore-Reach : Reach 1 one_semaphore
unfolding bsem_alloc at_boot find_slot alloc_at
one_semaphore-Reach = Reach.allocated Reach.booted

in_use : (one_semaphore.slot 0).is_used ≡ true
unfolding at_boot alloc_at
in_use = refl

is_open : (one_semaphore.slot 0).is_locked ≡ false
unfolding at_boot alloc_at
is_open = refl

calls_find_slot_example :
    Downed 0 one_semaphore
      (one_semaphore.slot 0).is_locked
      (bsem_down (one_semaphore.slot 0).id one_semaphore)
    × OnlySlot 0
        (record { id = 0; is_locked = false; is_used = false })
        one_semaphore
        (bsem_free (one_semaphore.slot 0).id one_semaphore)
    × Upped 0 one_semaphore
        (one_semaphore.slot 0).is_locked
        (bsem_up (one_semaphore.slot 0).id one_semaphore)
calls_find_slot_example = calls_find_slot 0 one_semaphore-Reach (omega arith) (omega arith) in_use

down_then_up :
    (taken : Bsems) × (bsem_down (one_semaphore.slot 0).id one_semaphore ≡ (Down.returned, taken))
    × (bsem_down (one_semaphore.slot 0).id taken ≡ (Down.asleep 0, taken))
    × (bsem_up (one_semaphore.slot 0).id taken ≡ (some 0, one_semaphore))
down_then_up = down_up 0 one_semaphore-Reach (omega arith) (omega arith) in_use is_open

alloc_one :
    ((i : ℕ) → (at_boot.slot i).is_used ≡ true → (at_boot.slot i).id ≢ 1)
    × (k : ℕ) × (k < max_bsem)
    × ((at_boot.slot k).is_used ≡ false)
    × (one_semaphore.slot k ≡ record { id = 1; is_locked = false; is_used = true })
    × ((j : ℕ) → k ≢ j → one_semaphore.slot j ≡ at_boot.slot j)
alloc_one = alloc_fresh 1 Reach.booted (omega arith) first_alloc
