-- ===== src/Spinlock.antt =====
-- kernel/spinlock.c: spin locks, and the nesting of interrupt disabling, over all CPUs.
-- A function runs on one CPU. `acquire` and `release` are cut at their accesses to the lock that
-- another CPU can see, and a round of the spinning of `acquire` is a step that may be tried again.
pub mod Exclusion
pub mod Nesting
mod Tests
use noy_hadar.Base.{
  ℕ, zero, suc, ◌+◌, ◌-◌, ◌==◌, ltb, if◌then◌else◌, Bool, true, false, not, ◌&&◌, Option, none,
  some, update,
}

-- The fields of `struct cpu` that locks use, and the CPU's interrupt enable bit.
pub record Cpu : Type 0 where
  pub noff : ℕ
  pub intena : Bool
  pub interrupts : Bool

-- `struct spinlock`; `cpu` is 0 for none, and one more than the CPU's number else.
pub record Spinlock : Type 0 where
  pub locked : Bool
  pub cpu : ℕ

pub initlock : Spinlock
initlock = record { locked = false; cpu = 0 }

pub push_off : Cpu → Cpu
push_off c = record {
  noff = c.noff + 1;
  intena = if c.noff == 0 then c.interrupts else c.intena;
  interrupts = false;
}

-- `none` is a panic.
pub pop_off : Cpu → Option Cpu
pop_off c =
    if c.interrupts
    then none
    else if ltb c.noff 1
    then none
    else some (record c { noff = c.noff - 1; interrupts = (c.noff - 1) == 0 && c.intena })

-- Both reads of the lock in one step: no other CPU makes `lk->cpu` this one.
pub holding : ℕ → Spinlock → Bool
holding id lk = lk.locked && lk.cpu == suc id

-- `acquire` before it spins; `none` is a panic.
pub acquire_start : ℕ → Spinlock → Cpu → Option Cpu
unfolding push_off holding
acquire_start id lk c = if holding id lk then none else some (push_off c)

-- One execution of the atomic swap: the value that was there, and the lock.
pub test_and_set : Spinlock → Bool × Spinlock
test_and_set lk = (lk.locked, record lk { locked = true })

-- `acquire` behind its loop: `lk->cpu = mycpu()`.
pub acquire_finish : ℕ → Spinlock → Spinlock
acquire_finish id lk = record lk { cpu = suc id }

-- `release` up to `lk->cpu = 0`; `none` is a panic.
pub release_start : ℕ → Spinlock → Option Spinlock
unfolding holding
release_start id lk = if holding id lk then some (record lk { cpu = 0 }) else none

-- The atomic store that ends `release`, and `pop_off` behind it; `none` is a panic.
pub release_finish : Spinlock → Cpu → Option (Spinlock × Cpu)
unfolding pop_off
release_finish lk c = elim (pop_off c) [
  | none ↦ none
  | some c' ↦ some (record lk { locked = false }, c')
]
