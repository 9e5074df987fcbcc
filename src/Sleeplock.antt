-- ===== src/Sleeplock.antt =====
-- kernel/sleeplock.c: a lock whose waiters sleep, on the process table of `Ptable`. Each function
-- runs under the spin lock `lk->lk`; `acquiresleep` is cut where its loop sleeps.
pub mod Exclusion
mod Tests
use noy_hadar.Base.{ℕ, ◌==◌, if◌then◌else◌, Bool, true, false, ◌&&◌}
use noy_hadar.Ptable.{Ptable, sleep, wakeup}

pub record Sleeplock : Type 0 where
  pub locked : Bool
  pub pid : ℕ

abbrev pub initsleeplock : Sleeplock
initsleeplock = record { locked = false; pid = 0 }

module _ {K : Type 0} where
  -- One pass of the loop of `acquiresleep` by process `i`, for the lock at `chan`: whether it has
  -- the lock, or is asleep.
  unfoldable pub acquiresleep : ℕ → ℕ → Sleeplock → Ptable K → Bool × Sleeplock × Ptable K
  unfolding sleep
  acquiresleep chan i lk t =
      if lk.locked
      then (false, lk, sleep i chan t)
      else (true, record { locked = true; pid = (t.procs i).pid }, t)

  unfoldable pub releasesleep : ℕ → ℕ → Sleeplock → Ptable K → Sleeplock × Ptable K
  unfolding wakeup
  releasesleep chan i lk t = (record { locked = false; pid = 0 }, wakeup i chan t)

  unfoldable pub holdingsleep : ℕ → Sleeplock → Ptable K → Bool
  holdingsleep i lk t = lk.locked && lk.pid == (t.procs i).pid
