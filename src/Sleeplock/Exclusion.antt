-- ===== src/Sleeplock/Exclusion.antt =====
-- Processes that contend for one lock of kernel/sleeplock.c.
use noy_hadar.Base.{ℕ, ◌==◌, if◌then◌else◌, Bool, true, false, ◌&&◌, ◌≡◌, arith, update}
use noy_hadar.Proc.{Proc}
use noy_hadar.Ptable.{Ptable, is_sleeping, is_running, sleep, wakeup, wake_one}
use noy_hadar.Sleeplock.{Sleeplock, initsleeplock, acquiresleep, releasesleep}

-- Whether a process sleeps on a channel.
abbrev pub sleeps_on : ℕ → Proc → Bool
sleeps_on chan p = is_sleeping p.state && p.chan == chan

-- The lock, the table, and which processes are between `acquiresleep` and `releasesleep`.
pub record System (K : Type 0) : Type 0 where
  pub lock : Sleeplock
  pub table : Ptable K
  pub inside : ℕ → Bool

module _ {K : Type 0} where
  abbrev pub enter : ℕ → Bool × Sleeplock × Ptable K → System K → System K
  enter i r s = record {
    lock = r.1;
    table = r.2;
    inside = if r.0 then update s.inside i true else s.inside;
  }

  abbrev pub leave : ℕ → Sleeplock × Ptable K → System K → System K
  leave i r s = record { lock = r.0; table = r.1; inside = update s.inside i false }

  -- A running process calls `acquiresleep`, or goes on in its loop; the holder calls
  -- `releasesleep`; or the table changes and nobody goes to sleep on the lock.
  pub data Step (chan : ℕ) (s : System K) : System K → Type 0 where
    acquires :
        (i : ℕ)
        → is_running (s.table.procs i).state ≡ true
        → s.inside i ≡ false
        → Step chan s (enter i (acquiresleep chan i s.lock s.table) s)
    releases :
        (i : ℕ)
        → is_running (s.table.procs i).state ≡ true
        → s.inside i ≡ true
        → Step chan s (leave i (releasesleep chan i s.lock s.table) s)
    elsewhere :
        (t' : Ptable K)
        → ((a : ℕ) → sleeps_on chan (t'.procs a) ≡ true → sleeps_on chan (s.table.procs a) ≡ true)
        → Step chan s (record s { table = t' })

  pub data Reach (chan : ℕ) (start : System K) : System K → Type 0 where
    here : Reach chan start start
    next : {s u : System K} → Reach chan start s → Step chan s u → Reach chan start u

  record Held (chan : ℕ) (s : System K) : Type 0 where
    holder : (a : ℕ) → s.inside a ≡ true → s.lock.locked ≡ true
    one : (a b : ℕ) → s.inside a ≡ true → s.inside b ≡ true → a ≡ b
    waiter : (a : ℕ) → sleeps_on chan (s.table.procs a) ≡ true → s.lock.locked ≡ true

  acquires-Held :
      (chan i : ℕ) (s : System K)
      → is_running (s.table.procs i).state ≡ true
      → Held chan s
      → Held chan (enter i (acquiresleep chan i s.lock s.table) s)
  unfolding acquiresleep sleep
  acquires-Held chan i s run v = record {
    holder = λ a h. ground (arith, v.holder a);
    one = λ a b h h'. ground (arith, v.one a b, v.holder a, v.holder b);
    waiter = λ a h. ground (arith, v.waiter a);
  }

  releases-Held :
      (chan i : ℕ) (s : System K)
      → is_running (s.table.procs i).state ≡ true
      → s.inside i ≡ true
      → Held chan s
      → Held chan (leave i (releasesleep chan i s.lock s.table) s)
  unfolding releasesleep wakeup wake_one
  releases-Held chan i s run in_ v = record {
    holder = λ a h. ground (arith, v.one a i);
    one = λ a b h h'. ground (arith, v.one a b);
    waiter = λ a h. ground arith;
  }

  Step-Held : (chan : ℕ) {s u : System K} → Step chan s u → Held chan s → Held chan u
  Step-Held chan {s} (Step.acquires i run out) v = acquires-Held chan i s run v
  Step-Held chan {s} (Step.releases i run in_) v = releases-Held chan i s run in_ v
  Step-Held chan {s} (Step.elsewhere t' calm) v = record {
    holder = v.holder;
    one = v.one;
    waiter = λ a h. v.waiter a (calm a h);
  }

  Reach-Held : (chan : ℕ) {start s : System K} → Reach chan start s → Held chan start → Held chan s
  Reach-Held chan Reach.here v = v
  Reach-Held chan (Reach.next r st) v = Step-Held chan st (Reach-Held chan r v)

  -- From a lock just initialised, that nobody sleeps on, however the processes run: at most one
  -- process is between `acquiresleep` and `releasesleep`, and while a process sleeps on the lock,
  -- the lock is held, so that no wakeup was missed.
  pub one_holder :
      (chan : ℕ) (t : Ptable K) {s : System K}
      → ((a : ℕ) → sleeps_on chan (t.procs a) ≡ false)
      → Reach chan (record { lock = initsleeplock; table = t; inside = λ _. false }) s
      → ((a b : ℕ) → s.inside a ≡ true → s.inside b ≡ true → a ≡ b)
        × ((a : ℕ) → sleeps_on chan (s.table.procs a) ≡ true → s.lock.locked ≡ true)
  one_holder chan t calm r =
      let v = Reach-Held chan r (record {
        holder = λ a h. absurd (cc);
        one = λ a b h h'. absurd (cc);
        waiter = λ a h. absurd (cc (h, calm a));
      }) in
      (v.one, v.waiter)
