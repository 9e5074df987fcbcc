-- ===== src/Ptable.antt =====
-- The process table of kernel/proc.c: sleep, wakeup, the choices of the scheduler, and the end of
-- exit. A process is its index in `proc`; a channel
-- is a number, 0 for null and `own_chan i` for the address of process `i`. The state of the
-- other components is `K`. A function that
-- gives up its locks on the way is cut there into the parts that run with them.
pub mod Wakeup
pub mod Orphans
mod Tests
use noy_hadar.Base.{
  ℕ, zero, suc, ◌+◌, ◌==◌, if◌then◌else◌, Bool, true, false, not, ◌&&◌, ◌||◌, Option, none, some,
  List, [], ◌∷◌, update, map,
}
use noy_hadar.Proc.{Proc, ProcState}

abbrev pub nproc : ℕ
nproc = 64

abbrev pub own_chan : ℕ → ℕ
own_chan i = suc i

abbrev pub is_unused : ProcState → Bool
is_unused ProcState.unused = true
is_unused _ = false

abbrev pub is_sleeping : ProcState → Bool
is_sleeping ProcState.sleeping = true
is_sleeping _ = false

abbrev pub is_runnable : ProcState → Bool
is_runnable ProcState.runnable = true
is_runnable _ = false

abbrev pub is_running : ProcState → Bool
is_running ProcState.running = true
is_running _ = false

abbrev pub is_zombie : ProcState → Bool
is_zombie ProcState.zombie = true
is_zombie _ = false

pub record Ptable (K : Type 0) : Type 0 where
  pub procs : ℕ → Proc
  pub nextpid : ℕ
  pub initproc : ℕ
  pub kernel : K

-- The first process of the table from `i` on that passes a test.
unfoldable pub find_proc : (Proc → Bool) → (ℕ → Proc) → ℕ → ℕ → Option ℕ
find_proc test procs zero i = none
find_proc test procs (suc rounds) i = elim (test (procs i)) [
  | true ↦ some i
  | false ↦ find_proc test procs rounds (i + 1)
]

unfoldable pub is_child : ℕ → Proc → Bool
is_child i p = elim p.parent [ none ↦ false | some j ↦ j == i ]

-- `wakeup` for one process.
unfoldable pub wake_one : ℕ → Proc → Proc
wake_one chan p =
    if is_sleeping p.state && p.chan == chan then record p { state = ProcState.runnable } else p

module _ {K : Type 0} where
  abbrev pub set_proc : ℕ → Proc → Ptable K → Ptable K
  set_proc i p t = record t { procs = update t.procs i p }

  -- `wakeup` by process `caller`.
  unfoldable pub wakeup : ℕ → ℕ → Ptable K → Ptable K
  unfolding wake_one
  wakeup caller chan t = record t {
    procs = λ i. if i == caller then t.procs i else wake_one chan (t.procs i);
  }

  -- The part of `sleep` that puts the process to sleep, and the part that runs when it is back.
  unfoldable pub sleep : ℕ → ℕ → Ptable K → Ptable K
  sleep i chan t = set_proc i (record (t.procs i) { chan = chan; state = ProcState.sleeping }) t

  unfoldable pub slept : ℕ → Ptable K → Ptable K
  slept i t = set_proc i (record (t.procs i) { chan = 0 }) t

  -- The scheduler switches to a process that is runnable; `yield` switches back.
  unfoldable pub schedule : ℕ → Ptable K → Option (Ptable K)
  schedule i t =
      if is_runnable (t.procs i).state
      then some (set_proc i (record (t.procs i) { state = ProcState.running }) t)
      else none

  unfoldable pub yield_cpu : ℕ → Ptable K → Ptable K
  yield_cpu i t = set_proc i (record (t.procs i) { state = ProcState.runnable }) t

  -- The loop of `reparent`, from process `j` on.
  unfoldable pub reparent_from : ℕ → ℕ → ℕ → Ptable K → Ptable K
  unfolding is_child wakeup
  reparent_from zero j i t = t
  reparent_from (suc rounds) j i t = reparent_from rounds (j + 1) i (
      if is_child i (t.procs j)
      then wakeup i (own_chan t.initproc)
          (set_proc j (record (t.procs j) { parent = some t.initproc }) t)
      else t)

  unfoldable pub reparent : ℕ → Ptable K → Ptable K
  unfolding reparent_from
  reparent i t = reparent_from nproc 0 i t

  -- `wakeup(p->parent)`; a process has a parent when it exits.
  unfoldable pub wake_parent : ℕ → Ptable K → Ptable K
  unfolding wakeup
  wake_parent i t = elim (t.procs i).parent [
    | none ↦ wakeup i 0 t
    | some j ↦ wakeup i (own_chan j) t
  ]

  -- `exit` under `wait_lock`, when its files are closed.
  unfoldable pub exit_finish : ℕ → ℕ → Ptable K → Ptable K
  unfolding reparent wake_parent
  exit_finish i status t =
      let t1 = wake_parent i (reparent i t) in
      set_proc i (record (t1.procs i) { xstate = status; state = ProcState.zombie }) t1
