-- ===== src/Sleeplock/Tests.antt =====
-- A run of kernel/sleeplock.c.
use noy_hadar.Base.{ℕ, true, false, some, [], ◌≡◌, refl}
use noy_hadar.Proc.{Proc, ProcState, Trapframe}
use noy_hadar.Ptable.{Ptable, sleep}
use noy_hadar.Sleeplock.{initsleeplock, acquiresleep}
use noy_hadar.Sleeplock.Exclusion.{System, enter, sleeps_on, Step, Reach, one_holder}

abbrev frame : Trapframe
frame = record { epc = 100; ra = 0; sp = 4096; a0 = 5; others = λ _. 0 }

-- A process that runs, with the parent that is given.
abbrev child_of : ℕ → Proc
child_of i = record {
  state = ProcState.running;
  chan = 0;
  killed = false;
  xstate = 0;
  pid = 1;
  parent = some i;
  sz = 0;
  pagetable = 0;
  trapframe_page = 0;
  trapframe = frame;
  ofile = [];
  cwd = 0;
  name = [];
  pending_signals = 0;
  signal_mask = 0;
  signal_handlers = λ _. 0;
  backup_page = 0;
  backup_trapframe = frame;
  frozen = false;
  backup_sig_mask = 0;
  sig_handler_flag = false;
  sig_mask_array = λ _. 0;
}

abbrev two_running : Ptable ℕ
two_running = record { procs = λ i. child_of 0; nextpid = 3; initproc = 0; kernel = 0 }

abbrev start : System ℕ
start = record { lock = initsleeplock; table = two_running; inside = λ _. false }

-- Process 0 takes the lock at 100, and process 1 sleeps on it.
abbrev taken : System ℕ
taken = enter 0 (acquiresleep 100 0 start.lock start.table) start

abbrev contended : System ℕ
contended = enter 1 (acquiresleep 100 1 taken.lock taken.table) taken

start-contended : Reach 100 start contended
unfolding acquiresleep sleep
start-contended =
    Reach.next (Reach.next Reach.here (Step.acquires 0 refl refl)) (Step.acquires 1 refl refl)

one_holder_example :
    ((a b : ℕ) → contended.inside a ≡ true → contended.inside b ≡ true → a ≡ b)
    × ((a : ℕ) → sleeps_on 100 (contended.table.procs a) ≡ true → contended.lock.locked ≡ true)
one_holder_example = one_holder 100 two_running (λ _. refl) start-contended
