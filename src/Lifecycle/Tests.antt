-- ===== src/Lifecycle/Tests.antt =====
-- Runs of fork, exit and wait of kernel/proc.c.
use noy_hadar.Base.{
  ℕ, suc, ◌==◌, if◌then◌else◌, true, false, Option, none, some, [], ◌≡◌, refl, arith,
}
use noy_hadar.Proc.{Proc, ProcState, Trapframe}
use noy_hadar.Ptable.{Ptable, is_zombie, is_child, schedule, sleep}
use noy_hadar.Ptable.Wakeup.{waits}
use noy_hadar.Lifecycle.{Services, fork_start, fork_adopt, fork_finish, wait_pass, userinit}
use noy_hadar.Lifecycle.Wait.{Passed, wait_pass-Passed}
use noy_hadar.Lifecycle.Steps.{Step, Reach, no_lost_wakeup}
use noy_hadar.Lifecycle.Fork.{Forked, fork_start-Forked}

abbrev frame : Trapframe
frame = record { epc = 100; ra = 0; sp = 4096; a0 = 5; others = λ _. 0 }

abbrev free_slot : Proc
free_slot = record {
  state = ProcState.unused;
  chan = 0;
  killed = false;
  xstate = 0;
  pid = 0;
  parent = none;
  sz = 0;
  pagetable = 0;
  trapframe_page = 0;
  trapframe = frame;
  ofile = [];
  cwd = 0;
  name = [];
  pending_signals = 0;
  signal_mask = 0;
  signal_handlers = λ _. 0;
  backup_page = 0;
  backup_trapframe = frame;
  frozen = false;
  backup_sig_mask = 0;
  sig_handler_flag = false;
  sig_mask_array = λ _. 0;
}

-- The other components as a counter of their calls, which gives out pages by number.
abbrev counting : Services ℕ
counting = record {
  alloc_page = λ k. (some (suc k), suc k);
  free_page = λ page k. suc k;
  new_pagetable = λ page k. (some (suc k), suc k);
  free_pagetable = λ table size k. suc k;
  copy_memory = λ from to size k. (true, suc k);
  filedup = λ f k. suc k;
  fileclose = λ f k. suc k;
  idup = λ ip k. suc k;
  put_cwd = λ ip k. suc k;
  load_initcode = λ table k. suc k;
  root_dir = λ k. (3, suc k);
  grow_memory = λ table old new k. (new, suc k);
  shrink_memory = λ table old new k. (new, suc k);
}

-- Process 0 runs and has no child.
abbrev one_proc : Ptable ℕ
one_proc = record {
  procs = λ i.
      if i == 0
      then record free_slot {
        state = ProcState.running;
        pid = 1;
        sz = 8192;
        pagetable = 7;
        cwd = 3;
      }
      else free_slot;
  nextpid = 2;
  initproc = 0;
  kernel = 10;
}

fork_one : fork_start counting 0 one_proc ≡ (some 1, (fork_start counting 0 one_proc).1)
unfolding fork_start
fork_one = refl

fork_start-Forked_example : Forked counting 0 1 one_proc (fork_start counting 0 one_proc).1
fork_start-Forked_example = fork_start-Forked counting 0 1 one_proc refl fork_one

wait_pass-Passed_example : Passed counting 0 one_proc (wait_pass counting 0 true one_proc)
wait_pass-Passed_example = wait_pass-Passed counting 0 true one_proc

-- A table of nothing but free slots, and the first process in it.
abbrev boot : Ptable ℕ
boot = record one_proc { procs = λ _. free_slot; nextpid = 1 }

abbrev after : Option (Ptable ℕ) → Ptable ℕ
after none = boot
after (some t) = t

abbrev first : Ptable ℕ
first = after (userinit counting boot)

first-boot : userinit counting boot ≡ some first
unfolding userinit
first-boot = refl

-- The first process is scheduled, forks, and waits for its child.
abbrev running : Ptable ℕ
running = after (schedule 0 first)

abbrev forking : Ptable ℕ
forking = (fork_start counting 0 running).1

abbrev adopting : Ptable ℕ
adopting = fork_adopt 0 1 forking

abbrev parent : Ptable ℕ
parent = (fork_finish 1 adopting).1

abbrev waiting : Ptable ℕ
waiting = (wait_pass counting 0 true parent).1

first-waiting : Reach counting first waiting
unfolding userinit schedule fork_start fork_adopt fork_finish
first-waiting =
    Reach.next
      (Reach.next
        (Reach.next
          (Reach.next (Reach.next Reach.here (Step.scheduled {t' = running} 0 refl))
            (Step.forks 0 refl))
          (Step.adopts 0 1 refl refl))
        (Step.starts 1 refl))
      (Step.passes 0 true refl)

waiting-child : (waits 0 (waiting.procs 0) ≡ true) × (is_child 0 (waiting.procs 1) ≡ true)
unfolding userinit schedule fork_start fork_adopt fork_finish wait_pass sleep
waiting-child = (refl, refl)

no_lost_wakeup_example : is_zombie (waiting.procs 1).state ≡ false
no_lost_wakeup_example =
    no_lost_wakeup counting boot (λ _. refl) first-boot first-waiting 0 1 (omega arith)
      waiting-child.0 waiting-child.1
