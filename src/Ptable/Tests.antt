-- ===== src/Ptable/Tests.antt =====
-- Runs of the process table of kernel/proc.c.
use noy_hadar.Base.{ltb, ℕ, ◌<◌, if◌then◌else◌, true, false, some, [], ◌≡◌, arith}
use noy_hadar.Proc.{Proc, ProcState, Trapframe}
use noy_hadar.Ptable.{Ptable, nproc, is_zombie, is_child, exit_finish}
use noy_hadar.Ptable.Orphans.{heir, exit_finish-parents}

abbrev frame : Trapframe
frame = record { epc = 100; ra = 0; sp = 4096; a0 = 5; others = λ _. 0 }

-- A process that runs, with the parent that is given.
abbrev child_of : ℕ → Proc
child_of i = record {
  state = ProcState.running;
  chan = 0;
  killed = false;
  xstate = 0;
  pid = 1;
  parent = some i;
  sz = 0;
  pagetable = 0;
  trapframe_page = 0;
  trapframe = frame;
  ofile = [];
  cwd = 0;
  name = [];
  pending_signals = 0;
  signal_mask = 0;
  signal_handlers = λ _. 0;
  backup_page = 0;
  backup_trapframe = frame;
  frozen = false;
  backup_sig_mask = 0;
  sig_handler_flag = false;
  sig_mask_array = λ _. 0;
}

-- Process 1 is a child of process 0, and has itself the children 2 and 3.
abbrev family : Ptable ℕ
family = record {
  procs = λ i. if ltb 1 i then child_of 1 else child_of 0;
  nextpid = 9;
  initproc = 0;
  kernel = 0;
}

exit_finish-parents_example :
    ((a : ℕ) → a < nproc → ((exit_finish 1 7 family).procs a).parent ≡ heir 1 a family)
    × ((a : ℕ) → a < nproc → is_child 1 ((exit_finish 1 7 family).procs a) ≡ false)
    × (is_zombie ((exit_finish 1 7 family).procs 1).state ≡ true)
    × (((exit_finish 1 7 family).procs 1).xstate ≡ 7)
exit_finish-parents_example = exit_finish-parents 1 7 family (omega arith)
