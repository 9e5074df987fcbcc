-- ===== src/Entries/Tests.antt =====
-- A run of calls on descriptors in kernel/sysfile.c.
use noy_hadar.Base.{ℕ, ◌+◌, Option, true, none, some, [], ◌∷◌, ◌≡◌, refl}
use noy_hadar.Base.Bits.{has}
use noy_hadar.Proc.{Trapframe}
use noy_hadar.Vm.{Run}
use noy_hadar.Syscall.{argint, argraw}
use noy_hadar.Fs.Sample.{small_fs}
use noy_hadar.Inodes.{idup, ilock, iunlock}
use noy_hadar.Directory.{namei, namex, namex_start, namex_loop, skipelem, skip_slashes, t_dir}
use noy_hadar.File.{Files, Services, find_file, filealloc, filedup}
use noy_hadar.File.Tests.{empty_file}
use noy_hadar.Descriptors.{Ofile, argfd, fdalloc, dup_file, sys_dup, take_fd, open_fd}
use noy_hadar.Descriptors.Balance.{count}
use noy_hadar.Entries.{Caller}
use noy_hadar.Entries.Open.{
  Kernel, fill_file, check_device, open_inode, finish_open, open_locked, sys_open,
}
use noy_hadar.Entries.Counts.{Calls, calls_keep_refs}

-- The other components as ones that do nothing.
abbrev quiet : Services Kernel
quiet = record {
  piperead = λ pipe addr n k. Run.returned (some n, k);
  pipewrite = λ pipe addr n k. Run.returned (some n, k);
  pipeclose = λ pipe writable k. Run.returned k;
  begin_op = λ k. Run.returned k;
  end_op = λ k. Run.returned k;
  iput = λ ip k. Run.returned k;
  ilock = λ ip k. Run.returned k;
  iunlock = λ ip k. Run.returned k;
  stati = λ ip k. record { dev = 1; ino = ip; type = 2; nlink = 1; size = 0 };
  copy_stat = λ addr st k. Run.returned (true, k);
  readi = λ ip addr off n k. Run.returned (some n, k);
  writei = λ ip addr off n k. Run.returned (some n, k);
  device_read = λ major. none;
  device_write = λ major. none;
}

-- A process in a directory, which is inode 4.
abbrev caller : Caller
caller = record {
  pid = 3;
  cwd = 4;
  pt = record { page = 0; entries = λ _. none };
  de = 1000;
  name = 2000;
  dot = 3000;
  dotdot = 3002;
}

abbrev start : Files Kernel
start = record {
  file = λ _. empty_file;
  kernel = (record small_fs { itable = λ i. record (small_fs.itable i) { type = t_dir } }, λ _. 0);
}

abbrev fds : Ofile
fds = none ∷ none ∷ none ∷ []

abbrev frame : Trapframe
frame = record { epc = 0; ra = 0; sp = 0; a0 = 0; others = λ _. 0 }

abbrev files_of : Run (Option ℕ × Ofile × Files Kernel) → Files Kernel
files_of (Run.returned (_, _, t)) = t
files_of _ = start

-- The path "" is the working directory.
abbrev opened : Files Kernel
opened = files_of (sys_open caller quiet 0 (some []) fds start)

abbrev one_fd : Ofile
one_fd = some 0 ∷ none ∷ none ∷ []

open_run : sys_open caller quiet 0 (some []) fds start ≡ Run.returned (some 0, one_fd, opened)
unfolding sys_open open_inode has namei namex namex_start namex_loop skipelem skip_slashes idup
    ilock check_device open_locked open_fd take_fd fdalloc filealloc find_file finish_open fill_file
    iunlock
open_run = refl

abbrev dupped : Files Kernel
dupped = files_of (sys_dup frame one_fd opened)

abbrev two_fds : Ofile
two_fds = some 0 ∷ some 0 ∷ none ∷ []

dup_run : sys_dup frame one_fd opened ≡ Run.returned (some 1, two_fds, dupped)
unfolding sys_dup dup_file argfd argint argraw fdalloc filedup sys_open open_inode has namei namex
    namex_start namex_loop skipelem skip_slashes idup ilock check_device open_locked open_fd take_fd
    filealloc find_file finish_open fill_file iunlock
dup_run = refl

calls_keep_refs_example : (dupped.file 0).ref + count 0 fds ≡ (start.file 0).ref + count 0 two_fds
calls_keep_refs_example =
    calls_keep_refs caller quiet
      (Calls.dups frame (some 1) (Calls.opens 0 (some []) (some 0) Calls.none_yet open_run) dup_run)
      0
