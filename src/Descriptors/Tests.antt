-- ===== src/Descriptors/Tests.antt =====
-- Runs of the descriptors of kernel/sysfile.c.
use noy_hadar.Base.{ℕ, zero, suc, none, some, [], ◌∷◌, ◌≡◌, refl}
use noy_hadar.Proc.{Trapframe}
use noy_hadar.Vm.{Run}
use noy_hadar.Syscall.{argint, argraw}
use noy_hadar.File.{Files, find_file, filealloc, filedup, fileclose}
use noy_hadar.File.Tests.{counting, empty_file}
use noy_hadar.Descriptors.{
  Ofile, argfd, fdalloc, dup_file, sys_dup, close_fd, sys_close, take_fd, open_fd,
}

-- One file, which descriptor 1 of three stands for.
abbrev table : Files ℕ
table = record {
  file = λ f. elim f [ zero ↦ record empty_file { ref = 1 } | suc _ ↦ empty_file ];
  kernel = 0;
}

abbrev fds : Ofile
fds = none ∷ some 0 ∷ none ∷ []

abbrev frame : Trapframe
frame = record { epc = 0; ra = 0; sp = 0; a0 = 1; others = λ _. 0 }

abbrev files_of : {A : Type 0} → Run (A × Ofile × Files ℕ) → Files ℕ
files_of (Run.returned (_, _, t)) = t
files_of _ = table

abbrev dup_end : Files ℕ
dup_end = files_of (sys_dup frame fds table)

abbrev close_end : Files ℕ
close_end = files_of (sys_close counting frame fds table)

abbrev open_end : Files ℕ
open_end = files_of (open_fd counting fds table)

dup_run : sys_dup frame fds table ≡ Run.returned (some 0, some 0 ∷ some 0 ∷ none ∷ [], dup_end)
unfolding sys_dup dup_file argfd argint argraw fdalloc filedup
dup_run = refl

close_run :
    sys_close counting frame fds table ≡ Run.returned (some 0, none ∷ none ∷ none ∷ [], close_end)
unfolding sys_close close_fd argfd argint argraw fileclose
close_run = refl

open_run :
    open_fd counting fds table ≡ Run.returned (some (0, 1), some 1 ∷ some 0 ∷ none ∷ [], open_end)
unfolding open_fd take_fd fdalloc filealloc find_file
open_run = refl
