-- ===== src/Descriptors.antt =====
-- File descriptors in kernel/sysfile.c: argfd, fdalloc, and the calls that only use them, for the
-- calling process with its trapframe and the list `ofile`, which has `NOFILE` slots. A call returns
-- none for -1.
pub mod Balance
mod Tests
use noy_hadar.Base.{
  ℕ, zero, suc, ◌+◌, ◌-◌, ◌*◌, ◌%◌, ◌^◌, ◌==◌, ltb, leb, if◌then◌else◌, Bool, true, false, not,
  ◌&&◌, ◌||◌, Option, none, some, List, [], ◌∷◌, get_elem?, set, update,
}
use noy_hadar.Proc.{Trapframe}
use noy_hadar.Vm.{Run, ◌>>=◌}
use noy_hadar.Syscall.{argint, argaddr}
use noy_hadar.File.{
  FileType, File, Files, Services, set_file, filealloc, filedup, fileclose, fileread, filewrite,
  filestat,
}

abbrev pub nofile : ℕ
nofile = 16

abbrev pub Ofile : Type 0
Ofile = List (Option ℕ)

-- `myproc()->ofile[fd]`
abbrev pub slot : ℕ → Ofile → Option ℕ
slot fd ofile = elim (get_elem? ofile fd) [ none ↦ none | some f ↦ f ]

-- The descriptor and its file.
unfoldable pub argfd : ℕ → Trapframe → Ofile → Run (Option (ℕ × ℕ))
unfolding argint
argfd n frame ofile = argint n frame >>= λ fd.
    if not (ltb fd nofile)
    then Run.returned none
    else elim (slot fd ofile) [ none ↦ Run.returned none | some f ↦ Run.returned (some (fd, f)) ]

abbrev behind : Option ℕ → Option (ℕ × Ofile) → Option (ℕ × Ofile)
behind g none = none
behind g (some (fd, ofile)) = some (suc fd, g ∷ ofile)

unfoldable pub fdalloc : ℕ → Ofile → Option (ℕ × Ofile)
fdalloc f [] = none
fdalloc f (none ∷ ofile) = some (0, some f ∷ ofile)
fdalloc f (some g ∷ ofile) = behind (some g) (fdalloc f ofile)

module _ {K : Type 0} where
  -- `sys_dup` behind `argfd`.
  unfoldable pub dup_file : ℕ → Ofile → Files K → Run (Option ℕ × Ofile × Files K)
  unfolding fdalloc filedup
  dup_file f ofile t = elim (fdalloc f ofile) [
    | none ↦ Run.returned (none, ofile, t)
    | some (fd, ofile') ↦ filedup f t >>= λ t'. Run.returned (some fd, ofile', t')
  ]

  unfoldable pub sys_dup : Trapframe → Ofile → Files K → Run (Option ℕ × Ofile × Files K)
  unfolding argfd dup_file
  sys_dup frame ofile t = argfd 0 frame ofile >>= λ r. elim r [
    | none ↦ Run.returned (none, ofile, t)
    | some (_, f) ↦ dup_file f ofile t
  ]

module _ {K : Type 0} (s : Services K) where
  -- `sys_close` behind `argfd`.
  unfoldable pub close_fd : ℕ → ℕ → Ofile → Files K → Run (Option ℕ × Ofile × Files K)
  unfolding fileclose
  close_fd fd f ofile t = fileclose s f t >>= λ t'. Run.returned (some 0, set ofile fd none, t')

  unfoldable pub sys_close : Trapframe → Ofile → Files K → Run (Option ℕ × Ofile × Files K)
  unfolding argfd close_fd
  sys_close frame ofile t = argfd 0 frame ofile >>= λ r. elim r [
    | none ↦ Run.returned (none, ofile, t)
    | some (fd, f) ↦ close_fd fd f ofile t
  ]

  -- `sys_open` behind its `filealloc`: without a file or a descriptor there is none, and then no
  -- file is kept.
  unfoldable pub take_fd : Ofile → Option ℕ × Files K → Run (Option (ℕ × ℕ) × Ofile × Files K)
  unfolding fdalloc fileclose
  take_fd ofile (none, t) = Run.returned (none, ofile, t)
  take_fd ofile (some f, t) = elim (fdalloc f ofile) [
    | none ↦ fileclose s f t >>= λ t'. Run.returned (none, ofile, t')
    | some (fd, ofile') ↦ Run.returned (some (fd, f), ofile', t)
  ]

  -- The part of `sys_open` that takes a file and a descriptor.
  unfoldable pub open_fd : Ofile → Files K → Run (Option (ℕ × ℕ) × Ofile × Files K)
  unfolding filealloc take_fd
  open_fd ofile t = take_fd ofile (filealloc t)

  -- A call on a file and two arguments, as `sys_read` and `sys_write` are; a size is its 32 bits.
  pub with_file :
      (ℕ → ℕ → ℕ → Files K → Run (Option ℕ × Files K))
      → Trapframe
      → Ofile
      → Files K
      → Run (Option ℕ × Files K)
  unfolding argfd argint argaddr
  with_file act frame ofile t = argfd 0 frame ofile >>= λ r. elim r [
    | none ↦ Run.returned (none, t)
    | some (_, f) ↦ argint 2 frame >>= λ n. argaddr 1 frame >>= λ p. act f p n t
  ]

  pub sys_read : Trapframe → Ofile → Files K → Run (Option ℕ × Files K)
  unfolding with_file
  sys_read = with_file (fileread s)

  pub sys_write : Trapframe → Ofile → Files K → Run (Option ℕ × Files K)
  unfolding with_file
  sys_write = with_file (filewrite s)

  pub sys_fstat : Trapframe → Ofile → Files K → Run (Bool × Files K)
  unfolding argfd argaddr
  sys_fstat frame ofile t = argfd 0 frame ofile >>= λ r. elim r [
    | none ↦ Run.returned (false, t)
    | some (_, f) ↦ argaddr 1 frame >>= λ st. filestat s f st t
  ]

  -- `sys_pipe` where it gives up, with the files that it closes.
  pub drop_pipe : ℕ → ℕ → Ofile → Files K → Run (Bool × Ofile × Files K)
  drop_pipe rf wf ofile t =
      fileclose s rf t >>= λ t1. fileclose s wf t1 >>= λ t2. Run.returned (false, ofile, t2)

  -- `sys_pipe` with two descriptors; `copy` is the `copyout` of a descriptor to a user's address.
  pub copy_fds :
      (ℕ → ℕ → K → Run (Bool × K))
      → ℕ
      → ℕ
      → ℕ
      → ℕ
      → ℕ
      → Ofile
      → Files K
      → Run (Bool × Ofile × Files K)
  unfolding drop_pipe
  copy_fds copy fdarray fd0 fd1 rf wf ofile t =
      let undo = drop_pipe rf wf (set (set ofile fd0 none) fd1 none) in
      copy fdarray fd0 t.kernel >>= λ (ok, k1).
      if not ok
      then undo (record t { kernel = k1 })
      else copy (fdarray + 4) fd1 k1 >>= λ (ok', k2).
          if not ok'
          then undo (record t { kernel = k2 })
          else Run.returned (true, ofile, record t { kernel = k2 })

  -- `sys_pipe` behind `pipealloc`, for its two files.
  pub give_fds :
      (ℕ → ℕ → K → Run (Bool × K)) → ℕ → ℕ → ℕ → Ofile → Files K → Run (Bool × Ofile × Files K)
  unfolding fdalloc drop_pipe copy_fds
  give_fds copy fdarray rf wf ofile t = elim (fdalloc rf ofile) [
    | none ↦ drop_pipe rf wf ofile t
    | some (fd0, ofile1) ↦ elim (fdalloc wf ofile1) [
      | none ↦ drop_pipe rf wf (set ofile1 fd0 none) t
      | some (fd1, ofile2) ↦ copy_fds copy fdarray fd0 fd1 rf wf ofile2 t
    ]
  ]
