-- ===== src/Entries.antt =====
-- The calls link, unlink and chdir of kernel/sysfile.c, with isdirempty, each for the process `pid`
-- with working directory `cwd`, behind its arguments: a path is what `argstr` fetched, none for -1.
-- They run within a transaction, so that `begin_op` and `end_op` do nothing here. True stands for 0
-- and false for -1.
pub mod Make
pub mod Open
pub mod Counts
mod Tests
use noy_hadar.Base.{
  ℕ, zero, suc, ◌+◌, ◌-◌, ◌*◌, ◌/◌, ◌%◌, ◌^◌, ◌==◌, ltb, leb, if◌then◌else◌, Bool, true, false, not,
  ◌&&◌, ◌||◌, Option, none, some, List, update,
}
use noy_hadar.Kalloc.{Memory, memset_at}
use noy_hadar.Vm.{Pagetable, Run, ◌>>=◌}
use noy_hadar.Fs.{Inode, Fs, get_le}
use noy_hadar.Inodes.{set_inode, iupdate, ialloc, ilock, iunlock}
use noy_hadar.Content.{writei, iput, iunlockput}
use noy_hadar.Directory.{t_dir, same_name, read_dirent, dirlookup, dirlink, namei, nameiparent}

abbrev pub t_file : ℕ
t_file = 2

abbrev pub t_device : ℕ
t_device = 3

-- Who calls, and where its local variables `de` and `name` and the strings "." and ".." stand.
pub record Caller : Type 0 where
  pub pid : ℕ
  pub cwd : ℕ
  pub pt : Pagetable
  pub de : ℕ
  pub name : ℕ
  pub dot : ℕ
  pub dotdot : ℕ

-- `ip->nlink++` and `ip->nlink--` of a `short`, with the `iupdate` that follows.
pub link_up : ℕ → Fs → Fs
link_up i fs =
    let ip = fs.itable i in
    iupdate i (set_inode i (record ip { nlink = (ip.nlink + 1) % 2 ^ 16 }) fs)

pub link_down : ℕ → Fs → Fs
link_down i fs =
    let ip = fs.itable i in
    iupdate i (set_inode i (record ip { nlink = (ip.nlink + (2 ^ 16 - 1)) % 2 ^ 16 }) fs)

module _ (p : Caller) where
  -- The label `bad` of `sys_link`.
  pub undo_link : ℕ → Fs → Memory → Run (Bool × Fs × Memory)
  unfolding link_down
  undo_link i fs mem = ilock p.pid i fs >>= λ fs1.
      iunlockput p.pid i (link_down i fs1) >>= λ fs2. Run.returned (false, fs2, mem)

  -- `sys_link` from `nameiparent` on.
  pub link_new : ℕ → List ℕ → Fs → Memory → Run (Bool × Fs × Memory)
  unfolding undo_link
  link_new i new fs mem =
      nameiparent p.pid p.pt p.de p.name new p.cwd fs mem >>= λ (parent, fs1, mem1). elim parent [
        | none ↦ undo_link i fs1 mem1
        | some dp ↦ ilock p.pid dp fs1 >>= λ fs2.
            if not ((fs2.itable dp).dev == (fs2.itable i).dev)
            then (iunlockput p.pid dp fs2 >>= λ fs3. undo_link i fs3 mem1)
            else dirlink p.pid dp p.pt p.de p.name (fs2.itable i).inum fs2 mem1
              >>= λ (linked, fs3, mem3). iunlockput p.pid dp fs3 >>= λ fs4.
                  if linked
                  then (iput p.pid i fs4 >>= λ fs5. Run.returned (true, fs5, mem3))
                  else undo_link i fs4 mem3
      ]

  -- `sys_link` from `namei` on.
  pub link_paths : List ℕ → List ℕ → Fs → Memory → Run (Bool × Fs × Memory)
  unfolding link_up link_new
  link_paths old new fs mem =
      namei p.pid p.pt p.de p.name old p.cwd fs mem >>= λ (found, fs1, mem1). elim found [
        | none ↦ Run.returned (false, fs1, mem1)
        | some i ↦ ilock p.pid i fs1 >>= λ fs2.
            if (fs2.itable i).type == t_dir
            then (iunlockput p.pid i fs2 >>= λ fs3. Run.returned (false, fs3, mem1))
            else iunlock p.pid i (link_up i fs2) >>= λ fs3. link_new i new fs3 mem1
      ]

  pub sys_link : Option (List ℕ) → Option (List ℕ) → Fs → Memory → Run (Bool × Fs × Memory)
  unfolding link_paths
  sys_link (some old) (some new) fs mem = link_paths old new fs mem
  sys_link (some old) none fs mem = Run.returned (false, fs, mem)
  sys_link none _ fs mem = Run.returned (false, fs, mem)

  -- The loop of `isdirempty`, from `off` on.
  pub isdirempty_from : ℕ → ℕ → ℕ → Fs → Memory → Run (Bool × Fs × Memory)
  isdirempty_from zero dp off fs mem = Run.lost
  isdirempty_from (suc fuel) dp off fs mem =
      if not (ltb off (fs.itable dp).size)
      then Run.returned (true, fs, mem)
      else read_dirent dp p.pt p.de off fs mem >>= λ (fs1, mem1).
          if get_le 2 p.de mem1 == 0
          then isdirempty_from fuel dp (off + 16) fs1 mem1
          else Run.returned (false, fs1, mem1)

  pub isdirempty : ℕ → Fs → Memory → Run (Bool × Fs × Memory)
  unfolding isdirempty_from
  isdirempty dp fs mem = isdirempty_from ((fs.itable dp).size / 16 + 2) dp 32 fs mem

  -- The label `bad` of `sys_unlink`.
  pub leave_dir : ℕ → Fs → Memory → Run (Bool × Fs × Memory)
  leave_dir dp fs mem = iunlockput p.pid dp fs >>= λ fs1. Run.returned (false, fs1, mem)

  -- `sys_unlink` from `memset` on: the entry at `off` of `dp`, which stands for `i`.
  pub clear_entry : ℕ → ℕ → ℕ → Fs → Memory → Run (Bool × Fs × Memory)
  unfolding link_down
  clear_entry dp i off fs mem =
      let mem1 = memset_at p.de 0 16 mem in
      writei dp false p.pt p.de off 16 fs mem1 >>= λ (r, fs1). elim r [
        | none ↦ Run.panic
        | some n ↦
            if not (n == 16)
            then Run.panic
            else iunlockput p.pid dp
                (if (fs1.itable i).type == t_dir then link_down dp fs1 else fs1)
              >>= λ fs2.
                  iunlockput p.pid i (link_down i fs2) >>= λ fs3. Run.returned (true, fs3, mem1)
      ]

  -- `sys_unlink` with the entry that it found. A count is a `short`.
  pub unlink_entry : ℕ → ℕ → ℕ → Fs → Memory → Run (Bool × Fs × Memory)
  unfolding isdirempty leave_dir clear_entry
  unlink_entry dp i off fs mem = ilock p.pid i fs >>= λ fs1.
      if (fs1.itable i).nlink == 0 || leb (2 ^ 15) (fs1.itable i).nlink
      then Run.panic
      else if (fs1.itable i).type == t_dir
      then (isdirempty i fs1 mem >>= λ (empty, fs2, mem2).
          if empty
          then clear_entry dp i off fs2 mem2
          else iunlockput p.pid i fs2 >>= λ fs3. leave_dir dp fs3 mem2)
      else clear_entry dp i off fs1 mem

  pub sys_unlink : Option (List ℕ) → Fs → Memory → Run (Bool × Fs × Memory)
  unfolding leave_dir unlink_entry
  sys_unlink none fs mem = Run.returned (false, fs, mem)
  sys_unlink (some path) fs mem =
      nameiparent p.pid p.pt p.de p.name path p.cwd fs mem >>= λ (parent, fs1, mem1). elim parent [
        | none ↦ Run.returned (false, fs1, mem1)
        | some dp ↦ ilock p.pid dp fs1 >>= λ fs2.
            if same_name p.name p.dot mem1 || same_name p.name p.dotdot mem1
            then leave_dir dp fs2 mem1
            else dirlookup dp p.pt p.de p.name fs2 mem1 >>= λ (found, fs3, mem3). elim found [
              | none ↦ leave_dir dp fs3 mem3
              | some (i, off) ↦ unlink_entry dp i off fs3 mem3
            ]
      ]

  -- With the working directory that the process has then.
  pub sys_chdir : Option (List ℕ) → Fs → Memory → Run (Bool × ℕ × Fs × Memory)
  sys_chdir none fs mem = Run.returned (false, p.cwd, fs, mem)
  sys_chdir (some path) fs mem =
      namei p.pid p.pt p.de p.name path p.cwd fs mem >>= λ (found, fs1, mem1). elim found [
        | none ↦ Run.returned (false, p.cwd, fs1, mem1)
        | some i ↦ ilock p.pid i fs1 >>= λ fs2.
            if not ((fs2.itable i).type == t_dir)
            then (iunlockput p.pid i fs2 >>= λ fs3. Run.returned (false, p.cwd, fs3, mem1))
            else iunlock p.pid i fs2 >>= λ fs3.
                iput p.pid p.cwd fs3 >>= λ fs4. Run.returned (true, i, fs4, mem1)
      ]
