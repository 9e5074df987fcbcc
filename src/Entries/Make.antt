-- ===== src/Entries/Make.antt =====
-- `create` in kernel/sysfile.c, and its callers mkdir and mknod.
use noy_hadar.Base.{
  ℕ, ◌%◌, ◌^◌, ◌==◌, if◌then◌else◌, Bool, true, false, ◌&&◌, ◌||◌, Option, none, some, List,
}
use noy_hadar.Kalloc.{Memory}
use noy_hadar.Vm.{Run, ◌>>=◌}
use noy_hadar.Fs.{Fs}
use noy_hadar.Inodes.{set_inode, iupdate, ialloc, ilock}
use noy_hadar.Content.{iunlockput}
use noy_hadar.Directory.{t_dir, dirlookup, dirlink, nameiparent}
use noy_hadar.Entries.{t_file, t_device, Caller, link_up}

module _ (p : Caller) where
  -- `create` with a name that is there, as inode `i`; an inode that it returns is locked.
  pub create_found : ℕ → ℕ → ℕ → Fs → Memory → Run (Option ℕ × Fs × Memory)
  create_found type dp i fs mem = iunlockput p.pid dp fs >>= λ fs1. ilock p.pid i fs1 >>= λ fs2.
      let there = (fs2.itable i).type in
      if type == t_file && (there == t_file || there == t_device)
      then Run.returned (some i, fs2, mem)
      else iunlockput p.pid i fs2 >>= λ fs3. Run.returned (none, fs3, mem)

  -- `dirlink` where `create` panics when it fails.
  pub must_link : ℕ → ℕ → ℕ → Fs → Memory → Run (Fs × Memory)
  must_link dp name inum fs mem =
      dirlink p.pid dp p.pt p.de name inum fs mem >>= λ (linked, fs1, mem1).
      if linked then Run.returned (fs1, mem1) else Run.panic

  -- The entries "." and ".." of a new directory.
  pub make_dots : ℕ → ℕ → Fs → Memory → Run (Fs × Memory)
  unfolding must_link
  make_dots dp i fs mem =
      let fs1 = link_up dp fs in
      must_link i p.dot (fs1.itable i).inum fs1 mem >>= λ (fs2, mem2).
      must_link i p.dotdot (fs2.itable dp).inum fs2 mem2

  -- `create` from `ialloc` on.
  pub create_new : ℕ → ℕ → ℕ → ℕ → Fs → Memory → Run (Option ℕ × Fs × Memory)
  unfolding make_dots must_link
  create_new type major minor dp fs mem = ialloc (fs.itable dp).dev type fs >>= λ (i, fs1).
      ilock p.pid i fs1 >>= λ fs2.
      let ip = record (fs2.itable i) {
        major = major % 2 ^ 16;
        minor = minor % 2 ^ 16;
        nlink = 1;
      } in
      let fs3 = iupdate i (set_inode i ip fs2) in
      (if type == t_dir then make_dots dp i fs3 mem else Run.returned (fs3, mem)) >>= λ (fs4, mem4).
      must_link dp p.name (fs4.itable i).inum fs4 mem4 >>= λ (fs5, mem5).
      iunlockput p.pid dp fs5 >>= λ fs6. Run.returned (some i, fs6, mem5)

  pub create : ℕ → ℕ → ℕ → List ℕ → Fs → Memory → Run (Option ℕ × Fs × Memory)
  unfolding create_found create_new
  create type major minor path fs mem =
      nameiparent p.pid p.pt p.de p.name path p.cwd fs mem >>= λ (parent, fs1, mem1). elim parent [
        | none ↦ Run.returned (none, fs1, mem1)
        | some dp ↦ ilock p.pid dp fs1 >>= λ fs2.
            dirlookup dp p.pt p.de p.name fs2 mem1 >>= λ (found, fs3, mem3). elim found [
              | some (i, _) ↦ create_found type dp i fs3 mem3
              | none ↦ create_new type major minor dp fs3 mem3
            ]
      ]

  -- `create` for a caller that only wants the inode to be there.
  pub create_only : ℕ → ℕ → ℕ → Option (List ℕ) → Fs → Memory → Run (Bool × Fs × Memory)
  unfolding create
  create_only type major minor none fs mem = Run.returned (false, fs, mem)
  create_only type major minor (some path) fs mem =
      create type major minor path fs mem >>= λ (made, fs1, mem1). elim made [
        | none ↦ Run.returned (false, fs1, mem1)
        | some i ↦ iunlockput p.pid i fs1 >>= λ fs2. Run.returned (true, fs2, mem1)
      ]

  pub sys_mkdir : Option (List ℕ) → Fs → Memory → Run (Bool × Fs × Memory)
  unfolding create_only
  sys_mkdir = create_only t_dir 0 0

  pub sys_mknod : ℕ → ℕ → Option (List ℕ) → Fs → Memory → Run (Bool × Fs × Memory)
  unfolding create_only
  sys_mknod = create_only t_device
