-- ===== src/Entries/Open.antt =====
-- `sys_open` in kernel/sysfile.c, where the file system and the kernel's memory stand behind the
-- table of files. `omode` is the 32 bits of an `int`.
use noy_hadar.Base.{ℕ, ◌==◌, leb, if◌then◌else◌, not, ◌&&◌, ◌||◌, Option, none, some, List}
use noy_hadar.Base.Bits.{has}
use noy_hadar.Kalloc.{Memory}
use noy_hadar.Vm.{Run, ◌>>=◌}
use noy_hadar.Fs.{Inode, Fs}
use noy_hadar.Inodes.{ilock, iunlock}
use noy_hadar.Content.{itrunc, iunlockput}
use noy_hadar.Directory.{t_dir, namei}
use noy_hadar.File.{FileType, File, Files, Services, set_file}
use noy_hadar.Descriptors.{Ofile, open_fd}
use noy_hadar.Entries.{t_file, t_device, Caller}
use noy_hadar.Entries.Make.{create}

abbrev pub ndev : ℕ
ndev = 10

-- The bits of `O_WRONLY`, `O_RDWR`, `O_CREATE` and `O_TRUNC`.
abbrev pub o_wronly : ℕ
o_wronly = 0

abbrev pub o_rdwr : ℕ
o_rdwr = 1

abbrev pub o_create : ℕ
o_create = 9

abbrev pub o_trunc : ℕ
o_trunc = 10

abbrev pub Kernel : Type 0
Kernel = Fs × Memory

-- The fields that `sys_open` sets of a file for inode `i`.
unfoldable pub fill_file : ℕ → ℕ → Inode → File → File
unfolding has
fill_file omode i ip f =
    record (if ip.type == t_device
      then record f { type = FileType.fd_device; major = ip.major }
      else record f { type = FileType.fd_inode; off = 0 }) {
        ip = i;
        readable = not (has omode o_wronly);
        writable = has omode o_wronly || has omode o_rdwr;
      }

module _ (p : Caller) where
  -- The device number is checked as a `short`, where a negative one is above `NDEV`.
  unfoldable pub check_device : ℕ → Kernel → Run (Option ℕ × Kernel)
  check_device i (fs, mem) =
      if (fs.itable i).type == t_device && leb ndev (fs.itable i).major
      then (iunlockput p.pid i fs >>= λ fs1. Run.returned (none, (fs1, mem)))
      else Run.returned (some i, (fs, mem))

  -- The inode of `sys_open`, locked.
  unfoldable pub open_inode : ℕ → List ℕ → Kernel → Run (Option ℕ × Kernel)
  unfolding has check_device
  open_inode omode path (fs, mem) =
      if has omode o_create
      then (create p t_file 0 0 path fs mem >>= λ (made, fs1, mem1). elim made [
        | none ↦ Run.returned (none, (fs1, mem1))
        | some i ↦ check_device i (fs1, mem1)
      ])
      else namei p.pid p.pt p.de p.name path p.cwd fs mem >>= λ (found, fs1, mem1). elim found [
        | none ↦ Run.returned (none, (fs1, mem1))
        | some i ↦ ilock p.pid i fs1 >>= λ fs2.
            if (fs2.itable i).type == t_dir && not (omode == 0)
            then (iunlockput p.pid i fs2 >>= λ fs3. Run.returned (none, (fs3, mem1)))
            else check_device i (fs2, mem1)
      ]

  -- `sys_open` with a file and a descriptor, from the fields of the file on.
  unfoldable pub finish_open :
      ℕ → ℕ → ℕ → ℕ → Ofile → Files Kernel → Run (Option ℕ × Ofile × Files Kernel)
  unfolding fill_file
  finish_open omode i fd f ofile t =
      let (fs, mem) = t.kernel in
      let ip = fs.itable i in
      (if has omode o_trunc && ip.type == t_file then itrunc i fs else Run.returned fs) >>= λ fs1.
      iunlock p.pid i fs1 >>= λ fs2. Run.returned (
        some fd,
        ofile,
        record (set_file f (fill_file omode i ip (t.file f)) t) { kernel = (fs2, mem) },
      )

  -- `sys_open` with an inode that it locked.
  unfoldable pub open_locked :
      Services Kernel → ℕ → ℕ → Ofile → Files Kernel → Run (Option ℕ × Ofile × Files Kernel)
  unfolding finish_open
  open_locked s omode i ofile t = open_fd s ofile t >>= λ (got, ofile1, t1). elim got [
    | none ↦ iunlockput p.pid i t1.kernel.0 >>= λ fs1.
        Run.returned (none, ofile1, record t1 { kernel = (fs1, t1.kernel.1) })
    | some (fd, f) ↦ finish_open omode i fd f ofile1 t1
  ]

  unfoldable pub sys_open :
      Services Kernel
      → ℕ
      → Option (List ℕ)
      → Ofile
      → Files Kernel
      → Run (Option ℕ × Ofile × Files Kernel)
  unfolding open_inode open_locked
  sys_open s omode none ofile t = Run.returned (none, ofile, t)
  sys_open s omode (some path) ofile t = open_inode omode path t.kernel >>= λ (found, k1).
      let t1 = record t { kernel = k1 } in
      elim found [ none ↦ Run.returned (none, ofile, t1) | some i ↦ open_locked s omode i ofile t1 ]
