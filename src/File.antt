-- ===== src/File.antt =====
-- Open files of kernel/file.c: the table of files, whose lock is held while it changes, and what
-- they stand for, behind an interface. A file is its index in the table.
pub mod Refs
pub mod Tests
use noy_hadar.Base.{
  ℕ, zero, suc, ◌+◌, ◌-◌, ◌*◌, ◌/◌, ◌%◌, ◌^◌, ◌==◌, ltb, leb, if◌then◌else◌, Bool, true, false, not,
  ◌&&◌, ◌||◌, Option, none, some, update,
}
use noy_hadar.Vm.{Run, ◌>>=◌}
use noy_hadar.Inodes.{Stat}

pub data FileType : Type 0 where
  fd_none fd_pipe fd_inode fd_device : FileType

-- `struct file`
pub record File : Type 0 where
  pub type : FileType
  pub ref : ℕ
  pub readable : Bool
  pub writable : Bool
  pub pipe : ℕ
  pub ip : ℕ
  pub off : ℕ
  pub major : ℕ

abbrev pub nfile : ℕ
nfile = 100

-- What the other components do for files; a count is none for -1.
pub record Services (K : Type 0) : Type 0 where
  pub piperead : ℕ → ℕ → ℕ → K → Run (Option ℕ × K)
  pub pipewrite : ℕ → ℕ → ℕ → K → Run (Option ℕ × K)
  pub pipeclose : ℕ → Bool → K → Run K
  pub begin_op : K → Run K
  pub end_op : K → Run K
  pub iput : ℕ → K → Run K
  pub ilock : ℕ → K → Run K
  pub iunlock : ℕ → K → Run K
  pub stati : ℕ → K → Stat
  -- `copyout` of a `struct stat`
  pub copy_stat : ℕ → Stat → K → Run (Bool × K)
  -- `readi` and `writei` for a user's address
  pub readi : ℕ → ℕ → ℕ → ℕ → K → Run (Option ℕ × K)
  pub writei : ℕ → ℕ → ℕ → ℕ → K → Run (Option ℕ × K)
  -- `devsw`, where there are functions for a major number
  pub device_read : ℕ → Option (ℕ → ℕ → K → Run (Option ℕ × K))
  pub device_write : ℕ → Option (ℕ → ℕ → K → Run (Option ℕ × K))

pub record Files (K : Type 0) : Type 0 where
  pub file : ℕ → File
  pub kernel : K

-- The loop of `filealloc`, from file `f` on.
unfoldable pub find_file : ℕ → ℕ → (ℕ → File) → Option ℕ
find_file zero f file = none
find_file (suc rounds) f file =
    let rest = find_file rounds (f + 1) file in if (file f).ref == 0 then some f else rest

-- The file that the last `fileclose` leaves.
abbrev pub closed : File → File
closed f = record f { ref = 0; type = FileType.fd_none }

module _ {K : Type 0} where
  abbrev pub set_file : ℕ → File → Files K → Files K
  set_file f x t = record t { file = update t.file f x }

  abbrev pub set_off : ℕ → ℕ → Files K → Files K
  set_off f off t = set_file f (record (t.file f) { off = off }) t

  unfoldable pub filealloc : Files K → Option ℕ × Files K
  unfolding find_file
  filealloc t = elim (find_file nfile 0 t.file) [
    | none ↦ (none, t)
    | some f ↦ (some f, set_file f (record (t.file f) { ref = 1 }) t)
  ]

  unfoldable pub filedup : ℕ → Files K → Run (Files K)
  filedup f t =
      if ltb (t.file f).ref 1
      then Run.panic
      else Run.returned (set_file f (record (t.file f) { ref = (t.file f).ref + 1 }) t)

module _ {K : Type 0} (s : Services K) where
  -- What `fileclose` does when the table's lock is released, for the copy of the file.
  unfoldable pub close_rest : File → K → Run K
  close_rest ff k = elim ff.type [
    | fd_none ↦ Run.returned k
    | fd_pipe ↦ s.pipeclose ff.pipe ff.writable k
    | fd_inode ↦ s.begin_op k >>= s.iput ff.ip >>= s.end_op
    | fd_device ↦ s.begin_op k >>= s.iput ff.ip >>= s.end_op
  ]

  unfoldable pub fileclose : ℕ → Files K → Run (Files K)
  unfolding close_rest
  fileclose f t =
      let ff = t.file f in
      if ltb ff.ref 1
      then Run.panic
      else if ltb 0 (ff.ref - 1)
      then Run.returned (set_file f (record ff { ref = ff.ref - 1 }) t)
      else (close_rest ff t.kernel >>= λ k.
          Run.returned (record t { file = update t.file f (closed ff); kernel = k }))

  abbrev pub has_inode : FileType → Bool
  has_inode FileType.fd_inode = true
  has_inode FileType.fd_device = true
  has_inode _ = false

  -- True for 0 and false for -1.
  pub filestat : ℕ → ℕ → Files K → Run (Bool × Files K)
  filestat f addr t =
      let ip = (t.file f).ip in
      if has_inode (t.file f).type
      then (s.ilock ip t.kernel >>= λ k1. s.iunlock ip k1 >>= λ k2.
          s.copy_stat addr (s.stati ip k1) k2 >>= λ (ok, k3).
          Run.returned (ok, record t { kernel = k3 }))
      else Run.returned (false, t)

  -- The file's offset behind a count that `readi` or `writei` returned, if it is more than 0.
  abbrev pub advance : ℕ → Option ℕ → Files K → Files K
  advance f none t = t
  advance f (some r) t = set_off f ((t.file f).off + r) t

  pub fileread : ℕ → ℕ → ℕ → Files K → Run (Option ℕ × Files K)
  fileread f addr n t =
      let x = t.file f in
      if not x.readable then Run.returned (none, t) else elim x.type [
        | fd_none ↦ Run.panic
        | fd_pipe ↦ s.piperead x.pipe addr n t.kernel >>= λ (r, k).
            Run.returned (r, record t { kernel = k })
        | fd_device ↦ elim (s.device_read x.major) [
          | none ↦ Run.returned (none, t)
          | some read ↦ read addr n t.kernel >>= λ (r, k). Run.returned (r, record t { kernel = k })
        ]
        | fd_inode ↦ s.ilock x.ip t.kernel >>= λ k1. s.readi x.ip addr x.off n k1 >>= λ (r, k2).
            s.iunlock x.ip k2 >>= λ k3. Run.returned (r, advance f r (record t { kernel = k3 }))
      ]

  -- `max` of `filewrite`, for `MAXOPBLOCKS` 10
  abbrev pub max_write : ℕ
  max_write = (10 - 1 - 1 - 2) / 2 * 1024

  -- A transaction of the loop of `filewrite`: what `writei` returned.
  pub write_some : ℕ → ℕ → ℕ → Files K → Run (Option ℕ × Files K)
  write_some f addr n t =
      let x = t.file f in
      s.begin_op t.kernel >>= λ k1. s.ilock x.ip k1 >>= λ k2.
      s.writei x.ip addr x.off n k2 >>= λ (r, k3). s.iunlock x.ip k3 >>= λ k4.
      s.end_op k4 >>= λ k5. Run.returned (r, advance f r (record t { kernel = k5 }))

  abbrev pub chunk : ℕ → ℕ → ℕ
  chunk i n = if ltb max_write (n - i) then max_write else n - i

  -- The loop, from byte `i` on, for an `n` that is not negative, with the value of `i` at its end.
  pub write_from : ℕ → ℕ → ℕ → ℕ → ℕ → Files K → Run (ℕ × Files K)
  unfolding write_some
  write_from zero f addr i n t = Run.lost
  write_from (suc fuel) f addr i n t =
      if not (ltb i n)
      then Run.returned (i, t)
      else write_some f (addr + i) (chunk i n) t >>= λ (r, t1). elim r [
        | none ↦ Run.returned (i, t1)
        | some m ↦
            if m == chunk i n then write_from fuel f addr (i + m) n t1 else Run.returned (i, t1)
      ]

  -- A count is the 32 bits of an `int`; the loop does nothing for a negative one, and the call
  -- fails.
  pub filewrite : ℕ → ℕ → ℕ → Files K → Run (Option ℕ × Files K)
  unfolding write_from
  filewrite f addr n t =
      let x = t.file f in
      if not x.writable then Run.returned (none, t) else elim x.type [
        | fd_none ↦ Run.panic
        | fd_pipe ↦ s.pipewrite x.pipe addr n t.kernel >>= λ (r, k).
            Run.returned (r, record t { kernel = k })
        | fd_device ↦ elim (s.device_write x.major) [
          | none ↦ Run.returned (none, t)
          | some write ↦
              write addr n t.kernel >>= λ (r, k). Run.returned (r, record t { kernel = k })
        ]
        | fd_inode ↦
            if leb (2 ^ 31) n
            then Run.returned (none, t)
            else write_from (n + 1) f addr 0 n t >>= λ (i, t1).
                Run.returned (if i == n then some n else none, t1)
      ]
