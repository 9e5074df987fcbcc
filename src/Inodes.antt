-- ===== src/Inodes.antt =====
-- The inodes of kernel/fs.c: the table in memory and their fields on disk. An inode in memory is
-- its index in `itable`. A call that would sleep for an inode's lock is `lost`.
pub mod Dinode
pub mod Unique
mod Tests
use noy_hadar.Base.{
  ℕ, zero, suc, ◌+◌, ◌-◌, ◌*◌, ◌/◌, ◌%◌, ◌^◌, ◌==◌, ltb, leb, if◌then◌else◌, Bool, true, false, not,
  ◌&&◌, ◌||◌, Option, none, some, List, [], ◌∷◌, update,
}
use noy_hadar.Vm.{Run, ◌>>=◌}
use noy_hadar.Sleeplock.{Sleeplock}
use noy_hadar.Fs.{Block, Superblock, Inode, Fs, get_le, put_le, clear, log_write}

abbrev pub ninode : ℕ
ninode = 50

abbrev pub set_inode : ℕ → Inode → Fs → Fs
set_inode i ip fs = record fs { itable = update fs.itable i ip }

-- `IBLOCK(i, sb)`, and where the inode stands in that block: there are `IPB` of 64 bytes.
abbrev pub iblock : ℕ → Superblock → ℕ
iblock inum sb = inum / 16 + sb.inodestart

abbrev pub islot : ℕ → ℕ
islot inum = 64 * (inum % 16)

-- `memmove` from the addresses of an inode in memory.
unfoldable pub put_addrs : ℕ → ℕ → ℕ → (ℕ → ℕ) → Block → Block
unfolding put_le
put_addrs zero n at addrs b = b
put_addrs (suc rounds) n at addrs b =
    put_addrs rounds (n + 1) at addrs (put_le 4 (at + 4 * n) (addrs n) b)

-- The assignments of `iupdate` to a `struct dinode` at `at`.
unfoldable pub put_dinode : ℕ → Inode → Block → Block
unfolding put_le put_addrs
put_dinode at ip b = put_addrs 13 0 (at + 12) ip.addrs (
    put_le 4 (at + 8) ip.size (
      put_le 2 (at + 6) ip.nlink
        (put_le 2 (at + 4) ip.minor (put_le 2 (at + 2) ip.major (put_le 2 at ip.type b)))))

-- The assignments of `ilock` from a `struct dinode` at `at`.
unfoldable pub get_dinode : ℕ → Block → Inode → Inode
unfolding get_le
get_dinode at b ip = record ip {
  type = get_le 2 at b;
  major = get_le 2 (at + 2) b;
  minor = get_le 2 (at + 4) b;
  nlink = get_le 2 (at + 6) b;
  size = get_le 4 (at + 8) b;
  addrs = λ n. get_le 4 (at + 12 + 4 * n) b;
  valid = true;
}

unfoldable pub iupdate : ℕ → Fs → Fs
unfolding put_dinode
iupdate i fs =
    let ip = fs.itable i in
    let bno = iblock ip.inum fs.sb in
    log_write bno (put_dinode (islot ip.inum) ip (fs.blocks bno)) fs

-- How the loop of `iget` ends: with the inode, or with the first empty slot that it saw.
pub data Scan : Type 0 where
  hit : ℕ → Scan
  miss : Option ℕ → Scan

abbrev pub remember : Option ℕ → ℕ → ℕ → Option ℕ
remember (some e) ref i = some e
remember none ref i = if ref == 0 then some i else none

unfoldable pub iget_from : ℕ → ℕ → Option ℕ → ℕ → ℕ → (ℕ → Inode) → Scan
iget_from zero i empty dev inum itable = Scan.miss empty
iget_from (suc rounds) i empty dev inum itable =
    let ip = itable i in
    let rest = iget_from rounds (i + 1) (remember empty ip.ref i) dev inum itable in
    if ltb 0 ip.ref && (ip.dev == dev && ip.inum == inum) then Scan.hit i else rest

unfoldable pub iget : ℕ → ℕ → Fs → Run (ℕ × Fs)
unfolding iget_from
iget dev inum fs = elim (iget_from ninode 0 none dev inum fs.itable) [
  | hit i ↦
      let ip = fs.itable i in Run.returned (i, set_inode i (record ip { ref = ip.ref + 1 }) fs)
  | miss none ↦ Run.panic
  | miss (some i) ↦
      Run.returned (
        i,
        set_inode i (record (fs.itable i) { dev = dev; inum = inum; ref = 1; valid = false }) fs,
      )
]

unfoldable pub idup : ℕ → Fs → Fs
idup i fs = let ip = fs.itable i in set_inode i (record ip { ref = ip.ref + 1 }) fs

-- The end of `iput`.
unfoldable pub drop_ref : ℕ → Fs → Fs
drop_ref i fs = let ip = fs.itable i in set_inode i (record ip { ref = ip.ref - 1 }) fs

-- `ilock` by the process `pid`, and the part of it that reads the inode.
unfoldable pub read_inode : ℕ → Fs → Run Fs
unfolding get_dinode
read_inode i fs =
    let ip = fs.itable i in
    let read = get_dinode (islot ip.inum) (fs.blocks (iblock ip.inum fs.sb)) ip in
    if ip.valid
    then Run.returned fs
    else if read.type == 0
    then Run.panic
    else Run.returned (set_inode i read fs)

unfoldable pub ilock : ℕ → ℕ → Fs → Run Fs
unfolding read_inode
ilock pid i fs =
    let ip = fs.itable i in
    if ltb ip.ref 1
    then Run.panic
    else if ip.lock.locked
    then Run.lost
    else read_inode i (set_inode i (record ip { lock = record { locked = true; pid = pid } }) fs)

unfoldable pub iunlock : ℕ → ℕ → Fs → Run Fs
iunlock pid i fs =
    let ip = fs.itable i in
    if not (ip.lock.locked && ip.lock.pid == pid) || ltb ip.ref 1
    then Run.panic
    else Run.returned (set_inode i (record ip { lock = record { locked = false; pid = 0 } }) fs)

-- The loop of `ialloc`, from `inum` on.
pub ialloc_from : ℕ → ℕ → ℕ → ℕ → Fs → Run (ℕ × Fs)
unfolding get_le put_le clear iget
ialloc_from zero inum dev type fs = Run.panic
ialloc_from (suc rounds) inum dev type fs =
    let bno = iblock inum fs.sb in
    let b = fs.blocks bno in
    let rest = ialloc_from rounds (inum + 1) dev type fs in
    if get_le 2 (islot inum) b == 0
    then iget dev inum (log_write bno (put_le 2 (islot inum) type (clear 64 (islot inum) b)) fs)
    else rest

pub ialloc : ℕ → ℕ → Fs → Run (ℕ × Fs)
unfolding ialloc_from
ialloc dev type fs = ialloc_from (fs.sb.ninodes - 1) 1 dev type fs

-- `struct stat`
pub record Stat : Type 0 where
  pub dev : ℕ
  pub ino : ℕ
  pub type : ℕ
  pub nlink : ℕ
  pub size : ℕ

abbrev pub stati : ℕ → Fs → Stat
stati i fs =
    let ip = fs.itable i in
    record { dev = ip.dev; ino = ip.inum; type = ip.type; nlink = ip.nlink; size = ip.size }
