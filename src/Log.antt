-- ===== src/Log.antt =====
-- kernel/log.c: the write-ahead log that makes file-system transactions atomic across crashes.
-- The log's lock is held in every function here except `commit`, which runs while `committing`
-- keeps the others out; the disk is the one that `log.dev` names.
pub mod Install
pub mod Header
pub mod Recover
pub mod Crash
pub mod Commit
pub mod Atomic
pub mod Again
pub mod Record
pub mod Reserve
mod Tests
use noy_hadar.Base.{
  ℕ, zero, suc, ◌+◌, ◌-◌, ◌*◌, ◌==◌, ltb, leb, if◌then◌else◌, Bool, true, false, ◌||◌, Option, none,
  some, update,
}
use noy_hadar.Disk.{Block, Disk, Store, bread, set_data, bwrite, bpin, bunpin, boot}

abbrev pub max_op_blocks : ℕ
max_op_blocks = 10

abbrev pub log_size : ℕ
log_size = max_op_blocks * 3

-- `struct log` with its `struct logheader` (`n`, `block`), beside the buffers and the disk.
pub record Log : Type 0 where
  pub start : ℕ
  pub size : ℕ
  pub outstanding : ℕ
  pub committing : Bool
  pub n : ℕ
  pub block : ℕ → ℕ
  pub store : Store

-- The body of the loop of `install_trans`: block `at` of the log goes to `home`.
pub install_block : Bool → ℕ → ℕ → Store → Store
install_block recovering at home s =
    let (lbuf, s1) = bread at s in
    let (dbuf, s2) = bread home s1 in
    let s3 = bwrite home (set_data home lbuf s2) in if recovering then s3 else bunpin home s3

-- The loop of `install_trans`, `rounds` rounds from `tail` on.
pub install_from : Bool → ℕ → (ℕ → ℕ) → ℕ → ℕ → Store → Store
unfolding install_block
install_from recovering start block zero tail s = s
install_from recovering start block (suc rounds) tail s =
    install_from recovering start block rounds (tail + 1)
      (install_block recovering (start + tail + 1) (block tail) s)

-- Copy committed blocks from log to their home location.
pub install_trans : Bool → Log → Log
unfolding install_from
install_trans recovering l = record l {
  store = install_from recovering l.start l.block l.n 0 l.store;
}

-- The loops of `read_head` and `write_head`: words 1 to n of the header block are the numbers of
-- the logged blocks.
pub blocks_of_head : ℕ → ℕ → Block → (ℕ → ℕ) → ℕ → ℕ
blocks_of_head zero i lh block = block
blocks_of_head (suc rounds) i lh block =
    blocks_of_head rounds (i + 1) lh (update block i (lh (i + 1)))

pub head_of_blocks : ℕ → ℕ → (ℕ → ℕ) → Block → Block
head_of_blocks zero i block hb = hb
head_of_blocks (suc rounds) i block hb =
    head_of_blocks rounds (i + 1) block (update hb (i + 1) (block i))

-- Read the log header from disk into the in-memory log header.
pub read_head : Log → Log
unfolding blocks_of_head
read_head l =
    let (lh, s1) = bread l.start l.store in
    record l { n = lh 0; block = blocks_of_head (lh 0) 0 lh l.block; store = s1 }

-- Write in-memory log header to disk.
pub write_head : Log → Log
unfolding head_of_blocks
write_head l =
    let (hb, s1) = bread l.start l.store in
    let hb' = head_of_blocks l.n 0 l.block (update hb 0 l.n) in
    record l { store = bwrite l.start (set_data l.start hb' s1) }

pub recover_from_log : Log → Log
unfolding read_head install_trans write_head
recover_from_log l =
    let l1 = read_head l in let l2 = install_trans true l1 in write_head (record l2 { n = 0 })

-- `log` as the C program starts it (all zero), over a disk, before `initlog`.
pub log_at_boot : Disk → Log
log_at_boot d = record {
  start = 0;
  size = 0;
  outstanding = 0;
  committing = false;
  n = 0;
  block = λ _. 0;
  store = boot d;
}

-- `initlog` with the superblock's `logstart` and `nlog`.
pub initlog : ℕ → ℕ → Log → Log
unfolding recover_from_log
initlog logstart nlog l = recover_from_log (record l { start = logstart; size = nlog })

-- What the machine does with its log when it restarts on a disk.
pub recover : ℕ → ℕ → Disk → Log
unfolding initlog log_at_boot
recover logstart nlog d = initlog logstart nlog (log_at_boot d)

-- The body of the loop of `write_log`: the cached block `home` goes to block `at` of the log.
pub log_block : ℕ → ℕ → Store → Store
log_block at home s =
    let (to, s1) = bread at s in let (from, s2) = bread home s1 in bwrite at (set_data at from s2)

-- The loop of `write_log`.
pub write_log_from : ℕ → (ℕ → ℕ) → ℕ → ℕ → Store → Store
unfolding log_block
write_log_from start block zero tail s = s
write_log_from start block (suc rounds) tail s =
    write_log_from start block rounds (tail + 1) (log_block (start + tail + 1) (block tail) s)

pub write_log : Log → Log
unfolding write_log_from
write_log l = record l { store = write_log_from l.start l.block l.n 0 l.store }

pub commit : Log → Log
unfolding write_log write_head install_trans
commit l =
    let l1 = write_log l in
    let l2 = write_head l1 in
    let l3 = install_trans false l2 in if ltb 0 l.n then write_head (record l3 { n = 0 }) else l

-- `begin_op` either enters, or would sleep on the log and try again when woken.
pub begin_op : Log → Option Log
begin_op l =
    if l.committing
    then none
    else if ltb log_size (l.n + (l.outstanding + 1) * max_op_blocks)
    then none
    else some (record l { outstanding = l.outstanding + 1 })

-- `end_op` up to the release of the lock: whether to commit, and the log. `none` is the panic, and
-- a call with no operation in progress, which would make the count negative.
pub end_op_start : Log → Option (Bool × Log)
end_op_start l =
    let l1 = record l { outstanding = l.outstanding - 1 } in
    if l.outstanding == 0
    then none
    else if l1.committing
    then none
    else if l1.outstanding == 0
    then some (true, record l1 { committing = true })
    else some (false, l1)

pub end_op_finish : Log → Log
end_op_finish l = record l { committing = false }

pub end_op : Log → Option Log
unfolding end_op_start end_op_finish commit
end_op l = elim (end_op_start l) [
  | none ↦ none
  | some (do_commit, l1) ↦ some (if do_commit then end_op_finish (commit l1) else l1)
]

-- The first index below the end that holds `b`, or the end.
pub find_block : (ℕ → ℕ) → ℕ → ℕ → ℕ → ℕ
find_block block b zero i = i
find_block block b (suc rounds) i = elim (block i == b) [
  | true ↦ i
  | false ↦ find_block block b rounds (i + 1)
]

-- The rest of `log_write` behind its panics, for the index `i` at which its loop stops.
pub record_block : ℕ → ℕ → Log → Log
record_block blockno i l =
    let l1 = record l { block = update l.block i blockno } in
    if i == l.n then record l1 { store = bpin blockno l.store; n = l.n + 1 } else l1

-- `none` is a panic.
pub log_write : ℕ → Log → Option Log
unfolding find_block record_block
log_write blockno l =
    if leb log_size l.n || leb (l.size - 1) l.n
    then none
    else if ltb l.outstanding 1
    then none
    else some (record_block blockno (find_block l.block blockno l.n 0) l)
