-- ===== src/Content.antt =====
-- The content of inodes in kernel/fs.c: bmap, itrunc, readi, writei and iput. `mem` is the memory
-- that either_copyout and either_copyin use, and `pt` the page table of the calling process.
pub mod Again
pub mod Ends
pub mod Write
mod Tests
use noy_hadar.Base.{
  ℕ, zero, suc, ◌+◌, ◌-◌, ◌*◌, ◌/◌, ◌%◌, ◌^◌, ◌==◌, ltb, leb, min, if◌then◌else◌, Bool, true, false,
  not, ◌&&◌, ◌||◌, Option, none, some, List, [], ◌∷◌, update,
}
use noy_hadar.Kalloc.{Memory}
use noy_hadar.Vm.{Pagetable, Run, ◌>>=◌}
use noy_hadar.Usercopy.{write_bytes, read_bytes, either_copyout, either_copyin}
use noy_hadar.Fs.{Block, bsize, Inode, Fs, get_le, put_le, log_write, balloc, bfree}
use noy_hadar.Inodes.{set_inode, iupdate, drop_ref, iunlock}

abbrev pub ndirect : ℕ
ndirect = 12

abbrev pub nindirect : ℕ
nindirect = 256

-- `MAXFILE*BSIZE`
abbrev pub max_file_bytes : ℕ
max_file_bytes = (ndirect + nindirect) * bsize

abbrev pub set_addr : ℕ → ℕ → ℕ → Fs → Fs
set_addr i n addr fs =
    let ip = fs.itable i in set_inode i (record ip { addrs = update ip.addrs n addr }) fs

-- `ip->addrs[n]`, with a new block where there is none.
unfoldable pub addr_at : ℕ → ℕ → Fs → Run (ℕ × Fs)
addr_at i n fs =
    let addr = (fs.itable i).addrs n in
    if addr == 0
    then (balloc fs >>= λ (a, fs1). Run.returned (a, set_addr i n a fs1))
    else Run.returned (addr, fs)

-- `a[bn]` of the indirect block `at`, with a new block where there is none.
unfoldable pub entry_at : ℕ → ℕ → Fs → Run (ℕ × Fs)
entry_at at bn fs =
    let addr = get_le 4 (4 * bn) (fs.blocks at) in
    if addr == 0
    then (balloc fs >>= λ (a, fs1).
        Run.returned (a, log_write at (put_le 4 (4 * bn) a (fs1.blocks at)) fs1))
    else Run.returned (addr, fs)

unfoldable pub bmap : ℕ → ℕ → Fs → Run (ℕ × Fs)
unfolding addr_at entry_at
bmap i bn fs =
    if ltb bn ndirect
    then addr_at i bn fs
    else if ltb (bn - ndirect) nindirect
    then (addr_at i ndirect fs >>= λ (at, fs1). entry_at at (bn - ndirect) fs1)
    else Run.panic

-- `if(addr) bfree(addr)`
unfoldable pub free_block : ℕ → Fs → Run Fs
free_block addr fs = if addr == 0 then Run.returned fs else bfree addr fs

-- The first loop of `itrunc`.
pub free_direct : ℕ → ℕ → ℕ → Fs → Run Fs
unfolding free_block
free_direct zero n i fs = Run.returned fs
free_direct (suc rounds) n i fs = free_block ((fs.itable i).addrs n) fs >>= λ fs1.
    free_direct rounds (n + 1) i (set_addr i n 0 fs1)

-- Its second loop, over the indirect block `at`.
pub free_entries : ℕ → ℕ → ℕ → Fs → Run Fs
unfolding free_block
free_entries zero j at fs = Run.returned fs
free_entries (suc rounds) j at fs =
    free_block (get_le 4 (4 * j) (fs.blocks at)) fs >>= free_entries rounds (j + 1) at

-- What it does about the indirect block.
pub free_indirect : ℕ → Fs → Run Fs
unfolding free_entries
free_indirect i fs =
    let at = (fs.itable i).addrs ndirect in
    if at == 0
    then Run.returned fs
    else free_entries nindirect 0 at fs >>= λ fs1.
        bfree at fs1 >>= λ fs2. Run.returned (set_addr i ndirect 0 fs2)

pub itrunc : ℕ → Fs → Run Fs
unfolding free_direct free_indirect
itrunc i fs = free_direct ndirect 0 i fs >>= λ fs1. free_indirect i fs1 >>= λ fs2.
    Run.returned (iupdate i (set_inode i (record (fs2.itable i) { size = 0 }) fs2))

-- The part of `iput` that frees an inode; it waits for nobody, or is `lost`.
pub free_inode : ℕ → ℕ → Fs → Run Fs
unfolding itrunc
free_inode pid i fs =
    let ip = fs.itable i in
    if ip.lock.locked
    then Run.lost
    else itrunc i (set_inode i (record ip { lock = record { locked = true; pid = pid } }) fs)
      >>= λ fs1.
          let fs2 = iupdate i (set_inode i (record (fs1.itable i) { type = 0 }) fs1) in
          Run.returned (
            set_inode i
              (record (fs2.itable i) { valid = false; lock = record { locked = false; pid = 0 } })
              fs2)

pub iput : ℕ → ℕ → Fs → Run Fs
unfolding free_inode
iput pid i fs =
    let ip = fs.itable i in
    if ip.ref == 1 && (ip.valid && ip.nlink == 0)
    then (free_inode pid i fs >>= λ fs1. Run.returned (drop_ref i fs1))
    else Run.returned (drop_ref i fs)

pub iunlockput : ℕ → ℕ → Fs → Run Fs
unfolding iput
iunlockput pid i fs = iunlock pid i fs >>= iput pid i

-- `off + n < off` for numbers of 32 bits
abbrev pub wraps : ℕ → ℕ → Bool
wraps off n = ltb ((off + n) % 2 ^ 32) off

-- What the loop of `readi` does behind `either_copyout`; `go` is the loop.
abbrev pub continue_read :
    (Fs → Memory → Run (Option ℕ × Fs × Memory)) → Fs → Bool × Memory → Run (Option ℕ × Fs × Memory)
continue_read go fs (true, mem) = go fs mem
continue_read go fs (false, mem) = Run.returned (none, fs, mem)

-- The loop of `readi`: the bytes read, or none for -1.
unfoldable pub readi_loop :
    ℕ → ℕ → Bool → Pagetable → ℕ → ℕ → ℕ → ℕ → Fs → Memory → Run (Option ℕ × Fs × Memory)
readi_loop zero i user_dst pt dst off tot n fs mem = Run.lost
readi_loop (suc fuel) i user_dst pt dst off tot n fs mem =
    let m = min (n - tot) (bsize - off % bsize) in
    if not (ltb tot n)
    then Run.returned (some tot, fs, mem)
    else bmap i (off / bsize) fs >>= λ (addr, fs1).
        either_copyout user_dst pt dst (read_bytes m (off % bsize) (fs1.blocks addr)) mem
        >>= continue_read (readi_loop fuel i user_dst pt (dst + m) (off + m) (tot + m) n) fs1

unfoldable pub readi : ℕ → Bool → Pagetable → ℕ → ℕ → ℕ → Fs → Memory → Run (Option ℕ × Fs × Memory)
unfolding readi_loop
readi i user_dst pt dst off n fs mem =
    let size = (fs.itable i).size in
    let n' = if ltb size (off + n) then size - off else n in
    if ltb size off || wraps off n
    then Run.returned (some 0, fs, mem)
    else readi_loop (n' / bsize + 3) i user_dst pt dst off 0 n' fs mem

-- What the loop of `writei` does behind `either_copyin`, for the block `addr`. What a copy that
-- fails has written stays in the buffer, which is not logged.
abbrev pub continue_write :
    (Fs → Run (ℕ × ℕ × Fs)) → ℕ → ℕ → ℕ → Fs → Bool × List ℕ → Run (ℕ × ℕ × Fs)
continue_write go addr tot off fs (true, bytes) =
    go (log_write addr (write_bytes (off % bsize) bytes (fs.blocks addr)) fs)
continue_write go addr tot off fs (false, bytes) = Run.returned (
  tot,
  off,
  record fs { blocks = update fs.blocks addr (write_bytes (off % bsize) bytes (fs.blocks addr)) },
)

-- The loop of `writei`, with the offset that it comes to.
unfoldable pub writei_loop :
    ℕ → ℕ → Bool → Pagetable → ℕ → ℕ → ℕ → ℕ → Fs → Memory → Run (ℕ × ℕ × Fs)
writei_loop zero i user_src pt src off tot n fs mem = Run.lost
writei_loop (suc fuel) i user_src pt src off tot n fs mem =
    let m = min (n - tot) (bsize - off % bsize) in
    if not (ltb tot n)
    then Run.returned (tot, off, fs)
    else bmap i (off / bsize) fs >>= λ (addr, fs1).
        either_copyin user_src pt src m mem
        >>= continue_write
            (λ fs2. writei_loop fuel i user_src pt (src + m) (off + m) (tot + m) n fs2 mem) addr tot
            off fs1

-- The end of `writei`.
unfoldable pub grow_file : ℕ → ℕ → Fs → Fs
grow_file i off fs =
    let ip = fs.itable i in
    iupdate i (if ltb ip.size off then set_inode i (record ip { size = off }) fs else fs)

unfoldable pub writei : ℕ → Bool → Pagetable → ℕ → ℕ → ℕ → Fs → Memory → Run (Option ℕ × Fs)
unfolding writei_loop grow_file
writei i user_src pt src off n fs mem =
    if ltb (fs.itable i).size off || wraps off n
    then Run.returned (none, fs)
    else if ltb max_file_bytes (off + n)
    then Run.returned (none, fs)
    else writei_loop (n / bsize + 3) i user_src pt src off 0 n fs mem >>= λ (tot, off', fs1).
        Run.returned (some tot, grow_file i off' fs1)
