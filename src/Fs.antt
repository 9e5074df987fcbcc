-- ===== src/Fs.antt =====
-- Blocks of the file system of kernel/fs.c, as a transaction sees them: `bread` returns what was
-- last logged for a block, or else the disk's contents, which are the calls of kernel/bio.c and
-- kernel/log.c. There is one device. A block is its bytes; numbers are little endian.
pub mod Bytes
pub mod Bitmap
pub mod Sample
mod Tests
use noy_hadar.Base.{
  ℕ, zero, suc, ◌+◌, ◌-◌, ◌*◌, ◌/◌, ◌%◌, ◌^◌, ◌==◌, ltb, leb, if◌then◌else◌, Bool, true, false, not,
  Option, none, some, List, [], ◌∷◌, update,
}
use noy_hadar.Base.Bits.{has, with_bit, without_bit}
use noy_hadar.Vm.{Run}
use noy_hadar.Sleeplock.{Sleeplock}

abbrev pub Block : Type 0
Block = ℕ → ℕ

abbrev pub bsize : ℕ
bsize = 1024

-- `struct superblock`, but for `magic`, which only `fsinit` looks at.
pub record Superblock : Type 0 where
  pub size : ℕ
  pub nblocks : ℕ
  pub ninodes : ℕ
  pub nlog : ℕ
  pub logstart : ℕ
  pub inodestart : ℕ
  pub bmapstart : ℕ

-- `struct inode`; the fields of type `short` hold their 16 bits.
pub record Inode : Type 0 where
  pub dev : ℕ
  pub inum : ℕ
  pub ref : ℕ
  pub lock : Sleeplock
  pub valid : Bool
  pub type : ℕ
  pub major : ℕ
  pub minor : ℕ
  pub nlink : ℕ
  pub size : ℕ
  pub addrs : ℕ → ℕ

-- The superblock, the blocks, those that `log_write` was called for, the last first, and `itable`.
pub record Fs : Type 0 where
  pub sb : Superblock
  pub blocks : ℕ → Block
  pub logged : List ℕ
  pub itable : ℕ → Inode

-- A number of `n` bytes at `at`.
unfoldable pub get_le : ℕ → ℕ → Block → ℕ
get_le zero at b = 0
get_le (suc n) at b = b at + 256 * get_le n (at + 1) b

unfoldable pub put_le : ℕ → ℕ → ℕ → Block → Block
put_le zero at v b = b
put_le (suc n) at v b = put_le n (at + 1) (v / 256) (update b at (v % 256))

-- `memset(p, 0, n)`
unfoldable pub clear : ℕ → ℕ → Block → Block
clear n at b i = if leb at i then if ltb i (at + n) then 0 else b i else b i

-- `log_write` of a buffer whose data is `b`.
abbrev pub log_write : ℕ → Block → Fs → Fs
log_write bno b fs = record fs { blocks = update fs.blocks bno b; logged = bno ∷ fs.logged }

-- The superblock in block 1; `none` is the panic of `fsinit`.
pub readsb : (ℕ → Block) → ℕ × Superblock
unfolding get_le
readsb blocks =
    let b = blocks 1 in
    (
      get_le 4 0 b,
      record {
        size = get_le 4 4 b;
        nblocks = get_le 4 8 b;
        ninodes = get_le 4 12 b;
        nlog = get_le 4 16 b;
        logstart = get_le 4 20 b;
        inodestart = get_le 4 24 b;
        bmapstart = get_le 4 28 b;
      },
    )

-- With what `initlog` does to the blocks.
pub fsinit : (Superblock → (ℕ → Block) → ℕ → Block) → Fs → Option Fs
unfolding readsb
fsinit initlog fs =
    let (magic, sb) = readsb fs.blocks in
    if magic == 0x10203040
    then some (record fs { sb = sb; blocks = initlog sb fs.blocks })
    else none

-- `BPB`, and `BBLOCK(b, sb)`
abbrev pub bpb : ℕ
bpb = 8192

abbrev pub bblock : ℕ → Superblock → ℕ
bblock b sb = b / bpb + sb.bmapstart

unfoldable pub bzero : ℕ → Fs → Fs
unfolding clear
bzero bno fs = log_write bno (clear bsize 0 (fs.blocks bno)) fs

-- Whether bit `bi` of a block of the bitmap is set, and that block with the bit set, or not.
unfoldable pub bit_set : ℕ → Block → Bool
bit_set bi b = has (b (bi / 8)) (bi % 8)

unfoldable pub set_bit : ℕ → Block → Block
set_bit bi b = update b (bi / 8) (with_bit (b (bi / 8)) (bi % 8))

unfoldable pub clear_bit : ℕ → Block → Block
clear_bit bi b = update b (bi / 8) (without_bit (b (bi / 8)) (bi % 8))

-- The inner loop of `balloc`, from bit `bi` on, in the bitmap's block for `b`.
unfoldable pub find_free : ℕ → ℕ → ℕ → ℕ → Block → Option ℕ
unfolding bit_set
find_free zero bi b size map = none
find_free (suc rounds) bi b size map =
    let rest = find_free rounds (bi + 1) b size map in
    if ltb (b + bi) size then if bit_set bi map then rest else some bi else none

-- The outer loop, from `b` on.
unfoldable pub balloc_from : ℕ → ℕ → Fs → Run (ℕ × Fs)
balloc_from zero b fs = Run.lost
balloc_from (suc fuel) b fs =
    let map = fs.blocks (bblock b fs.sb) in
    let rest = balloc_from fuel (b + bpb) fs in
    if ltb b fs.sb.size
    then elim (find_free bpb 0 b fs.sb.size map) [
      | none ↦ rest
      | some bi ↦
          Run.returned (b + bi, bzero (b + bi) (log_write (bblock b fs.sb) (set_bit bi map) fs))
    ]
    else Run.panic

unfoldable pub balloc : Fs → Run (ℕ × Fs)
balloc fs = balloc_from (fs.sb.size / bpb + 2) 0 fs

unfoldable pub bfree : ℕ → Fs → Run Fs
unfolding bit_set clear_bit
bfree b fs =
    let map = fs.blocks (bblock b fs.sb) in
    if bit_set (b % bpb) map
    then Run.returned (log_write (bblock b fs.sb) (clear_bit (b % bpb) map) fs)
    else Run.panic
