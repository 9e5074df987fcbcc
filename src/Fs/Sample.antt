-- ===== src/Fs/Sample.antt =====
-- A small file system in the format of kernel/fs.h, for the tests.
use noy_hadar.Base.{ℕ, ◌==◌, if◌then◌else◌, true, [], ◌≡◌, ap, ◌+◌, ◌/◌, arith}
use noy_hadar.Base.Bits.{has}
use noy_hadar.Sleeplock.{initsleeplock}
use noy_hadar.Fs.{Fs, bit_set, bpb}
use noy_hadar.Fs.Bitmap.{used, IsSafe}

-- 64 blocks, of which the first ten are in use; the inodes stand in block 2, the bitmap in block 3.
abbrev pub small_fs : Fs
small_fs = record {
  sb = record {
    size = 64;
    nblocks = 54;
    ninodes = 16;
    nlog = 4;
    logstart = 5;
    inodestart = 2;
    bmapstart = 3;
  };
  blocks = λ b i. if b == 3 then if i == 0 then 255 else if i == 1 then 3 else 0 else 0;
  logged = [];
  itable = λ i. record {
    dev = 1;
    inum = 7;
    ref = if i == 4 then 1 else 0;
    lock = initsleeplock;
    valid = true;
    type = 2;
    major = 0;
    minor = 0;
    nlink = 1;
    size = 0;
    addrs = λ _. 0;
  };
}

pub small-IsSafe : IsSafe small_fs
unfolding used bit_set has
small-IsSafe = record {
  own = λ c lt.
      let e : c / bpb ≡ 0 = omega arith in (omega arith, ap (λ (m : ℕ). used small_fs (m + 3)) e);
}
