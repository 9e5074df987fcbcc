-- ===== src/Inodes/Tests.antt =====
-- Runs of the inode table of kernel/fs.c.
use noy_hadar.Base.{ℕ, true, ◌<◌, ◌≡◌, ◌≢◌, refl, arith}
use noy_hadar.Vm.{Run}
use noy_hadar.Fs.{Fs}
use noy_hadar.Fs.Sample.{small_fs}
use noy_hadar.Inodes.{ninode, iget, iget_from, iupdate}
use noy_hadar.Inodes.Dinode.{Fits, Agree, on_disk, iupdate-Agree}
use noy_hadar.Inodes.Unique.{holds, Step, Reach, one_inode}

small-Fits : Fits (small_fs.itable 4)
small-Fits = record {
  type = omega arith;
  major = omega arith;
  minor = omega arith;
  nlink = omega arith;
  size = omega arith;
  addrs = λ n lt. omega arith;
}

iupdate-Agree_example :
    Agree (on_disk (iupdate 4 small_fs) 7 (small_fs.itable 0)) (small_fs.itable 4)
    × ((m : ℕ)
        → m ≢ 7
        → Agree
            (on_disk (iupdate 4 small_fs) m (small_fs.itable 0))
            (on_disk small_fs m (small_fs.itable 0)))
    × ((n : ℕ) → n ≢ 2 → (iupdate 4 small_fs).blocks n ≡ small_fs.blocks n)
iupdate-Agree_example = iupdate-Agree 4 small_fs (small_fs.itable 0) small-Fits

-- A table with no references, and what three calls make of it.
abbrev empty_fs : Fs
empty_fs = record small_fs { itable = λ i. record (small_fs.itable 0) { ref = 0 } }

abbrev state_of : Run (ℕ × Fs) → Fs
state_of (Run.returned (i, fs)) = fs
state_of _ = empty_fs

abbrev used_fs : Fs
used_fs = state_of (iget 1 9 (state_of (iget 1 8 empty_fs)))

got_eight : iget 1 8 empty_fs ≡ Run.returned (0, state_of (iget 1 8 empty_fs))
unfolding iget iget_from
got_eight = refl

got_nine : iget 1 9 (state_of (iget 1 8 empty_fs)) ≡ Run.returned (1, used_fs)
unfolding iget iget_from
got_nine = refl

one_inode_example :
    ((i j : ℕ)
      → i < ninode
      → j < ninode
      → holds 1 9 (used_fs.itable i) ≡ true
      → holds 1 9 (used_fs.itable j) ≡ true
      → i ≡ j)
    × ((i j : ℕ) (fs' : Fs)
        → j < ninode
        → holds 1 9 (used_fs.itable j) ≡ true
        → iget 1 9 used_fs ≡ Run.returned (i, fs')
        → i ≡ j)
one_inode_example =
    one_inode 1 9 (λ i. refl)
      (Reach.next (Reach.next Reach.here (Step.gets 1 8 0 got_eight)) (Step.gets 1 9 1 got_nine))
