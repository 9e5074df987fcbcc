-- ===== src/Content/Tests.antt =====
-- Runs of the content of files in kernel/fs.c.
use noy_hadar.Base.{ℕ, Option, true, false, none, some, ◌<◌, ◌+◌, ◌≡◌, ◌≢◌, refl, arith}
use noy_hadar.Base.Bits.{has}
use noy_hadar.Kalloc.{Memory}
use noy_hadar.Vm.{Pagetable, Run}
use noy_hadar.Usercopy.{either_copyin}
use noy_hadar.Fs.{Fs, balloc, balloc_from, find_free, bit_set, bzero}
use noy_hadar.Fs.Bitmap.{used, take_block}
use noy_hadar.Fs.Sample.{small_fs, small-IsSafe}
use noy_hadar.Inodes.{}
use noy_hadar.Content.{set_addr, addr_at, bmap, readi, writei, writei_loop}
use noy_hadar.Content.Again.{IsSound}
use noy_hadar.Content.Ends.{readi-writei_end}
use noy_hadar.Content.Write.{IsApart, readi-writei}

small-IsSound : IsSound small_fs
unfolding used bit_set has
small-IsSound = record { safe = small-IsSafe; boot = (omega arith, refl); small = omega arith }

abbrev no_pages : Pagetable
no_pages = record { page = 0; entries = λ _. none }

abbrev numbered : Memory
numbered a = a

-- The file has no blocks: its first block is block 10.
abbrev mapped_fs : Fs
mapped_fs = set_addr 4 0 10 (take_block 10 small_fs)

first_block : bmap 4 0 small_fs ≡ Run.returned (10, mapped_fs)
unfolding bmap addr_at balloc balloc_from find_free bit_set has
first_block = refl

abbrev state_of : Run (Option ℕ × Fs) → Fs
state_of (Run.returned (r, fs)) = fs
state_of _ = small_fs

abbrev written_fs : Fs
written_fs = state_of (writei 4 false no_pages 100 0 3 small_fs numbered)

wrote_three : writei 4 false no_pages 100 0 3 small_fs numbered ≡ Run.returned (some 3, written_fs)
unfolding writei writei_loop either_copyin bmap addr_at balloc balloc_from find_free bit_set has
wrote_three = refl

mapped-IsApart : IsApart 4 10 mapped_fs
unfolding bzero
mapped-IsApart = record { inode = omega arith; table = omega arith; itself = omega arith }

readi-writei_example :
    (mem' : Memory) × (readi 4 false no_pages 500 0 3 written_fs numbered
      ≡ Run.returned (some 3, written_fs, mem'))
    × ((k : ℕ) → k < 3 → mem' (500 + k) ≡ 100 + k)
readi-writei_example =
    readi-writei 4 no_pages 100 500 0 3 10 small_fs mapped_fs numbered small-IsSound first_block
      mapped-IsApart (omega arith) (omega arith) wrote_three

readi-writei_end_example :
    (readi 4 true no_pages 0 0 5 small_fs numbered ≢ Run.lost)
    × (writei 4 true no_pages 0 0 5 small_fs numbered ≢ Run.lost)
readi-writei_end_example = readi-writei_end 4 true no_pages 0 0 5 small_fs numbered
