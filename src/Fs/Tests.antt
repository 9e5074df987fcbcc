-- ===== src/Fs/Tests.antt =====
-- Runs of the block allocator of kernel/fs.c.
use noy_hadar.Base.{ℕ, ◌<◌, ◌≡◌, refl}
use noy_hadar.Base.Bits.{has}
use noy_hadar.Vm.{Run}
use noy_hadar.Fs.{Fs, balloc, balloc_from, find_free, bfree, bit_set}
use noy_hadar.Fs.Bitmap.{used, Allocated, take_block, balloc-Allocated, bfree-balloc}
use noy_hadar.Fs.Sample.{small_fs, small-IsSafe}

balloc-Allocated_example : Allocated small_fs (balloc small_fs)
balloc-Allocated_example = balloc-Allocated small_fs small-IsSafe

first_free : balloc small_fs ≡ Run.returned (10, take_block 10 small_fs)
unfolding balloc balloc_from find_free bit_set has
first_free = refl

bfree-balloc_example :
    (fs'' : Fs) × (bfree 10 (take_block 10 small_fs) ≡ Run.returned fs'')
    × ((c : ℕ) → c < 64 → used fs'' c ≡ used small_fs c)
bfree-balloc_example = bfree-balloc small_fs small-IsSafe first_free
