-- ===== src/Bcache/Tests.antt =====
-- Runs of the buffer list of kernel/bio.c.
use noy_hadar.Base.{ℕ, ◌==◌, some, ◌≡◌, ◌≢◌, refl, arith}
use noy_hadar.Bcache.{Bcache, binit, find_last, recycle, bget}
use noy_hadar.Bcache.Find.{In, find_last-In}
use noy_hadar.Bcache.Get.{Got, bget-Got}
use noy_hadar.Bcache.Unique.{Reach, one_buffer}

-- The first block takes the least recently used buffer.
abbrev first_block : Bcache
first_block = recycle 1 7 0 binit

first_bget : bget 1 7 binit ≡ some (0, first_block)
unfolding bget binit
first_bget = refl

bget_one : Got 1 7 binit 0 first_block
bget_one = bget-Got 1 7 binit first_bget

first_block-Reach : Reach first_block
first_block-Reach = Reach.got 1 7 Reach.booted (λ q. omega arith) first_bget

first_listed : In 0 first_block.order
unfolding recycle binit find_last
first_listed = (find_last-In (λ b. b.refcnt == 0) binit.buf binit.order refl).0

real_device : (first_block.buf 0).dev ≢ 0
unfolding recycle binit
real_device q = omega arith

one_buffer_example : ◌≡◌ {A = ℕ} 0 0
one_buffer_example =
    one_buffer 0 0 first_block-Reach first_listed first_listed real_device refl refl
