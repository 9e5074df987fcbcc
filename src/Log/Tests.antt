-- ===== src/Log/Tests.antt =====
-- Runs of kernel/log.c on small logs.
use noy_hadar.Base.{
  ℕ, ◌+◌, ◌≤◌, ◌<◌, ◌==◌, leb, if◌then◌else◌, true, false, none, some, [], ◌∷◌, ◌≡◌, ◌≢◌, inr, refl,
  arith, take, fun_ext,
}
use noy_hadar.Disk.{Disk, apply_writes}
use noy_hadar.Log.{Log, recover, begin_op, end_op_start, log_write, record_block, find_block}
use noy_hadar.Log.Install.{Outside}
use noy_hadar.Log.Header.{Committed}
use noy_hadar.Log.Atomic.{IsReady, Installed, crash_disk, commit_atomic}
use noy_hadar.Log.Again.{recover_again}
use noy_hadar.Log.Record.{Recorded, log_write-Recorded}
use noy_hadar.Log.Reserve.{Step, Reach, calls_never_panic}

-- A log at block 2 with blocks 50 and 51 to commit, both full of sevens in the buffers.
abbrev two_logged : Log
two_logged = record {
  start = 2;
  size = 31;
  outstanding = 0;
  committing = true;
  n = 2;
  block = λ i. 50 + i;
  store = record {
    disk = λ _ _. 0;
    cache = λ b. if leb 50 b then some (λ _. 7) else none;
    pins = λ b. if leb 50 b then 1 else 0;
    writes = [];
  };
}

two_logged-IsReady : IsReady two_logged
two_logged-IsReady = record { quiet = refl; clear = refl; out = λ i lt. inr (omega arith) }

commit_atomic_example :
    (3 ≤ 2
      → (b : ℕ) → Outside 2 2 b
      → (recover 2 31 (crash_disk 3 two_logged)).store.disk b ≡ two_logged.store.disk b)
    × (2 < 3 → Installed two_logged (recover 2 31 (crash_disk 3 two_logged)).store.disk)
commit_atomic_example = commit_atomic two_logged 3 two_logged-IsReady

-- A disk whose log, at block 2, holds a transaction for block 50.
abbrev one_committed : Disk
one_committed b w =
    if b == 2 then if w == 0 then 1 else if w == 1 then 50 else 0 else if b == 3 then 7 else 0

one_committed-Committed : Committed 2 1 (λ _. 50) (λ _ _. 7) one_committed
one_committed-Committed = record {
  count = refl;
  numbers = λ k lt. ground arith;
  logged = λ i lt. fun_ext (λ w. ground arith);
  out = λ i lt. inr (omega arith);
}

recover_again_example :
    let first = recover 2 31 one_committed in
    (recover 2 31 (apply_writes (take 1 first.store.writes) one_committed)).store.disk 50
    ≡ first.store.disk 50
recover_again_example =
    recover_again 2 1 31 (λ _. 50) (λ _ _. 7) one_committed 1 50 one_committed-Committed
      (inr (omega arith))

abbrev in_transaction : Log
in_transaction = record two_logged { outstanding = 1; committing = false }

log_write-Recorded_example :
    Recorded 51 in_transaction (record_block 51 (find_block (λ i. 50 + i) 51 2 0) in_transaction)
unfolding log_write
log_write-Recorded_example =
    log_write-Recorded 51 in_transaction (record { distinct = λ i j p q r. omega arith }) refl

abbrev idle : Log
idle = record two_logged { n = 0; committing = false }

one_call : Reach idle (record { log = record idle { outstanding = 1 }; left = 10 ∷ [] })
unfolding begin_op
one_call = Reach.next Reach.here (Step.enter refl)

calls_never_panic_example :
    (0 < 10 → (b : ℕ) → log_write b (record idle { outstanding = 1 }) ≢ none)
    × (end_op_start (record idle { outstanding = 1 }) ≢ none)
calls_never_panic_example = calls_never_panic refl refl (omega arith) one_call 10 [] [] refl

-- `log_write` of a block that is listed already leaves the list as it is.
absorbed : (record_block 51 (find_block (λ i. 50 + i) 51 2 0) in_transaction).n ≡ 2
unfolding record_block find_block
absorbed = refl
