-- ===== src/Log/Atomic.antt =====
-- `commit` of kernel/log.c against crashes: the machine may stop after any of its disk writes.
use noy_hadar.Base.{
  ℕ, zero, suc, ◌+◌, ◌-◌, ◌≤◌, ◌<◌, false, [], ◌∷◌, ◌++◌, update, length, take, ◌≡◌, ◌≢◌, refl, sym,
  ap, ◌∙◌, update_ne, dec_le, arith, subst, dec_lt, lt→ltb, le→ltb-false,
}
use noy_hadar.Disk.{Block, Disk, Writes, view, apply_writes}
use noy_hadar.Disk.Laws.{Wrote, Wrote-trans, apply_writes-append}
use noy_hadar.Log.{Log, head_of_blocks, write_log, write_head, install_trans, commit, recover}
use noy_hadar.Log.Install.{to_log, to_home, Outside, install_from-Wrote, write_log_from-Wrote}
use noy_hadar.Log.Header.{Committed, head_of_blocks_below, head_of_blocks_at, write_head-Wrote}
use noy_hadar.Log.Commit.{recover_clear, recover_values, recover_rest, cut-Committed}
use noy_hadar.Log.Recover.{}
use noy_hadar.Log.Crash.{
  cut, cut-other, cut-hit, cut-cleared, begun, begun-other, logged_other, logged-Committed,
  length-to_log, take-append_left, take-append_right,
}

-- No transaction is in the disk's log, and the blocks to commit lie outside the log.
pub record IsReady (l : Log) : Type 0 where
  pub quiet : l.store.writes ≡ []
  pub clear : l.store.disk l.start 0 ≡ 0
  pub out : (i : ℕ) → i < l.n → Outside l.start l.n (l.block i)

-- The disk when the machine stops after `k` of the writes of `commit`.
abbrev pub crash_disk : ℕ → Log → Disk
crash_disk k l = apply_writes (take k (commit l).store.writes) l.store.disk

-- The transaction is on the disk, and the blocks that it does not name are as they were.
pub record Installed (l : Log) (d : Disk) : Type 0 where
  pub values : (i : ℕ) → i < l.n → d (l.block i) ≡ view l.store (l.block i)
  pub rest :
      (b : ℕ) → Outside l.start l.n b → ((i : ℕ) → i < l.n → l.block i ≢ b) → d b ≡ l.store.disk b

-- What `commit` writes: the log, the header, the homes, and the header cleared.
module _ (l : Log) (ready : IsReady l) (some_n : 0 < l.n) where
  abbrev f : Disk
  f = view l.store

  abbrev logged : Log
  logged = write_log l

  logged-Wrote : Wrote l.store logged.store (to_log l.start l.block f l.n 0)
  unfolding write_log
  logged-Wrote =
      write_log_from-Wrote l.start l.block f l.n l.n 0 l.store (omega arith) (λ i _ _. refl)
        ready.out

  abbrev header : Block
  header = head_of_blocks l.n 0 l.block (update (view logged.store l.start) 0 l.n)

  abbrev headed : Log
  headed = write_head logged

  headed-Wrote : Wrote logged.store headed.store ((l.start, header) ∷ [])
  unfolding write_log
  headed-Wrote = write_head-Wrote logged

  header-Committed :
      (d : Disk)
      → Committed l.start l.n l.block f
          (update (apply_writes (to_log l.start l.block f l.n 0) d) l.start header)
  header-Committed d =
      logged-Committed l.start l.n l.block f d 0 header
        (head_of_blocks_below l.n 0 l.block _ 0 (omega arith) ∙ ground arith)
        (λ k lt. head_of_blocks_at l.n 0 l.block _ k (omega arith) (omega arith)) ready.out

  abbrev installed : Log
  installed = install_trans false headed

  installed-Wrote : Wrote headed.store installed.store (to_home l.block f l.n 0)
  unfolding write_head write_log install_trans apply_writes
  installed-Wrote =
      install_from-Wrote l.start l.block f l.n false l.n 0 headed.store (omega arith)
        (λ i _ lt.
          ap (λ (v : Disk). v (l.start + i + 1)) (Wrote-trans logged-Wrote headed-Wrote).seen
          ∙ ap (λ (v : Disk). v (l.start + i + 1))
              (apply_writes-append (to_log l.start l.block f l.n 0) ((l.start, header) ∷ []) f)
          ∙ (header-Committed f).logged i lt)
        ready.out

  pub commit-Wrote :
      (h : Block) × (h 0 ≡ 0)
      × Wrote l.store (commit l).store (
          to_log l.start l.block f l.n 0
          ++ (l.start, header) ∷ (to_home l.block f l.n 0 ++ (l.start, h) ∷ []))
  unfolding commit write_head write_log install_trans head_of_blocks
  commit-Wrote = rw (lt→ltb 0 l.n some_n) (
    head_of_blocks 0 0 installed.block (update (view installed.store l.start) 0 0),
    refl,
    Wrote-trans logged-Wrote (
        Wrote-trans headed-Wrote
          (Wrote-trans installed-Wrote (write_head-Wrote (record installed { n = 0 })))),
  )

  abbrev log_writes : Writes
  log_writes = to_log l.start l.block f l.n 0

  abbrev last_writes : Block → Writes
  last_writes h = to_home l.block f l.n 0 ++ (l.start, h) ∷ []

  commit-told :
      (h : Block) × (h 0 ≡ 0)
      × ((commit l).store.writes ≡ log_writes ++ (l.start, header) ∷ last_writes h)
  commit-told =
      let (h, e, w) = commit-Wrote in
      (
        h,
        e,
        w.told
            ∙ ap (λ (ws : Writes). ws ++ (log_writes ++ (l.start, header) ∷ last_writes h))
                ready.quiet,
      )

  -- Stopped within `write_log`, or before.
  crash_early : (k : ℕ) → k ≤ l.n → crash_disk k l ≡ begun l.start l.n l.block f l.store.disk k
  crash_early k le =
      let (h, _, told) = commit-told in
      ap (λ (ws : Writes). apply_writes (take k ws) l.store.disk) told
      ∙ ap (λ (ws : Writes). apply_writes ws l.store.disk)
          (take-append_left k log_writes ((l.start, header) ∷ last_writes h)
            (omega (arith, length-to_log l.start l.block f l.n 0)))

  -- The disk once the header is written: the transaction is committed.
  abbrev committed : Disk
  committed = update (apply_writes log_writes l.store.disk) l.start header

  crash_late :
      (k : ℕ)
      → l.n < k
      → (h : Block) × (h 0 ≡ 0)
        × (crash_disk k l ≡ cut l.start l.n l.block f committed h (k - l.n - 1))
  unfolding apply_writes
  crash_late k lt =
      let (h, e, told) = commit-told in
      let rest = (l.start, header) ∷ last_writes h in
      (
        h,
        e,
        ap (λ (ws : Writes). apply_writes (take k ws) l.store.disk) told
            ∙ ap (λ (ws : Writes). apply_writes ws l.store.disk)
                (take-append_right k log_writes rest
                  (omega (arith, length-to_log l.start l.block f l.n 0)))
            ∙ apply_writes-append log_writes (take (k - length log_writes) rest) l.store.disk
            ∙ ap (λ (m : ℕ). apply_writes (take m rest) (apply_writes log_writes l.store.disk))
                (count k lt),
      )
    where
      count : (k : ℕ) → l.n < k → k - length log_writes ≡ suc (k - l.n - 1)
      count k lt = omega (arith, length-to_log l.start l.block f l.n 0)

  committed-eq : (b : ℕ) → Outside l.start l.n b → committed b ≡ l.store.disk b
  committed-eq b out =
      update_ne (apply_writes log_writes l.store.disk) l.start header b (λ e. omega arith)
      ∙ logged_other l.start l.n l.block f l.store.disk 0 b (omega arith)

  early_old :
      (k : ℕ)
      → k ≤ l.n
      → (b : ℕ) → Outside l.start l.n b
      → (recover l.start l.size (crash_disk k l)).store.disk b ≡ l.store.disk b
  early_old k le b out =
      recover_clear l.start l.size (crash_disk k l) b
        (ap (λ (d : Disk). d l.start 0) (crash_early k le)
          ∙ ap (λ (x : Block). x 0)
              (begun-other l.start l.n l.block f l.store.disk k l.start (omega arith))
          ∙ ready.clear)
        (λ e. omega arith)
      ∙ ap (λ (d : Disk). d b) (crash_early k le)
      ∙ begun-other l.start l.n l.block f l.store.disk k b (omega arith)

  -- Stopped after the header is written, before or after it is cleared.
  module _ (h : Block) (e : h 0 ≡ 0) (j : ℕ) where
    abbrev stopped : Disk
    stopped = cut l.start l.n l.block f committed h j

    before_clear : j ≤ l.n → Installed l (recover l.start l.size stopped).store.disk
    before_clear le = record {
      values = recover_values l.start l.n l.size l.block f stopped still;
      rest = λ b out away.
          recover_rest l.start l.n l.size l.block f stopped still b (λ q. omega arith) away
          ∙ cut-other l.start l.n l.block f committed h j b (λ q. omega arith) away
          ∙ committed-eq b out;
    }
      where
        still : Committed l.start l.n l.block f stopped
        still =
            cut-Committed l.start l.n l.size l.block f committed (header-Committed l.store.disk) h j
              le

    after_clear : l.n < j → Installed l (recover l.start l.size stopped).store.disk
    after_clear lt = record {
      values = λ i li.
          kept (l.block i) (λ q. omega (arith, ready.out i li))
          ∙ cut-hit l.start l.n l.block f committed h j i (omega arith) li
              (λ q. omega (arith, ready.out i li));
      rest = λ b out away.
          kept b (λ q. omega arith)
          ∙ cut-other l.start l.n l.block f committed h j b (λ q. omega arith) away
          ∙ committed-eq b out;
    }
      where
        kept : (b : ℕ) → b ≢ l.start → (recover l.start l.size stopped).store.disk b ≡ stopped b
        kept b ne =
            recover_clear l.start l.size stopped b
              (cut-cleared l.start l.n l.block f committed h j lt e) ne

  late_new : (k : ℕ) → l.n < k → Installed l (recover l.start l.size (crash_disk k l)).store.disk
  late_new k lt =
      let (h, e, same) = crash_late k lt in
      subst (λ (d : Disk). Installed l (recover l.start l.size d).store.disk) (sym same)
        (elim (dec_le (k - l.n - 1) l.n) [
          | yes before ↦ before_clear h e (k - l.n - 1) before
          | no after ↦ after_clear h e (k - l.n - 1) (omega arith)
        ])

-- With nothing logged `commit` writes nothing.
commit_empty : (l : Log) → l.n ≡ 0 → commit l ≡ l
unfolding commit
commit_empty l e = rw (le→ltb-false 0 l.n (omega arith))

empty_kept :
    (l : Log) (k : ℕ)
    → IsReady l
    → l.n ≡ 0
    → (b : ℕ) → Outside l.start l.n b
    → (recover l.start l.size (crash_disk k l)).store.disk b ≡ l.store.disk b
unfolding apply_writes
empty_kept l k ready e b out =
    subst (λ (d : Disk). (recover l.start l.size d).store.disk b ≡ l.store.disk b) (sym same)
      (recover_clear l.start l.size l.store.disk b ready.clear (λ q. omega arith))
  where
    take-nil : (m : ℕ) → take {A = ℕ × Block} m [] ≡ []
    take-nil zero = refl
    take-nil (suc m) = refl

    same : crash_disk k l ≡ l.store.disk
    same =
        ap (λ (m : Log). apply_writes (take k m.store.writes) l.store.disk) (commit_empty l e)
        ∙ ap (λ (ws : Writes). apply_writes (take k ws) l.store.disk) ready.quiet
        ∙ ap (λ (ws : Writes). apply_writes ws l.store.disk) (take-nil k)

-- A transaction is atomic. `l` is a log that is ready to commit, on a disk whose log is clear, and
-- the machine stops after any `k` of the writes of `commit`. When `initlog` has run on what is
-- then on the disk, either no block outside the log differs from what it was before `commit`
-- (`k` up to the number of logged blocks: the header is not written yet), or every logged block
-- has the contents that the kernel saw in it, and every other block outside the log is as it was.
pub commit_atomic :
    (l : Log) (k : ℕ)
    → IsReady l
    → let d = (recover l.start l.size (crash_disk k l)).store.disk in
      (k ≤ l.n → (b : ℕ) → Outside l.start l.n b → d b ≡ l.store.disk b) × (l.n < k → Installed l d)
commit_atomic l k ready = elim (dec_lt 0 l.n) [
  | yes pos ↦ (early_old l ready pos k, late_new l ready pos k)
  | no zero_n ↦ (
    λ _. empty_kept l k ready (omega arith),
    λ _. record {
      values = λ i lt. absurd (omega arith);
      rest = λ b out _. empty_kept l k ready (omega arith) b out;
    },
  )
]
