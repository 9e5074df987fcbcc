-- ===== src/Log/Recover.antt =====
-- `recover_from_log` of kernel/log.c, run by `initlog` on a disk whose log holds a transaction.
use noy_hadar.Base.{ℕ, ◌+◌, ◌<◌, true, [], ◌∷◌, ◌++◌, update, ◌≡◌, refl, sym, ap, ◌∙◌, arith, subst}
use noy_hadar.Disk.{Block, Disk, view, bread, apply_writes, boot}
use noy_hadar.Disk.Laws.{Wrote, bread-Wrote, Wrote-trans}
use noy_hadar.Log.{
  Log, blocks_of_head, head_of_blocks, read_head, install_trans, recover, recover_from_log, initlog,
  log_at_boot,
}
use noy_hadar.Log.Install.{to_home, Outside, install_from-Wrote}
use noy_hadar.Log.Header.{blocks_of_head_at, Committed, write_head-Wrote, to_home_ext}

module _ {start n : ℕ} {block : ℕ → ℕ} {f d : Disk} (size : ℕ)
    (c : Committed start n block f d) where
  found : ℕ → ℕ
  found = blocks_of_head (d start 0) 0 (d start) (λ _. 0)

  found-eq : (i : ℕ) → i < n → found i ≡ block i
  unfolding found
  found-eq i h =
      blocks_of_head_at (d start 0) 0 (d start) (λ _. 0) i (omega arith) (omega (arith, c.count))
      ∙ c.numbers i h

  abbrev read : Log
  read = read_head (record (log_at_boot d) { start = start; size = size })

  abbrev installed : Log
  installed = install_trans true read

  read-Wrote : Wrote (boot d) read.store []
  unfolding read_head log_at_boot
  read-Wrote = bread-Wrote start (boot d)

  installed-Wrote : Wrote read.store installed.store (to_home block f n 0)
  unfolding install_trans read_head log_at_boot bread boot found apply_writes
  installed-Wrote =
      subst (Wrote read.store installed.store)
        (to_home_ext found block f (d start 0) 0 n (omega (arith, c.count)) found-eq
          ∙ ap (λ (m : ℕ). to_home block f m 0) c.count)
        (install_from-Wrote start found f n true (d start 0) 0 read.store (omega (arith, c.count))
          (λ i _ h. ap (λ (v : Disk). v (start + i + 1)) read-Wrote.seen ∙ logged i h)
          (λ i h. subst (Outside start n) (sym (found-eq i h)) (c.out i h)))
    where
      logged : (i : ℕ) → i < n → d (start + i + 1) ≡ f (found i)
      logged i h = c.logged i h ∙ ap f (sym (found-eq i h))

  -- Recovery writes the logged contents home, and then clears the log.
  pub recover-Wrote :
      (h : Block) × (h 0 ≡ 0)
      × Wrote (boot d) (recover start size d).store (to_home block f n 0 ++ (start, h) ∷ [])
  unfolding recover recover_from_log initlog
  recover-Wrote = (
    head_of_blocks 0 0 installed.block (update (view installed.store start) 0 0),
    refl,
    Wrote-trans read-Wrote
        (Wrote-trans installed-Wrote (write_head-Wrote (record installed { n = 0 }))),
  )
