-- ===== src/Log/Commit.antt =====
-- `commit` of kernel/log.c against crashes: the machine may stop after any of its disk writes.
use noy_hadar.Base.{
  ℕ, ◌+◌, ◌≤◌, ◌<◌, [], ◌∷◌, ◌++◌, ◌≡◌, ◌≢◌, sym, ap, ◌∙◌, arith, take-all, length-append,
}
use noy_hadar.Disk.{Block, Disk, Writes, boot, apply_writes}
use noy_hadar.Disk.Laws.{}
use noy_hadar.Log.{recover}
use noy_hadar.Log.Install.{to_home}
use noy_hadar.Log.Header.{Committed}
use noy_hadar.Log.Recover.{recover-Wrote}
use noy_hadar.Log.Crash.{cut, cut-other, cut-hit, cut-start, length-to_home}

-- Recovery from a committed log, as the writes that install it, all of them done.
recover-cut :
    (start n size : ℕ) (block : ℕ → ℕ) (f d : Disk)
    → Committed start n block f d
    → (h : Block) × (h 0 ≡ 0)
      × ((recover start size d).store.disk ≡ cut start n block f d h (n + 1))
unfolding boot apply_writes
recover-cut start n size block f d c =
    let (h, e, w) = recover-Wrote size c in
    (
      h,
      e,
      w.stored
          ∙ ap (λ (ws : Writes). apply_writes ws d)
              (sym (
                take-all (n + 1) (to_home block f n 0 ++ (start, h) ∷ []) (
                  omega (
                    arith,
                    length-append (to_home block f n 0) ((start, h) ∷ []),
                    length-to_home block f n 0,
                  )))),
    )

-- With no transaction in the log, recovery changes nothing but the log's header.
pub recover_clear :
    (start size : ℕ) (d : Disk) (b : ℕ)
    → d start 0 ≡ 0
    → b ≢ start
    → (recover start size d).store.disk b ≡ d b
recover_clear start size d b e ne =
    let (h, _, r) = recover-cut start 0 size (λ _. 0) d d none_logged in
    ap (λ (v : Disk). v b) r
    ∙ cut-other start 0 (λ _. 0) d d h 1 b ne (λ i lt. absurd (omega arith))
  where
    none_logged : Committed start 0 (λ _. 0) d d
    none_logged = record {
      count = e;
      numbers = λ k lt. absurd (omega arith);
      logged = λ i lt. absurd (omega arith);
      out = λ i lt. absurd (omega arith);
    }

module _ (start n size : ℕ) (block : ℕ → ℕ) (f d : Disk) (c : Committed start n block f d) where
  home_ne_start : (i : ℕ) → i < n → block i ≢ start
  home_ne_start i lt e = omega (arith, c.out i lt)

  -- Recovery installs the transaction of a committed log.
  pub recover_values : (i : ℕ) → i < n → (recover start size d).store.disk (block i) ≡ f (block i)
  recover_values i lt =
      let (h, _, r) = recover-cut start n size block f d c in
      ap (λ (v : Disk). v (block i)) r
      ∙ cut-hit start n block f d h (n + 1) i (omega arith) lt (home_ne_start i lt)

  pub recover_rest :
      (b : ℕ)
      → b ≢ start
      → ((i : ℕ) → i < n → block i ≢ b)
      → (recover start size d).store.disk b ≡ d b
  recover_rest b ne away =
      let (h, _, r) = recover-cut start n size block f d c in
      ap (λ (v : Disk). v b) r ∙ cut-other start n block f d h (n + 1) b ne away

  -- Cut off before the log is cleared, the log holds the transaction still.
  pub cut-Committed :
      (h : Block) (j : ℕ) → j ≤ n → Committed start n block f (cut start n block f d h j)
  cut-Committed h j le = record {
    count = ap (λ (x : Block). x 0) same ∙ c.count;
    numbers = λ k lt. ap (λ (x : Block). x (k + 1)) same ∙ c.numbers k lt;
    logged = λ i lt.
        cut-other start n block f d h j (start + i + 1) (λ e. omega arith)
          (λ m lm e. omega (arith, c.out m lm))
        ∙ c.logged i lt;
    out = c.out;
  }
    where
      same : cut start n block f d h j start ≡ d start
      same = cut-start start n block f d h j le home_ne_start
