-- ===== src/Log/Install.antt =====
-- The loops of kernel/log.c that move blocks between the log and their homes, as lists of writes.
use noy_hadar.Base.{
  ℕ, zero, suc, ◌+◌, ◌≤◌, ◌<◌, Bool, true, false, [], ◌∷◌, ◌≡◌, ◌≢◌, ◌⊎◌, refl, sym, ap, ◌∙◌, arith,
  subst, append-nil,
}
use noy_hadar.Disk.{Block, Disk, Writes, Store, view, bread, set_data, bwrite, apply_writes}
use noy_hadar.Disk.Laws.{
  Wrote, bread-eq-view, bread-Wrote, write_data-Wrote, bunpin-Wrote, Wrote-trans,
  apply_writes_other,
}
use noy_hadar.Log.{install_block, install_from, log_block, write_log_from}

-- The writes of `write_log_from`, of the contents `f` of the logged blocks.
abbrev pub to_log : ℕ → (ℕ → ℕ) → Disk → ℕ → ℕ → Writes
to_log start block f zero tail = []
to_log start block f (suc rounds) tail =
    (start + tail + 1, f (block tail)) ∷ to_log start block f rounds (tail + 1)

-- The writes of `install_from`, where the log holds the contents `f` of the logged blocks.
abbrev pub to_home : (ℕ → ℕ) → Disk → ℕ → ℕ → Writes
to_home block f zero tail = []
to_home block f (suc rounds) tail = (block tail, f (block tail)) ∷ to_home block f rounds (tail + 1)

-- Block `b` is no part of a log of `n` blocks after the header at `start`.
abbrev pub Outside : ℕ → ℕ → ℕ → Type 0
Outside start n b = (b < start) ⊎ (start + n < b)

-- One round of `install_trans`.
copy_Wrote :
    (home at : ℕ) (s : Store)
    → Wrote s
        (bwrite home (set_data home (bread at s).0 (bread home (bread at s).1).1))
        ((home, view s at) ∷ [])
copy_Wrote home at s =
    subst
      (λ (d : Block).
        Wrote s (bwrite home (set_data home (bread at s).0 (bread home (bread at s).1).1))
          ((home, d) ∷ []))
      (bread-eq-view at s)
      (Wrote-trans (bread-Wrote at s)
        (Wrote-trans (bread-Wrote home (bread at s).1) (write_data-Wrote home (bread at s).0 _)))

install_block-Wrote :
    (recovering : Bool) (home at : ℕ) (s : Store)
    → Wrote s (install_block recovering at home s) ((home, view s at) ∷ [])
unfolding install_block
install_block-Wrote true home at s = copy_Wrote home at s
install_block-Wrote false home at s = Wrote-trans (copy_Wrote home at s) (bunpin-Wrote home _)

-- One round of `write_log`.
log_block-Wrote : (at home : ℕ) (s : Store) → Wrote s (log_block at home s) ((at, view s home) ∷ [])
unfolding log_block apply_writes
log_block-Wrote at home s =
    subst (λ (d : Block). Wrote s (log_block at home s) ((at, d) ∷ []))
      (bread-eq-view home (bread at s).1 ∙ ap (λ (v : Disk). v home) (bread-Wrote at s).seen)
      (Wrote-trans (bread-Wrote at s) (
        Wrote-trans (bread-Wrote home (bread at s).1)
          (write_data-Wrote at (bread home (bread at s).1).0 _)))

-- One write leaves the other blocks as they are seen.
view_other :
    {s t : Store} {b : ℕ} {d : Block} (c : ℕ)
    → Wrote s t ((b, d) ∷ [])
    → b ≢ c
    → view t c ≡ view s c
view_other {s} {b} {d} c w ne =
    ap (λ (v : Disk). v c) w.seen ∙ apply_writes_other ((b, d) ∷ []) (view s) c (ne, tt)

Wrote-refl : (s : Store) → Wrote s s []
unfolding apply_writes
Wrote-refl s = record { seen = refl; stored = refl; told = sym (append-nil s.writes) }

module _ (start : ℕ) (block : ℕ → ℕ) (f : Disk) (last : ℕ) where
  -- `install_trans` writes the contents that the log holds to the logged blocks' homes.
  pub install_from-Wrote :
      (recovering : Bool) (rounds tail : ℕ) (s : Store)
      → tail + rounds ≡ last
      → ((i : ℕ) → tail ≤ i → i < last → view s (start + i + 1) ≡ f (block i))
      → ((i : ℕ) → i < last → Outside start last (block i))
      → Wrote s (install_from recovering start block rounds tail s) (to_home block f rounds tail)
  unfolding install_from
  install_from-Wrote recovering zero tail s e logged out = Wrote-refl s
  install_from-Wrote recovering (suc rounds) tail s e logged out =
      subst
        (λ (d : Block).
          Wrote s (install_from recovering start block (suc rounds) tail s)
            ((block tail, d) ∷ to_home block f rounds (tail + 1)))
        (logged tail (omega arith) (omega arith))
        (Wrote-trans step
          (install_from-Wrote recovering rounds (tail + 1) t (omega arith) kept out))
    where
      t : Store
      t = install_block recovering (start + tail + 1) (block tail) s

      step : Wrote s t ((block tail, view s (start + tail + 1)) ∷ [])
      step = install_block-Wrote recovering (block tail) (start + tail + 1) s

      kept : (i : ℕ) → tail + 1 ≤ i → i < last → view t (start + i + 1) ≡ f (block i)
      kept i h k =
          view_other (start + i + 1) step (λ q. omega (arith, out tail (omega arith)))
          ∙ logged i (omega arith) k

  -- `write_log` writes the contents of the logged blocks to the log.
  pub write_log_from-Wrote :
      (rounds tail : ℕ) (s : Store)
      → tail + rounds ≡ last
      → ((i : ℕ) → tail ≤ i → i < last → view s (block i) ≡ f (block i))
      → ((i : ℕ) → i < last → Outside start last (block i))
      → Wrote s (write_log_from start block rounds tail s) (to_log start block f rounds tail)
  unfolding write_log_from
  write_log_from-Wrote zero tail s e seen out = Wrote-refl s
  write_log_from-Wrote (suc rounds) tail s e seen out =
      subst
        (λ (d : Block).
          Wrote s (write_log_from start block (suc rounds) tail s)
            ((start + tail + 1, d) ∷ to_log start block f rounds (tail + 1)))
        (seen tail (omega arith) (omega arith))
        (Wrote-trans step (write_log_from-Wrote rounds (tail + 1) t (omega arith) kept out))
    where
      t : Store
      t = log_block (start + tail + 1) (block tail) s

      step : Wrote s t ((start + tail + 1, view s (block tail)) ∷ [])
      step = log_block-Wrote (start + tail + 1) (block tail) s

      kept : (i : ℕ) → tail + 1 ≤ i → i < last → view t (block i) ≡ f (block i)
      kept i h k = view_other (block i) step (λ q. omega (arith, out i k)) ∙ seen i (omega arith) k
