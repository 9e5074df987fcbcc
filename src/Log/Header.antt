-- ===== src/Log/Header.antt =====
-- The header block of kernel/log.c's log: what `write_head` puts there, and what recovery does
-- with the disk that it finds.
use noy_hadar.Base.{
  ap₂, ℕ_discrete, ℕ, zero, suc, ◌+◌, ◌≤◌, ◌<◌, [], ◌∷◌, update, ◌≡◌, refl, ap, ◌∙◌, arith, subst,
}
use noy_hadar.Disk.{Block, Disk, Writes, view, bread}
use noy_hadar.Disk.Laws.{Wrote, bread-eq-view, bread-Wrote, write_data-Wrote, Wrote-trans}
use noy_hadar.Log.{Log, head_of_blocks, blocks_of_head, write_head}
use noy_hadar.Log.Install.{to_home, Outside}

pub head_of_blocks_below :
    (rounds i : ℕ) (block : ℕ → ℕ) (hb : Block) (j : ℕ)
    → j ≤ i
    → head_of_blocks rounds i block hb j ≡ hb j
unfolding head_of_blocks
head_of_blocks_below zero i block hb j h = refl
head_of_blocks_below (suc rounds) i block hb j h =
    head_of_blocks_below rounds (i + 1) block (update hb (i + 1) (block i)) j (omega arith)
    ∙ ground arith

pub head_of_blocks_at :
    (rounds i : ℕ) (block : ℕ → ℕ) (hb : Block) (k : ℕ)
    → i ≤ k
    → k < i + rounds
    → head_of_blocks rounds i block hb (k + 1) ≡ block k
unfolding head_of_blocks
head_of_blocks_at zero i block hb k h p = absurd (omega arith)
head_of_blocks_at (suc rounds) i block hb k h p = elim (ℕ_discrete i k) [
  | yes e ↦
      head_of_blocks_below rounds (i + 1) block (update hb (i + 1) (block i)) (k + 1) (omega arith)
      ∙ ground (arith, ap block e)
  | no ne ↦
      head_of_blocks_at rounds (i + 1) block (update hb (i + 1) (block i)) k (omega arith)
        (omega arith)
]

pub blocks_of_head_below :
    (rounds i : ℕ) (lh : Block) (block : ℕ → ℕ) (k : ℕ)
    → k < i
    → blocks_of_head rounds i lh block k ≡ block k
unfolding blocks_of_head
blocks_of_head_below zero i lh block k h = refl
blocks_of_head_below (suc rounds) i lh block k h =
    blocks_of_head_below rounds (i + 1) lh (update block i (lh (i + 1))) k (omega arith)
    ∙ ground arith

pub blocks_of_head_at :
    (rounds i : ℕ) (lh : Block) (block : ℕ → ℕ) (k : ℕ)
    → i ≤ k
    → k < i + rounds
    → blocks_of_head rounds i lh block k ≡ lh (k + 1)
unfolding blocks_of_head
blocks_of_head_at zero i lh block k h p = absurd (omega arith)
blocks_of_head_at (suc rounds) i lh block k h p = elim (ℕ_discrete i k) [
  | yes e ↦
      blocks_of_head_below rounds (i + 1) lh (update block i (lh (i + 1))) k (omega arith)
      ∙ ground (arith, ap (λ (m : ℕ). lh (m + 1)) e)
  | no ne ↦
      blocks_of_head_at rounds (i + 1) lh (update block i (lh (i + 1))) k (omega arith)
        (omega arith)
]

-- The disk's log holds a committed transaction: `f` is the contents of the logged blocks.
pub record Committed (start n : ℕ) (block : ℕ → ℕ) (f d : Disk) : Type 0 where
  pub count : d start 0 ≡ n
  pub numbers : (k : ℕ) → k < n → d start (k + 1) ≡ block k
  pub logged : (i : ℕ) → i < n → d (start + i + 1) ≡ f (block i)
  pub out : (i : ℕ) → i < n → Outside start n (block i)

pub write_head-Wrote :
    (l : Log)
    → Wrote l.store
        (write_head l).store
        ((l.start, head_of_blocks l.n 0 l.block (update (view l.store l.start) 0 l.n)) ∷ [])
unfolding write_head
write_head-Wrote l =
    subst
      (λ (hb : Block).
        Wrote l.store (write_head l).store
          ((l.start, head_of_blocks l.n 0 l.block (update hb 0 l.n)) ∷ []))
      (bread-eq-view l.start l.store)
      (Wrote-trans (bread-Wrote l.start l.store)
        (write_data-Wrote l.start _ (bread l.start l.store).1))

pub to_home_ext :
    (block block' : ℕ → ℕ) (f : Disk) (rounds tail last : ℕ)
    → tail + rounds ≡ last
    → ((i : ℕ) → i < last → block i ≡ block' i)
    → to_home block f rounds tail ≡ to_home block' f rounds tail
to_home_ext block block' f zero tail last e h = refl
to_home_ext block block' f (suc rounds) tail last e h =
    ap₂ (λ (b : ℕ) (ws : Writes). (b, f b) ∷ ws) (h tail (omega arith))
      (to_home_ext block block' f rounds (tail + 1) last (omega arith) h)
