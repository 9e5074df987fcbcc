-- ===== src/Log/Again.antt =====
-- Recovery by kernel/log.c that is itself cut off, and run again.
use noy_hadar.Base.{
  ℕ, zero, suc, ◌<◌, take, ◌≡◌, ◌≢◌, ◌⊎◌, inl, inr, sym, ap, ◌∙◌, ℕ_discrete, dec_le, arith, subst,
}
use noy_hadar.Disk.{Block, Disk, Writes, boot, apply_writes}
use noy_hadar.Disk.Laws.{}
use noy_hadar.Log.{Log, recover}
use noy_hadar.Log.Install.{Outside}
use noy_hadar.Log.Header.{Committed}
use noy_hadar.Log.Commit.{recover_clear, recover_values, recover_rest, cut-Committed}
use noy_hadar.Log.Recover.{recover-Wrote}
use noy_hadar.Log.Crash.{cut, cut-other, cut-hit, cut-cleared}

index_cases :
    (block : ℕ → ℕ) (n b : ℕ)
    → ((i : ℕ) × (i < n) × (block i ≡ b)) ⊎ ((i : ℕ) → i < n → block i ≢ b)
index_cases block zero b = inr (λ i lt. absurd (omega arith))
index_cases block (suc n) b = elim (ℕ_discrete (block n) b) [
  | yes e ↦ inl (n, omega arith, e)
  | no ne ↦ elim (index_cases block n b) [
    | inl (i, lt, e) ↦ inl (i, omega arith, e)
    | inr away ↦ inr (λ i lt. elim (ℕ_discrete i n) [
      | yes q ↦ λ e. ne (ap block (sym q) ∙ e)
      | no q ↦ away i (omega arith)
    ])
  ]
]

module _ (start n size : ℕ) (block : ℕ → ℕ) (f d : Disk) (c : Committed start n block f d) where
  abbrev first : Log
  first = recover start size d

  -- What recovery leaves in a block, from any disk that holds the transaction.
  Committed-again :
      (e : Disk) (b : ℕ)
      → Committed start n block f e
      → b ≢ start
      → (((i : ℕ) → i < n → block i ≢ b) → e b ≡ d b)
      → (recover start size e).store.disk b ≡ first.store.disk b
  Committed-again e b ce ne same = elim (index_cases block n b) [
    | inl (i, lt, q) ↦
        subst (λ (m : ℕ). (recover start size e).store.disk m ≡ first.store.disk m) q
          (recover_values start n size block f e ce i lt
            ∙ sym (recover_values start n size block f d c i lt))
    | inr away ↦
        recover_rest start n size block f e ce b ne away
        ∙ same away
        ∙ sym (recover_rest start n size block f d c b ne away)
  ]

  cleared_again :
      (h : Block) (j b : ℕ) → n < j → b ≢ start → cut start n block f d h j b ≡ first.store.disk b
  cleared_again h j b lt ne = elim (index_cases block n b) [
    | inl (i, li, q) ↦
        subst (λ (m : ℕ). cut start n block f d h j m ≡ first.store.disk m) q
          (cut-hit start n block f d h j i (omega arith) li (λ p. ne (sym q ∙ p))
            ∙ sym (recover_values start n size block f d c i li))
    | inr away ↦
        cut-other start n block f d h j b ne away
        ∙ sym (recover_rest start n size block f d c b ne away)
  ]

-- On a disk whose log holds a committed transaction, for blocks outside the log, recovery may
-- itself be cut off, after any `j` of its writes: a second recovery brings every
-- block outside the log to what an uninterrupted one would have left there.
pub recover_again :
    (start n size : ℕ) (block : ℕ → ℕ) (f d : Disk) (j b : ℕ)
    → Committed start n block f d
    → Outside start n b
    → let first = recover start size d in
      let cut_off = apply_writes (take j first.store.writes) d in
      (recover start size cut_off).store.disk b ≡ first.store.disk b
unfolding boot
recover_again start n size block f d j b c out =
    let (h, e, w) = recover-Wrote size c in
    subst
      (λ (ws : Writes).
        (recover start size (apply_writes (take j ws) d)).store.disk b
        ≡ (recover start size d).store.disk b)
      (sym w.told)
      (elim (dec_le j n) [
        | yes before ↦
            Committed-again start n size block f d c (cut start n block f d h j) b
              (cut-Committed start n size block f d c h j before) (λ q. omega arith)
              (cut-other start n block f d h j b (λ q. omega arith))
        | no after ↦
            recover_clear start size (cut start n block f d h j) b
              (cut-cleared start n block f d h j (omega arith) e) (λ q. omega arith)
            ∙ cleared_again start n size block f d c h j b (omega arith) (λ q. omega arith)
      ])
