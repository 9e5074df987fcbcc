-- ===== src/Log/Crash.antt =====
-- The writes of kernel/log.c's log up to any point, block by block.
use noy_hadar.Base.{
  ℕ, zero, suc, ◌+◌, ◌-◌, ◌≤◌, ◌<◌, List, [], ◌∷◌, ◌++◌, All, update, length, take, ◌≡◌, ◌≢◌, ◌⊎◌,
  refl, sym, ap, ◌∙◌, arith, All-append, ℕ_discrete, ==_refl, take-all, length-append,
}
use noy_hadar.Disk.{Block, Disk, Writes, apply_writes}
use noy_hadar.Disk.Laws.{apply_writes-append, apply_writes_other, apply_writes_same, All-take}
use noy_hadar.Log.Install.{to_log, to_home, Outside}
use noy_hadar.Log.Header.{Committed}

to_home-other :
    (block : ℕ → ℕ) (f : Disk) (b last rounds tail : ℕ)
    → tail + rounds ≡ last
    → ((i : ℕ) → i < last → block i ≢ b)
    → All (λ p. p.0 ≢ b) (to_home block f rounds tail)
to_home-other block f b last zero tail e h = tt
to_home-other block f b last (suc rounds) tail e h =
    (h tail (omega arith), to_home-other block f b last rounds (tail + 1) (omega arith) h)

to_home-same :
    (block : ℕ → ℕ) (f : Disk) (b rounds tail : ℕ)
    → All (λ p. p.0 ≡ b → p.1 ≡ f b) (to_home block f rounds tail)
to_home-same block f b zero tail = tt
to_home-same block f b (suc rounds) tail = (λ e. ap f e, to_home-same block f b rounds (tail + 1))

to_home-hit :
    (block : ℕ → ℕ) (f d : Disk) (last i rounds tail : ℕ)
    → tail + rounds ≡ last
    → tail ≤ i
    → i < last
    → apply_writes (to_home block f rounds tail) d (block i) ≡ f (block i)
unfolding apply_writes
to_home-hit block f d last i zero tail e h k = absurd (omega arith)
to_home-hit block f d last i (suc rounds) tail e h k = elim (ℕ_discrete tail i) [
  | yes p ↦
      apply_writes_same (to_home block f rounds (tail + 1)) (update d (block tail) (f (block tail)))
        (block i) (f (block i)) (to_home-same block f (block i) rounds (tail + 1))
        (ground (arith, ap block p, ap (λ (m : ℕ). f (block m)) p))
  | no ne ↦
      to_home-hit block f (update d (block tail) (f (block tail))) last i rounds (tail + 1)
        (omega arith) (omega arith) k
]

to_log-other :
    (start : ℕ) (block : ℕ → ℕ) (f : Disk) (b last rounds tail : ℕ)
    → tail + rounds ≡ last
    → (b ≤ start + tail) ⊎ (start + last < b)
    → All (λ p. p.0 ≢ b) (to_log start block f rounds tail)
to_log-other start block f b last zero tail e h = tt
to_log-other start block f b last (suc rounds) tail e h = (
  λ q. omega arith,
  to_log-other start block f b last rounds (tail + 1) (omega arith) (omega arith),
)

to_log-hit :
    (start : ℕ) (block : ℕ → ℕ) (f d : Disk) (last i rounds tail : ℕ)
    → tail + rounds ≡ last
    → tail ≤ i
    → i < last
    → apply_writes (to_log start block f rounds tail) d (start + i + 1) ≡ f (block i)
unfolding apply_writes
to_log-hit start block f d last i zero tail e h k = absurd (omega arith)
to_log-hit start block f d last i (suc rounds) tail e h k = elim (ℕ_discrete tail i) [
  | yes p ↦
      apply_writes_other (to_log start block f rounds (tail + 1))
        (update d (start + tail + 1) (f (block tail))) (start + i + 1)
        (to_log-other start block f (start + i + 1) last rounds (tail + 1) (omega arith)
          (omega arith))
      ∙ ground (arith, ap (λ (m : ℕ). f (block m)) p)
  | no ne ↦
      to_log-hit start block f (update d (start + tail + 1) (f (block tail))) last i rounds
        (tail + 1) (omega arith) (omega arith) k
]

pub length-to_home :
    (block : ℕ → ℕ) (f : Disk) (rounds tail : ℕ) → length (to_home block f rounds tail) ≡ rounds
length-to_home block f zero tail = refl
length-to_home block f (suc rounds) tail = ap suc (length-to_home block f rounds (tail + 1))

pub length-to_log :
    (start : ℕ) (block : ℕ → ℕ) (f : Disk) (rounds tail : ℕ)
    → length (to_log start block f rounds tail) ≡ rounds
length-to_log start block f zero tail = refl
length-to_log start block f (suc rounds) tail =
    ap suc (length-to_log start block f rounds (tail + 1))

pub take-append_left {ℓ} :
    {A : Type ℓ} (k : ℕ) (xs ys : List A) → k ≤ length xs → take k (xs ++ ys) ≡ take k xs
take-append_left zero xs ys h = refl
take-append_left (suc k) [] ys h = absurd (omega arith)
take-append_left (suc k) (x ∷ xs) ys h = ap (λ l. x ∷ l) (take-append_left k xs ys (omega arith))

pub take-append_right {ℓ} :
    {A : Type ℓ} (k : ℕ) (xs ys : List A)
    → length xs ≤ k
    → take k (xs ++ ys) ≡ xs ++ take (k - length xs) ys
take-append_right k [] ys h = ap (λ (m : ℕ). take m ys) (omega arith)
take-append_right zero (x ∷ xs) ys h = absurd (omega arith)
take-append_right (suc k) (x ∷ xs) ys h =
    ap (λ l. x ∷ l)
      (take-append_right k xs ys (omega arith) ∙ ap (λ (m : ℕ). xs ++ take m ys) (omega arith))

-- The writes that install a transaction and clear the log, cut off after the first `j`.
module _ (start n : ℕ) (block : ℕ → ℕ) (f d : Disk) (h : Block) (j : ℕ) where
  abbrev pub cut : Disk
  cut = apply_writes (take j (to_home block f n 0 ++ (start, h) ∷ [])) d

  pub cut-other : (b : ℕ) → b ≢ start → ((i : ℕ) → i < n → block i ≢ b) → cut b ≡ d b
  cut-other b ne away = apply_writes_other _ d b (
      All-take _ j _ (
        All-append _ (to_home block f n 0) ((start, h) ∷ [])
          (to_home-other block f b n n 0 (omega arith) away) (λ e. ne (sym e), tt)))

  pub cut-stays : (b : ℕ) → b ≢ start → d b ≡ f b → cut b ≡ f b
  cut-stays b ne e =
      apply_writes_same _ d b (f b)
        (All-take _ j _ (
          All-append _ (to_home block f n 0) ((start, h) ∷ []) (to_home-same block f b n 0)
            (λ q. absurd (ne (sym q)), tt)))
        e

  pub cut-hit : (i : ℕ) → n ≤ j → i < n → block i ≢ start → cut (block i) ≡ f (block i)
  cut-hit i le lt ne =
      ap (λ (ws : Writes). apply_writes ws d (block i))
        (take-append_right j (to_home block f n 0) ((start, h) ∷ [])
          (omega (arith, length-to_home block f n 0)))
      ∙ ap (λ (e : Disk). e (block i)) (apply_writes-append (to_home block f n 0) _ d)
      ∙ apply_writes_other _ (apply_writes (to_home block f n 0) d) (block i)
          (All-take _ (j - length (to_home block f n 0)) ((start, h) ∷ []) (λ q. ne (sym q), tt))
      ∙ to_home-hit block f d n i n 0 (omega arith) (omega arith) lt

  pub cut-start : j ≤ n → ((i : ℕ) → i < n → block i ≢ start) → cut start ≡ d start
  cut-start le away =
      ap (λ (ws : Writes). apply_writes ws d start)
        (take-append_left j (to_home block f n 0) ((start, h) ∷ [])
          (omega (arith, length-to_home block f n 0)))
      ∙ apply_writes_other _ d start
          (All-take _ j _ (to_home-other block f start n n 0 (omega arith) away))

  pub cut-cleared : n < j → h 0 ≡ 0 → cut start 0 ≡ 0
  unfolding apply_writes
  cut-cleared lt e =
      ap (λ (ws : Writes). apply_writes ws d start 0)
        (take-all j (to_home block f n 0 ++ (start, h) ∷ []) (
          omega (
            arith,
            length-append (to_home block f n 0) ((start, h) ∷ []),
            length-to_home block f n 0,
          )))
      ∙ ap (λ (e : Disk). e start 0) (apply_writes-append (to_home block f n 0) ((start, h) ∷ []) d)
      ∙ ground (arith, ==_refl start)

-- The writes of `write_log`, cut off after the first `j`.
module _ (start n : ℕ) (block : ℕ → ℕ) (f d : Disk) (j : ℕ) where
  abbrev pub begun : Disk
  begun = apply_writes (take j (to_log start block f n 0)) d

  pub begun-other : (b : ℕ) → (b ≤ start) ⊎ (start + n < b) → begun b ≡ d b
  begun-other b out =
      apply_writes_other _ d b
        (All-take _ j _ (to_log-other start block f b n n 0 (omega arith) (omega arith)))

  pub logged_other :
      (b : ℕ) → (b ≤ start) ⊎ (start + n < b) → apply_writes (to_log start block f n 0) d b ≡ d b
  logged_other b out =
      apply_writes_other _ d b (to_log-other start block f b n n 0 (omega arith) (omega arith))

  -- With all of them and the header on the disk, the log holds the transaction.
  pub logged-Committed :
      (h : Block)
      → h 0 ≡ n
      → ((k : ℕ) → k < n → h (k + 1) ≡ block k)
      → ((i : ℕ) → i < n → Outside start n (block i))
      → Committed start n block f (update (apply_writes (to_log start block f n 0) d) start h)
  logged-Committed h count numbers out = record {
    count = ground (arith, ==_refl start);
    numbers = λ k lt. ground (arith, ==_refl start, numbers k lt);
    logged =
        λ i lt. ground (arith, to_log-hit start block f d n i n 0 (omega arith) (omega arith) lt);
    out = out;
  }
