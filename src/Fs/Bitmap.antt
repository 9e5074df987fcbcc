-- ===== src/Fs/Bitmap.antt =====
-- The blocks that `balloc` and `bfree` of kernel/fs.c take and give back.
use noy_hadar.Base.{
  ℕ, zero, suc, ◌+◌, ◌-◌, ◌*◌, ◌/◌, ◌%◌, ◌≤◌, ◌<◌, ◌==◌, ltb, Bool, true, false, not, ◌||◌, ◌&&◌,
  none, some, update, update_self, update_ne, dec_lt, ◌≡◌, ◌≢◌, inl, inr, refl, ap, ap₂, sym, subst,
  ◌∙◌, arith, Bool-cases, Option-cases, some_inj, none-some, ltb→lt, ltb-false→le, ℕ_discrete,
}
use noy_hadar.Base.Bits.{has, with_bit, without_bit, has-with_bit, has-without_bit}
use noy_hadar.Vm.{Run}
use noy_hadar.Fs.{
  Block, bsize, Fs, log_write, bpb, bblock, clear, bzero, bit_set, set_bit, clear_bit, find_free,
  balloc_from, balloc, bfree,
}

-- Whether the bitmap has block `c` in use.
unfoldable pub used : Fs → ℕ → Bool
used fs c = bit_set (c % bpb) (fs.blocks (bblock c fs.sb))

bit_set-set_bit : (i j : ℕ) (b : Block) → bit_set j (set_bit i b) ≡ (bit_set j b || i == j)
unfolding bit_set set_bit
bit_set-set_bit i j b = elim (ℕ_discrete (i / 8) (j / 8)) [
  | yes e ↦
      ap (λ (x : ℕ). has x (j % 8))
        (ap (update b (i / 8) (with_bit (b (i / 8)) (i % 8))) (sym e)
          ∙ update_self b (i / 8) (with_bit (b (i / 8)) (i % 8)))
      ∙ has-with_bit (b (i / 8)) (i % 8) (j % 8)
      ∙ ap₂ (λ (x y : Bool). x || y) (ap (λ (m : ℕ). has (b m) (j % 8)) e) (same_bit e)
  | no ne ↦
      ap (λ (x : ℕ). has x (j % 8)) (update_ne b (i / 8) (with_bit (b (i / 8)) (i % 8)) (j / 8) ne)
      ∙ other_bit ne
]
  where
    same_bit : i / 8 ≡ j / 8 → (i % 8 == j % 8) ≡ (i == j)
    same_bit e = ground arith

    other_bit : i / 8 ≢ j / 8 → has (b (j / 8)) (j % 8) ≡ (has (b (j / 8)) (j % 8) || i == j)
    other_bit ne = ground arith

find_free-some :
    (rounds bi b size : ℕ) (map : Block) {k : ℕ}
    → find_free rounds bi b size map ≡ some k
    → (bi ≤ k)
      × (k < bi + rounds)
      × (b + k < size)
      × (bit_set k map ≡ false)
      × ((j : ℕ) → bi ≤ j → j < k → bit_set j map ≡ true)
unfolding find_free
find_free-some zero bi b size map h = absurd (none-some h)
find_free-some (suc rounds) bi b size map {k} h = elim (Bool-cases (ltb (b + bi) size)) [
  | inr far ↦ absurd (none-some (rw (far, find_free) at h))
  | inl near ↦ elim (Bool-cases (bit_set bi map)) [
    | inr free ↦
        let at : bi ≡ k = some_inj (rw (near, free, find_free) at h) in
        (
          omega arith,
          omega arith,
          omega (arith, ltb→lt (b + bi) size near),
          ap (λ (m : ℕ). bit_set m map) (sym at) ∙ free,
          λ j lo hi. absurd (omega arith),
        )
    | inl taken ↦
        let (lo, hi, fits, free, before) =
          find_free-some rounds (bi + 1) b size map (rw (near, taken, find_free) at h) in
        (
          omega arith,
          omega arith,
          fits,
          free,
          λ j lj hj. elim (ℕ_discrete bi j) [
            | yes e ↦ ap (λ (m : ℕ). bit_set m map) (sym e) ∙ taken
            | no ne ↦ before j (omega arith) hj
          ],
        )
  ]
]

find_free-none :
    (rounds bi b size : ℕ) (map : Block)
    → find_free rounds bi b size map ≡ none
    → (j : ℕ) → bi ≤ j
    → j < bi + rounds
    → b + j < size
    → bit_set j map ≡ true
unfolding find_free
find_free-none zero bi b size map h j lo hi fits = absurd (omega arith)
find_free-none (suc rounds) bi b size map h j lo hi fits = elim (Bool-cases (ltb (b + bi) size)) [
  | inr far ↦ absurd (omega (arith, ltb-false→le (b + bi) size far))
  | inl near ↦ elim (Bool-cases (bit_set bi map)) [
    | inr free ↦ absurd (none-some (sym (rw (near, free, find_free) at h)))
    | inl taken ↦ elim (ℕ_discrete bi j) [
      | yes e ↦ ap (λ (m : ℕ). bit_set m map) (sym e) ∙ taken
      | no ne ↦
          find_free-none rounds (bi + 1) b size map (rw (near, taken, find_free) at h) j
            (omega arith) (omega arith) fits
    ]
  ]
]

abbrev pub take_block : ℕ → Fs → Fs
take_block k fs =
    bzero k (log_write (bblock k fs.sb) (set_bit (k % bpb) (fs.blocks (bblock k fs.sb))) fs)

-- What the loop of `balloc` finds.
data Found (fs : Fs) : Run (ℕ × Fs) → Type 0 where
  free :
      (k : ℕ)
      → k < fs.sb.size
      → used fs k ≡ false
      → ((c : ℕ) → c < k → used fs c ≡ true)
      → Found fs (Run.returned (k, take_block k fs))
  full : ((c : ℕ) → c < fs.sb.size → used fs c ≡ true) → Found fs Run.panic

used_at :
    (fs : Fs) (b c : ℕ)
    → b % bpb ≡ 0
    → b ≤ c
    → c < b + bpb
    → used fs c ≡ bit_set (c - b) (fs.blocks (bblock b fs.sb))
unfolding used
used_at fs b c al lo hi =
    let low : c % bpb ≡ c - b = omega arith in
    let high : c / bpb ≡ b / bpb = omega arith in
    ap₂ (λ (x y : ℕ). bit_set x (fs.blocks (y + fs.sb.bmapstart))) low high

balloc_from-here :
    (fuel b bi : ℕ) (fs : Fs)
    → ltb b fs.sb.size ≡ true
    → find_free bpb 0 b fs.sb.size (fs.blocks (bblock b fs.sb)) ≡ some bi
    → balloc_from (suc fuel) b fs
      ≡ Run.returned (
        b + bi,
        bzero (b + bi) (log_write (bblock b fs.sb) (set_bit bi (fs.blocks (bblock b fs.sb))) fs),
      )
unfolding balloc_from
balloc_from-here fuel b bi fs near e = rw (near, e, balloc_from)

balloc_from-next :
    (fuel b : ℕ) (fs : Fs)
    → ltb b fs.sb.size ≡ true
    → find_free bpb 0 b fs.sb.size (fs.blocks (bblock b fs.sb)) ≡ none
    → balloc_from (suc fuel) b fs ≡ balloc_from fuel (b + bpb) fs
unfolding balloc_from
balloc_from-next fuel b fs near e = rw (near, e, balloc_from)

balloc_from-end :
    (fuel b : ℕ) (fs : Fs) → ltb b fs.sb.size ≡ false → balloc_from (suc fuel) b fs ≡ Run.panic
unfolding balloc_from
balloc_from-end fuel b fs far = rw (far, balloc_from)

take_block_at :
    (b bi : ℕ) (fs : Fs)
    → b % bpb ≡ 0
    → bi < bpb
    → bzero (b + bi) (log_write (bblock b fs.sb) (set_bit bi (fs.blocks (bblock b fs.sb))) fs)
      ≡ take_block (b + bi) fs
take_block_at b bi fs al lt =
    let low : bi ≡ (b + bi) % bpb = omega arith in
    let high : b / bpb ≡ (b + bi) / bpb = omega arith in
    ap₂
      (λ (x y : ℕ).
        bzero (b + bi)
          (log_write (y + fs.sb.bmapstart) (set_bit x (fs.blocks (y + fs.sb.bmapstart))) fs))
      low high

-- The blocks from `b` on whose bits are in the bitmap's block for `b`.
used_here :
    (fs : Fs) (b n c : ℕ)
    → b % bpb ≡ 0
    → n ≤ bpb
    → ((j : ℕ) → 0 ≤ j → j < n → b + j < fs.sb.size → bit_set j (fs.blocks (bblock b fs.sb)) ≡ true)
    → b ≤ c
    → c < b + n
    → c < fs.sb.size
    → used fs c ≡ true
used_here fs b n c al le all lo hi fits =
    used_at fs b c al lo (omega arith) ∙ all (c - b) (omega arith) (omega arith) (omega arith)

balloc_from-Found :
    (fuel b : ℕ) (fs : Fs)
    → b % bpb ≡ 0
    → fs.sb.size + bpb < b + fuel * bpb
    → b < fs.sb.size + bpb
    → ((c : ℕ) → c < b → c < fs.sb.size → used fs c ≡ true)
    → Found fs (balloc_from fuel b fs)
balloc_from-Found zero b fs al more low before = absurd (omega arith)
balloc_from-Found (suc fuel) b fs al more low before = elim (Bool-cases (ltb b fs.sb.size)) [
  | inr far ↦
      subst (Found fs) (sym (balloc_from-end fuel b fs far))
        (Found.full (λ c lt. before c (omega (arith, ltb-false→le b fs.sb.size far)) lt))
  | inl near ↦ elim (Option-cases (find_free bpb 0 b fs.sb.size (fs.blocks (bblock b fs.sb)))) [
    | inl e ↦
        let all = find_free-none bpb 0 b fs.sb.size (fs.blocks (bblock b fs.sb)) e in
        subst (Found fs) (sym (balloc_from-next fuel b fs near e)) (
          balloc_from-Found fuel (b + bpb) fs (omega arith) (omega arith)
            (omega (arith, ltb→lt b fs.sb.size near))
            (λ c lt fits. elim (dec_lt c b) [
              | yes lower ↦ before c lower fits
              | no higher ↦ used_here fs b bpb c al (omega arith) all (omega arith) lt fits
            ]))
    | inr (bi, e) ↦
        let (_, hi, fits, is_free, taken) =
          find_free-some bpb 0 b fs.sb.size (fs.blocks (bblock b fs.sb)) e in
        subst (Found fs)
          (sym (
            balloc_from-here fuel b bi fs near e
            ∙ ap (λ (x : Fs). Run.returned (b + bi, x)) (take_block_at b bi fs al hi)))
          (Found.free (b + bi) fits
            (used_at fs b (b + bi) al (omega arith) (omega arith)
              ∙ ap (λ (m : ℕ). bit_set m (fs.blocks (bblock b fs.sb))) (omega arith)
              ∙ is_free)
            (λ c lt. elim (dec_lt c b) [
              | yes lower ↦ before c lower (omega arith)
              | no higher ↦
                  used_here fs b bi c al (omega arith) (λ j lo lj _. taken j lo lj) (omega arith) lt
                    (omega arith)
            ]))
  ]
]

balloc-Found : (fs : Fs) → Found fs (balloc fs)
unfolding balloc
balloc-Found fs =
    balloc_from-Found (fs.sb.size / bpb + 2) 0 fs refl (omega arith) (omega arith)
      (λ c lt. absurd (omega arith))

-- The bitmap's own blocks are in use, those of the other bits too.
pub record IsSafe (fs : Fs) : Type 0 where
  pub own :
      (c : ℕ) → c < fs.sb.size → (bblock c fs.sb < fs.sb.size) × (used fs (bblock c fs.sb) ≡ true)

-- What `balloc` does.
pub data Allocated (fs : Fs) : Run (ℕ × Fs) → Type 0 where
  taken :
      (k : ℕ) (fs' : Fs)
      → k < fs.sb.size
      → used fs k ≡ false
      → ((c : ℕ) → c < k → used fs c ≡ true)
      → ((c : ℕ) → c < fs.sb.size → used fs' c ≡ (used fs c || k == c))
      → ((i : ℕ) → i < bsize → fs'.blocks k i ≡ 0)
      → ((n : ℕ) → n ≢ k → n ≢ bblock k fs.sb → fs'.blocks n ≡ fs.blocks n)
      → (fs'.sb ≡ fs.sb) × (fs'.itable ≡ fs.itable)
      → Allocated fs (Run.returned (k, fs'))
  full : ((c : ℕ) → c < fs.sb.size → used fs c ≡ true) → Allocated fs Run.panic

take_block-zero : (k : ℕ) (fs : Fs) (i : ℕ) → i < bsize → (take_block k fs).blocks k i ≡ 0
unfolding bzero clear
take_block-zero k fs i lt = ground arith

take_block_other :
    (k : ℕ) (fs : Fs) (n : ℕ)
    → n ≢ k
    → n ≢ bblock k fs.sb
    → (take_block k fs).blocks n ≡ fs.blocks n
unfolding bzero
take_block_other k fs n a b = ground arith

take_block_map :
    (k : ℕ) (fs : Fs)
    → bblock k fs.sb ≢ k
    → (take_block k fs).blocks (bblock k fs.sb) ≡ set_bit (k % bpb) (fs.blocks (bblock k fs.sb))
unfolding bzero
take_block_map k fs ne = ground arith

take_block-sb :
    (k : ℕ) (fs : Fs) → ((take_block k fs).sb ≡ fs.sb) × ((take_block k fs).itable ≡ fs.itable)
unfolding bzero
take_block-sb k fs = (refl, refl)

used-take_block :
    (k c : ℕ) (fs : Fs)
    → IsSafe fs
    → k < fs.sb.size
    → c < fs.sb.size
    → used fs k ≡ false
    → used (take_block k fs) c ≡ (used fs c || k == c)
unfolding used bzero
used-take_block k c fs safe lk lc clear_k = elim (ℕ_discrete (k / bpb) (c / bpb)) [
  | yes e ↦
      let (_, own) = safe.own k lk in
      ap (λ (m : ℕ). bit_set (c % bpb) ((take_block k fs).blocks (m + fs.sb.bmapstart))) (sym e)
      ∙ ap (bit_set (c % bpb)) (take_block_map k fs (not_own k own))
      ∙ bit_set-set_bit (k % bpb) (c % bpb) (fs.blocks (bblock k fs.sb))
      ∙ ap₂ (λ (x y : Bool). x || y)
          (ap (λ (m : ℕ). bit_set (c % bpb) (fs.blocks (m + fs.sb.bmapstart))) e) (same e)
  | no ne ↦
      let (_, own) = safe.own c lc in
      ap (bit_set (c % bpb))
        (take_block_other k fs (bblock c fs.sb) (not_own c own) (λ q. ne (omega arith)))
      ∙ apart ne (used fs c)
]
  where
    not_own : (m : ℕ) → used fs (bblock m fs.sb) ≡ true → bblock m fs.sb ≢ k
    not_own m own q = cc (own, clear_k, ap (used fs) q)

    same : k / bpb ≡ c / bpb → (k % bpb == c % bpb) ≡ (k == c)
    same e = ground arith

    apart : k / bpb ≢ c / bpb → (x : Bool) → x ≡ (x || k == c)
    apart ne x = ground arith

-- When the bitmap's own blocks are in use, `balloc` always comes back: it panics when no block is
-- free, and else it returns the first free block, filled with zeros, sets its bit and no other, and
-- changes no other block but the bitmap's.
pub balloc-Allocated : (fs : Fs) → IsSafe fs → Allocated fs (balloc fs)
balloc-Allocated fs safe = go (balloc fs) (balloc-Found fs)
  where
    go : (r : Run (ℕ × Fs)) → Found fs r → Allocated fs r
    go r (Found.full all) = Allocated.full all
    go r (Found.free k lt is_free before) =
        Allocated.taken k (take_block k fs) lt is_free before
          (λ c lc. used-take_block k c fs safe lt lc is_free) (take_block-zero k fs)
          (take_block_other k fs) (take_block-sb k fs)

bit_set-clear_bit :
    (i j : ℕ) (b : Block) → bit_set j (clear_bit i b) ≡ (bit_set j b && not (i == j))
unfolding bit_set clear_bit
bit_set-clear_bit i j b = elim (ℕ_discrete (i / 8) (j / 8)) [
  | yes e ↦
      ap (λ (x : ℕ). has x (j % 8))
        (ap (update b (i / 8) (without_bit (b (i / 8)) (i % 8))) (sym e)
          ∙ update_self b (i / 8) (without_bit (b (i / 8)) (i % 8)))
      ∙ has-without_bit (b (i / 8)) (i % 8) (j % 8) (omega arith) (omega arith)
      ∙ ap₂ (λ (x y : Bool). x && y) (ap (λ (m : ℕ). has (b m) (j % 8)) e) (same_bit e)
  | no ne ↦
      ap (λ (x : ℕ). has x (j % 8))
        (update_ne b (i / 8) (without_bit (b (i / 8)) (i % 8)) (j / 8) ne)
      ∙ other_bit ne
]
  where
    same_bit : i / 8 ≡ j / 8 → not (i % 8 == j % 8) ≡ not (i == j)
    same_bit e = ground arith

    other_bit : i / 8 ≢ j / 8 → has (b (j / 8)) (j % 8) ≡ (has (b (j / 8)) (j % 8) && not (i == j))
    other_bit ne = ground arith

bfree-used :
    (b : ℕ) (fs : Fs)
    → used fs b ≡ true
    → bfree b fs
      ≡ Run.returned
          (log_write (bblock b fs.sb) (clear_bit (b % bpb) (fs.blocks (bblock b fs.sb))) fs)
unfolding bfree used
bfree-used b fs h = rw h refl

used-bfree :
    (b c : ℕ) (fs : Fs)
    → used (log_write (bblock b fs.sb) (clear_bit (b % bpb) (fs.blocks (bblock b fs.sb))) fs) c
      ≡ (used fs c && not (b == c))
unfolding used
used-bfree b c fs = elim (ℕ_discrete (b / bpb) (c / bpb)) [
  | yes e ↦
      ap (bit_set (c % bpb)) (
        ap (update fs.blocks (bblock b fs.sb) new) {x = bblock c fs.sb} {y = bblock b fs.sb}
          (omega arith)
        ∙ update_self fs.blocks (bblock b fs.sb) new)
      ∙ bit_set-clear_bit (b % bpb) (c % bpb) (fs.blocks (bblock b fs.sb))
      ∙ ap₂ (λ (x y : Bool). x && y)
          (ap (λ (m : ℕ). bit_set (c % bpb) (fs.blocks (m + fs.sb.bmapstart))) e) (same e)
  | no ne ↦
      ap (bit_set (c % bpb))
        (update_ne fs.blocks (bblock b fs.sb) new (bblock c fs.sb) (λ q. ne (omega arith)))
      ∙ apart ne (used fs c)
]
  where
    new : Block
    new = clear_bit (b % bpb) (fs.blocks (bblock b fs.sb))

    same : b / bpb ≡ c / bpb → not (b % bpb == c % bpb) ≡ not (b == c)
    same e = ground arith

    apart : b / bpb ≢ c / bpb → (x : Bool) → x ≡ (x && not (b == c))
    apart ne x = ground arith

allocated_bits :
    (fs : Fs) {k : ℕ} {fs' : Fs}
    → Allocated fs (Run.returned (k, fs'))
    → (k < fs.sb.size)
      × (used fs k ≡ false)
      × ((c : ℕ) → c < fs.sb.size → used fs' c ≡ (used fs c || k == c))
allocated_bits fs (Allocated.taken k fs' lt is_free _ bits _ _ _) = (lt, is_free, bits)

and_not : (x y : Bool) (k c : ℕ) → (k ≡ c → x ≡ false) → y ≡ (x || k == c) → (y && not (k == c)) ≡ x
and_not x y k c h e = ground arith

-- `bfree` of a block that `balloc` has just returned succeeds, and leaves every bit of the bitmap
-- as it was before both.
pub bfree-balloc :
    (fs : Fs) {k : ℕ} {fs' : Fs}
    → IsSafe fs
    → balloc fs ≡ Run.returned (k, fs')
    → (fs'' : Fs) × (bfree k fs' ≡ Run.returned fs'')
      × ((c : ℕ) → c < fs.sb.size → used fs'' c ≡ used fs c)
bfree-balloc fs {k} {fs'} safe h =
    let (lt, is_free, bits) =
      allocated_bits fs (subst (Allocated fs) h (balloc-Allocated fs safe)) in
    let taken_k : used fs' k ≡ true = bits k lt ∙ ground arith in
    (
      _,
      bfree-used k fs' taken_k,
      λ c lc.
          used-bfree k c fs'
          ∙ and_not (used fs c) (used fs' c) k c (λ q. ap (used fs) (sym q) ∙ is_free) (bits c lc),
    )

pub balloc_ends : (fs : Fs) → balloc fs ≢ Run.lost
balloc_ends fs = go (balloc fs) (balloc-Found fs)
  where
    go : (r : Run (ℕ × Fs)) → Found fs r → r ≢ Run.lost
    go _ (Found.free _ _ _ _) = λ e. cc
    go _ (Found.full _) = λ e. cc
