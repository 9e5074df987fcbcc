-- ===== src/Bcache/Unique.antt =====
-- The buffers of kernel/bio.c through any sequence of calls.
use noy_hadar.Base.{
  ℕ, ◌==◌, Bool, true, false, some, List, ◌∷◌, ◌≡◌, ◌≢◌, inl, inr, refl, ap, sym, subst, ◌∙◌, arith,
  Bool-cases, some_inj, ℕ_discrete,
}
use noy_hadar.Bcache.{
  Buf, Bcache, binit, unlink, add_ref, drop_ref, is_cached, bget, brelse, bpin, bunpin,
}
use noy_hadar.Bcache.Find.{In, unlink-In}
use noy_hadar.Bcache.Get.{Got, bget-Got}

-- The calls of any processes, for devices other than 0.
pub data Reach : Bcache → Type 0 where
  booted : Reach binit
  got :
      {c c' : Bcache} {k : ℕ} (dev blockno : ℕ)
      → Reach c
      → dev ≢ 0
      → bget dev blockno c ≡ some (k, c')
      → Reach c'
  released : {c c' : Bcache} (k : ℕ) → Reach c → In k c.order → brelse true k c ≡ some c' → Reach c'
  pinned : {c : Bcache} (k : ℕ) → Reach c → Reach (bpin k c)
  unpinned : {c : Bcache} (k : ℕ) → Reach c → Reach (bunpin k c)

record IsUnique (c : Bcache) : Type 0 where
  unique :
      (i j : ℕ)
      → In i c.order
      → In j c.order
      → (c.buf i).dev ≢ 0
      → (c.buf i).dev ≡ (c.buf j).dev
      → (c.buf i).blockno ≡ (c.buf j).blockno
      → i ≡ j

drop_ref-IsUnique : (k : ℕ) (c : Bcache) → IsUnique c → IsUnique (drop_ref k c)
unfolding drop_ref
drop_ref-IsUnique k c v = record { unique = λ i j hi hj d e f. ground (arith, v.unique i j hi hj) }

add_ref-IsUnique : (k : ℕ) (c : Bcache) → IsUnique c → IsUnique (add_ref k c)
unfolding add_ref
add_ref-IsUnique k c v = record { unique = λ i j hi hj d e f. ground (arith, v.unique i j hi hj) }

is_cached-eq :
    (dev blockno : ℕ) (b : Buf)
    → ((b.dev ≡ dev) × (b.blockno ≡ blockno) → is_cached dev blockno b ≡ true)
      × (is_cached dev blockno b ≡ true → (b.dev ≡ dev) × (b.blockno ≡ blockno))
unfolding is_cached
is_cached-eq dev blockno b = (λ (e, f). ground arith, λ e. (ground arith, ground arith))

true-false : {x : Bool} → x ≡ true → x ≡ false → ⊥
true-false e f = cc

-- No other buffer of the list had the device and the block that `bget` returns a buffer for.
Got-alone :
    {dev blockno k : ℕ} {c c' : Bcache} (j : ℕ)
    → Got dev blockno c k c'
    → IsUnique c
    → dev ≢ 0
    → In j c.order
    → (c.buf j).dev ≡ dev
    → (c.buf j).blockno ≡ blockno
    → k ≡ j
Got-alone {dev} {blockno} {k} {c} j g v real h d b = elim g.count [
  | inl (hit, _, _) ↦
      let (d', b') = (is_cached-eq dev blockno (c.buf k)).1 hit in
      v.unique k j g.linked h (λ q. real (sym d' ∙ q)) (d' ∙ sym d) (b' ∙ sym b)
  | inr (away, _, _, _) ↦
      absurd (true-false ((is_cached-eq dev blockno (c.buf j)).0 (d, b)) (away j h))
]

Got-IsUnique :
    {dev blockno k : ℕ} {c c' : Bcache}
    → Got dev blockno c k c'
    → IsUnique c
    → dev ≢ 0
    → IsUnique c'
Got-IsUnique {dev} {blockno} {k} {c} {c'} g v real = record {
  unique = λ i j hi hj d e f.
      let ini : In i c.order = subst (In i) g.same_order hi in
      let inj : In j c.order = subst (In j) g.same_order hj in
      elim (ℕ_discrete k i) [
        | yes ki ↦ elim (ℕ_discrete k j) [
          | yes kj ↦ sym ki ∙ kj
          | no nj ↦ absurd (
              nj (
                Got-alone j g v real inj
                  (ap (λ (b : Buf). b.dev) (sym (g.others j nj))
                    ∙ sym e
                    ∙ ap (λ (m : ℕ). (c'.buf m).dev) (sym ki)
                    ∙ g.device)
                  (ap (λ (b : Buf). b.blockno) (sym (g.others j nj))
                    ∙ sym f
                    ∙ ap (λ (m : ℕ). (c'.buf m).blockno) (sym ki)
                    ∙ g.block)))
        ]
        | no ni ↦ elim (ℕ_discrete k j) [
          | yes kj ↦ absurd (
              ni (
                Got-alone i g v real ini
                  (ap (λ (b : Buf). b.dev) (sym (g.others i ni))
                    ∙ e
                    ∙ ap (λ (m : ℕ). (c'.buf m).dev) (sym kj)
                    ∙ g.device)
                  (ap (λ (b : Buf). b.blockno) (sym (g.others i ni))
                    ∙ f
                    ∙ ap (λ (m : ℕ). (c'.buf m).blockno) (sym kj)
                    ∙ g.block)))
          | no nj ↦
              v.unique i j ini inj (λ q. d (ap (λ (b : Buf). b.dev) (g.others i ni) ∙ q))
                (ap (λ (b : Buf). b.dev) (sym (g.others i ni))
                  ∙ e
                  ∙ ap (λ (b : Buf). b.dev) (g.others j nj))
                (ap (λ (b : Buf). b.blockno) (sym (g.others i ni))
                  ∙ f
                  ∙ ap (λ (b : Buf). b.blockno) (g.others j nj))
        ]
      ];
}

front-In : (k i : ℕ) (ks : List ℕ) → In k ks → In i (k ∷ unlink k ks) → In i ks
front-In k i ks h (inl e) = subst (λ (m : ℕ). In m ks) e h
front-In k i ks h (inr r) = unlink-In k i ks r

brelse-IsUnique :
    (k : ℕ) (c : Bcache) {c' : Bcache}
    → In k c.order
    → brelse true k c ≡ some c'
    → IsUnique c
    → IsUnique c'
unfolding brelse drop_ref
brelse-IsUnique k c {c'} h e v =
    let w : IsUnique (drop_ref k c) = drop_ref-IsUnique k c v in
    elim (Bool-cases (((drop_ref k c).buf k).refcnt == 0)) [
      | inl idle ↦ subst IsUnique (some_inj (simp idle at e)) (record {
        unique = λ i j hi hj d p q.
            w.unique i j (front-In k i c.order h hi) (front-In k j c.order h hj) d p q;
      })
      | inr busy ↦ subst IsUnique (some_inj (simp busy at e)) w
    ]

binit-IsUnique : IsUnique binit
unfolding binit
binit-IsUnique = record { unique = λ i j hi hj d e f. absurd (d refl) }

Reach-IsUnique : {c : Bcache} → Reach c → IsUnique c
unfolding bpin bunpin
Reach-IsUnique booted = binit-IsUnique
Reach-IsUnique (got {c} dev blockno r real e) =
    Got-IsUnique (bget-Got dev blockno c e) (Reach-IsUnique r) real
Reach-IsUnique (released {c} k r h e) = brelse-IsUnique k c h e (Reach-IsUnique r)
Reach-IsUnique (pinned {c} k r) = add_ref-IsUnique k c (Reach-IsUnique r)
Reach-IsUnique (unpinned {c} k r) = drop_ref-IsUnique k c (Reach-IsUnique r)

-- After any calls for devices other than 0, no two buffers of the list stand for the same block of
-- the same device.
pub one_buffer :
    {c : Bcache} (i j : ℕ)
    → Reach c
    → In i c.order
    → In j c.order
    → (c.buf i).dev ≢ 0
    → (c.buf i).dev ≡ (c.buf j).dev
    → (c.buf i).blockno ≡ (c.buf j).blockno
    → i ≡ j
one_buffer i j r hi hj d e f = (Reach-IsUnique r).unique i j hi hj d e f
