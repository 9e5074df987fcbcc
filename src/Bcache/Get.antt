-- ===== src/Bcache/Get.antt =====
-- Which buffer `bget` of kernel/bio.c returns.
use noy_hadar.Base.{
  ℕ, ◌+◌, ◌==◌, true, false, Option, none, some, update_ne, ◌≡◌, ◌≢◌, ◌⊎◌, inl, inr, refl, sym,
  subst, ◌∙◌, arith, ==_iff, Option-cases, some_inj, none-some,
}
use noy_hadar.Bcache.{Bcache, find_first, find_last, add_ref, recycle, is_cached, bget}
use noy_hadar.Bcache.Find.{In, find_first-In, find_first-none, find_last-In}

-- What a `bget` that does not panic does. Every other buffer, and the order, stay as they were.
pub record Got (dev blockno : ℕ) (c : Bcache) (k : ℕ) (c' : Bcache) : Type 0 where
  pub linked : In k c.order
  pub device : (c'.buf k).dev ≡ dev
  pub block : (c'.buf k).blockno ≡ blockno
  pub count :
      ((is_cached dev blockno (c.buf k) ≡ true)
        × ((c'.buf k).valid ≡ (c.buf k).valid)
        × ((c'.buf k).refcnt ≡ (c.buf k).refcnt + 1))
      ⊎ (((i : ℕ) → In i c.order → is_cached dev blockno (c.buf i) ≡ false)
          × ((c.buf k).refcnt ≡ 0)
          × ((c'.buf k).valid ≡ false)
          × ((c'.buf k).refcnt ≡ 1))
  pub others : (j : ℕ) → k ≢ j → c'.buf j ≡ c.buf j
  pub same_order : c'.order ≡ c.order

hit-Got :
    (dev blockno k : ℕ) (c : Bcache)
    → In k c.order
    → is_cached dev blockno (c.buf k) ≡ true
    → Got dev blockno c k (add_ref k c)
unfolding add_ref is_cached
hit-Got dev blockno k c h e = record {
  linked = h;
  device = ground arith;
  block = ground arith;
  count = inl (e, ground arith, ground arith);
  others = λ j ne. update_ne c.buf k _ j ne;
  same_order = refl;
}

miss-Got :
    (dev blockno k : ℕ) (c : Bcache)
    → In k c.order
    → (c.buf k).refcnt ≡ 0
    → ((i : ℕ) → In i c.order → is_cached dev blockno (c.buf i) ≡ false)
    → Got dev blockno c k (recycle dev blockno k c)
unfolding recycle
miss-Got dev blockno k c h e away = record {
  linked = h;
  device = ground arith;
  block = ground arith;
  count = inr (away, e, ground arith, ground arith);
  others = λ j ne. update_ne c.buf k _ j ne;
  same_order = refl;
}

bget-hit :
    (dev blockno k : ℕ) (c : Bcache)
    → find_first (is_cached dev blockno) c.buf c.order ≡ some k
    → bget dev blockno c ≡ some (k, add_ref k c)
unfolding bget
bget-hit dev blockno k c e = rw (e, bget)

bget-recycle :
    (dev blockno : ℕ) (c : Bcache) (o : Option ℕ)
    → find_first (is_cached dev blockno) c.buf c.order ≡ none
    → find_last (λ b. b.refcnt == 0) c.buf c.order ≡ o
    → bget dev blockno c ≡ elim o [ some k ↦ some (k, recycle dev blockno k c) | none ↦ none ]
unfolding bget
bget-recycle dev blockno c o e f = rw (e, bget, f)

-- A `bget` that does not panic returns a buffer of the list that has the device and the block. If
-- one had them before, it is that one, with one reference more. Otherwise it is a buffer that
-- nobody referred to, no longer valid, with one reference. No other buffer changes, nor the order.
pub bget-Got :
    (dev blockno : ℕ) (c : Bcache) {k : ℕ} {c' : Bcache}
    → bget dev blockno c ≡ some (k, c')
    → Got dev blockno c k c'
bget-Got dev blockno c {k} {c'} e =
    elim (Option-cases (find_first (is_cached dev blockno) c.buf c.order)) [
      | inr (i, found) ↦
          let (h, t) = find_first-In (is_cached dev blockno) c.buf c.order found in
          moved (i, add_ref i c) (some_inj (sym (bget-hit dev blockno i c found) ∙ e))
            (hit-Got dev blockno i c h t)
      | inl nothing ↦ elim (Option-cases (find_last (λ b. b.refcnt == 0) c.buf c.order)) [
        | inl full ↦ absurd (none-some (sym (bget-recycle dev blockno c none nothing full) ∙ e))
        | inr (i, found) ↦
            let (h, t) = find_last-In (λ b. b.refcnt == 0) c.buf c.order found in
            moved (i, recycle dev blockno i c)
              (some_inj (sym (bget-recycle dev blockno c (some i) nothing found) ∙ e))
              (miss-Got dev blockno i c h ((==_iff (c.buf i).refcnt 0).0 t)
                (λ j at. find_first-none (is_cached dev blockno) c.buf c.order j nothing at))
      ]
    ]
  where
    moved : (r : ℕ × Bcache) → r ≡ (k, c') → Got dev blockno c r.0 r.1 → Got dev blockno c k c'
    moved r q g = subst (λ (x : ℕ × Bcache). Got dev blockno c x.0 x.1) q g
