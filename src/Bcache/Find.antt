-- ===== src/Bcache/Find.antt =====
-- The loops of `bget` in kernel/bio.c, and the list that `brelse` reorders.
use noy_hadar.Base.{
  ℕ, ◌==◌, Bool, true, false, none, some, List, [], ◌∷◌, ◌≡◌, ◌⊎◌, inl, inr, ap, sym, ◌∙◌,
  Bool-cases, Option-cases, some_inj, none-some,
}
use noy_hadar.Bcache.{Buf, find_first, find_last, unlink}

abbrev pub In : ℕ → List ℕ → Type 0
In k [] = ⊥
In k (j ∷ ks) = (j ≡ k) ⊎ In k ks

pub find_first-In :
    (test : Buf → Bool) (buf : ℕ → Buf) (ks : List ℕ) {k : ℕ}
    → find_first test buf ks ≡ some k
    → In k ks × (test (buf k) ≡ true)
unfolding find_first
find_first-In test buf [] e = absurd (none-some e)
find_first-In test buf (j ∷ ks) e = elim (Bool-cases (test (buf j))) [
  | inl hit ↦
      let at = some_inj (rw (hit, find_first) at e) in
      (inl at, ap (λ (m : ℕ). test (buf m)) (sym at) ∙ hit)
  | inr miss ↦ let (p, q) = find_first-In test buf ks (rw (miss, find_first) at e) in (inr p, q)
]

pub find_first-none :
    (test : Buf → Bool) (buf : ℕ → Buf) (ks : List ℕ) (k : ℕ)
    → find_first test buf ks ≡ none
    → In k ks
    → test (buf k) ≡ false
unfolding find_first
find_first-none test buf [] k e h = absurd h
find_first-none test buf (j ∷ ks) k e h = elim (Bool-cases (test (buf j))) [
  | inl hit ↦ absurd (none-some (sym (rw (hit, find_first) at e)))
  | inr miss ↦ elim h [
    | inl at ↦ ap (λ (m : ℕ). test (buf m)) (sym at) ∙ miss
    | inr rest ↦ find_first-none test buf ks k (rw (miss, find_first) at e) rest
  ]
]

pub find_last-In :
    (test : Buf → Bool) (buf : ℕ → Buf) (ks : List ℕ) {k : ℕ}
    → find_last test buf ks ≡ some k
    → In k ks × (test (buf k) ≡ true)
unfolding find_last
find_last-In test buf [] e = absurd (none-some e)
find_last-In test buf (j ∷ ks) {k} e = elim (Option-cases (find_last test buf ks)) [
  | inr (i, found) ↦
      let at : i ≡ k = some_inj (rw (found, find_last) at e) in
      let (p, q) = find_last-In test buf ks (found ∙ ap some at) in (inr p, q)
  | inl nothing ↦ elim (Bool-cases (test (buf j))) [
    | inl hit ↦
        let at : j ≡ k = some_inj (rw (nothing, hit, find_last) at e) in
        (inl at, ap (λ (m : ℕ). test (buf m)) (sym at) ∙ hit)
    | inr miss ↦ absurd (none-some (rw (nothing, miss, find_last) at e))
  ]
]

pub unlink-In : (k j : ℕ) (ks : List ℕ) → In j (unlink k ks) → In j ks
unfolding unlink
unlink-In k j [] h = h
unlink-In k j (i ∷ ks) h = elim (Bool-cases (i == k)) [
  | inl hit ↦ inr (rw hit at h)
  | inr miss ↦ keep (unlink-In k j ks) (rw miss at h)
]
  where
    keep : (In j (unlink k ks) → In j ks) → In j (i ∷ unlink k ks) → In j (i ∷ ks)
    keep f (inl e) = inl e
    keep f (inr r) = inr (f r)
