-- ===== src/Directory/Path.antt =====
-- The elements of a path, as `skipelem` of kernel/fs.c finds them.
use noy_hadar.Base.{
  ℕ, suc, ◌<◌, ◌==◌, true, false, Option, none, some, List, [], ◌∷◌, ◌++◌, All, replicate, ◌≡◌, ◌≢◌,
  ◌⊎◌, inl, inr, refl, ap, ap₂, sym, subst, ◌∙◌, arith, append-nil, ne→==-false, Bool-cases, ==_iff,
  ==-false→ne, length, take, zero, ◌≤◌, leb, leb→le,
}
use noy_hadar.Directory.{dirsiz, skip_slashes, span_name, clip, skipelem}

abbrev pub slash : ℕ
slash = 47

-- A path that does not start with a slash.
abbrev pub IsBare : List ℕ → Type 0
IsBare [] = Unit
IsBare (c ∷ path) = c ≢ slash

-- What stands in `name`, a buffer of 14 bytes, for an element: the whole element and a NUL if they
-- fit, and else its first 14 bytes.
pub data Named : List ℕ → List ℕ → Type 0 where
  whole : (s : List ℕ) → length s < 14 → Named s (s ++ 0 ∷ [])
  cut : (first more : List ℕ) → length first ≡ 14 → Named (first ++ more) first

-- What `skipelem` returns for a path: nothing if it has only slashes; and else its first element,
-- which is not empty, has no slash and stands between slashes, and the path behind them.
pub data Split : List ℕ → Option (List ℕ × List ℕ) → Type 0 where
  nothing : (k : ℕ) → Split (replicate k slash) none
  element :
      (k j c : ℕ) (s rest name : List ℕ)
      → All (λ x. x ≢ slash) (c ∷ s)
      → IsBare rest
      → (0 < j) ⊎ (rest ≡ [])
      → Named (c ∷ s) name
      → Split (replicate k slash ++ ((c ∷ s) ++ (replicate j slash ++ rest))) (some (name, rest))

leb-false→lt : (a b : ℕ) → leb a b ≡ false → b < a
leb-false→lt a b h = ground arith

take_drop :
    (n : ℕ) (s : List ℕ)
    → n ≤ length s
    → (more : List ℕ) × (length (take n s) ≡ n) × (take n s ++ more ≡ s)
take_drop zero s le = (s, refl, refl)
take_drop (suc n) [] le = absurd (omega arith)
take_drop (suc n) (x ∷ s) le =
    let (more, len, same) = take_drop n s (omega arith) in
    (more, omega (arith, len), ap (λ (l : List ℕ). x ∷ l) same)

clip-Named : (s : List ℕ) → Named s (clip s)
clip-Named s = elim (Bool-cases (leb dirsiz (length s))) [
  | inr short ↦
      subst (Named s) (sym (clip_short short))
        (Named.whole s (leb-false→lt dirsiz (length s) short))
  | inl long ↦
      let (more, len, same) = take_drop dirsiz s (leb→le dirsiz (length s) long) in
      subst (Named s) (sym (clip_long long))
        (subst (λ (l : List ℕ). Named l (take dirsiz s)) same (Named.cut (take dirsiz s) more len))
]
  where
    clip_short : leb dirsiz (length s) ≡ false → clip s ≡ s ++ 0 ∷ []
    clip_short e = rw e refl

    clip_long : leb dirsiz (length s) ≡ true → clip s ≡ take dirsiz s
    clip_long e = rw e refl

skip_slash :
    (c : ℕ) (path : List ℕ) → (c == slash) ≡ true → skip_slashes (c ∷ path) ≡ skip_slashes path
unfolding skip_slashes
skip_slash c path e = rw e refl

skip_none : (c : ℕ) (path : List ℕ) → (c == slash) ≡ false → skip_slashes (c ∷ path) ≡ c ∷ path
unfolding skip_slashes
skip_none c path e = rw e refl

-- A path without its leading slashes.
record Skipped (path rest : List ℕ) : Type 0 where
  count : ℕ
  same : path ≡ replicate count slash ++ rest
  bare : IsBare rest

skip_slashes-Skipped : (path : List ℕ) → Skipped path (skip_slashes path)
unfolding skip_slashes
skip_slashes-Skipped [] = record { count = 0; same = refl; bare = tt }
skip_slashes-Skipped (c ∷ path) = elim (Bool-cases (c == slash)) [
  | inl e ↦
      let v = skip_slashes-Skipped path in
      subst (Skipped (c ∷ path)) (sym (skip_slash c path e)) (record {
        count = suc v.count;
        same = ap₂ (λ (x : ℕ) (l : List ℕ). x ∷ l) ((==_iff c slash).0 e) v.same;
        bare = v.bare;
      })
  | inr e ↦
      subst (Skipped (c ∷ path)) (sym (skip_none c path e))
        (record { count = 0; same = refl; bare = ==-false→ne c slash e })
]

-- The slashes behind an element.
skip_behind :
    (rest : List ℕ)
    → (rest ≡ []) ⊎ ((l : List ℕ) × (rest ≡ slash ∷ l))
    → (j : ℕ) × (rest ≡ replicate j slash ++ skip_slashes rest)
      × IsBare (skip_slashes rest)
      × ((0 < j) ⊎ (skip_slashes rest ≡ []))
unfolding skip_slashes
skip_behind rest (inl e) = (
  0,
  e ∙ ap skip_slashes (sym e),
  subst (λ (l : List ℕ). IsBare (skip_slashes l)) (sym e) tt,
  inr (ap skip_slashes e),
)
skip_behind rest (inr (l, e)) =
    let v = skip_slashes-Skipped l in
    let skip : skip_slashes rest ≡ skip_slashes l = ap skip_slashes e ∙ skip_slash slash l refl in
    (
      suc v.count,
      e
          ∙ ap (λ (m : List ℕ). slash ∷ m) v.same
          ∙ ap (λ (m : List ℕ). slash ∷ (replicate v.count slash ++ m)) (sym skip),
      subst IsBare (sym skip) v.bare,
      inl (omega arith),
    )

-- The first element of a path, and what is behind it.
record Spanned (path s rest : List ℕ) : Type 0 where
  same : path ≡ s ++ rest
  no_slash : All (λ x. x ≢ slash) s
  behind : (rest ≡ []) ⊎ ((l : List ℕ) × (rest ≡ slash ∷ l))

span_slash : (c : ℕ) (path : List ℕ) → (c == slash) ≡ true → span_name (c ∷ path) ≡ ([], c ∷ path)
unfolding span_name
span_slash c path e = rw e refl

span_more :
    (c : ℕ) (path : List ℕ)
    → (c == slash) ≡ false
    → span_name (c ∷ path) ≡ (c ∷ (span_name path).0, (span_name path).1)
unfolding span_name
span_more c path e = rw e refl

span_name-Spanned : (path : List ℕ) → Spanned path (span_name path).0 (span_name path).1
unfolding span_name
span_name-Spanned [] = record { same = refl; no_slash = tt; behind = inl refl }
span_name-Spanned (c ∷ path) = elim (Bool-cases (c == slash)) [
  | inl e ↦
      subst (λ (r : List ℕ × List ℕ). Spanned (c ∷ path) r.0 r.1) (sym (span_slash c path e))
        (record {
          same = refl;
          no_slash = tt;
          behind = inr (path, ap (λ (x : ℕ). x ∷ path) ((==_iff c slash).0 e));
        })
  | inr e ↦
      let v = span_name-Spanned path in
      subst (λ (r : List ℕ × List ℕ). Spanned (c ∷ path) r.0 r.1) (sym (span_more c path e))
        (record {
          same = ap (λ (l : List ℕ). c ∷ l) v.same;
          no_slash = (==-false→ne c slash e, v.no_slash);
          behind = v.behind;
        })
]

skipelem-nothing : (path : List ℕ) → skip_slashes path ≡ [] → skipelem path ≡ none
unfolding skipelem
skipelem-nothing path e = rw (e, skipelem) refl

skipelem-more :
    (path more : List ℕ) (c : ℕ)
    → skip_slashes path ≡ c ∷ more
    → skipelem path ≡ some (clip (span_name (c ∷ more)).0, skip_slashes (span_name (c ∷ more)).1)
unfolding skipelem
skipelem-more path more c e = rw (e, skipelem) refl

first_element :
    (k c : ℕ) (path more : List ℕ)
    → path ≡ replicate k slash ++ c ∷ more
    → (c == slash) ≡ false
    → Split path (some (clip (span_name (c ∷ more)).0, skip_slashes (span_name (c ∷ more)).1))
first_element k c path more e far =
    let s = (span_name more).0 in
    let rest = (span_name more).1 in
    let v = span_name-Spanned more in
    let (j, q, bare, cond) = skip_behind rest v.behind in
    let whole : path ≡ replicate k slash ++ ((c ∷ s) ++ (replicate j slash ++ skip_slashes rest)) =
      e
      ∙ ap (λ (l : List ℕ). replicate k slash ++ c ∷ l) (v.same ∙ ap (λ (l : List ℕ). s ++ l) q) in
    subst (λ (r : List ℕ × List ℕ). Split path (some (clip r.0, skip_slashes r.1)))
      (sym (span_more c more far))
      (subst (λ (l : List ℕ). Split l (some (clip (c ∷ s), skip_slashes rest))) (sym whole)
        (Split.element k j c s (skip_slashes rest) (clip (c ∷ s))
          (==-false→ne c slash far, v.no_slash) bare cond (clip-Named (c ∷ s))))

-- `skipelem` returns 0 for a path just of slashes; and else it copies the first element between
-- slashes, whole and ended by a NUL if it is shorter than 14 bytes and else its first 14, and
-- returns the path behind the slashes that follow it.
pub skipelem-Split : (path : List ℕ) → Split path (skipelem path)
skipelem-Split path = go (skip_slashes path) refl (skip_slashes-Skipped path)
  where
    go : (l : List ℕ) → skip_slashes path ≡ l → Skipped path l → Split path (skipelem path)
    go [] e v = subst (Split path) (sym (skipelem-nothing path e)) (
        subst (λ (m : List ℕ). Split m none) (sym (v.same ∙ append-nil (replicate v.count slash)))
          (Split.nothing v.count))
    go (c ∷ more) e v =
        subst (Split path) (sym (skipelem-more path more c e))
          (first_element v.count c path more v.same (ne→==-false c slash v.bare))
