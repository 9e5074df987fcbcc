-- ===== src/Grep/Language.antt =====
-- What the expressions of user/grep.c mean.
use noy_hadar.Base.{
  ℕ, ◌==◌, Bool, true, ◌||◌, List, [], ◌∷◌, ◌++◌, All, ◌≡◌, ◌≢◌, ◌⊎◌, inl, inr, ◌↔◌, refl, ap, sym,
  subst, arith, Bool-cases, ==_iff, ==-false→ne, ne→==-false,
}
use noy_hadar.Grep.{
  star, dot, dollar, caret, matchstar, matchone, is_end, matchhere, search, match_text,
}

-- A character that stands for a byte, or a dot for any.
abbrev pub StandsFor : ℕ → ℕ → Type 0
StandsFor c x = (c ≡ dot) ⊎ (c ≡ x)

-- No star follows, nor is it the dollar at the end.
abbrev pub IsPlain : ℕ → List ℕ → Type 0
IsPlain c [] = c ≢ dollar
IsPlain c (d ∷ re) = d ≢ star

-- The text begins with something that the expression describes.
pub data Begins : List ℕ → List ℕ → Type 0 where
  nothing : (text : List ℕ) → Begins [] text
  ended : Begins (dollar ∷ []) []
  repeated :
      (c : ℕ) (re xs rest : List ℕ)
      → All (StandsFor c) xs
      → Begins re rest
      → Begins (c ∷ star ∷ re) (xs ++ rest)
  single :
      (c x : ℕ) (re text : List ℕ)
      → IsPlain c re
      → StandsFor c x
      → Begins re text
      → Begins (c ∷ re) (x ∷ text)

or_cases : (c x : ℕ) → (c == dot || c == x) ≡ true → StandsFor c x
or_cases c x h = elim (Bool-cases (c == dot)) [
  | inl e ↦ inl ((==_iff c dot).0 e)
  | inr n ↦ inr (ground (arith, n))
]

or_cases' : (c x : ℕ) → (x == c || c == dot) ≡ true → StandsFor c x
or_cases' c x h = elim (Bool-cases (c == dot)) [
  | inl e ↦ inl ((==_iff c dot).0 e)
  | inr n ↦ inr (ground (arith, n))
]

or_true : (c x : ℕ) → StandsFor c x → ((c == dot || c == x) ≡ true) × ((x == c || c == dot) ≡ true)
or_true c x (inl e) = (ground arith, ground arith)
or_true c x (inr e) = (ground arith, ground arith)

matchstar_sound :
    (here : List ℕ → Bool) (c : ℕ) (text : List ℕ)
    → matchstar here c text ≡ true
    → (xs : List ℕ) × (rest : List ℕ) × (xs ++ rest ≡ text)
      × All (StandsFor c) xs
      × (here rest ≡ true)
unfolding matchstar
matchstar_sound here c [] h = ([], [], refl, tt, h)
matchstar_sound here c (x ∷ text) h = elim (Bool-cases (here (x ∷ text))) [
  | inl yes_here ↦ ([], x ∷ text, refl, tt, yes_here)
  | inr not_here ↦ elim (Bool-cases (x == c || c == dot)) [
    | inl ok ↦
        let (xs, rest, e, all, q) = matchstar_sound here c text (ground (arith, not_here, ok)) in
        (x ∷ xs, rest, ap (λ l. x ∷ l) e, (or_cases' c x ok, all), q)
    | inr bad ↦ absurd (ground (arith, not_here, bad))
  ]
]

matchstar_complete :
    (here : List ℕ → Bool) (c : ℕ) (xs rest : List ℕ)
    → All (StandsFor c) xs
    → here rest ≡ true
    → matchstar here c (xs ++ rest) ≡ true
unfolding matchstar
matchstar_complete here c [] [] all h = h
matchstar_complete here c [] (x ∷ rest) all h = rw h
matchstar_complete here c (x ∷ xs) rest all h =
    ground (arith, matchstar_complete here c xs rest all.1 h, (or_true c x all.0).1)

matchone_sound :
    (here : List ℕ → Bool) (c : ℕ) (text : List ℕ)
    → matchone here c text ≡ true
    → (x : ℕ) × (text' : List ℕ) × (x ∷ text' ≡ text) × StandsFor c x × (here text' ≡ true)
unfolding matchone
matchone_sound here c [] h = absurd (cc)
matchone_sound here c (x ∷ text) h = elim (Bool-cases (c == dot || c == x)) [
  | inl ok ↦ (x, text, refl, or_cases c x ok, ground (arith, ok))
  | inr bad ↦ absurd (ground (arith, bad))
]

-- Each way that `matchhere` tests has a constructor.
matchhere_sound : (re text : List ℕ) → matchhere re text ≡ true → Begins re text
unfolding matchhere matchone is_end
matchhere_sound [] text h = Begins.nothing text
matchhere_sound (c ∷ []) [] h = elim (Bool-cases (c == dollar)) [
  | inl e ↦ subst (λ (d : ℕ). Begins (d ∷ []) []) (sym ((==_iff c dollar).0 e)) Begins.ended
  | inr n ↦ absurd (ground (arith, n))
]
matchhere_sound (c ∷ []) (x ∷ text) h = elim (Bool-cases (c == dollar)) [
  | inl e ↦ absurd (ground (arith, e))
  | inr n ↦
      Begins.single c x [] text (==-false→ne c dollar n) (or_cases c x (ground (arith, n)))
        (Begins.nothing text)
]
matchhere_sound (c ∷ d ∷ re) text h = elim (Bool-cases (d == star)) [
  | inl e ↦
      let (xs, rest, q, all, more) = matchstar_sound (matchhere re) c text (ground (arith, e)) in
      subst (λ (d' : ℕ). Begins (c ∷ d' ∷ re) text) (sym ((==_iff d star).0 e))
        (subst (Begins (c ∷ star ∷ re)) q
          (Begins.repeated c re xs rest all (matchhere_sound re rest more)))
  | inr n ↦
      let one : matchone (matchhere (d ∷ re)) c text ≡ true = ground (arith, n) in
      let (x, text', q, ok, more) = matchone_sound (matchhere (d ∷ re)) c text one in
      subst (Begins (c ∷ d ∷ re)) q (
        Begins.single c x (d ∷ re) text' (==-false→ne d star n) ok
          (matchhere_sound (d ∷ re) text' more))
]

matchhere_complete : {re text : List ℕ} → Begins re text → matchhere re text ≡ true
unfolding matchhere matchone is_end
matchhere_complete (nothing text) = refl
matchhere_complete ended = refl
matchhere_complete (repeated c re xs rest all b) =
    matchstar_complete (matchhere re) c xs rest all (matchhere_complete b)
matchhere_complete (single c x [] text plain ok b) =
    rw (ne→==-false c dollar plain, (or_true c x ok).0)
matchhere_complete (single c x (d ∷ re) text plain ok b) =
    rw (ne→==-false d star plain, (or_true c x ok).0) (matchhere_complete b)

search_sound :
    (re text : List ℕ)
    → search re text ≡ true
    → (pre : List ℕ) × (rest : List ℕ) × (pre ++ rest ≡ text) × Begins re rest
unfolding search
search_sound re [] h = ([], [], refl, matchhere_sound re [] h)
search_sound re (x ∷ text) h = elim (Bool-cases (matchhere re (x ∷ text))) [
  | inl yes_here ↦ ([], x ∷ text, refl, matchhere_sound re (x ∷ text) yes_here)
  | inr not_here ↦
      let (pre, rest, e, b) = search_sound re text (simp not_here at h) in
      (x ∷ pre, rest, ap (λ l. x ∷ l) e, b)
]

search_complete : (re pre rest : List ℕ) → matchhere re rest ≡ true → search re (pre ++ rest) ≡ true
unfolding search
search_complete re [] [] h = h
search_complete re [] (x ∷ rest) h = simp h
search_complete re (x ∷ pre) rest h = elim (Bool-cases (matchhere re (x ∷ (pre ++ rest)))) [
  | inl yes_here ↦ simp yes_here
  | inr not_here ↦ simp not_here (search_complete re pre rest h)
]

abbrev pub IsFree : List ℕ → Type 0
IsFree [] = Unit
IsFree (c ∷ re) = c ≢ caret

-- A caret in front asks for a match at the start of the text; else any place will do.
pub data Matches : List ℕ → List ℕ → Type 0 where
  anchored : (re text : List ℕ) → Begins re text → Matches (caret ∷ re) text
  anywhere : (re pre rest : List ℕ) → IsFree re → Begins re rest → Matches re (pre ++ rest)

search-Matches : (re text : List ℕ) → IsFree re → search re text ≡ true → Matches re text
search-Matches re text free h =
    let (pre, rest, e, b) = search_sound re text h in
    subst (Matches re) e (Matches.anywhere re pre rest free b)

match_text_sound : (re text : List ℕ) → match_text re text ≡ true → Matches re text
unfolding match_text
match_text_sound [] text h = search-Matches [] text tt h
match_text_sound (c ∷ re) text h = elim (Bool-cases (c == caret)) [
  | inl e ↦
      subst (λ (d : ℕ). Matches (d ∷ re) text) (sym ((==_iff c caret).0 e))
        (Matches.anchored re text (matchhere_sound re text (simp e at h)))
  | inr n ↦ search-Matches (c ∷ re) text (==-false→ne c caret n) (simp n at h)
]

match_text_complete : {re text : List ℕ} → Matches re text → match_text re text ≡ true
unfolding match_text
match_text_complete (anchored re text b) = matchhere_complete b
match_text_complete (anywhere [] pre rest free b) =
    search_complete [] pre rest (matchhere_complete b)
match_text_complete (anywhere (c ∷ re) pre rest free b) =
    simp (ne→==-false c caret free) (search_complete (c ∷ re) pre rest (matchhere_complete b))

-- `match` of grep decides the language of the expression: it returns true exactly for the texts
-- that contain something that the expression describes, at their start if a caret stands in front.
pub match_text_iff : (re text : List ℕ) → (match_text re text ≡ true) ↔ Matches re text
match_text_iff re text = (match_text_sound re text, match_text_complete)
