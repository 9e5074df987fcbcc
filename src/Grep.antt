-- ===== src/Grep.antt =====
-- The matcher of user/grep.c. A string is the list of its bytes in front of the NUL.
pub mod Language
mod Tests
use noy_hadar.Base.{ℕ, ◌==◌, if◌then◌else◌, Bool, true, false, ◌||◌, List, [], ◌∷◌}

abbrev pub star : ℕ
star = 42

abbrev pub dot : ℕ
dot = 46

abbrev pub dollar : ℕ
dollar = 36

abbrev pub caret : ℕ
caret = 94

-- `matchstar` for the rest of the expression, as the test of `matchhere` on it.
pub matchstar : (List ℕ → Bool) → ℕ → List ℕ → Bool
matchstar here c [] = here []
matchstar here c (x ∷ text) =
    let more = matchstar here c text in
    if here (x ∷ text) then true else if x == c || c == dot then more else false

-- The last test of `matchhere`, for the rest of the expression likewise.
pub matchone : (List ℕ → Bool) → ℕ → List ℕ → Bool
matchone here c [] = false
matchone here c (x ∷ text) = if c == dot || c == x then here text else false

pub is_end : List ℕ → Bool
is_end [] = true
is_end (x ∷ text) = false

pub matchhere : List ℕ → List ℕ → Bool
unfolding matchstar matchone is_end
matchhere [] text = true
matchhere (c ∷ []) text = if c == dollar then is_end text else matchone (matchhere []) c text
matchhere (c ∷ d ∷ re) text =
    if d == star then matchstar (matchhere re) c text else matchone (matchhere (d ∷ re)) c text

-- The loop of `match`.
pub search : List ℕ → List ℕ → Bool
unfolding matchhere
search re [] = matchhere re []
search re (x ∷ text) = let more = search re text in if matchhere re (x ∷ text) then true else more

pub match_text : List ℕ → List ℕ → Bool
unfolding search
match_text [] text = search [] text
match_text (c ∷ re) text = if c == caret then matchhere re text else search (c ∷ re) text
