-- ===== src/Grep/Tests.antt =====
-- Runs of the matcher of user/grep.c.
use noy_hadar.Base.{true, [], ◌∷◌, ◌≡◌, ◌↔◌}
use noy_hadar.Grep.{star, dot, match_text}
use noy_hadar.Grep.Language.{Matches, match_text_iff}

-- The expression `a.*b` on the text `xacb`.
match_text_iff_example :
    (match_text (97 ∷ dot ∷ star ∷ 98 ∷ []) (120 ∷ 97 ∷ 99 ∷ 98 ∷ []) ≡ true)
    ↔ Matches (97 ∷ dot ∷ star ∷ 98 ∷ []) (120 ∷ 97 ∷ 99 ∷ 98 ∷ [])
match_text_iff_example = match_text_iff (97 ∷ dot ∷ star ∷ 98 ∷ []) (120 ∷ 97 ∷ 99 ∷ 98 ∷ [])
