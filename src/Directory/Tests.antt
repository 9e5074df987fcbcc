-- ===== src/Directory/Tests.antt =====
-- Runs of path names in kernel/fs.c.
use noy_hadar.Base.{ℕ, List, [], ◌∷◌, some, ◌≡◌, refl}
use noy_hadar.Directory.{skipelem, skip_slashes, span_name}
use noy_hadar.Directory.Path.{Split, skipelem-Split}

-- "//a/b", whose first element is "a"
abbrev two_names : List ℕ
two_names = 47 ∷ 47 ∷ 97 ∷ 47 ∷ 98 ∷ []

first_name : skipelem two_names ≡ some (97 ∷ 0 ∷ [], 98 ∷ [])
unfolding skipelem skip_slashes span_name
first_name = refl

skipelem-Split_example : Split two_names (skipelem two_names)
skipelem-Split_example = skipelem-Split two_names
