-- ===== src/Strings/Tests.antt =====
-- Runs of kernel/string.c.
use noy_hadar.Base.{ℕ, ◌==◌, ◌||◌, if◌then◌else◌, ◌+◌, ◌<◌, ◌≤◌, ◌≡◌, ◌⊎◌, inl, arith}
use noy_hadar.Strings.{Bytes, memmove, safestrcpy}
use noy_hadar.Strings.Move.{memmove_moves}
use noy_hadar.Strings.Copy.{Copied, safestrcpy-Copied}
use noy_hadar.Strings.Compare.{ℤ, strncmp}
use noy_hadar.Strings.Compare.Equal.{Agree, strncmp_iff}

abbrev numbered : Bytes
numbered a = a

memmove_moves_example :
    ((i : ℕ) → i < 4 → memmove 11 10 4 numbered (11 + i) ≡ 10 + i)
    × ((a : ℕ) → (a < 11) ⊎ (11 + 4 ≤ a) → memmove 11 10 4 numbered a ≡ a)
memmove_moves_example = memmove_moves 11 10 4 numbered

copies_string : Copied 10 100 4 numbered (safestrcpy 10 100 4 numbered)
copies_string = safestrcpy-Copied 10 100 4 numbered (omega arith) (inl (omega arith))

-- "ab" at 10 and 20, with other bytes behind.
abbrev twice : Bytes
twice a =
    if a == 10 || a == 20
    then 97
    else if a == 11 || a == 21
    then 98
    else if a == 12 || a == 22
    then 0
    else a

strncmp_run :
    (strncmp 10 20 5 twice ≡ ℤ.pos 0 → Agree 10 20 5 twice)
    × (Agree 10 20 5 twice → strncmp 10 20 5 twice ≡ ℤ.pos 0)
strncmp_run = strncmp_iff 10 20 5 twice
