-- ===== src/Syscall/Tests.antt =====
-- Runs of kernel/syscall.c.
use noy_hadar.Base.{
  ℕ, ◌<◌, ◌==◌, if◌then◌else◌, true, none, some, List, [], ◌∷◌, ◌++◌, All, length, ◌≡◌, ◌≢◌, refl,
  update,
}
use noy_hadar.Kalloc.{Memory}
use noy_hadar.Vm.{Pte, zero_pte, Pagetable, Run, walkaddr}
use noy_hadar.Usercopy.{copyinstr}
use noy_hadar.Syscall.{fetchstr, strlen}
use noy_hadar.Syscall.Fetch.{fetchstr_ends}

abbrev user_page : ℕ → Pte
user_page ppn = record zero_pte { ppn = ppn; valid = true; user = true }

-- Pages 0 and 1 of the user, in swapped order in memory, and no others.
abbrev two_pages : Pagetable
two_pages = record {
  page = 0x87FFC000;
  entries = λ i.
      if i == 0
      then some (
        0x87FFB000,
        λ j.
            if j == 0
            then some (
              0x87FFA000,
              λ m.
                  if m == 0
                  then user_page 0x80009
                  else if m == 1
                  then user_page 0x80008
                  else zero_pte,
            )
            else none,
      )
      else none;
}

abbrev zeros : Memory
zeros _ = 0

-- "a" at the end of page 0, and its NUL on page 1.
abbrev letter : Memory
letter = update zeros 0x80009FFF 97

fetched : fetchstr two_pages 4095 4 letter ≡ Run.returned (some 1, 97 ∷ 0 ∷ [])
unfolding fetchstr copyinstr walkaddr strlen
fetched = refl

fetchstr_ends_example :
    (1 < 4) × (l : List ℕ) × (97 ∷ 0 ∷ [] ≡ l ++ 0 ∷ []) × (length l ≡ 1) × All (λ x. x ≢ 0) l
fetchstr_ends_example = fetchstr_ends two_pages 4095 4 letter fetched
