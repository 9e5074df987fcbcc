-- ===== src/Usercopy/Tests.antt =====
-- Runs of the copies of kernel/vm.c.
use noy_hadar.Base.{
  ℕ, zero, suc, ◌≤◌, ◌==◌, if◌then◌else◌, Bool, true, none, some, List, [], ◌∷◌, ◌++◌, All, ◌≡◌,
  ◌≢◌, refl, arith, update,
}
use noy_hadar.Kalloc.{Memory}
use noy_hadar.Vm.{Pte, zero_pte, Pagetable, Run, walkaddr, find_pte}
use noy_hadar.Usercopy.{copyout, copyin, copyinstr, write_bytes}
use noy_hadar.Usercopy.Bytes.{store_user, load_user, load_string}
use noy_hadar.Usercopy.Pages.{copyout-eq}
use noy_hadar.Usercopy.Loads.{copyin-eq}
use noy_hadar.Usercopy.Strings.{copyinstr-eq, copyinstr_bounds}
use noy_hadar.Usercopy.Trip.{IsApart, copyin-copyout}

abbrev user_page : ℕ → Pte
user_page ppn = record zero_pte { ppn = ppn; valid = true; user = true }

-- Pages 0 and 1 of the user, in swapped order in memory, and no others.
abbrev two_pages : Pagetable
two_pages = record {
  page = 0x87FFC000;
  entries = λ i.
      if i == 0
      then some (
        0x87FFB000,
        λ j.
            if j == 0
            then some (
              0x87FFA000,
              λ m.
                  if m == 0
                  then user_page 0x80009
                  else if m == 1
                  then user_page 0x80008
                  else zero_pte,
            )
            else none,
      )
      else none;
}

abbrev zeros : Memory
zeros _ = 0

copyout_run :
    copyout two_pages 4095 (1 ∷ 2 ∷ 3 ∷ []) zeros
    ≡ Run.returned (store_user two_pages 4095 (1 ∷ 2 ∷ 3 ∷ []) zeros)
copyout_run = copyout-eq two_pages 4095 (1 ∷ 2 ∷ 3 ∷ []) zeros

copyin_run : copyin two_pages 8190 4 zeros ≡ Run.returned (load_user two_pages 8190 4 zeros)
copyin_run = copyin-eq two_pages 8190 4 zeros

copyinstr-eq_example :
    copyinstr two_pages 8190 4 zeros ≡ Run.returned (load_string two_pages 8190 4 zeros)
copyinstr-eq_example = copyinstr-eq two_pages 8190 4 zeros

empty_string : copyinstr two_pages 8190 4 zeros ≡ Run.returned (true, 0 ∷ [])
unfolding copyinstr walkaddr
empty_string = refl

copyinstr_one :
    (1 ≤ 4)
    × (◌≡◌ {A = Bool} true true → (l : List ℕ) × (0 ∷ [] ≡ l ++ 0 ∷ []) × All (λ x. x ≢ 0) l)
copyinstr_one = copyinstr_bounds two_pages 8190 4 zeros empty_string

-- The second byte stands on the other page.
abbrev stored : Memory
stored = update (update zeros 0x80009FFF 5) 0x80008000 6

stored_out : copyout two_pages 4095 (5 ∷ 6 ∷ []) zeros ≡ Run.returned (true, stored)
unfolding copyout walkaddr write_bytes
stored_out = refl

apart : IsApart two_pages 4095 2
unfolding walkaddr find_pte
apart zero zero p q e = refl
apart zero (suc zero) p q e = absurd (omega arith)
apart (suc zero) zero p q e = absurd (omega arith)
apart (suc zero) (suc zero) p q e = refl
apart (suc (suc i)) j p q e = absurd (omega arith)
apart i (suc (suc j)) p q e = absurd (omega arith)

copyin-copyout_example : copyin two_pages 4095 2 stored ≡ Run.returned (true, 5 ∷ 6 ∷ [])
copyin-copyout_example = copyin-copyout two_pages 4095 (5 ∷ 6 ∷ []) zeros apart stored_out
