-- ===== src/Kalloc/Tests.antt =====
-- Runs of kernel/kalloc.c.
use noy_hadar.Base.{ℕ, some, [], ◌∷◌, ◌≡◌, refl}
use noy_hadar.Kalloc.{freerange, page_size, Kmem, kinit, kalloc, memset_at}
use noy_hadar.Kalloc.Pages.{count, History, IsPage, one_if_page, kinit-pages, kalloc-fresh}

-- A kernel that leaves two pages.
abbrev near_top : ℕ
near_top = 0x87FFE000

kinit-pages_example :
    (k : Kmem) × (kinit near_top (λ _. 0) ≡ some k)
    × ((a : ℕ) → count a k.freelist ≡ one_if_page near_top a)
kinit-pages_example = kinit-pages near_top (λ _. 0)

abbrev filled : Kmem
filled = record {
  freelist = 0x87FFF000 ∷ 0x87FFE000 ∷ [];
  mem = memset_at 0x87FFF000 1 page_size (memset_at 0x87FFE000 1 page_size (λ _. 0));
}

filled-eq : kinit near_top (λ _. 0) ≡ some filled
unfolding kinit freerange
filled-eq = refl

first_page : (kalloc filled).0 ≡ some 0x87FFF000
unfolding kalloc
first_page = refl

kalloc-fresh_example :
    IsPage near_top 0x87FFF000
    × (count 0x87FFF000 [] ≡ 0)
    × (count 0x87FFF000 (kalloc filled).1.freelist ≡ 0)
kalloc-fresh_example = kalloc-fresh 0x87FFF000 (History.booted filled-eq) first_page
