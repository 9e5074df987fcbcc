-- ===== src/Vm/Tests.antt =====
-- Runs of the page tables of kernel/vm.c.
use noy_hadar.Base.{true, none, [], ◌∷◌, ◌≡◌, ◌≢◌, refl}
use noy_hadar.Kalloc.{Kmem, kalloc}
use noy_hadar.Vm.{
  Pte, zero_pte, Pagetable, Run, make_pte, find_pte, set_pte, make_path, walk_alloc, map_from,
  map_rounds, mappages,
}
use noy_hadar.Vm.Map.{Mapped, mappages-Mapped, mappages_ends}

abbrev pub three_pages : Kmem
three_pages = record { freelist = 0x87FFF000 ∷ 0x87FFE000 ∷ 0x87FFD000 ∷ []; mem = λ _. 0 }

abbrev pub no_mappings : Pagetable
no_mappings = record { page = 0x87FFC000; entries = λ _. none }

abbrev read_only : Pte
read_only = record zero_pte { read = true }

abbrev one_mapped : Pagetable
one_mapped =
    set_pte 0x5000 (make_pte 0x80001000 read_only) (make_path 0x5000 no_mappings three_pages).1

abbrev one_left : Kmem
one_left = (make_path 0x5000 no_mappings three_pages).2

one_page_mapped :
    mappages 0x5000 0x1000 0x80001000 read_only no_mappings three_pages
    ≡ Run.returned (true, one_mapped, one_left)
unfolding mappages map_from map_rounds make_path find_pte walk_alloc kalloc
one_page_mapped = refl

mappages-Mapped_example : Mapped 0x5000 0x5000 0x80001000 read_only no_mappings one_mapped
mappages-Mapped_example =
    mappages-Mapped 0x5000 0x1000 0x80001000 read_only no_mappings three_pages one_page_mapped

mappages_run : mappages 0x5000 0 0x80001000 read_only no_mappings three_pages ≢ Run.lost
mappages_run = mappages_ends 0x5000 0 0x80001000 read_only no_mappings three_pages
