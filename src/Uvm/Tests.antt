-- ===== src/Uvm/Tests.antt =====
-- Runs of user address spaces of kernel/vm.c.
use noy_hadar.Base.{ℕ, false, none, [], ◌∷◌, ◌<◌, ◌≡◌, ◌⊎◌, refl, arith}
use noy_hadar.Kalloc.{Kmem, kalloc}
use noy_hadar.Vm.{
  zero_pte, Pagetable, Run, make_pte, set_pte, find_pte, make_path, mappages, zeroed_page,
  map_rounds,
}
use noy_hadar.Uvm.{user_perm, uvmunmap, grow_from, uvmalloc}
use noy_hadar.Uvm.Unmap.{Unmapped, uvmunmap-Unmapped}
use noy_hadar.Vm.Memory.{free_pages}
use noy_hadar.Uvm.Grown.{Grown, Unchanged}
use noy_hadar.Uvm.Alloc.{uvmalloc-Ends}

abbrev three_pages : Kmem
three_pages = record { freelist = 0x87FFF000 ∷ 0x87FFE000 ∷ 0x87FFD000 ∷ []; mem = λ _. 0 }

abbrev no_mappings : Pagetable
no_mappings = record { page = 0x87FFC000; entries = λ _. none }

abbrev taken : Kmem
taken = (zeroed_page three_pages).1

abbrev one_page : Pagetable
one_page = set_pte 0 (make_pte 0x87FFF000 user_perm) (make_path 0 no_mappings taken).1

abbrev left : Kmem
left = (make_path 0 no_mappings taken).2

grown_once : uvmalloc 0x80010000 0 100 no_mappings three_pages ≡ Run.returned (100, one_page, left)
unfolding uvmalloc grow_from mappages kalloc zeroed_page map_rounds
grown_once = refl

uvmalloc-Ends_example :
    ((◌≡◌ {A = ℕ} 100 100) × Grown 0 0x1000 no_mappings one_page)
    ⊎ ((◌≡◌ {A = ℕ} 100 0) × (free_pages three_pages < 3) × Unchanged no_mappings one_page)
uvmalloc-Ends_example =
    uvmalloc-Ends 0x80010000 0 100 no_mappings three_pages (omega arith) grown_once

shrunk_once :
    uvmunmap 0x80010000 0 1 false one_page left ≡ Run.returned (set_pte 0 zero_pte one_page, left)
unfolding uvmunmap make_path set_pte find_pte kalloc zeroed_page
shrunk_once = refl

uvmunmap-Unmapped_example : (◌≡◌ {A = ℕ} 0 0) × Unmapped 0 1 one_page (set_pte 0 zero_pte one_page)
uvmunmap-Unmapped_example = uvmunmap-Unmapped 0x80010000 0 1 false one_page left shrunk_once
