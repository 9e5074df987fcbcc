-- ===== src/Procmem/Tests.antt =====
-- A run of proc_pagetable of kernel/proc.c.
use noy_hadar.Base.{none, some, [], ◌∷◌, Option, ◌≡◌, refl}
use noy_hadar.Kalloc.{Kmem, kalloc}
use noy_hadar.Vm.{Pagetable, Run, mappages, zeroed_page, map_rounds}
use noy_hadar.Uvm.{uvmcreate}
use noy_hadar.Procmem.{with_trapframe, with_trampoline, proc_pagetable}
use noy_hadar.Procmem.Fixed.{Fixed, proc_pagetable-Fixed}

abbrev four_pages : Kmem
four_pages = record {
  freelist = 0x87FFF000 ∷ 0x87FFE000 ∷ 0x87FFD000 ∷ 0x87FFC000 ∷ [];
  mem = λ _. 0;
}

abbrev made : Run (Option Pagetable × Kmem)
made = proc_pagetable 0x80010000 0x80007000 0x87FFB000 four_pages

abbrev table_of : Run (Option Pagetable × Kmem) → Pagetable
table_of (Run.returned (some pt, k)) = pt
table_of _ = record { page = 0; entries = λ _. none }

abbrev memory_of : Run (Option Pagetable × Kmem) → Kmem
memory_of (Run.returned (o, k)) = k
memory_of _ = four_pages

made_one : made ≡ Run.returned (some (table_of made), memory_of made)
unfolding proc_pagetable with_trampoline with_trapframe uvmcreate mappages kalloc zeroed_page
    map_rounds
made_one = refl

proc_pagetable_run : Fixed 0x80007000 0x87FFB000 (table_of made)
proc_pagetable_run = proc_pagetable-Fixed 0x80010000 0x80007000 0x87FFB000 four_pages made_one
