-- ===== src/Kalloc.antt =====
-- kernel/kalloc.c: the allocator of physical pages. The free list is linked through the first
-- bytes of the free pages; here it is the list of their addresses. `mem` is physical memory, byte
-- by byte; in a free page it leaves out the link. `kernel_end` is `end` of kernel.ld.
pub mod Pages
mod Tests
use noy_hadar.Base.{
  ℕ, zero, suc, ◌+◌, ◌-◌, ◌*◌, ◌/◌, ◌%◌, ◌^◌, ◌==◌, ◌/=◌, ltb, leb, if◌then◌else◌, Bool, true,
  false, not, ◌&&◌, ◌||◌, Option, none, some, List, [], ◌∷◌,
}

abbrev pub page_size : ℕ
page_size = 4096

-- `KERNBASE + 128*1024*1024`
abbrev pub phys_top : ℕ
phys_top = 0x80000000 + 128 * 1024 * 1024

-- `PGROUNDUP` and `PGROUNDDOWN`, for numbers that do not wrap at 64 bits.
abbrev pub page_round_up : ℕ → ℕ
page_round_up sz = (sz + page_size - 1) / page_size * page_size

abbrev pub page_round_down : ℕ → ℕ
page_round_down a = a / page_size * page_size

abbrev pub Memory : Type 0
Memory = ℕ → ℕ

-- `memset(dst, c, n)` for a pointer into memory.
pub memset_at : ℕ → ℕ → ℕ → Memory → Memory
memset_at dst c n mem a = if leb dst a && ltb a (dst + n) then c % 256 else mem a

pub record Kmem : Type 0 where
  pub freelist : List ℕ
  pub mem : Memory

module _ (kernel_end : ℕ) where
  -- `none` is a panic.
  unfoldable pub kfree : ℕ → Kmem → Option Kmem
  unfolding memset_at
  kfree pa k =
      if (pa % page_size) /= 0 || (ltb pa kernel_end || leb phys_top pa)
      then none
      else some (record k { freelist = pa ∷ k.freelist; mem = memset_at pa 1 page_size k.mem })

  -- The loop of `freerange` from `p` on, with fuel for its rounds.
  pub freerange_from : ℕ → ℕ → ℕ → Kmem → Option Kmem
  unfolding kfree
  freerange_from zero p pa_end k = none
  freerange_from (suc fuel) p pa_end k = elim (leb (p + page_size) pa_end) [
    | true ↦ elim (kfree p k) [
      | none ↦ none
      | some k' ↦ freerange_from fuel (p + page_size) pa_end k'
    ]
    | false ↦ some k
  ]

  pub freerange : ℕ → ℕ → Kmem → Option Kmem
  unfolding freerange_from
  freerange pa_start pa_end k =
      freerange_from (suc (pa_end / page_size)) (page_round_up pa_start) pa_end k

  -- The list is empty when the kernel starts.
  pub kinit : Memory → Option Kmem
  kinit mem = freerange kernel_end phys_top (record { freelist = []; mem = mem })

-- `kalloc` for a free list.
unfoldable pub take_page : List ℕ → Kmem → Option ℕ × Kmem
unfolding memset_at
take_page [] k = (none, k)
take_page (r ∷ next) k = (some r, record k { freelist = next; mem = memset_at r 5 page_size k.mem })

-- The page, or `none` for the null pointer.
unfoldable pub kalloc : Kmem → Option ℕ × Kmem
unfolding take_page
kalloc k = take_page k.freelist k
