-- ===== src/Vm.antt =====
-- Page tables, from kernel/vm.c. A page-table page belongs to one table, so that a table is a tree
-- of three levels: an entry of an upper level is none where its PTE is not valid, and otherwise
-- the address of the lower page with what that page holds. The flags of a PTE are those that the
-- kernel names. A pointer to a PTE is the virtual address that it was found by.
pub mod Lookup
pub mod Map
pub mod Memory
mod Tests
use noy_hadar.Base.{
  ℕ, zero, suc, ◌+◌, ◌-◌, ◌*◌, ◌/◌, ◌%◌, ◌^◌, ◌==◌, ltb, leb, if◌then◌else◌, Bool, true, false, not,
  ◌&&◌, ◌||◌, Option, none, some, update,
}
use noy_hadar.Kalloc.{Kmem, kalloc, memset_at, page_size, page_round_down}

pub record Pte : Type 0 where
  pub ppn : ℕ
  pub valid : Bool
  pub read : Bool
  pub write : Bool
  pub exec : Bool
  pub user : Bool

abbrev pub zero_pte : Pte
zero_pte = record {
  ppn = 0;
  valid = false;
  read = false;
  write = false;
  exec = false;
  user = false;
}

abbrev pub Leaves : Type 0
Leaves = ℕ → Pte

abbrev pub Dir : Type 0 → Type 0
Dir A = ℕ → Option (ℕ × A)

pub record Pagetable : Type 0 where
  pub page : ℕ
  pub entries : Dir (Dir Leaves)

-- One past the highest virtual address: `1L << (9 + 9 + 9 + 12 - 1)`.
abbrev pub max_va : ℕ
max_va = 2 ^ 38

-- `PX(level, va)` for each level.
abbrev pub px0 : ℕ → ℕ
px0 va = va / 2 ^ 12 % 512

abbrev pub px1 : ℕ → ℕ
px1 va = va / 2 ^ 21 % 512

abbrev pub px2 : ℕ → ℕ
px2 va = va / 2 ^ 30 % 512

-- `PTE2PA` of an entry.
abbrev pub pte_pa : Pte → ℕ
pte_pa p = p.ppn * page_size

-- `perm | PTE_V` with the physical address: `perm` is an entry of which only the flags count.
abbrev pub make_pte : ℕ → Pte → Pte
make_pte pa perm = record perm { ppn = pa / page_size; valid = true }

-- `walk` without `alloc` for an address below `max_va`: none for a null pointer, and else the PTE.
unfoldable pub find_pte : ℕ → Pagetable → Option Pte
find_pte va pt = elim (pt.entries (px2 va)) [
  | none ↦ none
  | some (_, t1) ↦ elim (t1 (px1 va)) [ none ↦ none | some (_, t0) ↦ some (t0 (px0 va)) ]
]

-- An assignment through the pointer that `walk` returned for `va`.
unfoldable pub set_pte : ℕ → Pte → Pagetable → Pagetable
set_pte va p pt = elim (pt.entries (px2 va)) [
  | none ↦ pt
  | some (a1, t1) ↦ elim (t1 (px1 va)) [
    | none ↦ pt
    | some (a0, t0) ↦ record pt {
      entries =
          update pt.entries (px2 va)
            (some (a1, update t1 (px1 va) (some (a0, update t0 (px0 va) p))));
    }
  ]
]

-- A page from `kalloc`, filled with zeros.
unfoldable pub zeroed_page : Kmem → Option ℕ × Kmem
zeroed_page k =
    let (page, k') = kalloc k in
    elim page [
      | none ↦ (none, k')
      | some p ↦ (some p, record k' { mem = memset_at p 0 page_size k'.mem })
    ]

-- One round of the loop of `walk` with `alloc`: the entry is there, or it is made with an empty
-- page; none if there is no page.
unfoldable pub descend : {A : Type 0} → A → ℕ → Dir A → Kmem → Option (ℕ × A) × Kmem
unfolding zeroed_page
descend fresh i d k = elim (d i) [
  | some e ↦ (some e, k)
  | none ↦
      let (page, k') = zeroed_page k in
      elim page [ none ↦ (none, k') | some p ↦ (some (p, fresh), k') ]
]

abbrev pub no_leaves : Leaves
no_leaves _ = zero_pte

abbrev pub no_tables : Dir Leaves
no_tables _ = none

-- `walk` with `alloc` for an address below `max_va`: false for a null pointer. A page that the
-- first round made stays if the second finds none.
unfoldable pub make_path : ℕ → Pagetable → Kmem → Bool × Pagetable × Kmem
unfolding descend
make_path va pt k =
    let (e1, k1) = descend no_tables (px2 va) pt.entries k in
    elim e1 [
      | none ↦ (false, pt, k1)
      | some (a1, t1) ↦
          let (e0, k0) = descend no_leaves (px1 va) t1 k1 in
          elim e0 [
            | none ↦ (false, record pt { entries = update pt.entries (px2 va) (some (a1, t1)) }, k0)
            | some (a0, t0) ↦ (
              true,
              record pt {
                entries =
                    update pt.entries (px2 va) (some (a1, update t1 (px1 va) (some (a0, t0))));
              },
              k0,
            )
          ]
    ]

-- How a call ends: it panics, it comes back, or it is `lost`: its fuel ran out, or it follows a
-- pointer that is none to a page of the kind it takes it for.
pub data Run (A : Type 0) : Type 0 where
  panic : Run A
  lost : Run A
  returned : A → Run A

infixl 5 ◌>>=◌
abbrev pub ◌>>=◌ : {A B : Type 0} → Run A → (A → Run B) → Run B
Run.panic >>= f = Run.panic
Run.lost >>= f = Run.lost
Run.returned a >>= f = f a

unfoldable pub walk : ℕ → Pagetable → Run (Option Pte)
walk va pt = if leb max_va va then Run.panic else Run.returned (find_pte va pt)

unfoldable pub walk_alloc : ℕ → Pagetable → Kmem → Run (Bool × Pagetable × Kmem)
unfolding make_path
walk_alloc va pt k = if leb max_va va then Run.panic else Run.returned (make_path va pt k)

-- The physical address of a user's page, or 0.
unfoldable pub walkaddr : Pagetable → ℕ → ℕ
unfolding find_pte
walkaddr pt va = if leb max_va va then 0 else elim (find_pte va pt) [
  | none ↦ 0
  | some p ↦ if not p.valid then 0 else if not p.user then 0 else pte_pa p
]

-- The loop of `mappages`; true for 0 and false for -1.
unfoldable pub map_from : ℕ → ℕ → ℕ → ℕ → Pte → Pagetable → Kmem → Run (Bool × Pagetable × Kmem)
unfolding walk_alloc find_pte set_pte
map_from zero a last pa perm pt k = Run.lost
map_from (suc fuel) a last pa perm pt k = walk_alloc a pt k >>= λ (ok, pt1, k1).
    if not ok then Run.returned (false, pt1, k1) else elim (find_pte a pt1) [
      | none ↦ Run.lost
      | some old ↦
          let pt2 = set_pte a (make_pte pa perm) pt1 in
          let rest = map_from fuel (a + page_size) last (pa + page_size) perm pt2 k1 in
          if old.valid then Run.panic else if a == last then Run.returned (true, pt2, k1) else rest
    ]

-- Enough rounds for every address below `max_va`.
unfoldable pub map_rounds : ℕ
map_rounds = max_va / page_size + 1

unfoldable pub mappages : ℕ → ℕ → ℕ → Pte → Pagetable → Kmem → Run (Bool × Pagetable × Kmem)
unfolding map_from
mappages va size pa perm pt k =
    map_from map_rounds (page_round_down va) (page_round_down ((va + size + 2 ^ 64 - 1) % 2 ^ 64))
      pa perm pt k
