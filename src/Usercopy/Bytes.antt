-- ===== src/Usercopy/Bytes.antt =====
-- User memory byte by byte, which the loops over pages of kernel/vm.c implement.
use noy_hadar.Base.{
  ℕ, zero, suc, ◌+◌, ◌==◌, if◌then◌else◌, Bool, true, false, List, [], ◌∷◌, update,
}
use noy_hadar.Kalloc.{Memory, page_round_down}
use noy_hadar.Vm.{Pagetable, walkaddr}
use noy_hadar.Usercopy.{in_page}

-- The physical address of a user's byte, where its page can be reached.
abbrev pub reachable : Pagetable → ℕ → Bool
reachable pt va = if walkaddr pt (page_round_down va) == 0 then false else true

abbrev pub place : Pagetable → ℕ → ℕ
place pt va = in_page (walkaddr pt (page_round_down va)) va

-- Stores up to the first byte that cannot be reached; whether all were stored.
unfoldable pub store_user : Pagetable → ℕ → List ℕ → Memory → Bool × Memory
store_user pt va [] mem = (true, mem)
store_user pt va (b ∷ bytes) mem =
    let rest = store_user pt (va + 1) bytes (update mem (place pt va) b) in
    if reachable pt va then rest else (false, mem)

-- Loads up to the first byte that cannot be reached.
unfoldable pub load_user : Pagetable → ℕ → ℕ → Memory → Bool × List ℕ
load_user pt va zero mem = (true, [])
load_user pt va (suc n) mem =
    let rest = load_user pt (va + 1) n mem in
    if reachable pt va then (rest.0, mem (place pt va) ∷ rest.1) else (false, [])

-- Loads up to a NUL, which is loaded too.
unfoldable pub load_string : Pagetable → ℕ → ℕ → Memory → Bool × List ℕ
load_string pt va zero mem = (false, [])
load_string pt va (suc n) mem =
    let rest = load_string pt (va + 1) n mem in
    if reachable pt va
    then if mem (place pt va) == 0 then (true, 0 ∷ []) else (rest.0, mem (place pt va) ∷ rest.1)
    else (false, [])
