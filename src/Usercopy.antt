-- ===== src/Usercopy.antt =====
-- Copies between the kernel and user memory, from kernel/vm.c. The kernel's buffer is a list of
-- bytes: what is copied out, or what has been copied in so far. Each loop has fuel for its rounds.
pub mod Pages
pub mod Loads
pub mod Strings
pub mod Bytes
pub mod Trip
mod Tests
use noy_hadar.Base.{
  ℕ, zero, suc, ◌+◌, ◌-◌, ◌*◌, ◌/◌, ◌%◌, ◌==◌, ltb, if◌then◌else◌, Bool, true, false, List, [], ◌∷◌,
  ◌++◌, update, length, take, drop,
}
use noy_hadar.Kalloc.{Memory, page_size, page_round_down}
use noy_hadar.Vm.{Pagetable, Run, ◌>>=◌, walkaddr}

-- `memmove` from a buffer to memory, and from memory to a buffer.
unfoldable pub write_bytes : ℕ → List ℕ → Memory → Memory
write_bytes a [] mem = mem
write_bytes a (b ∷ bytes) mem = write_bytes (a + 1) bytes (update mem a b)

unfoldable pub read_bytes : ℕ → ℕ → Memory → List ℕ
read_bytes zero a mem = []
read_bytes (suc n) a mem = mem a ∷ read_bytes n (a + 1) mem

-- `n` of a round: what is left of the page, or of the bytes asked for.
pub chunk : ℕ → ℕ → ℕ
chunk va len = let n = page_size - (va - page_round_down va) in if ltb len n then len else n

-- Where a byte of a page at `pa0` stands.
abbrev pub in_page : ℕ → ℕ → ℕ
in_page pa0 va = pa0 + (va - page_round_down va)

-- True for 0 and false for -1.
pub copyout_loop : ℕ → Pagetable → ℕ → List ℕ → Memory → Run (Bool × Memory)
unfolding chunk
copyout_loop zero pt dstva src mem = Run.lost
copyout_loop (suc fuel) pt dstva [] mem = Run.returned (true, mem)
copyout_loop (suc fuel) pt dstva (b ∷ bytes) mem =
    let pa0 = walkaddr pt (page_round_down dstva) in
    let n = chunk dstva (length (b ∷ bytes)) in
    let rest =
      copyout_loop fuel pt (page_round_down dstva + page_size) (drop n (b ∷ bytes))
        (write_bytes (in_page pa0 dstva) (take n (b ∷ bytes)) mem) in
    if pa0 == 0 then Run.returned (false, mem) else rest

pub copyout : Pagetable → ℕ → List ℕ → Memory → Run (Bool × Memory)
unfolding copyout_loop
copyout pt dstva src mem = copyout_loop (suc (length src)) pt dstva src mem

-- With the bytes that were copied before.
pub copyin_loop : ℕ → Pagetable → List ℕ → ℕ → ℕ → Memory → Run (Bool × List ℕ)
unfolding chunk
copyin_loop zero pt dst srcva len mem = Run.lost
copyin_loop (suc fuel) pt dst srcva len mem =
    let pa0 = walkaddr pt (page_round_down srcva) in
    let n = chunk srcva len in
    let rest =
      copyin_loop fuel pt (dst ++ read_bytes n (in_page pa0 srcva) mem)
        (page_round_down srcva + page_size) (len - n) mem in
    if len == 0
    then Run.returned (true, dst)
    else if pa0 == 0
    then Run.returned (false, dst)
    else rest

pub copyin : Pagetable → ℕ → ℕ → Memory → Run (Bool × List ℕ)
unfolding copyin_loop
copyin pt srcva len mem = copyin_loop (suc len) pt [] srcva len mem

-- The inner loop of `copyinstr`: whether it met a NUL, and the bytes that it copied.
pub scan : ℕ → ℕ → Memory → Bool × List ℕ
scan zero p mem = (false, [])
scan (suc n) p mem =
    let rest = scan n (p + 1) mem in if mem p == 0 then (true, 0 ∷ []) else (rest.0, mem p ∷ rest.1)

pub copyinstr_loop : ℕ → Pagetable → List ℕ → ℕ → ℕ → Memory → Run (Bool × List ℕ)
unfolding chunk scan
copyinstr_loop zero pt dst srcva max mem = Run.lost
copyinstr_loop (suc fuel) pt dst srcva max mem =
    let pa0 = walkaddr pt (page_round_down srcva) in
    let n = chunk srcva max in
    let (got_null, bytes) = scan n (in_page pa0 srcva) mem in
    let rest =
      copyinstr_loop fuel pt (dst ++ bytes) (page_round_down srcva + page_size) (max - n) mem in
    if max == 0
    then Run.returned (false, dst)
    else if pa0 == 0
    then Run.returned (false, dst)
    else if got_null
    then Run.returned (true, dst ++ bytes)
    else rest

unfoldable pub copyinstr : Pagetable → ℕ → ℕ → Memory → Run (Bool × List ℕ)
unfolding copyinstr_loop
copyinstr pt srcva max mem = copyinstr_loop (suc max) pt [] srcva max mem

-- `either_copyout` and `either_copyin` of kernel/proc.c.
unfoldable pub either_copyout : Bool → Pagetable → ℕ → List ℕ → Memory → Run (Bool × Memory)
unfolding copyout write_bytes
either_copyout user_dst pt dst src mem =
    if user_dst then copyout pt dst src mem else Run.returned (true, write_bytes dst src mem)

unfoldable pub either_copyin : Bool → Pagetable → ℕ → ℕ → Memory → Run (Bool × List ℕ)
unfolding copyin read_bytes
either_copyin user_src pt src len mem =
    if user_src then copyin pt src len mem else Run.returned (true, read_bytes len src mem)
