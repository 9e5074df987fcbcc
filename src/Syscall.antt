-- ===== src/Syscall.antt =====
-- The arguments of system calls and their dispatch, from kernel/syscall.c, for the calling
-- process: its trapframe, whose other registers hold a1 to a7 at 1 to 7, its page table and size.
pub mod Fetch
mod Tests
use noy_hadar.Base.{
  ℕ, zero, suc, ◌+◌, ◌%◌, ◌^◌, ◌-◌, ◌==◌, ltb, leb, if◌then◌else◌, Bool, true, false, ◌||◌, ◌&&◌,
  Option, none, some, List, [], ◌∷◌,
}
use noy_hadar.Kalloc.{Memory}
use noy_hadar.Proc.{Trapframe}
use noy_hadar.Vm.{Pagetable, Run, ◌>>=◌}
use noy_hadar.Usercopy.{copyin, copyinstr}

-- The 8 bytes at `addr`, or -1.
unfoldable pub fetchaddr : ℕ → Pagetable → ℕ → Memory → Run (Option (List ℕ))
fetchaddr sz pt addr mem =
    if leb sz addr || ltb sz ((addr + 8) % 2 ^ 64)
    then Run.returned none
    else copyin pt addr 8 mem >>= λ (ok, bytes). Run.returned (if ok then some bytes else none)

-- `strlen` of a buffer that holds these bytes.
unfoldable pub strlen : List ℕ → ℕ
strlen [] = 0
strlen (b ∷ bytes) = let rest = strlen bytes in if b == 0 then 0 else suc rest

-- With the bytes in the buffer; none for -1.
unfoldable pub fetchstr : Pagetable → ℕ → ℕ → Memory → Run (Option ℕ × List ℕ)
unfolding strlen
fetchstr pt addr max mem = copyinstr pt addr max mem >>= λ (ok, bytes).
    Run.returned (if ok then some (strlen bytes) else none, bytes)

unfoldable pub argraw : ℕ → Trapframe → Run ℕ
argraw n f =
    if n == 0 then Run.returned f.a0 else if ltb n 6 then Run.returned (f.others n) else Run.panic

-- An `int` by its 32 bits.
unfoldable pub argint : ℕ → Trapframe → Run ℕ
unfolding argraw
argint n f = argraw n f >>= λ x. Run.returned (x % 2 ^ 32)

unfoldable pub argaddr : ℕ → Trapframe → Run ℕ
unfolding argraw
argaddr n f = argraw n f

unfoldable pub argstr : ℕ → ℕ → Trapframe → Pagetable → Memory → Run (Option ℕ × List ℕ)
unfolding argaddr fetchstr
argstr n max f pt mem = argaddr n f >>= λ addr. fetchstr pt addr max mem

module _ {S : Type 0} (syscalls : ℕ → Option (S → ℕ × S)) (get_frame : S → Trapframe)
    (set_frame : Trapframe → S → S) where
  -- The `num` of `syscall`; -1 when it is no number of a call. A negative number is none.
  unfoldable pub syscall : S → S
  syscall s =
      let num = (get_frame s).others 7 % 2 ^ 32 in
      elim (if ltb 0 num && ltb num (2 ^ 31) then syscalls num else none) [
        | none ↦ set_frame (record (get_frame s) { a0 = 2 ^ 64 - 1 }) s
        | some call ↦ let (a0, s') = call s in set_frame (record (get_frame s') { a0 = a0 }) s'
      ]
