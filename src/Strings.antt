-- ===== src/Strings.antt =====
-- kernel/string.c: copies of bytes and of strings in one memory, which maps addresses to bytes.
-- Addresses do not wrap.
pub mod Move
pub mod Copy
pub mod Compare
mod Tests
use noy_hadar.Base.{
  ℕ, zero, suc, ◌+◌, ◌-◌, ◌==◌, ltb, if◌then◌else◌, Bool, true, false, ◌&&◌, update,
}

abbrev pub Bytes : Type 0
Bytes = ℕ → ℕ

-- The loops of `memmove`: from the first byte on, and from the last byte down, where the pointers
-- start behind the last.
pub copy_up : ℕ → ℕ → ℕ → Bytes → Bytes
copy_up zero d s mem = mem
copy_up (suc n) d s mem = copy_up n (d + 1) (s + 1) (update mem d (mem s))

pub copy_down : ℕ → ℕ → ℕ → Bytes → Bytes
copy_down zero d s mem = mem
copy_down (suc n) d s mem = copy_down n (d - 1) (s - 1) (update mem (d - 1) (mem (s - 1)))

pub memmove : ℕ → ℕ → ℕ → Bytes → Bytes
unfolding copy_up copy_down
memmove dst src n mem =
    if ltb src dst && ltb dst (src + n)
    then copy_down n (dst + n) (src + n) mem
    else copy_up n dst src mem

-- The loop of `safestrcpy`: at most `rounds` bytes, up to a NUL that is copied. With the memory is
-- returned where `s` points then.
pub copy_string : ℕ → ℕ → ℕ → Bytes → ℕ × Bytes
copy_string zero s t mem = (s, mem)
copy_string (suc rounds) s t mem =
    let rest = copy_string rounds (s + 1) (t + 1) (update mem s (mem t)) in
    if mem t == 0 then (s + 1, update mem s (mem t)) else rest

-- `safestrcpy`; `n` is 0 for a negative size too.
pub safestrcpy : ℕ → ℕ → ℕ → Bytes → Bytes
unfolding copy_string
safestrcpy s t zero mem = mem
safestrcpy s t (suc n) mem = let (s', mem') = copy_string n s t mem in update mem' s' 0
