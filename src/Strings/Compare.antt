-- ===== src/Strings/Compare.antt =====
-- The comparisons and the padded copy of kernel/string.c: memcmp, strncmp, strncpy and strlen.
pub mod Equal
use noy_hadar.Base.{
  ℕ, zero, suc, ◌+◌, ◌-◌, ◌==◌, ◌/=◌, leb, if◌then◌else◌, Bool, true, false, ◌&&◌, Option, none,
  some, update,
}
use noy_hadar.Strings.{Bytes}

pub data ℤ : Type 0 where
  pos : ℕ → ℤ
  negsuc : ℕ → ℤ

-- The difference of two bytes as an `int`.
unfoldable pub minus : ℕ → ℕ → ℤ
minus a b = if leb b a then ℤ.pos (a - b) else ℤ.negsuc (b - a - 1)

unfoldable pub memcmp : ℕ → ℕ → ℕ → Bytes → ℤ
unfolding minus
memcmp s1 s2 zero mem = ℤ.pos 0
memcmp s1 s2 (suc n) mem =
    let rest = memcmp (s1 + 1) (s2 + 1) n mem in
    if mem s1 /= mem s2 then minus (mem s1) (mem s2) else rest

unfoldable pub strncmp : ℕ → ℕ → ℕ → Bytes → ℤ
unfolding minus
strncmp p q zero mem = ℤ.pos 0
strncmp p q (suc n) mem =
    let rest = strncmp (p + 1) (q + 1) n mem in
    if (mem p /= 0) && (mem p == mem q) then rest else minus (mem p) (mem q)

-- The second loop of `strncpy`.
unfoldable pub pad : ℕ → ℕ → Bytes → Bytes
pad s zero mem = mem
pad s (suc n) mem = pad (s + 1) n (update mem s 0)

-- `n` is 0 for a negative size too.
unfoldable pub strncpy : ℕ → ℕ → ℕ → Bytes → Bytes
unfolding pad
strncpy s t zero mem = mem
strncpy s t (suc n) mem =
    let copied = update mem s (mem t) in
    let rest = strncpy (s + 1) (t + 1) n copied in if mem t == 0 then pad (s + 1) n copied else rest

abbrev one_more : Option ℕ → Option ℕ
one_more none = none
one_more (some n) = some (n + 1)

-- `strlen` with fuel; none when no NUL was met.
unfoldable pub strlen : ℕ → ℕ → Bytes → Option ℕ
strlen zero s mem = none
strlen (suc fuel) s mem =
    let rest = strlen fuel (s + 1) mem in if mem s == 0 then some 0 else one_more rest
