-- ===== src/Pipe/Ring.antt =====
-- The ring of kernel/pipe.c against the queue of the bytes in it.
use noy_hadar.Base.{
  ℕ, zero, suc, ◌+◌, ◌-◌, ◌%◌, ◌≤◌, ◌<◌, ◌==◌, List, [], ◌∷◌, ◌++◌, length, update, ◌≡◌, refl, ap,
  ap₂, ◌∙◌, arith, update_self, update_ne,
}
use noy_hadar.Pipe.{Pipe, pipe_size, uint_mod, full, empty, put, next}

-- How many bytes are in the pipe.
abbrev pub fill : Pipe → ℕ
fill pi = (pi.nwrite + uint_mod - pi.nread) % uint_mod

-- The bytes at the `n` counts from `r` on.
abbrev pub window : (ℕ → ℕ) → ℕ → ℕ → List ℕ
window bytes r zero = []
window bytes r (suc n) = bytes (r % pipe_size) ∷ window bytes ((r + 1) % uint_mod) n

abbrev pub contents : Pipe → List ℕ
contents pi = window pi.bytes pi.nread (fill pi)

pub record IsValid (pi : Pipe) : Type 0 where
  pub read_in : pi.nread < uint_mod
  pub write_in : pi.nwrite < uint_mod
  pub bounded : fill pi ≤ pipe_size

pub length-window : (bytes : ℕ → ℕ) (r n : ℕ) → length (window bytes r n) ≡ n
length-window bytes r zero = refl
length-window bytes r (suc n) = ap suc (length-window bytes ((r + 1) % uint_mod) n)

-- The tests of the code, for a valid pipe.
pub full-eq : (pi : Pipe) → IsValid pi → full pi ≡ (fill pi == pipe_size)
unfolding full
full-eq pi v = ground (arith)

pub empty-eq : (pi : Pipe) → IsValid pi → empty pi ≡ (fill pi == 0)
unfolding empty
empty-eq pi v = ground arith

pub put-IsValid :
    (ch : ℕ) (pi : Pipe)
    → IsValid pi
    → fill pi < pipe_size
    → IsValid (put ch pi) × (fill (put ch pi) ≡ fill pi + 1)
unfolding put
put-IsValid ch pi v h =
    (record { read_in = v.read_in; write_in = omega arith; bounded = omega arith }, omega arith)

pub next-IsValid :
    (pi : Pipe)
    → IsValid pi
    → 0 < fill pi
    → IsValid (next pi).1 × (fill pi ≡ suc (fill (next pi).1))
unfolding next
next-IsValid pi v h =
    (record { read_in = omega arith; write_in = v.write_in; bounded = omega arith }, omega arith)

window-put :
    (bytes : ℕ → ℕ) (ch w n r : ℕ)
    → n < pipe_size
    → r < uint_mod
    → w ≡ (r + n) % uint_mod
    → window (update bytes (w % pipe_size) ch) r (suc n) ≡ window bytes r n ++ ch ∷ []
window-put bytes ch w zero r h p e =
    let same : r % pipe_size ≡ w % pipe_size = omega arith in
    ap (λ (x : ℕ). x ∷ [])
      (ap (update bytes (w % pipe_size) ch) same ∙ update_self bytes (w % pipe_size) ch)
window-put bytes ch w (suc n) r h p e =
    ap₂ ◌∷◌ (update_ne bytes (w % pipe_size) ch (r % pipe_size) (λ q. omega arith))
      (window-put bytes ch w n ((r + 1) % uint_mod) (omega arith) (omega arith) (omega arith))

-- A byte that is put into a pipe that is not full goes to the end of its queue.
pub contents-put :
    (ch : ℕ) (pi : Pipe)
    → IsValid pi
    → fill pi < pipe_size
    → contents (put ch pi) ≡ contents pi ++ ch ∷ []
unfolding put
contents-put ch pi v h =
    ap (λ (n : ℕ). window (update pi.bytes (pi.nwrite % pipe_size) ch) pi.nread n) more
    ∙ window-put pi.bytes ch pi.nwrite (fill pi) pi.nread h v.read_in
        (omega (arith, v.write_in, v.read_in))
  where
    more : ((pi.nwrite + 1) % uint_mod + uint_mod - pi.nread) % uint_mod ≡ suc (fill pi)
    more = omega (arith, v.write_in, v.read_in)

-- The next byte of a pipe that is not empty is the first of its queue.
pub contents-next :
    (pi : Pipe) → IsValid pi → 0 < fill pi → contents pi ≡ (next pi).0 ∷ contents (next pi).1
unfolding next
contents-next pi v h = ap (window pi.bytes pi.nread) (next-IsValid pi v h).1

pub contents-empty : (pi : Pipe) → fill pi ≡ 0 → contents pi ≡ []
contents-empty pi h = ap (window pi.bytes pi.nread) h

pub length-contents : (pi : Pipe) → length (contents pi) ≡ fill pi
length-contents pi = length-window pi.bytes pi.nread (fill pi)
