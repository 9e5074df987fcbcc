-- ===== src/Pipe/Tests.antt =====
-- Runs of kernel/pipe.c.
use noy_hadar.Base.{
  ℕ, ◌-◌, ◌^◌, true, false, none, some, Option, List, [], ◌∷◌, ◌++◌, length, ◌≡◌, ◌⊎◌, ◌<◌, ◌≤◌,
  arith,
}
use noy_hadar.Pipe.{Pipe, Outcome, pipewrite, piperead, put}
use noy_hadar.Pipe.Ring.{IsValid, fill, contents}
use noy_hadar.Pipe.Stream.{Wrote, pipewrite-Wrote, Took, Waits, piperead-Took}
use noy_hadar.Pipe.Lossy.{Lossy}
use noy_hadar.Pipe.History.{added_by, History, fifo}

-- An empty pipe whose counters are about to wrap.
abbrev old_pipe : Pipe
old_pipe = record {
  bytes = λ _. 0;
  nread = 2 ^ 32 - 1;
  nwrite = 2 ^ 32 - 1;
  readopen = true;
  writeopen = true;
}

old_pipe-IsValid : IsValid old_pipe
old_pipe-IsValid = record { read_in = omega arith; write_in = omega arith; bounded = omega arith }

pipewrite-Wrote_example :
    Wrote false
      (some 7 ∷ some 8 ∷ none ∷ [])
      0
      old_pipe
      (pipewrite false (some 7 ∷ some 8 ∷ none ∷ []) 0 old_pipe)
pipewrite-Wrote_example =
    pipewrite-Wrote false (some 7 ∷ some 8 ∷ none ∷ []) 0 old_pipe old_pipe-IsValid

abbrev two_bytes : Pipe
two_bytes = put 8 (put 7 old_pipe)

two_bytes-IsValid : IsValid two_bytes
unfolding put
two_bytes-IsValid = record { read_in = omega arith; write_in = omega arith; bounded = omega arith }

piperead-Took_example :
    let (o, out, pi') = piperead false (true ∷ true ∷ true ∷ []) two_bytes in
    (((0 < fill two_bytes) ⊎ (two_bytes.writeopen ≡ false))
      × (o ≡ Outcome.returned (length out))
      × Took (true ∷ true ∷ true ∷ []) two_bytes out pi')
    ⊎ Waits false two_bytes (o, out, pi')
piperead-Took_example = piperead-Took false (true ∷ true ∷ true ∷ []) two_bytes two_bytes-IsValid

abbrev bytes_in : List (Option ℕ)
bytes_in = some 7 ∷ some 8 ∷ []

abbrev written : Pipe
written = (pipewrite false bytes_in 0 old_pipe).1

-- The second of the two bytes is lost: `copyout` refuses it.
abbrev read_one : Outcome × List ℕ × Pipe
read_one = piperead false (true ∷ false ∷ []) written

fifo_example :
    IsValid read_one.2
    × (taken : List ℕ) × (contents old_pipe ++ ([] ++ added_by false bytes_in 0 old_pipe)
        ≡ taken ++ contents read_one.2)
    × (lost : ℕ) × (lost ≤ 1)
    × Lossy taken ([] ++ read_one.1) lost
    × ((0 < 1) ⊎ (taken ≡ [] ++ read_one.1))
fifo_example = fifo old_pipe-IsValid (
    History.read false (true ∷ false ∷ [])
      (History.wrote false bytes_in 0 (History.opened old_pipe)))
