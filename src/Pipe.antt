-- ===== src/Pipe.antt =====
-- kernel/pipe.c: a pipe is a ring of 512 bytes with two counters that wrap at 32 bits.
-- Each function runs with the pipe's lock held; where the code sleeps, it gives the lock up, other
-- processes run, and the code goes on from there when woken. What the user's memory holds, or
-- whether a byte can be copied to it, is an argument.
pub mod Ring
pub mod Stream
pub mod Lossy
pub mod History
mod Tests
use noy_hadar.Base.{
  ℕ, zero, suc, ◌+◌, ◌-◌, ◌%◌, ◌^◌, ◌==◌, ltb, if◌then◌else◌, Bool, true, false, not, ◌&&◌, ◌||◌,
  Option, none, some, List, [], ◌∷◌, update, length,
}

abbrev pub pipe_size : ℕ
pipe_size = 512

abbrev pub uint_mod : ℕ
uint_mod = 2 ^ 32

-- `struct pipe`; the contents of the array are a function on its indices.
pub record Pipe : Type 0 where
  pub bytes : ℕ → ℕ
  pub nread : ℕ
  pub nwrite : ℕ
  pub readopen : Bool
  pub writeopen : Bool

-- The pipe that `pipealloc` makes in a page with any contents.
pub pipealloc : (ℕ → ℕ) → Pipe
pipealloc junk = record { bytes = junk; nread = 0; nwrite = 0; readopen = true; writeopen = true }

-- The pipe, and whether its page is freed.
pub pipeclose : Bool → Pipe → Bool × Pipe
pipeclose writable pi =
    let pi' =
      if writable then record pi { writeopen = false } else record pi { readopen = false } in
    (not pi'.readopen && not pi'.writeopen, pi')

pub full : Pipe → Bool
full pi = pi.nwrite == (pi.nread + pipe_size) % uint_mod

-- `pi->data[pi->nwrite++ % PIPESIZE] = ch`
pub put : ℕ → Pipe → Pipe
put ch pi = record pi {
  bytes = update pi.bytes (pi.nwrite % pipe_size) ch;
  nwrite = (pi.nwrite + 1) % uint_mod;
}

-- `pi->data[pi->nread++ % PIPESIZE]`
pub next : Pipe → ℕ × Pipe
next pi = (pi.bytes (pi.nread % pipe_size), record pi { nread = (pi.nread + 1) % uint_mod })

-- How a call goes on when it gives up the lock: it returns a count or -1, or it sleeps after `i`
-- bytes.
pub data Outcome : Type 0 where
  returned : ℕ → Outcome
  failed : Outcome
  asleep : ℕ → Outcome

-- `pipewrite` from its `i`-th byte on, up to its return or its next sleep. The list holds what
-- `copyin` brings for the bytes that are left, `none` where it fails.
pub pipewrite : Bool → List (Option ℕ) → ℕ → Pipe → Outcome × Pipe
unfolding full put
pipewrite killed [] i pi = (Outcome.returned i, pi)
pipewrite killed (none ∷ src) i pi =
    if not pi.readopen || killed
    then (Outcome.failed, pi)
    else if full pi
    then (Outcome.asleep i, pi)
    else (Outcome.returned i, pi)
pipewrite killed (some ch ∷ src) i pi =
    let rest = pipewrite killed src (i + 1) (put ch pi) in
    if not pi.readopen || killed
    then (Outcome.failed, pi)
    else if full pi
    then (Outcome.asleep i, pi)
    else rest

pub empty : Pipe → Bool
empty pi = pi.nread == pi.nwrite

-- The loop of `piperead` that copies: the bytes that it copies out. The list holds, for each byte
-- that is asked for, whether `copyout` takes it; a byte that it does not take is lost.
pub copy_out : List Bool → Pipe → List ℕ × Pipe
unfolding empty next
copy_out [] pi = ([], pi)
copy_out (false ∷ dst) pi = if empty pi then ([], pi) else ([], (next pi).1)
copy_out (true ∷ dst) pi =
    let rest = copy_out dst (next pi).1 in
    if empty pi then ([], pi) else ((next pi).0 ∷ rest.0, rest.1)

-- `piperead` up to its return or its next sleep: how it goes on, what it read, and the pipe.
pub piperead : Bool → List Bool → Pipe → Outcome × List ℕ × Pipe
unfolding copy_out empty
piperead killed dst pi =
    let r = copy_out dst pi in
    if empty pi && pi.writeopen
    then if killed then (Outcome.failed, [], pi) else (Outcome.asleep 0, [], pi)
    else (Outcome.returned (length r.0), r.0, r.1)
