-- ===== src/Pipe/Stream.antt =====
-- `pipewrite` and `piperead` of kernel/pipe.c against the queue.
use noy_hadar.Base.{
  ℕ, ◌+◌, ◌<◌, if◌then◌else◌, Bool, true, false, not, ◌&&◌, ◌||◌, Option, none, some, List, [], ◌∷◌,
  ◌++◌, length, ◌≡◌, ◌≢◌, ◌⊎◌, inl, inr, refl, ap, ◌∙◌, sym, arith, Bool-cases, append-nil,
  append_assoc, ==_iff, ==-false→ne, replicate,
}
use noy_hadar.Pipe.{Pipe, pipe_size, full, empty, put, next, Outcome, pipewrite, piperead, copy_out}
use noy_hadar.Pipe.Ring.{
  IsValid, fill, contents, full-eq, empty-eq, put-IsValid, next-IsValid, contents-put,
  contents-next,
}

-- What `pipewrite` can read of its source: the bytes up to the first that `copyin` refuses.
pub readable : List (Option ℕ) → List ℕ
readable [] = []
readable (none ∷ src) = []
readable (some ch ∷ src) = ch ∷ readable src

-- How a call that was at its `i`-th byte of `src` and added `added` gives up the lock: it returns
-- when nothing is left that it can read, and sleeps when the pipe is full. It fails, with bytes to
-- write, just when the reader is gone or the process is killed, and then it adds nothing.
abbrev pub Ends : Bool → List (Option ℕ) → ℕ → List ℕ → List ℕ → Pipe → Outcome → Type 0
Ends killed src i added left pi (Outcome.returned n) =
    (n ≡ i + length added) × (left ≡ []) × ((src ≡ []) ⊎ ((pi.readopen ≡ true) × (killed ≡ false)))
Ends killed src i added left pi (Outcome.asleep n) =
    (n ≡ i + length added) × (fill pi ≡ pipe_size) × (pi.readopen ≡ true) × (killed ≡ false)
Ends killed src i added left pi Outcome.failed =
    (added ≡ []) × (src ≢ []) × ((pi.readopen ≡ false) ⊎ (killed ≡ true))

-- What `pipewrite` did to the pipe: it appended `added`, the first bytes of what it can read.
pub record Wrote (killed : Bool) (src : List (Option ℕ)) (i : ℕ) (pi : Pipe) (r : Outcome × Pipe)
    : Type 0 where
  pub added : List ℕ
  pub left : List ℕ
  pub valid : IsValid r.1
  pub prefix : readable src ≡ added ++ left
  pub queue : contents r.1 ≡ contents pi ++ added
  pub reader : r.1.nread ≡ pi.nread
  pub reading : r.1.readopen ≡ pi.readopen
  pub ends : Ends killed src i added left r.1 r.0

still :
    (killed : Bool) (src : List (Option ℕ)) (i : ℕ) (pi : Pipe) (o : Outcome)
    → IsValid pi
    → Ends killed src i [] (readable src) pi o
    → Wrote killed src i pi (o, pi)
still killed src i pi o v e = record {
  added = [];
  left = readable src;
  valid = v;
  prefix = refl;
  queue = sym (append-nil (contents pi));
  reader = refl;
  reading = refl;
  ends = e;
}

further :
    (killed : Bool) (src : List (Option ℕ)) (i : ℕ) (ch : ℕ) (added left : List ℕ) (pi : Pipe)
    (o : Outcome)
    → pi.readopen ≡ true
    → killed ≡ false
    → Ends killed src (i + 1) added left pi o
    → Ends killed (some ch ∷ src) i (ch ∷ added) left pi o
further killed src i ch added left pi (Outcome.returned n) ro kf e =
    (omega (arith, e.0), e.1, inr (ro, kf))
further killed src i ch added left pi (Outcome.asleep n) ro kf e = (omega (arith, e.0), e.1, ro, kf)
further killed src i ch added left pi Outcome.failed ro kf (_, _, gone) =
    absurd (elim gone [ inl closed ↦ ground (arith, ro, closed) | inr k ↦ ground (arith, kf, k) ])

onward :
    (killed : Bool) (ch : ℕ) (src : List (Option ℕ)) (i : ℕ) (pi : Pipe) (r : Outcome × Pipe)
    → IsValid pi
    → fill pi < pipe_size
    → pi.readopen ≡ true
    → killed ≡ false
    → Wrote killed src (i + 1) (put ch pi) r
    → Wrote killed (some ch ∷ src) i pi r
unfolding readable
onward killed ch src i pi r v h ro kf w =
    let reading : r.1.readopen ≡ pi.readopen = w.reading ∙ unfold put in refl in
    record {
      added = ch ∷ w.added;
      left = w.left;
      valid = w.valid;
      prefix = ap (λ (l : List ℕ). ch ∷ l) w.prefix;
      queue =
          w.queue
          ∙ ap (λ (l : List ℕ). l ++ w.added) (contents-put ch pi v h)
          ∙ append_assoc (contents pi) (ch ∷ []) w.added;
      reader = w.reader ∙ unfold put in refl;
      reading = reading;
      ends = further killed src i ch w.added w.left r.1 r.0 (reading ∙ ro) kf w.ends;
    }

gone_cases :
    (open_reader killed : Bool)
    → (not open_reader || killed) ≡ true
    → (open_reader ≡ false) ⊎ (killed ≡ true)
gone_cases open_reader killed h = ground arith

live_parts :
    (open_reader killed : Bool)
    → (not open_reader || killed) ≡ false
    → (open_reader ≡ true) × (killed ≡ false)
live_parts open_reader killed h = ground arith

cons-nil : {x : Option ℕ} {src : List (Option ℕ)} → (x ∷ src) ≢ []
cons-nil = λ e. cc

-- On a valid pipe `pipewrite` appends to the queue, in order, the first of the bytes that it can
-- read. If it returns a count, that is the number of all of them; if it sleeps, the pipe is full,
-- and it will go on behind the bytes that it added. It fails if and only if it has bytes to write
-- and the reader is gone or the process killed, and then adds nothing.
pub pipewrite-Wrote :
    (killed : Bool) (src : List (Option ℕ)) (i : ℕ) (pi : Pipe)
    → IsValid pi
    → Wrote killed src i pi (pipewrite killed src i pi)
unfolding pipewrite readable
pipewrite-Wrote killed [] i pi v = still killed [] i pi _ v (omega arith, refl, inl refl)
pipewrite-Wrote killed (none ∷ src) i pi v = elim (Bool-cases (not pi.readopen || killed)) [
  | inl gone ↦ rw gone (
      still killed (none ∷ src) i pi Outcome.failed v
        (refl, cons-nil, gone_cases pi.readopen killed gone))
  | inr live ↦
      let (ro, kf) = live_parts pi.readopen killed live in
      elim (Bool-cases (full pi)) [
        | inl f ↦
            rw (live, f)
              (still killed (none ∷ src) i pi (Outcome.asleep i) v
                (omega arith, (==_iff (fill pi) pipe_size).0 (sym (full-eq pi v) ∙ f), ro, kf))
        | inr room ↦
            rw (live, room)
              (still killed (none ∷ src) i pi (Outcome.returned i) v
                (omega arith, refl, inr (ro, kf)))
      ]
]
pipewrite-Wrote killed (some ch ∷ src) i pi v = elim (Bool-cases (not pi.readopen || killed)) [
  | inl gone ↦ rw gone (
      still killed (some ch ∷ src) i pi Outcome.failed v
        (refl, cons-nil, gone_cases pi.readopen killed gone))
  | inr live ↦
      let (ro, kf) = live_parts pi.readopen killed live in
      elim (Bool-cases (full pi)) [
        | inl f ↦
            rw (live, f)
              (still killed (some ch ∷ src) i pi (Outcome.asleep i) v
                (omega arith, (==_iff (fill pi) pipe_size).0 (sym (full-eq pi v) ∙ f), ro, kf))
        | inr room ↦
            let h : fill pi < pipe_size =
              omega
                (arith, v.bounded, ==-false→ne (fill pi) pipe_size (sym (full-eq pi v) ∙ room)) in
            rw (live, room)
              (onward killed ch src i pi _ v h ro kf
                (pipewrite-Wrote killed src (i + 1) (put ch pi) (put-IsValid ch pi v h).0))
      ]
]

-- What the loop of `piperead` took: `out`, which the reader has, and `lost`, a byte that `copyout`
-- refused. `copyout` took every byte of `out`. The loop stops when it has what was asked for, when
-- the pipe is empty, or when `copyout` refuses the byte behind `out`, which alone is lost.
pub record Took (dst : List Bool) (pi : Pipe) (out : List ℕ) (pi' : Pipe) : Type 0 where
  pub lost : List ℕ
  pub rest : List Bool
  pub valid : IsValid pi'
  pub queue : contents pi ≡ out ++ (lost ++ contents pi')
  pub accepted : dst ≡ replicate (length out) true ++ rest
  pub ended :
      ((rest ≡ []) × (lost ≡ []))
      ⊎ ((fill pi' ≡ 0) × (lost ≡ []))
      ⊎ ((length lost ≡ 1) × (more : List Bool) × (rest ≡ false ∷ more))

none_left : (dst : List Bool) (pi : Pipe) → IsValid pi → fill pi ≡ 0 → Took dst pi [] pi
none_left dst pi v h = record {
  lost = [];
  rest = dst;
  valid = v;
  queue = refl;
  accepted = refl;
  ended = inr (inl (h, refl));
}

copy_out-Took :
    (dst : List Bool) (pi : Pipe) → IsValid pi → Took dst pi (copy_out dst pi).0 (copy_out dst pi).1
unfolding copy_out
copy_out-Took [] pi v = record {
  lost = [];
  rest = [];
  valid = v;
  queue = refl;
  accepted = refl;
  ended = inl (refl, refl);
}
copy_out-Took (false ∷ dst) pi v = elim (Bool-cases (empty pi)) [
  | inl e ↦ rw e (none_left (false ∷ dst) pi v ((==_iff (fill pi) 0).0 (sym (empty-eq pi v) ∙ e)))
  | inr some_left ↦
      let h : 0 < fill pi =
        omega (arith, ==-false→ne (fill pi) 0 (sym (empty-eq pi v) ∙ some_left)) in
      rw some_left (record {
        lost = (next pi).0 ∷ [];
        rest = false ∷ dst;
        valid = (next-IsValid pi v h).0;
        queue = contents-next pi v h;
        accepted = refl;
        ended = inr (inr (refl, dst, refl));
      })
]
copy_out-Took (true ∷ dst) pi v = elim (Bool-cases (empty pi)) [
  | inl e ↦ rw e (none_left (true ∷ dst) pi v ((==_iff (fill pi) 0).0 (sym (empty-eq pi v) ∙ e)))
  | inr some_left ↦
      let h : 0 < fill pi =
        omega (arith, ==-false→ne (fill pi) 0 (sym (empty-eq pi v) ∙ some_left)) in
      let r : Took dst (next pi).1 (copy_out dst (next pi).1).0 (copy_out dst (next pi).1).1 =
        copy_out-Took dst (next pi).1 (next-IsValid pi v h).0 in
      rw some_left (record {
        lost = r.lost;
        rest = r.rest;
        valid = r.valid;
        queue = contents-next pi v h ∙ ap (λ (l : List ℕ). (next pi).0 ∷ l) r.queue;
        accepted = ap (λ (l : List Bool). true ∷ l) r.accepted;
        ended = r.ended;
      })
]

-- A call that cannot read yet: it fails if the process is killed, and else it sleeps.
wait_or_fail : (killed : Bool) (pi : Pipe) → Outcome × List ℕ × Pipe
wait_or_fail killed pi = if killed then (Outcome.failed, [], pi) else (Outcome.asleep 0, [], pi)

pub record Waits (killed : Bool) (pi : Pipe) (r : Outcome × List ℕ × Pipe) : Type 0 where
  pub outcome :
      ((killed ≡ true) × (r.0 ≡ Outcome.failed)) ⊎ ((killed ≡ false) × (r.0 ≡ Outcome.asleep 0))
  pub nothing_read : r.1 ≡ []
  pub unchanged : r.2 ≡ pi
  pub drained : fill pi ≡ 0
  pub writer : pi.writeopen ≡ true

wait_or_fail-Waits :
    (killed : Bool) (pi : Pipe)
    → fill pi ≡ 0
    → pi.writeopen ≡ true
    → Waits killed pi (wait_or_fail killed pi)
unfolding wait_or_fail
wait_or_fail-Waits true pi h w = record {
  outcome = inl (refl, refl);
  nothing_read = refl;
  unchanged = refl;
  drained = h;
  writer = w;
}
wait_or_fail-Waits false pi h w = record {
  outcome = inr (refl, refl);
  nothing_read = refl;
  unchanged = refl;
  drained = h;
  writer = w;
}

and_parts : (a b : Bool) → (a && b) ≡ true → (a ≡ true) × (b ≡ true)
and_parts a b h = ground arith

ready_cases : (a b : Bool) → (a && b) ≡ false → (a ≡ false) ⊎ (b ≡ false)
ready_cases a b h = ground arith

-- With bytes in the pipe or the writer gone, `piperead` on a valid pipe takes bytes from the front
-- of the queue, in order, and returns the number of those that `copyout` took; it goes on until it
-- has what was asked for, the pipe is empty, or `copyout` refuses a byte, which is then lost. Else,
-- on an empty pipe that a writer has open, it takes nothing, and fails if the process is killed and
-- sleeps if it is not.
pub piperead-Took :
    (killed : Bool) (dst : List Bool) (pi : Pipe)
    → IsValid pi
    → let (o, out, pi') = piperead killed dst pi in
      (((0 < fill pi) ⊎ (pi.writeopen ≡ false))
        × (o ≡ Outcome.returned (length out))
        × Took dst pi out pi')
      ⊎ Waits killed pi (o, out, pi')
unfolding piperead wait_or_fail
piperead-Took killed dst pi v = elim (Bool-cases (empty pi && pi.writeopen)) [
  | inr ready ↦ rw ready (inl (at_once ready, refl, copy_out-Took dst pi v))
  | inl wait ↦
      let (e, w) = and_parts (empty pi) pi.writeopen wait in
      rw wait
        (inr (wait_or_fail-Waits killed pi ((==_iff (fill pi) 0).0 (sym (empty-eq pi v) ∙ e)) w))
]
  where
    at_once : (empty pi && pi.writeopen) ≡ false → (0 < fill pi) ⊎ (pi.writeopen ≡ false)
    at_once r = elim (ready_cases (empty pi) pi.writeopen r) [
      | inl e ↦ inl (omega (arith, ==-false→ne (fill pi) 0 (sym (empty-eq pi v) ∙ e)))
      | inr w ↦ inr w
    ]
