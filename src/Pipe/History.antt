-- ===== src/Pipe/History.antt =====
-- Readers and writers of one pipe of kernel/pipe.c, interleaved at every sleep and every return.
use noy_hadar.Base.{
  ℕ, zero, suc, ◌+◌, ◌-◌, ◌<◌, Bool, true, false, Option, List, [], ◌∷◌, ◌++◌, length, ◌≡◌, inl,
  inr, refl, ap, ◌∙◌, sym, arith, append-nil, append_assoc, length-append, replicate, take, ◌%◌,
  ◌≤◌, ◌⊎◌, subst,
}
use noy_hadar.Pipe.{Pipe, uint_mod, pipewrite, piperead, pipeclose}
use noy_hadar.Pipe.Ring.{IsValid, contents, length-contents}
use noy_hadar.Pipe.Lossy.{Lossy, Lossy-all-append, Lossy-append, Lossy-zero}
use noy_hadar.Pipe.Stream.{readable, Wrote, pipewrite-Wrote, Took, piperead-Took}

-- The bytes that a call of `pipewrite` added: as many of those that it can read as the counter
-- moved on by.
abbrev pub added_by : Bool → List (Option ℕ) → ℕ → Pipe → List ℕ
added_by killed src i pi =
    take (((pipewrite killed src i pi).1.nwrite + uint_mod - pi.nwrite) % uint_mod) (readable src)

take-prefix : (n : ℕ) (xs ys : List ℕ) → n ≡ length xs → take n (xs ++ ys) ≡ xs
take-prefix zero [] ys e = refl
take-prefix zero (x ∷ xs) ys e = absurd (omega arith)
take-prefix (suc n) [] ys e = absurd (omega arith)
take-prefix (suc n) (x ∷ xs) ys e = ap (λ l. x ∷ l) (take-prefix n xs ys (omega arith))

added_by-eq :
    (killed : Bool) (src : List (Option ℕ)) (i : ℕ) (pi : Pipe)
    → IsValid pi
    → (w : Wrote killed src i pi (pipewrite killed src i pi)) → added_by killed src i pi ≡ w.added
added_by-eq killed src i pi v w = ap (take _) w.prefix ∙ take-prefix _ w.added w.left moved
  where
    moved :
        ((pipewrite killed src i pi).1.nwrite + uint_mod - pi.nwrite) % uint_mod ≡ length w.added
    moved = omega (
      arith,
      w.reader,
      w.valid.read_in,
      w.valid.write_in,
      v.read_in,
      v.write_in,
      w.valid.bounded,
      v.bounded,
      ap length w.queue,
      length-append (contents pi) w.added,
      length-contents pi,
      length-contents (pipewrite killed src i pi).1,
    )

-- 1 if `copyout` refuses one of the bytes that a reader asks for.
abbrev pub refusal : List Bool → ℕ
refusal [] = 0
refusal (false ∷ dst) = 1
refusal (true ∷ dst) = refusal dst

refusal-behind : (n : ℕ) (rest : List Bool) → refusal (replicate n true ++ rest) ≡ refusal rest
refusal-behind zero rest = refl
refusal-behind (suc n) rest = refusal-behind n rest

-- What a call of `piperead` takes from the queue: what it read, and no more than a refused byte.
record Drained (dst : List Bool) (pi : Pipe) (out : List ℕ) (pi' : Pipe) : Type 0 where
  lost : List ℕ
  queue : contents pi ≡ (out ++ lost) ++ contents pi'
  valid : IsValid pi'
  few : length lost ≤ refusal dst

Took-few :
    {dst : List Bool} {pi pi' : Pipe} {out : List ℕ}
    → (t : Took dst pi out pi') → length t.lost ≤ refusal dst
Took-few {dst} {out = out} t = elim t.ended [
  | inl (_, e) ↦ omega (arith, ap length e)
  | inr (inl (_, e)) ↦ omega (arith, ap length e)
  | inr (inr (one, more, e)) ↦
      omega (arith, one, ap refusal t.accepted, refusal-behind (length out) t.rest, ap refusal e)
]

read-Drained :
    (killed : Bool) (dst : List Bool) (pi : Pipe)
    → IsValid pi
    → let (_, out, pi') = piperead killed dst pi in Drained dst pi out pi'
read-Drained killed dst pi v = elim (piperead-Took killed dst pi v) [
  | inl (_, _, t) ↦ record {
    lost = t.lost;
    queue =
        t.queue
        ∙ sym
            (append_assoc (piperead killed dst pi).1 t.lost (contents (piperead killed dst pi).2));
    valid = t.valid;
    few = Took-few t;
  }
  | inr w ↦ record {
    lost = [];
    queue =
        ap contents (sym w.unchanged)
        ∙ ap (λ (l : List ℕ). (l ++ []) ++ contents (piperead killed dst pi).2)
            (sym w.nothing_read);
    valid = subst IsValid (sym w.unchanged) v;
    few = omega arith;
  }
]

closed-IsValid : (writable : Bool) (pi : Pipe) → IsValid pi → IsValid (pipeclose writable pi).1
unfolding pipeclose
closed-IsValid true pi v = record {
  read_in = v.read_in;
  write_in = v.write_in;
  bounded = v.bounded;
}
closed-IsValid false pi v = record {
  read_in = v.read_in;
  write_in = v.write_in;
  bounded = v.bounded;
}

contents-closed : (writable : Bool) (pi : Pipe) → contents (pipeclose writable pi).1 ≡ contents pi
unfolding pipeclose
contents-closed true pi = refl
contents-closed false pi = refl

-- A history of one pipe: what was written to it, what the readers got of it, and how many reads
-- asked for a byte that `copyout` refuses, by any number of writers, readers and closers, each call
-- up to its next sleep or its return.
pub data History : Pipe → List ℕ → List ℕ → ℕ → Pipe → Type 0 where
  opened : (from : Pipe) → History from [] [] 0 from
  wrote :
      {from : Pipe} {ins outs : List ℕ} {refusals : ℕ} {pi : Pipe} (killed : Bool)
      (src : List (Option ℕ)) (i : ℕ)
      → History from ins outs refusals pi
      → History from (ins ++ added_by killed src i pi) outs refusals (pipewrite killed src i pi).1
  read :
      {from : Pipe} {ins outs : List ℕ} {refusals : ℕ} {pi : Pipe} (killed : Bool) (dst : List Bool)
      → History from ins outs refusals pi
      → History from ins
          (outs ++ (piperead killed dst pi).1)
          (refusals + refusal dst)
          (piperead killed dst pi).2
  closed :
      {from : Pipe} {ins outs : List ℕ} {refusals : ℕ} {pi : Pipe} (writable : Bool)
      → History from ins outs refusals pi
      → History from ins outs refusals (pipeclose writable pi).1

-- What the readers took from the queue.
record Streamed (from : Pipe) (ins outs : List ℕ) (refusals : ℕ) (pi : Pipe) : Type 0 where
  taken : List ℕ
  lost : ℕ
  queue : contents from ++ ins ≡ taken ++ contents pi
  order : Lossy taken outs lost
  few : lost ≤ refusals
  valid : IsValid pi

History-Streamed :
    {from pi : Pipe} {ins outs : List ℕ} {refusals : ℕ}
    → IsValid from
    → History from ins outs refusals pi
    → Streamed from ins outs refusals pi
unfolding pipeclose
History-Streamed v (opened from) = record {
  taken = [];
  lost = 0;
  queue = append-nil (contents from);
  order = Lossy.done;
  few = omega arith;
  valid = v;
}
History-Streamed {from} v (wrote {ins = ins} {pi = pi} killed src i h) =
    let x = History-Streamed v h in
    let w : Wrote killed src i pi (pipewrite killed src i pi) =
      pipewrite-Wrote killed src i pi x.valid in
    record {
      taken = x.taken;
      lost = x.lost;
      queue =
          ap (λ (l : List ℕ). contents from ++ (ins ++ l)) (added_by-eq killed src i pi x.valid w)
          ∙ sym (append_assoc (contents from) ins w.added)
          ∙ ap (λ (l : List ℕ). l ++ w.added) x.queue
          ∙ append_assoc x.taken (contents pi) w.added
          ∙ ap (λ (l : List ℕ). x.taken ++ l) (sym w.queue);
      order = x.order;
      few = x.few;
      valid = w.valid;
    }
History-Streamed v (read {pi = pi} killed dst h) =
    let x = History-Streamed v h in
    let d : Drained dst pi (piperead killed dst pi).1 (piperead killed dst pi).2 =
      read-Drained killed dst pi x.valid in
    let out = (piperead killed dst pi).1 in
    record {
      taken = x.taken ++ (out ++ d.lost);
      lost = x.lost + length d.lost;
      queue =
          x.queue
          ∙ ap (λ (l : List ℕ). x.taken ++ l) d.queue
          ∙ sym (append_assoc x.taken (out ++ d.lost) (contents (piperead killed dst pi).2));
      order = Lossy-append x.order (Lossy-all-append out d.lost);
      few = omega (arith, x.few, d.few);
      valid = d.valid;
    }
History-Streamed v (closed {pi = pi} writable h) =
    let x = History-Streamed v h in
    record {
      taken = x.taken;
      lost = x.lost;
      queue = x.queue ∙ ap (λ (l : List ℕ). x.taken ++ l) (sym (contents-closed writable pi));
      order = x.order;
      few = x.few;
      valid = closed-IsValid writable pi x.valid;
    }

-- First in, first out: through any history of a valid pipe, what was in the pipe, and then what was
-- written to it, is what was taken from it, in that order, and then what is in the pipe still; and
-- the pipe stays valid. What was taken is what the readers got, in that order, with lost bytes in
-- between, at most one for each read that asks for a byte that `copyout` refuses; without such a
-- read it is what they got.
pub fifo :
    {from pi : Pipe} {ins outs : List ℕ} {refusals : ℕ}
    → IsValid from
    → History from ins outs refusals pi
    → IsValid pi
      × (taken : List ℕ) × (contents from ++ ins ≡ taken ++ contents pi)
      × (lost : ℕ) × (lost ≤ refusals)
      × Lossy taken outs lost
      × ((0 < refusals) ⊎ (taken ≡ outs))
fifo {refusals = refusals} v h =
    let x = History-Streamed v h in (x.valid, x.taken, x.queue, x.lost, x.few, x.order, whole x)
  where
    whole :
        {from pi : Pipe} {ins outs : List ℕ} {refusals : ℕ}
        → (x : Streamed from ins outs refusals pi) → (0 < refusals) ⊎ (x.taken ≡ outs)
    whole {refusals = zero} x = inr (Lossy-zero x.order (omega (arith, x.few)))
    whole {refusals = suc n} x = inl (omega arith)
