-- ===== src/Log/Reserve.antt =====
-- Reservation of log space in kernel/log.c: file-system calls between `begin_op` and `end_op`,
-- interleaved in any order, each of which logs at most `max_op_blocks` blocks.
use noy_hadar.Base.{
  ℕ, suc, ◌+◌, ◌*◌, ◌≤◌, ◌<◌, Bool, true, some, none, List, [], ◌∷◌, ◌++◌, All, length, ◌≡◌, ◌≢◌,
  refl, ap, ◌∙◌, arith, length-append, All-append,
}
use noy_hadar.Log.{
  Log, log_size, max_op_blocks, begin_op, end_op_start, end_op_finish, commit, log_write, write_log,
  write_head, install_trans, record_block,
}

-- The log, and for each call in progress the number of blocks that it may still log.
pub record Calls : Type 0 where
  pub log : Log
  pub left : List ℕ

-- One critical section of the log's lock, or the commit.
pub data Step : Calls → Calls → Type 0 where
  enter :
      {l l' : Log} {left : List ℕ}
      → begin_op l ≡ some l'
      → Step (record { log = l; left = left }) (record { log = l'; left = max_op_blocks ∷ left })
  write :
      {l l' : Log} (b r : ℕ) (xs ys : List ℕ)
      → log_write b l ≡ some l'
      → Step
          (record { log = l; left = xs ++ suc r ∷ ys })
          (record { log = l'; left = xs ++ r ∷ ys })
  leave :
      {l l' : Log} {last : Bool} (r : ℕ) (xs ys : List ℕ)
      → end_op_start l ≡ some (last, l')
      → Step (record { log = l; left = xs ++ r ∷ ys }) (record { log = l'; left = xs ++ ys })
  finish :
      {l : Log} {left : List ℕ}
      → l.committing ≡ true
      → Step
          (record { log = l; left = left })
          (record { log = end_op_finish (commit l); left = left })

pub data Reach (start : Log) : Calls → Type 0 where
  here : Reach start (record { log = start; left = [] })
  next : {s t : Calls} → Reach start s → Step s t → Reach start t

sum : List ℕ → ℕ
sum [] = 0
sum (x ∷ xs) = x + sum xs

sum-append : (xs ys : List ℕ) → sum (xs ++ ys) ≡ sum xs + sum ys
unfolding sum
sum-append [] ys = omega arith
sum-append (x ∷ xs) ys = omega (arith, sum-append xs ys)

sum-le : (m : ℕ) (xs : List ℕ) → All (λ r. r ≤ m) xs → sum xs ≤ m * length xs
unfolding sum
sum-le m [] h = omega arith
sum-le m (x ∷ xs) h = omega (arith, sum-le m xs h.1)

All-split {ℓ κ} :
    {A : Type ℓ} (P : A → Type κ) (xs ys : List A) (x : A)
    → All P (xs ++ x ∷ ys)
    → All P xs × P x × All P ys
All-split P [] ys x h = (tt, h.0, h.1)
All-split P (y ∷ xs) ys x h = let (a, b, c) = All-split P xs ys x h.1 in ((h.0, a), b, c)

-- Space is reserved for all that the calls in progress may still log.
record Reserved (s : Calls) : Type 0 where
  room : s.log.n + sum s.left ≤ log_size
  each : All (λ r. r ≤ max_op_blocks) s.left
  counted : s.log.outstanding ≡ length s.left
  alone : s.log.committing ≡ true → length s.left ≡ 0
  size : log_size < s.log.size

-- `commit` changes only the header, the buffers and the disk.
commit_fields :
    (l : Log)
    → ((commit l).n ≡ 0)
      × ((commit l).outstanding ≡ l.outstanding)
      × ((commit l).size ≡ l.size)
      × ((commit l).start ≡ l.start)
unfolding commit write_log write_head install_trans
commit_fields l = ground arith

Step-Reserved : {s t : Calls} → Step s t → Reserved s → Reserved t
unfolding sum begin_op log_write record_block end_op_start end_op_finish
Step-Reserved (enter {l} {l'} {left} e) v = record {
  room = ground (arith, sum-le 10 left);
  each = (omega arith, v.each);
  counted = ground arith;
  alone = ground arith;
  size = ground arith;
}
Step-Reserved (write {l} {l'} b r xs ys e) v = record {
  room = ground (arith, sum-append xs (suc r ∷ ys), sum-append xs (r ∷ ys));
  each =
      let (a, m, c) = All-split _ xs ys (suc r) v.each in
      All-append _ xs (r ∷ ys) a (omega arith, c);
  counted = ground (arith, length-append xs (suc r ∷ ys), length-append xs (r ∷ ys));
  alone = ground (arith, length-append xs (suc r ∷ ys), length-append xs (r ∷ ys));
  size = ground arith;
}
Step-Reserved (leave {l} {l'} {last} r xs ys e) v = record {
  room = ground (arith, sum-append xs (r ∷ ys), sum-append xs ys);
  each = let (a, _, c) = All-split _ xs ys r v.each in All-append _ xs ys a c;
  counted = ground (arith, length-append xs (r ∷ ys), length-append xs ys);
  alone = ground (arith, length-append xs (r ∷ ys), length-append xs ys);
  size = ground arith;
}
Step-Reserved (finish {l} {left} e) v = record {
  room = ground (arith, commit_fields l, v.room);
  each = v.each;
  counted = ground (arith, commit_fields l);
  alone = λ q. v.alone e;
  size = ground (arith, commit_fields l);
}

Reach-Reserved :
    {start : Log} {s : Calls}
    → start.n ≡ 0
    → start.outstanding ≡ 0
    → log_size < start.size
    → Reach start s
    → Reserved s
unfolding sum
Reach-Reserved empty idle room here = record {
  room = omega arith;
  each = tt;
  counted = omega arith;
  alone = λ _. refl;
  size = room;
}
Reach-Reserved empty idle room (next r st) = Step-Reserved st (Reach-Reserved empty idle room r)

ends :
    {s : Calls} (r : ℕ) (xs ys : List ℕ)
    → Reserved s
    → sum s.left ≡ sum xs + sum (r ∷ ys)
    → length s.left ≡ length xs + length (r ∷ ys)
    → (0 < r → (b : ℕ) → log_write b s.log ≢ none) × (end_op_start s.log ≢ none)
unfolding sum log_write end_op_start
ends {s} r xs ys v total many =
    (λ pos b q. ground (arith, v.room, v.counted, v.size), λ q. ground (arith, v.alone, v.counted))

-- However file-system calls interleave, started from an empty log of more than `log_size` blocks
-- with no call in progress: a call that has logged fewer than `max_op_blocks` blocks logs another
-- without a panic, and a call that ends does not panic.
pub calls_never_panic :
    {start : Log} {s : Calls}
    → start.n ≡ 0
    → start.outstanding ≡ 0
    → log_size < start.size
    → Reach start s
    → (r : ℕ) (xs ys : List ℕ) → s.left ≡ xs ++ r ∷ ys
    → (0 < r → (b : ℕ) → log_write b s.log ≢ none) × (end_op_start s.log ≢ none)
calls_never_panic {start} {s} empty idle room reach r xs ys e =
    ends r xs ys (Reach-Reserved empty idle room reach) (ap sum e ∙ sum-append xs (r ∷ ys))
      (ap length e ∙ length-append xs (r ∷ ys))
