-- ===== src/Bcache.antt =====
-- The list of buffers of kernel/bio.c, in the order of their last use, under the lock of the cache.
-- A buffer is its index in `bcache.buf`. The contents of buffers are in `Disk`; their sleep locks
-- are left out, but for the test of `brelse`, which is an argument.
pub mod Find
pub mod Get
pub mod Unique
mod Tests
use noy_hadar.Base.{
  ℕ, zero, suc, ◌+◌, ◌-◌, ◌^◌, ◌%◌, ◌==◌, if◌then◌else◌, Bool, true, false, ◌&&◌, Option, none,
  some, List, [], ◌∷◌, update,
}

-- `struct buf`, but for its lock, its links and its data.
pub record Buf : Type 0 where
  pub valid : Bool
  pub dev : ℕ
  pub blockno : ℕ
  pub refcnt : ℕ

-- `bcache`: the buffers, and their indices from `head.next` to `head.prev`.
pub record Bcache : Type 0 where
  pub buf : ℕ → Buf
  pub order : List ℕ

abbrev pub nbuf : ℕ
nbuf = 30

-- The loop of `binit` puts each buffer before those that it has linked already.
pub linked : ℕ → List ℕ
linked zero = []
linked (suc n) = n ∷ linked n

-- The buffers are all zero when the kernel starts.
pub binit : Bcache
unfolding linked
binit = record {
  buf = λ _. record { valid = false; dev = 0; blockno = 0; refcnt = 0 };
  order = linked nbuf;
}

-- The loops of `bget`: the first and the last buffer of a list that passes a test.
pub find_first : (Buf → Bool) → (ℕ → Buf) → List ℕ → Option ℕ
find_first test buf [] = none
find_first test buf (k ∷ ks) = elim (test (buf k)) [
  | true ↦ some k
  | false ↦ find_first test buf ks
]

pub find_last : (Buf → Bool) → (ℕ → Buf) → List ℕ → Option ℕ
find_last test buf [] = none
find_last test buf (k ∷ ks) = elim (find_last test buf ks) [
  | some j ↦ some j
  | none ↦ if test (buf k) then some k else none
]

pub add_ref : ℕ → Bcache → Bcache
add_ref k c = record c { buf = update c.buf k (record (c.buf k) { refcnt = (c.buf k).refcnt + 1 }) }

pub recycle : ℕ → ℕ → ℕ → Bcache → Bcache
recycle dev blockno k c = record c {
  buf = update c.buf k (record { valid = false; dev = dev; blockno = blockno; refcnt = 1 });
}

pub is_cached : ℕ → ℕ → Buf → Bool
is_cached dev blockno b = b.dev == dev && b.blockno == blockno

-- `bget`; `none` is the panic.
pub bget : ℕ → ℕ → Bcache → Option (ℕ × Bcache)
unfolding find_first find_last add_ref recycle is_cached
bget dev blockno c = elim (find_first (is_cached dev blockno) c.buf c.order) [
  | some k ↦ some (k, add_ref k c)
  | none ↦ elim (find_last (λ b. b.refcnt == 0) c.buf c.order) [
    | some k ↦ some (k, recycle dev blockno k c)
    | none ↦ none
  ]
]

-- A buffer leaves its place in the list.
pub unlink : ℕ → List ℕ → List ℕ
unlink k [] = []
unlink k (j ∷ ks) = let rest = unlink k ks in if j == k then ks else j ∷ rest

-- `b->refcnt--` of an unsigned number.
pub drop_ref : ℕ → Bcache → Bcache
drop_ref k c = record c {
  buf = update c.buf k (record (c.buf k) { refcnt = ((c.buf k).refcnt + 2 ^ 32 - 1) % 2 ^ 32 });
}

-- `brelse`, with whether the process holds the buffer; `none` is the panic.
pub brelse : Bool → ℕ → Bcache → Option Bcache
unfolding unlink drop_ref
brelse holding k c =
    let c1 = drop_ref k c in
    if holding
    then some (if (c1.buf k).refcnt == 0 then record c1 { order = k ∷ unlink k c1.order } else c1)
    else none

pub bpin : ℕ → Bcache → Bcache
unfolding add_ref
bpin k c = add_ref k c

pub bunpin : ℕ → Bcache → Bcache
unfolding drop_ref
bunpin k c = drop_ref k c
