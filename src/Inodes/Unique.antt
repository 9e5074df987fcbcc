-- ===== src/Inodes/Unique.antt =====
-- The references of the inode table of kernel/fs.c, over any sequence of calls.
use noy_hadar.Base.{
  ℕ, zero, suc, ◌+◌, ◌<◌, ◌==◌, ltb, Bool, true, false, ◌&&◌, Option, none, some, ◌≡◌, inl, inr,
  refl, ap, sym, subst, ◌∙◌, arith, Bool-cases, none-some, ℕ_discrete,
}
use noy_hadar.Vm.{Run}
use noy_hadar.Fs.{Inode, Fs}
use noy_hadar.Inodes.{ninode, set_inode, Scan, remember, iget_from, iget, idup, drop_ref}

abbrev pub holds : ℕ → ℕ → Inode → Bool
holds dev inum ip = ltb 0 ip.ref && (ip.dev == dev && ip.inum == inum)

-- How the loop of `iget` ends.
data Scanned (dev inum : ℕ) (itable : ℕ → Inode) (to : ℕ) : Scan → Type 0 where
  found :
      (i : ℕ) → i < to → holds dev inum (itable i) ≡ true → Scanned dev inum itable to (Scan.hit i)
  full : Scanned dev inum itable to (Scan.miss none)
  free :
      (i : ℕ)
      → i < to
      → (itable i).ref ≡ 0
      → ((j : ℕ) → j < to → holds dev inum (itable j) ≡ false)
      → Scanned dev inum itable to (Scan.miss (some i))

iget_from-Scanned :
    (rounds i : ℕ) (empty : Option ℕ) (dev inum : ℕ) (itable : ℕ → Inode) (to : ℕ)
    → i + rounds ≡ to
    → ((e : ℕ) → empty ≡ some e → (e < to) × ((itable e).ref ≡ 0))
    → ((j : ℕ) → j < i → holds dev inum (itable j) ≡ false)
    → Scanned dev inum itable to (iget_from rounds i empty dev inum itable)
unfolding iget_from
iget_from-Scanned zero i none dev inum itable to ends free_one before = Scanned.full
iget_from-Scanned zero i (some k) dev inum itable to ends free_one before =
    let (lt, z) = free_one k refl in Scanned.free k lt z (λ j lj. before j (omega arith))
iget_from-Scanned (suc rounds) i empty dev inum itable to ends free_one before =
    elim (Bool-cases (holds dev inum (itable i))) [
      | inl yes_ ↦ rw yes_ (Scanned.found i (omega arith) yes_)
      | inr no_ ↦ rw no_ (
          iget_from-Scanned rounds (i + 1) (remember empty (itable i).ref i) dev inum itable to
            (omega arith) (kept empty free_one)
            (λ j lj. elim (ℕ_discrete i j) [
              | yes q ↦ ap (λ (m : ℕ). holds dev inum (itable m)) (sym q) ∙ no_
              | no q ↦ before j (omega arith)
            ]))
    ]
  where
    kept :
        (o : Option ℕ)
        → ((e : ℕ) → o ≡ some e → (e < to) × ((itable e).ref ≡ 0))
        → (e : ℕ) → remember o (itable i).ref i ≡ some e
        → (e < to) × ((itable e).ref ≡ 0)
    kept (some k) f e h = f e h
    kept none f k h = ground (arith, ends)

-- What `iget` did.
pub data Got (dev inum : ℕ) (fs : Fs) : Run (ℕ × Fs) → Type 0 where
  again :
      (i : ℕ)
      → i < ninode
      → holds dev inum (fs.itable i) ≡ true
      → Got dev inum fs (Run.returned (i, idup i fs))
  fresh :
      (i : ℕ)
      → i < ninode
      → (fs.itable i).ref ≡ 0
      → ((j : ℕ) → j < ninode → holds dev inum (fs.itable j) ≡ false)
      → Got dev inum fs (
          Run.returned (
            i,
            set_inode i
                (record (fs.itable i) { dev = dev; inum = inum; ref = 1; valid = false })
                fs,
          ))
  full : Got dev inum fs Run.panic

iget-Got : (dev inum : ℕ) (fs : Fs) → Got dev inum fs (iget dev inum fs)
unfolding iget idup
iget-Got dev inum fs = go (iget_from ninode 0 none dev inum fs.itable) (
    iget_from-Scanned ninode 0 none dev inum fs.itable ninode refl (λ e h. absurd (none-some h))
      (λ j lt. absurd (omega arith)))
  where
    ending : Scan → Run (ℕ × Fs)
    ending r = elim r [
      | Scan.hit i ↦
          Run.returned (i, set_inode i (record (fs.itable i) { ref = (fs.itable i).ref + 1 }) fs)
      | Scan.miss none ↦ Run.panic
      | Scan.miss (some i) ↦ Run.returned (
        i,
        set_inode i (record (fs.itable i) { dev = dev; inum = inum; ref = 1; valid = false }) fs,
      )
    ]

    go : (r : Scan) → Scanned dev inum fs.itable ninode r → Got dev inum fs (ending r)
    go _ (Scanned.found i lt h) = Got.again i lt h
    go _ Scanned.full = Got.full
    go _ (Scanned.free i lt z h) = Got.fresh i lt z h

-- At most one slot of the table is in use for each inode.
record IsUnique (fs : Fs) : Type 0 where
  one :
      (dev inum i j : ℕ)
      → i < ninode
      → j < ninode
      → holds dev inum (fs.itable i) ≡ true
      → holds dev inum (fs.itable j) ≡ true
      → i ≡ j

idup-IsUnique : (i : ℕ) (fs : Fs) → 0 < (fs.itable i).ref → IsUnique fs → IsUnique (idup i fs)
unfolding idup
idup-IsUnique i fs lt v = record {
  one = λ dev inum a b la lb h h'. ground (arith, v.one dev inum a b la lb);
}

drop_ref-IsUnique : (i : ℕ) (fs : Fs) → IsUnique fs → IsUnique (drop_ref i fs)
unfolding drop_ref
drop_ref-IsUnique i fs v = record {
  one = λ dev inum a b la lb h h'. ground (arith, v.one dev inum a b la lb);
}

fresh-IsUnique :
    (dev inum i : ℕ) (fs : Fs)
    → ((j : ℕ) → j < ninode → holds dev inum (fs.itable j) ≡ false)
    → IsUnique fs
    → IsUnique
        (set_inode i (record (fs.itable i) { dev = dev; inum = inum; ref = 1; valid = false }) fs)
fresh-IsUnique dev inum i fs none_held v = record {
  one = λ d n a b la lb h h'. ground (arith, v.one d n a b la lb, none_held a la, none_held b lb);
}

idup-holds :
    (i : ℕ) (fs : Fs) (dev inum : ℕ) → holds dev inum (fs.itable i) ≡ true → 0 < (fs.itable i).ref
idup-holds i fs dev inum h = ground arith

-- A call of `iget`, `idup` of an inode that is referred to, the end of `iput`, or anything that
-- changes no reference.
pub data Step (fs : Fs) : Fs → Type 0 where
  gets : {fs' : Fs} (dev inum i : ℕ) → iget dev inum fs ≡ Run.returned (i, fs') → Step fs fs'
  dups : (i : ℕ) → 0 < (fs.itable i).ref → Step fs (idup i fs)
  drops : (i : ℕ) → 0 < (fs.itable i).ref → Step fs (drop_ref i fs)
  elsewhere :
      (fs' : Fs)
      → ((i : ℕ)
          → ((fs'.itable i).ref ≡ (fs.itable i).ref)
            × ((fs'.itable i).dev ≡ (fs.itable i).dev)
            × ((fs'.itable i).inum ≡ (fs.itable i).inum))
      → Step fs fs'

pub data Reach (start : Fs) : Fs → Type 0 where
  here : Reach start start
  next : {fs fs' : Fs} → Reach start fs → Step fs fs' → Reach start fs'

got-IsUnique :
    (dev inum : ℕ) (fs : Fs) {i : ℕ} {fs' : Fs}
    → Got dev inum fs (Run.returned (i, fs'))
    → IsUnique fs
    → IsUnique fs'
got-IsUnique dev inum fs (Got.again i lt h) v = idup-IsUnique i fs (idup-holds i fs dev inum h) v
got-IsUnique dev inum fs (Got.fresh i lt z h) v = fresh-IsUnique dev inum i fs h v

Step-IsUnique : {fs fs' : Fs} → Step fs fs' → IsUnique fs → IsUnique fs'
Step-IsUnique {fs} (Step.gets dev inum i e) v =
    got-IsUnique dev inum fs (subst (Got dev inum fs) e (iget-Got dev inum fs)) v
Step-IsUnique {fs} (Step.dups i lt) v = idup-IsUnique i fs lt v
Step-IsUnique {fs} (Step.drops i lt) v = drop_ref-IsUnique i fs v
Step-IsUnique {fs} (Step.elsewhere fs' same) v = record {
  one = λ d n a b la lb h h'. ground (arith, v.one d n a b la lb, same a, same b);
}

Reach-IsUnique : {start fs : Fs} → Reach start fs → IsUnique start → IsUnique fs
Reach-IsUnique Reach.here v = v
Reach-IsUnique (Reach.next r st) v = Step-IsUnique st (Reach-IsUnique r v)

got_held :
    (dev inum : ℕ) (fs : Fs) {i : ℕ} {fs' : Fs}
    → Got dev inum fs (Run.returned (i, fs'))
    → (i < ninode)
      × ((j : ℕ) → j < ninode → holds dev inum (fs.itable j) ≡ true → IsUnique fs → i ≡ j)
got_held dev inum fs (Got.again i lt h) = (lt, λ j lj h' v. v.one dev inum i j lt lj h h')
got_held dev inum fs (Got.fresh i lt z h) = (lt, λ j lj h' v. absurd (cc (h j lj, h')))

-- From a table with no references, whatever the calls: at most one slot stands for an inode, and
-- while a slot is held for it, `iget` returns that slot.
pub one_inode :
    {start fs : Fs} (dev inum : ℕ)
    → ((i : ℕ) → (start.itable i).ref ≡ 0)
    → Reach start fs
    → ((i j : ℕ)
        → i < ninode
        → j < ninode
        → holds dev inum (fs.itable i) ≡ true
        → holds dev inum (fs.itable j) ≡ true
        → i ≡ j)
      × ((i j : ℕ) (fs' : Fs)
          → j < ninode
          → holds dev inum (fs.itable j) ≡ true
          → iget dev inum fs ≡ Run.returned (i, fs')
          → i ≡ j)
one_inode {start} {fs} dev inum boot r =
    let v = Reach-IsUnique r (record { one = λ d n a b la lb h h'. ground (arith, boot a) }) in
    (
      v.one dev inum,
      λ i j fs' lj h e.
          (got_held dev inum fs (subst (Got dev inum fs) e (iget-Got dev inum fs))).1 j lj h v,
    )
