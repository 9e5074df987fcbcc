-- ===== src/Ptable/Wakeup.antt =====
-- No wake-up is lost: a parent that sleeps in `wait` of kernel/proc.c has no zombie child.
use noy_hadar.Base.{
  ℕ, zero, suc, ◌+◌, ◌<◌, ◌==◌, if◌then◌else◌, Bool, true, false, ◌&&◌, some, ◌≡◌, ◌≢◌, inl, inr,
  ◌∙◌, arith, Bool-cases, Option-cases,
}
use noy_hadar.Proc.{Proc, ProcState}
use noy_hadar.Ptable.{
  Ptable, nproc, own_chan, is_sleeping, is_zombie, is_child, set_proc, wakeup, reparent_from,
  reparent, wake_parent, exit_finish,
}

-- Process `i` sleeps in `wait`.
abbrev pub waits : ℕ → Proc → Bool
waits i p = is_sleeping p.state && p.chan == own_chan i

module _ {K : Type 0} where
  pub record NoneLost (t : Ptable K) : Type 0 where
    pub kept :
        (i j : ℕ)
        → j < nproc
        → waits i (t.procs i) ≡ true
        → is_child i (t.procs j) ≡ true
        → is_zombie (t.procs j).state ≡ false

  -- A process may change as long as it neither goes to `wait`, nor becomes a zombie, nor gets a
  -- parent.
  pub harmless :
      (k : ℕ) (p : Proc) (t : Ptable K)
      → (waits k p ≡ true → waits k (t.procs k) ≡ true)
      → (is_zombie p.state ≡ true → is_zombie (t.procs k).state ≡ true)
      → ((i : ℕ) → is_child i p ≡ true → is_child i (t.procs k) ≡ true)
      → NoneLost t
      → NoneLost (set_proc k p t)
  unfolding is_child
  harmless k p t w z c v = record { kept = λ i j lt h h'. ground (arith, v.kept i j, w, z, c i) }

  pub wakeup-NoneLost : (i chan : ℕ) (t : Ptable K) → NoneLost t → NoneLost (wakeup i chan t)
  unfolding wakeup is_child
  wakeup-NoneLost i chan t v = record { kept = λ a b lt h h'. ground (arith, v.kept a b) }

  -- The new parent of a child is woken.
  adopt-NoneLost :
      (i j init : ℕ) (t : Ptable K)
      → i ≢ init
      → NoneLost t
      → NoneLost
          (wakeup i (own_chan init) (set_proc j (record (t.procs j) { parent = some init }) t))
  unfolding wakeup is_child
  adopt-NoneLost i j init t ne v = record { kept = λ a b lt h h'. ground (arith, v.kept a b) }

  round_init :
      (i j : ℕ) (t : Ptable K)
      → (if is_child i (t.procs j)
          then wakeup i
              (own_chan t.initproc)
              (set_proc j (record (t.procs j) { parent = some t.initproc }) t)
          else t).initproc
        ≡ t.initproc
  unfolding wakeup is_child
  round_init i j t = ground arith

  reparent_from-NoneLost :
      (rounds j i : ℕ) (t : Ptable K)
      → i ≢ t.initproc
      → NoneLost t
      → NoneLost (reparent_from rounds j i t)
  unfolding reparent_from
  reparent_from-NoneLost zero j i t ne v = v
  reparent_from-NoneLost (suc rounds) j i t ne v =
      reparent_from-NoneLost rounds (j + 1) i _ (λ q. ne (q ∙ round_init i j t))
        (elim (Bool-cases (is_child i (t.procs j))) [
          | inl yes_child ↦ simp yes_child (adopt-NoneLost i j t.initproc t ne v)
          | inr not_child ↦ simp not_child v
        ])

  wake_parent-NoneLost : (i : ℕ) (t : Ptable K) → NoneLost t → NoneLost (wake_parent i t)
  unfolding wake_parent
  wake_parent-NoneLost i t v = elim (Option-cases (t.procs i).parent) [
    | inl e ↦ rw (e, wake_parent) (wakeup-NoneLost i 0 t v)
    | inr (j, e) ↦ rw (e, wake_parent) (wakeup-NoneLost i (own_chan j) t v)
  ]

  parent_awake :
      (i a : ℕ) (t : Ptable K)
      → a ≢ i
      → is_child a ((wake_parent i t).procs i) ≡ true
      → waits a ((wake_parent i t).procs a) ≡ false
  unfolding wake_parent wakeup is_child
  parent_awake i a t ne h = ground arith

  zombie-NoneLost :
      (i status : ℕ) (t : Ptable K)
      → ((a : ℕ) → a ≢ i → is_child a (t.procs i) ≡ true → waits a (t.procs a) ≡ false)
      → NoneLost t
      → NoneLost (set_proc i (record (t.procs i) { xstate = status; state = ProcState.zombie }) t)
  unfolding is_child
  zombie-NoneLost i status t awake v = record {
    kept = λ a b lt h h'. ground (arith, v.kept a b, awake a);
  }

  pub exit_finish-NoneLost :
      (i status : ℕ) (t : Ptable K)
      → i ≢ t.initproc
      → NoneLost t
      → NoneLost (exit_finish i status t)
  unfolding exit_finish reparent
  exit_finish-NoneLost i status t ne v =
      let t1 : Ptable K = reparent i t in
      zombie-NoneLost i status (wake_parent i t1) (λ a. parent_awake i a t1)
        (wake_parent-NoneLost i t1 (reparent_from-NoneLost nproc 0 i t ne v))
