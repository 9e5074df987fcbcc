-- ===== src/Ptable/Orphans.antt =====
-- `reparent` and `exit` of kernel/proc.c leave no child behind.
use noy_hadar.Base.{
  ℕ, zero, suc, ◌+◌, ◌≤◌, ◌<◌, if◌then◌else◌, true, false, Option, some, ◌≡◌, ◌≢◌, ◌⊎◌, inl, refl,
  sym, subst, ◌∙◌, arith, ℕ_discrete,
}
use noy_hadar.Proc.{ProcState}
use noy_hadar.Ptable.{
  Ptable, nproc, own_chan, is_zombie, is_child, wake_one, set_proc, wakeup, reparent_from, reparent,
  wake_parent, exit_finish,
}

module _ {K : Type 0} where
  abbrev round : ℕ → ℕ → Ptable K → Ptable K
  round j i t =
      if is_child i (t.procs j)
      then wakeup i (own_chan t.initproc)
          (set_proc j (record (t.procs j) { parent = some t.initproc }) t)
      else t

  -- The parent that process `a` gets from process `i`.
  abbrev pub heir : ℕ → ℕ → Ptable K → Option ℕ
  heir i a t = if is_child i (t.procs a) then some t.initproc else (t.procs a).parent

  round_self : (j i : ℕ) (t : Ptable K) → ((round j i t).procs j).parent ≡ heir i j t
  unfolding wakeup wake_one is_child
  round_self j i t = ground arith

  round-other :
      (j i a : ℕ) (t : Ptable K) → a ≢ j → ((round j i t).procs a).parent ≡ (t.procs a).parent
  unfolding wakeup wake_one is_child
  round-other j i a t ne = ground arith

  round-initproc : (j i : ℕ) (t : Ptable K) → (round j i t).initproc ≡ t.initproc
  unfolding wakeup wake_one is_child
  round-initproc j i t = ground arith

  heir-eq :
      (i a : ℕ) (t u : Ptable K)
      → (u.procs a).parent ≡ (t.procs a).parent
      → u.initproc ≡ t.initproc
      → heir i a u ≡ heir i a t
  unfolding is_child
  heir-eq i a t u e f = ground arith

  heir-not_child :
      (i a : ℕ) (t u : Ptable K)
      → i ≢ t.initproc
      → (u.procs a).parent ≡ heir i a t
      → is_child i (u.procs a) ≡ false
  unfolding is_child
  heir-not_child i a t u ne e = ground arith

  reparent_from-parents :
      (rounds j i a : ℕ) (t : Ptable K)
      → (j ≤ a → a < j + rounds → ((reparent_from rounds j i t).procs a).parent ≡ heir i a t)
        × ((a < j) ⊎ (j + rounds ≤ a)
            → ((reparent_from rounds j i t).procs a).parent ≡ (t.procs a).parent)
        × ((reparent_from rounds j i t).initproc ≡ t.initproc)
  unfolding reparent_from
  reparent_from-parents zero j i a t = (λ h h'. absurd (omega arith), λ h. refl, refl)
  reparent_from-parents (suc rounds) j i a t =
      let (inside, outside, init) = reparent_from-parents rounds (j + 1) i a (round j i t) in
      (
        λ h h'. elim (ℕ_discrete a j) [
          | yes e ↦
              outside (inl (omega arith))
              ∙ subst (λ (x : ℕ). ((round j i t).procs x).parent ≡ heir i x t) (sym e)
                  (round_self j i t)
          | no ne ↦
              inside (omega arith) (omega arith)
              ∙ heir-eq i a t (round j i t) (round-other j i a t ne) (round-initproc j i t)
        ],
        λ h. outside (omega arith) ∙ round-other j i a t (λ q. omega arith),
        init ∙ round-initproc j i t,
      )

  wake_keeps : (i a : ℕ) (t : Ptable K) → ((wake_parent i t).procs a).parent ≡ (t.procs a).parent
  unfolding wake_parent wakeup wake_one
  wake_keeps i a t = ground arith

  zombie_keeps :
      (i status a : ℕ) (t : Ptable K)
      → ((set_proc i (record (t.procs i) { xstate = status; state = ProcState.zombie }) t).procs
          a).parent
        ≡ (t.procs a).parent
  zombie_keeps i status a t = ground arith

  exit_keeps :
      (i status a : ℕ) (t : Ptable K)
      → ((exit_finish i status t).procs a).parent ≡ ((reparent i t).procs a).parent
  unfolding exit_finish
  exit_keeps i status a t =
      zombie_keeps i status a (wake_parent i (reparent i t)) ∙ wake_keeps i a (reparent i t)

  exit_ends :
      (i status : ℕ) (t : Ptable K)
      → (is_zombie ((exit_finish i status t).procs i).state ≡ true)
        × (((exit_finish i status t).procs i).xstate ≡ status)
  unfolding exit_finish wake_parent wakeup wake_one
  exit_ends i status t = (ground arith, ground arith)

  -- A process other than init that exits leaves no child behind: its children get init as their
  -- parent, all other processes keep theirs, and it is a zombie with its status.
  pub exit_finish-parents :
      (i status : ℕ) (t : Ptable K)
      → i ≢ t.initproc
      → ((a : ℕ) → a < nproc → ((exit_finish i status t).procs a).parent ≡ heir i a t)
        × ((a : ℕ) → a < nproc → is_child i ((exit_finish i status t).procs a) ≡ false)
        × (is_zombie ((exit_finish i status t).procs i).state ≡ true)
        × (((exit_finish i status t).procs i).xstate ≡ status)
  unfolding reparent
  exit_finish-parents i status t ne =
      let parents : (a : ℕ) → a < nproc → ((exit_finish i status t).procs a).parent ≡ heir i a t =
        λ a lt.
          exit_keeps i status a t ∙ (reparent_from-parents nproc 0 i a t).0 (omega arith) lt in
      (
        parents,
        λ a lt. heir-not_child i a t (exit_finish i status t) ne (parents a lt),
        (exit_ends i status t).0,
        (exit_ends i status t).1,
      )
