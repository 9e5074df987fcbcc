-- ===== src/Lifecycle/Wait.antt =====
-- `wait` of kernel/proc.c: what a pass does, and that no exit is missed.
use noy_hadar.Base.{
  ℕ, zero, suc, ◌+◌, ◌≤◌, ◌<◌, if◌then◌else◌, Bool, true, false, ◌&&◌, none, some, ◌≡◌, inl, inr,
  ap, sym, subst, ◌∙◌, arith, Bool-cases, Option-cases, some_inj, none-some, ℕ_discrete,
}
use noy_hadar.Proc.{Proc}
use noy_hadar.Proc.Signals.{}
use noy_hadar.Ptable.{Ptable, nproc, own_chan, is_zombie, find_proc, is_child, sleep}
use noy_hadar.Ptable.Wakeup.{}
use noy_hadar.Lifecycle.{Services, freeproc, Waited, wait_pass}

-- The loop over the table finds a process that passes the test, if there is one.
pub find_proc-some :
    (test : Proc → Bool) (procs : ℕ → Proc) (rounds i to : ℕ) {k : ℕ}
    → i + rounds ≡ to
    → find_proc test procs rounds i ≡ some k
    → (k < to) × (test (procs k) ≡ true)
unfolding find_proc
find_proc-some test procs zero i to e h = absurd (none-some h)
find_proc-some test procs (suc rounds) i to {k} e h = elim (Bool-cases (test (procs i))) [
  | inl hit ↦
      let at : i ≡ k = some_inj (rw (hit, find_proc) at h) in
      (omega arith, ap (λ (m : ℕ). test (procs m)) (sym at) ∙ hit)
  | inr miss ↦ find_proc-some test procs rounds (i + 1) to (omega arith) (rw (miss, find_proc) at h)
]

pub find_proc-none :
    (test : Proc → Bool) (procs : ℕ → Proc) (rounds i j : ℕ)
    → find_proc test procs rounds i ≡ none
    → i ≤ j
    → j < i + rounds
    → test (procs j) ≡ false
unfolding find_proc
find_proc-none test procs zero i j h a b = absurd (omega arith)
find_proc-none test procs (suc rounds) i j h a b = elim (Bool-cases (test (procs i))) [
  | inl hit ↦ absurd (none-some (sym (rw (hit, find_proc) at h)))
  | inr miss ↦ elim (ℕ_discrete i j) [
    | yes e ↦ ap (λ (m : ℕ). test (procs m)) (sym e) ∙ miss
    | no ne ↦
        find_proc-none test procs rounds (i + 1) j (rw (miss, find_proc) at h) (omega arith)
          (omega arith)
  ]
]

module _ {K : Type 0} (s : Services K) where
  -- What a pass of `wait` does.
  pub data Passed (i : ℕ) (t : Ptable K) : Waited × Ptable K → Type 0 where
    reaps :
        (j : ℕ)
        → j < nproc
        → is_child i (t.procs j) ≡ true
        → is_zombie (t.procs j).state ≡ true
        → Passed i t (Waited.reaped (t.procs j).pid, freeproc s j t)
    cannot_copy :
        (j : ℕ)
        → j < nproc
        → is_child i (t.procs j) ≡ true
        → is_zombie (t.procs j).state ≡ true
        → Passed i t (Waited.failed, t)
    childless :
        ((j : ℕ) → j < nproc → is_child i (t.procs j) ≡ false) → Passed i t (Waited.failed, t)
    killed : (t.procs i).killed ≡ true → Passed i t (Waited.failed, t)
    sleeps :
        (j : ℕ)
        → j < nproc
        → is_child i (t.procs j) ≡ true
        → ((a : ℕ)
            → a < nproc
            → is_child i (t.procs a) ≡ true
            → is_zombie (t.procs a).state ≡ false)
        → Passed i t (Waited.asleep, sleep i (own_chan i) t)

  abbrev dead_child : ℕ → Proc → Bool
  dead_child i q = is_child i q && is_zombie q.state

  wait-found :
      (i j : ℕ) (copied : Bool) (t : Ptable K)
      → find_proc (dead_child i) t.procs nproc 0 ≡ some j
      → wait_pass s i copied t
        ≡ (if copied then (Waited.reaped (t.procs j).pid, freeproc s j t) else (Waited.failed, t))
  unfolding wait_pass
  wait-found i j copied t e = rw (e, wait_pass)

  wait-childless :
      (i : ℕ) (copied : Bool) (t : Ptable K)
      → find_proc (dead_child i) t.procs nproc 0 ≡ none
      → find_proc (is_child i) t.procs nproc 0 ≡ none
      → wait_pass s i copied t ≡ (Waited.failed, t)
  unfolding wait_pass
  wait-childless i copied t e f = rw (e, wait_pass, f)

  wait-sleeps :
      (i j : ℕ) (copied : Bool) (t : Ptable K)
      → find_proc (dead_child i) t.procs nproc 0 ≡ none
      → find_proc (is_child i) t.procs nproc 0 ≡ some j
      → wait_pass s i copied t ≡ (
          if (t.procs i).killed
          then (Waited.failed, t)
          else (Waited.asleep, sleep i (own_chan i) t))
  unfolding wait_pass
  wait-sleeps i j copied t e f = rw (e, wait_pass, f)

  and_parts : (a b : Bool) → (a && b) ≡ true → (a ≡ true) × (b ≡ true)
  and_parts a b h = ground arith

  and_false : (a b : Bool) → (a && b) ≡ false → a ≡ true → b ≡ false
  and_false a b h k = ground arith

  -- A pass of `wait` reaps a zombie child and returns its pid, or fails because the status cannot
  -- be copied, there is no child, or the caller is killed; or it sleeps, and then there is a child,
  -- and none is a zombie.
  pub wait_pass-Passed :
      (i : ℕ) (copied : Bool) (t : Ptable K) → Passed i t (wait_pass s i copied t)
  wait_pass-Passed i copied t = elim (Option-cases (find_proc (dead_child i) t.procs nproc 0)) [
    | inr (j, e) ↦
        let (lt, dead) = find_proc-some (dead_child i) t.procs nproc 0 nproc (omega arith) e in
        let (child, z) = and_parts (is_child i (t.procs j)) (is_zombie (t.procs j).state) dead in
        subst (Passed i t) (sym (wait-found i j copied t e)) (elim (Bool-cases copied) [
          | inl ok ↦ rw ok (Passed.reaps j lt child z)
          | inr bad ↦ rw bad (Passed.cannot_copy j lt child z)
        ])
    | inl e ↦ elim (Option-cases (find_proc (is_child i) t.procs nproc 0)) [
      | inl f ↦ subst (Passed i t) (sym (wait-childless i copied t e f)) (
          Passed.childless
            (λ j lt. find_proc-none (is_child i) t.procs nproc 0 j f (omega arith) lt))
      | inr (j, f) ↦
          let (lt, child) = find_proc-some (is_child i) t.procs nproc 0 nproc (omega arith) f in
          subst (Passed i t) (sym (wait-sleeps i j copied t e f))
            (elim (Bool-cases (t.procs i).killed) [
              | inl k ↦ simp k (Passed.killed k)
              | inr k ↦ simp k (
                  Passed.sleeps j lt child (λ a la.
                    and_false (is_child i (t.procs a)) (is_zombie (t.procs a).state)
                      (find_proc-none (dead_child i) t.procs nproc 0 a e (omega arith) la)))
            ])
    ]
  ]
