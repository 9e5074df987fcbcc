-- ===== src/Lifecycle/Steps.antt =====
-- Processes of kernel/proc.c that fork, exit, wait, sleep and wake one another, interleaved at each
-- release of their locks.
use noy_hadar.Base.{
  ◌==◌, if◌then◌else◌, ℕ, ◌<◌, if◌then◌else◌, Bool, true, false, Option, none, some, update_ne, ◌≡◌,
  ◌≢◌, ◌⊎◌, inl, inr, refl, ap, sym, subst, ◌∙◌, arith, Bool-cases, Option-cases, some_inj,
  none-some, ℕ_discrete,
}
use noy_hadar.Proc.{Proc, ProcState}
use noy_hadar.Proc.Signals.{post}
use noy_hadar.Ptable.{
  Ptable, nproc, is_unused, is_running, is_zombie, find_proc, is_child, set_proc, wakeup, sleep,
  slept, schedule, yield_cpu, exit_finish,
}
use noy_hadar.Ptable.Wakeup.{NoneLost, waits, wakeup-NoneLost, exit_finish-NoneLost}
use noy_hadar.Lifecycle.{
  claim_slot, set_frame, set_table, add_backup, add_table, add_frame, or_null, Services, freeproc,
  clear_signals, init_proc, allocproc, copy_proc, fork_copy, fork_start, fork_adopt, fork_finish,
  exit_start, Waited, wait_pass, userinit, userinit_in, first_proc, growproc,
}
use noy_hadar.Lifecycle.Wait.{find_proc-some, Passed, wait_pass-Passed}

module _ {K : Type 0} (s : Services K) where
  -- What a process does between two moments at which it holds no lock, or holds `wait_lock` only
  -- at its end. A process in `fork` has a child that is used and not yet runnable.
  pub data Step (t : Ptable K) : Ptable K → Type 0 where
    forks : (i : ℕ) → is_running (t.procs i).state ≡ true → Step t (fork_start s i t).1
    adopts :
        (i j : ℕ)
        → is_running (t.procs i).state ≡ true
        → (t.procs j).state ≡ ProcState.used
        → Step t (fork_adopt i j t)
    starts : (j : ℕ) → (t.procs j).state ≡ ProcState.used → Step t (fork_finish j t).1
    closes :
        {t' : Ptable K} (i : ℕ)
        → is_running (t.procs i).state ≡ true
        → exit_start s i t ≡ some t'
        → Step t t'
    exits :
        (i status : ℕ)
        → is_running (t.procs i).state ≡ true
        → i ≢ t.initproc
        → Step t (exit_finish i status t)
    passes :
        (i : ℕ) (copied : Bool)
        → is_running (t.procs i).state ≡ true
        → Step t (wait_pass s i copied t).1
    sleeps :
        (i chan : ℕ)
        → i < nproc
        → is_running (t.procs i).state ≡ true
        → nproc < chan
        → Step t (sleep i chan t)
    back : (i : ℕ) → is_running (t.procs i).state ≡ true → Step t (slept i t)
    wakes : (i chan : ℕ) → is_running (t.procs i).state ≡ true → Step t (wakeup i chan t)
    scheduled : {t' : Ptable K} (i : ℕ) → schedule i t ≡ some t' → Step t t'
    yields : (i : ℕ) → is_running (t.procs i).state ≡ true → Step t (yield_cpu i t)
    grows : (i n : ℕ) → is_running (t.procs i).state ≡ true → Step t (growproc s i n t).1
    killed : (signum i : ℕ) → Step t (set_proc i (post signum (t.procs i)) t)
    elsewhere : (k : K) → Step t (record t { kernel = k })

  pub data Reach (start : Ptable K) : Ptable K → Type 0 where
    here : Reach start start
    next : {t u : Ptable K} → Reach start t → Step t u → Reach start u

  -- The table differs at one process only, which gets no parent, no zombie and no waiter there.
  record Harmless (k : ℕ) (t t' : Ptable K) : Type 0 where
    others : (a : ℕ) → a ≢ k → t'.procs a ≡ t.procs a
    no_wait : waits k (t'.procs k) ≡ true → waits k (t.procs k) ≡ true
    no_zombie : is_zombie (t'.procs k).state ≡ true → is_zombie (t.procs k).state ≡ true
    no_parent : (i : ℕ) → is_child i (t'.procs k) ≡ true → is_child i (t.procs k) ≡ true

  Harmless-NoneLost : (k : ℕ) {t t' : Ptable K} → Harmless k t t' → NoneLost t → NoneLost t'
  Harmless-NoneLost k {t} {t'} h v = record { kept = keep }
    where
      wait_before : (i : ℕ) → waits i (t'.procs i) ≡ true → waits i (t.procs i) ≡ true
      wait_before i w = elim (ℕ_discrete i k) [
        | no ni ↦ ap (waits i) (sym (h.others i ni)) ∙ w
        | yes e ↦
            subst (λ (m : ℕ). waits m (t'.procs m) ≡ true → waits m (t.procs m) ≡ true) (sym e)
              h.no_wait w
      ]

      child_before : (i j : ℕ) → is_child i (t'.procs j) ≡ true → is_child i (t.procs j) ≡ true
      child_before i j c = elim (ℕ_discrete j k) [
        | no nj ↦ ap (is_child i) (sym (h.others j nj)) ∙ c
        | yes e ↦
            subst (λ (m : ℕ). is_child i (t'.procs m) ≡ true → is_child i (t.procs m) ≡ true)
              (sym e) (h.no_parent i) c
      ]

      zombie_before :
          (j : ℕ) → is_zombie (t'.procs j).state ≡ true → is_zombie (t.procs j).state ≡ true
      zombie_before j z = elim (ℕ_discrete j k) [
        | no nj ↦ ap (λ (p : Proc). is_zombie p.state) (sym (h.others j nj)) ∙ z
        | yes e ↦
            subst
              (λ (m : ℕ). is_zombie (t'.procs m).state ≡ true → is_zombie (t.procs m).state ≡ true)
              (sym e) h.no_zombie z
      ]

      keep :
          (i j : ℕ)
          → j < nproc
          → waits i (t'.procs i) ≡ true
          → is_child i (t'.procs j) ≡ true
          → is_zombie (t'.procs j).state ≡ false
      keep i j lt w c = elim (Bool-cases (is_zombie (t'.procs j).state)) [
        | inr fine ↦ fine
        | inl z ↦ cc (zombie_before j z, v.kept i j lt (wait_before i w) (child_before i j c))
      ]

  freeproc-Harmless : (k : ℕ) (t : Ptable K) → Harmless k t (freeproc s k t)
  unfolding freeproc is_child
  freeproc-Harmless k t = record {
    others = λ a ne. update_ne t.procs k _ a (λ q. ne (sym q));
    no_wait = λ w. ground arith;
    no_zombie = λ z. ground arith;
    no_parent = λ i h. ground arith;
  }

  Harmless-trans :
      (k : ℕ) {t t1 t2 : Ptable K} → Harmless k t t1 → Harmless k t1 t2 → Harmless k t t2
  Harmless-trans k f g = record {
    others = λ a ne. g.others a ne ∙ f.others a ne;
    no_wait = λ w. f.no_wait (g.no_wait w);
    no_zombie = λ z. f.no_zombie (g.no_zombie z);
    no_parent = λ i c. f.no_parent i (g.no_parent i c);
  }

  claim_slot-Harmless : (k : ℕ) (t : Ptable K) → Harmless k t (claim_slot k t)
  unfolding claim_slot is_child
  claim_slot-Harmless k t = record {
    others = λ a ne. ground arith;
    no_wait = λ w. ground arith;
    no_zombie = λ z. ground arith;
    no_parent = λ i h. ground arith;
  }

  set_frame-Harmless : (k page : ℕ) (x : K) (t : Ptable K) → Harmless k t (set_frame k page x t)
  unfolding set_frame is_child
  set_frame-Harmless k page x t = record {
    others = λ a ne. ground arith;
    no_wait = λ w. ground arith;
    no_zombie = λ z. ground arith;
    no_parent = λ i h. ground arith;
  }

  set_table-Harmless : (k table : ℕ) (x : K) (t : Ptable K) → Harmless k t (set_table k table x t)
  unfolding set_table is_child
  set_table-Harmless k table x t = record {
    others = λ a ne. ground arith;
    no_wait = λ w. ground arith;
    no_zombie = λ z. ground arith;
    no_parent = λ i h. ground arith;
  }

  add_backup-Harmless : (k : ℕ) (t : Ptable K) → Harmless k t (add_backup s k t)
  unfolding add_backup clear_signals is_child
  add_backup-Harmless k t = record {
    others = λ a ne. ground arith;
    no_wait = λ w. ground arith;
    no_zombie = λ z. ground arith;
    no_parent = λ i h. ground arith;
  }

  branch-Harmless :
      (k : ℕ) (c : Bool) {t : Ptable K} (a b : Bool × Ptable K)
      → Harmless k t a.1
      → Harmless k t b.1
      → Harmless k t (if c then a else b).1
  branch-Harmless k true a b f g = f
  branch-Harmless k false a b f g = g

  add_table-Harmless : (k : ℕ) (t : Ptable K) → Harmless k t (add_table s k t).1
  unfolding add_table
  add_table-Harmless k t =
      let r = s.new_pagetable (t.procs k).trapframe_page t.kernel in
      let t1 = set_table k (or_null (r.0)) (r.1) t in
      let first = set_table-Harmless k (or_null (r.0)) (r.1) t in
      branch-Harmless k (or_null (r.0) == 0) (false, freeproc s k t1) (true, add_backup s k t1)
        (Harmless-trans k first (freeproc-Harmless k t1))
        (Harmless-trans k first (add_backup-Harmless k t1))

  add_frame-Harmless : (k : ℕ) (t : Ptable K) → Harmless k t (add_frame s k t).1
  unfolding add_frame
  add_frame-Harmless k t =
      let r = s.alloc_page t.kernel in
      let t1 = set_frame k (or_null (r.0)) (r.1) t in
      let first = set_frame-Harmless k (or_null (r.0)) (r.1) t in
      branch-Harmless k (or_null (r.0) == 0) (false, freeproc s k t1) (add_table s k t1)
        (Harmless-trans k first (freeproc-Harmless k t1))
        (Harmless-trans k first (add_table-Harmless k t1))

  init_proc-Harmless : (k : ℕ) (t : Ptable K) → Harmless k t (init_proc s k t).1
  unfolding init_proc
  init_proc-Harmless k t =
      Harmless-trans k (claim_slot-Harmless k t) (add_frame-Harmless k (claim_slot k t))

  pub allocproc-cases :
      (t : Ptable K)
      → (allocproc s t ≡ (none, t))
        ⊎ ((k : ℕ) × (k < nproc)
            × (is_unused (t.procs k).state ≡ true)
            × (allocproc s t ≡ (if (init_proc s k t).0 then some k else none, (init_proc s k t).1)))
  unfolding allocproc
  allocproc-cases t = elim (Option-cases (find_proc (λ p. is_unused p.state) t.procs nproc 0)) [
    | inl e ↦ inl (rw (e, allocproc))
    | inr (k, e) ↦
        let (lt, free) =
          find_proc-some (λ p. is_unused p.state) t.procs nproc 0 nproc (omega arith) e in
        inr (k, lt, free, rw (e, allocproc))
  ]

  fork_copy-Harmless : (i k : ℕ) (t : Ptable K) → Harmless k t (fork_copy s i k t).1
  unfolding fork_copy freeproc copy_proc is_child
  fork_copy-Harmless i k t = record {
    others = λ a ne. ground arith;
    no_wait = λ w. ground arith;
    no_zombie = λ z. ground arith;
    no_parent = λ a h. ground arith;
  }

  growproc-Harmless : (i n : ℕ) (t : Ptable K) → Harmless i t (growproc s i n t).1
  unfolding growproc is_child
  growproc-Harmless i n t = record {
    others = λ a ne. ground arith;
    no_wait = λ w. ground arith;
    no_zombie = λ z. ground arith;
    no_parent = λ a h. ground arith;
  }

  abbrev fork_rest : ℕ → Option ℕ × Ptable K → Option ℕ × Ptable K
  fork_rest i r = elim (r.0) [ none ↦ (none, r.1) | some j ↦ fork_copy s i j r.1 ]

  fork_rest-NoneLost :
      (i : ℕ) (o : Option ℕ) (t : Ptable K) → NoneLost t → NoneLost (fork_rest i (o, t)).1
  fork_rest-NoneLost i none t v = v
  fork_rest-NoneLost i (some j) t v = Harmless-NoneLost j (fork_copy-Harmless i j t) v

  fork_start-NoneLost : (i : ℕ) (t : Ptable K) → NoneLost t → NoneLost (fork_start s i t).1
  unfolding fork_start
  fork_start-NoneLost i t v = elim (allocproc-cases t) [
    | inl e ↦
        subst (λ (r : Option ℕ × Ptable K). NoneLost (fork_rest i r).1) (sym e)
          (fork_rest-NoneLost i none t v)
    | inr (k, _, _, e) ↦
        subst (λ (r : Option ℕ × Ptable K). NoneLost (fork_rest i r).1) (sym e)
          (fork_rest-NoneLost i (if (init_proc s k t).0 then some k else none) (init_proc s k t).1
            (Harmless-NoneLost k (init_proc-Harmless k t) v))
  ]

  wait-NoneLost :
      (i : ℕ) (t : Ptable K) (r : Waited × Ptable K) → Passed s i t r → NoneLost t → NoneLost r.1
  unfolding sleep
  wait-NoneLost i t _ (Passed.reaps j lt child z) v = Harmless-NoneLost j (freeproc-Harmless j t) v
  wait-NoneLost i t _ (Passed.cannot_copy j lt child z) v = v
  wait-NoneLost i t _ (Passed.childless none_there) v = v
  wait-NoneLost i t _ (Passed.killed k) v = v
  wait-NoneLost i t _ (Passed.sleeps j lt child alive) v = record {
    kept = λ a b lb w c. ground (arith, v.kept a b lb, alive b lb);
  }

  Step-NoneLost : {t t' : Ptable K} → Step t t' → NoneLost t → NoneLost t'
  unfolding fork_adopt fork_finish exit_start sleep slept schedule yield_cpu is_child post
  Step-NoneLost {t} (Step.forks i _) v = fork_start-NoneLost i t v
  Step-NoneLost {t} (Step.adopts i j _ used) v = record {
    kept = λ a b lb w c. ground (arith, v.kept a b lb, used);
  }
  Step-NoneLost {t} (Step.starts j used) v = record {
    kept = λ a b lb w c. ground (arith, v.kept a b lb);
  }
  Step-NoneLost {t} (Step.closes i _ e) v = record {
    kept = λ a b lb w c. ground (arith, v.kept a b lb);
  }
  Step-NoneLost {t} (Step.exits i status _ ne) v = exit_finish-NoneLost i status t ne v
  Step-NoneLost {t} (Step.passes i copied _) v =
      wait-NoneLost i t (wait_pass s i copied t) (wait_pass-Passed s i copied t) v
  Step-NoneLost {t} (Step.sleeps i chan low _ other) v = record {
    kept = λ a b lb w c. ground (arith, v.kept a b lb);
  }
  Step-NoneLost {t} (Step.back i _) v = record {
    kept = λ a b lb w c. ground (arith, v.kept a b lb);
  }
  Step-NoneLost {t} (Step.wakes i chan _) v = wakeup-NoneLost i chan t v
  Step-NoneLost {t} (Step.scheduled i e) v = record {
    kept = λ a b lb w c. ground (arith, v.kept a b lb);
  }
  Step-NoneLost {t} (Step.yields i _) v = record {
    kept = λ a b lb w c. ground (arith, v.kept a b lb);
  }
  Step-NoneLost {t} (Step.grows i n _) v = Harmless-NoneLost i (growproc-Harmless i n t) v
  Step-NoneLost {t} (Step.killed signum i) v = record {
    kept = λ a b lb w c. ground (arith, v.kept a b lb);
  }
  Step-NoneLost {t} (Step.elsewhere k) v = record { kept = v.kept }

  Reach-NoneLost : {start t : Ptable K} → Reach start t → NoneLost start → NoneLost t
  Reach-NoneLost Reach.here v = v
  Reach-NoneLost (Reach.next r st) v = Step-NoneLost st (Reach-NoneLost r v)

  userinit_in-Harmless : (k : ℕ) (t : Ptable K) → Harmless k t (userinit_in s k t)
  unfolding userinit_in first_proc is_child
  userinit_in-Harmless k t = record {
    others = λ a ne. ground arith;
    no_wait = λ w. ground arith;
    no_zombie = λ z. ground arith;
    no_parent = λ i h. ground arith;
  }

  abbrev userinit_rest : Option ℕ × Ptable K → Option (Ptable K)
  userinit_rest r = elim (r.0) [ none ↦ none | some i ↦ some (userinit_in s i r.1) ]

  userinit-rest : (t : Ptable K) → userinit s t ≡ userinit_rest (allocproc s t)
  unfolding userinit
  userinit-rest t = refl

  userinit-cases :
      (t0 : Ptable K) {start : Ptable K}
      → userinit s t0 ≡ some start
      → (k : ℕ) × (userinit_in s k (init_proc s k t0).1 ≡ start)
  userinit-cases t0 {start} h = elim (allocproc-cases t0) [
    | inl e ↦ absurd (none-some (sym (ap userinit_rest e) ∙ sym (userinit-rest t0) ∙ h))
    | inr (k, _, _, e) ↦
        let run : userinit_rest
              (if (init_proc s k t0).0 then some k else none, (init_proc s k t0).1)
            ≡ some start =
          sym (ap userinit_rest e) ∙ sym (userinit-rest t0) ∙ h in
        elim (Bool-cases (init_proc s k t0).0) [
          | inr bad ↦ absurd (none-some (rw bad at run))
          | inl ok ↦ (k, some_inj (rw ok at run))
        ]
  ]

  userinit-NoneLost :
      (t0 : Ptable K) {start : Ptable K}
      → ((i : ℕ) → is_unused (t0.procs i).state ≡ true)
      → userinit s t0 ≡ some start
      → NoneLost start
  userinit-NoneLost t0 {start} boot h =
      let (k, e) = userinit-cases t0 h in
      let v0 : NoneLost t0 = record { kept = λ a b lb w c. ground (arith, boot b) } in
      subst NoneLost e (
        Harmless-NoneLost k (userinit_in-Harmless k (init_proc s k t0).1)
          (Harmless-NoneLost k (init_proc-Harmless k t0) v0))

  -- From a table with no process in use, however the processes run behind `userinit`: when process
  -- `i` sleeps in `wait`, none of its children is a zombie, so that no exit of a child was missed.
  pub no_lost_wakeup :
      (t0 : Ptable K) {start t : Ptable K}
      → ((i : ℕ) → is_unused (t0.procs i).state ≡ true)
      → userinit s t0 ≡ some start
      → Reach start t
      → (i j : ℕ) → j < nproc
      → waits i (t.procs i) ≡ true
      → is_child i (t.procs j) ≡ true
      → is_zombie (t.procs j).state ≡ false
  no_lost_wakeup t0 boot first r i j lt w c =
      (Reach-NoneLost r (userinit-NoneLost t0 boot first)).kept i j lt w c
