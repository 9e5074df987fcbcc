-- ===== src/Lifecycle/Fork.antt =====
-- The child that `fork` of kernel/proc.c makes.
use noy_hadar.Base.{
  Bool, ◌==◌, if◌then◌else◌, ℕ, ◌+◌, ◌<◌, if◌then◌else◌, true, false, Option, none, some, ◌≡◌, ◌≢◌,
  inl, inr, refl, ap, sym, subst, ◌∙◌, arith, Bool-cases, none-some,
}
use noy_hadar.Proc.{ProcState}
use noy_hadar.Ptable.{Ptable, nproc, is_unused}
use noy_hadar.Lifecycle.{
  claim_slot, set_frame, set_table, add_backup, add_table, add_frame, or_null, Services, freeproc,
  clear_signals, init_proc, allocproc, copy_proc, fork_copy, fork_start,
}
use noy_hadar.Lifecycle.Steps.{allocproc-cases}

module _ {K : Type 0} (s : Services K) where
  -- What `allocproc` leaves in a slot that it found.
  record Fresh (k : ℕ) (t t' : Ptable K) : Type 0 where
    number : (t'.procs k).pid ≡ t.nextpid
    count : t'.nextpid ≡ t.nextpid + 1
    state : (t'.procs k).state ≡ ProcState.used
    pending : (t'.procs k).pending_signals ≡ 0
    idle : (t'.procs k).sig_handler_flag ≡ false
    thawed : (t'.procs k).frozen ≡ false
    others : (a : ℕ) → k ≢ a → t'.procs a ≡ t.procs a

  branch_end :
      (c : Bool) (a b : Bool × Ptable K)
      → a.0 ≡ false
      → (if c then a else b).0 ≡ true
      → ((if c then a else b).1 ≡ b.1) × (b.0 ≡ true)
  branch_end true a b e h = ground arith
  branch_end false a b e h = (refl, h)

  -- The tables that `init_proc` goes through when it comes to its end.
  add_table-end :
      (k : ℕ) (t : Ptable K)
      → (add_table s k t).0 ≡ true
      → (a : ℕ) × (x : K) × ((add_table s k t).1 ≡ add_backup s k (set_table k a x t))
  unfolding add_table
  add_table-end k t h =
      let r = s.new_pagetable (t.procs k).trapframe_page t.kernel in
      let t1 = set_table k (or_null (r.0)) (r.1) t in
      let (e, _) =
        branch_end (or_null (r.0) == 0) (false, freeproc s k t1) (true, add_backup s k t1) refl h in
      (or_null (r.0), r.1, e)

  add_frame-end :
      (k : ℕ) (t : Ptable K)
      → (add_frame s k t).0 ≡ true
      → (a b : ℕ) × (x y : K) × ((add_frame s k t).1
          ≡ add_backup s k (set_table k a x (set_frame k b y t)))
  unfolding add_frame
  add_frame-end k t h =
      let r = s.alloc_page t.kernel in
      let t1 = set_frame k (or_null (r.0)) (r.1) t in
      let (e, more) =
        branch_end (or_null (r.0) == 0) (false, freeproc s k t1) (add_table s k t1) refl h in
      let (a, x, f) = add_table-end k t1 more in (a, or_null (r.0), x, r.1, e ∙ f)

  Fresh-end :
      (k a b : ℕ) (x y : K) (t : Ptable K)
      → Fresh k t (add_backup s k (set_table k a x (set_frame k b y (claim_slot k t))))
  unfolding add_backup set_table set_frame claim_slot clear_signals
  Fresh-end k a b x y t = record {
    number = ground arith;
    count = ground arith;
    state = ground arith;
    pending = ground arith;
    idle = ground arith;
    thawed = ground arith;
    others = λ a ne. ground arith;
  }

  init_proc-Fresh :
      (k : ℕ) (t : Ptable K) → (init_proc s k t).0 ≡ true → Fresh k t (init_proc s k t).1
  unfolding init_proc
  init_proc-Fresh k t h =
      let (a, b, x, y, e) = add_frame-end k (claim_slot k t) h in
      subst (Fresh k t) (sym e) (Fresh-end k a b x y t)

  -- The child of process `i` in slot `k`: a copy of the parent that returns 0 from `fork`, with a
  -- pid of its own and no signal pending. Every other process is as it was.
  pub record Forked (i k : ℕ) (t t' : Ptable K) : Type 0 where
    pub in_table : k < nproc
    pub was_free : is_unused (t.procs k).state ≡ true
    pub number : (t'.procs k).pid ≡ t.nextpid
    pub count : t'.nextpid ≡ t.nextpid + 1
    pub state : (t'.procs k).state ≡ ProcState.used
    pub size : (t'.procs k).sz ≡ (t.procs i).sz
    pub registers : (t'.procs k).trapframe ≡ record ((t.procs i).trapframe) { a0 = 0 }
    pub directory : (t'.procs k).cwd ≡ (t.procs i).cwd
    pub mask : (t'.procs k).signal_mask ≡ (t.procs i).signal_mask
    pub handlers : (t'.procs k).signal_handlers ≡ (t.procs i).signal_handlers
    pub masks : (t'.procs k).sig_mask_array ≡ (t.procs i).sig_mask_array
    pub pending : (t'.procs k).pending_signals ≡ 0
    pub idle : (t'.procs k).sig_handler_flag ≡ false
    pub thawed : (t'.procs k).frozen ≡ false
    pub others : (a : ℕ) → k ≢ a → t'.procs a ≡ t.procs a

  abbrev fork_rest : ℕ → Option ℕ × Ptable K → Option ℕ × Ptable K
  fork_rest i r = elim (r.0) [ none ↦ (none, r.1) | some j ↦ fork_copy s i j r.1 ]

  fork_start-rest : (i : ℕ) (t : Ptable K) → fork_start s i t ≡ fork_rest i (allocproc s t)
  unfolding fork_start
  fork_start-rest i t = refl

  fork_copy-Forked :
      (i j k : ℕ) (t t1 : Ptable K) {t' : Ptable K}
      → k < nproc
      → is_unused (t.procs k).state ≡ true
      → is_unused (t.procs i).state ≡ false
      → Fresh k t t1
      → fork_copy s i k t1 ≡ (some j, t')
      → (j ≡ k) × Forked i k t t'
  unfolding fork_copy copy_proc freeproc
  fork_copy-Forked i j k t t1 {t'} lt free used f h =
      let apart : k ≢ i = λ q. cc (ap (λ (m : ℕ). is_unused (t.procs m).state) q) in
      let ok : (s.copy_memory (t1.procs i).pagetable (t1.procs k).pagetable (t1.procs i).sz
            t1.kernel).0
          ≡ true =
        ground arith in
      (
        ground (arith, ok),
        record {
          in_table = lt;
          was_free = free;
          number = ground (arith, ok, f.number);
          count = ground (arith, ok, f.count);
          state = ground (arith, ok, f.state);
          size = ground (arith, ok, f.others i apart);
          registers = ground (arith, ok, f.others i apart);
          directory = ground (arith, ok, f.others i apart);
          mask = ground (arith, ok, f.others i apart);
          handlers = ground (arith, ok, f.others i apart);
          masks = ground (arith, ok, f.others i apart);
          pending = ground (arith, ok, f.pending);
          idle = ground (arith, ok, f.idle);
          thawed = ground (arith, ok, f.thawed);
          others = λ a ne. ground (arith, ok, f.others a ne);
        },
      )

  -- When `fork` of a process in use returns from its first part with a child, the child has taken
  -- a slot of the table that was unused and the next pid. It has the parent's size, working
  -- directory, signal mask, handlers and their masks, and its registers with 0 in a0. It has no
  -- signal pending, runs no handler and is not frozen, and every other process is as it was.
  pub fork_start-Forked :
      (i j : ℕ) (t : Ptable K) {t' : Ptable K}
      → is_unused (t.procs i).state ≡ false
      → fork_start s i t ≡ (some j, t')
      → Forked i j t t'
  fork_start-Forked i j t {t'} used h = elim (allocproc-cases s t) [
    | inl e ↦
        absurd
          (none-some (ap (λ r. r.0) (sym (ap (fork_rest i) e) ∙ sym (fork_start-rest i t) ∙ h)))
    | inr (k, lt, free, e) ↦
        let run : fork_rest i (if (init_proc s k t).0 then some k else none, (init_proc s k t).1)
            ≡ (some j, t') =
          sym (ap (fork_rest i) e) ∙ sym (fork_start-rest i t) ∙ h in
        elim (Bool-cases (init_proc s k t).0) [
          | inr no_ ↦ absurd (none-some (ap (λ r. r.0) (rw no_ at run)))
          | inl ok ↦
              let (same, forked) =
                fork_copy-Forked i j k t (init_proc s k t).1 lt free used (init_proc-Fresh k t ok)
                  (rw ok at run) in
              subst (λ (m : ℕ). Forked i m t t') (sym same) forked
        ]
  ]
