-- ===== src/Lifecycle.antt =====
-- The life of a process, from kernel/proc.c: allocproc, freeproc, fork, exit and wait, on the table
-- of `Ptable`. Memory and files are other components, behind an interface.
pub mod Wait
pub mod Steps
pub mod Fork
mod Tests
use noy_hadar.Base.{
  ltb, ◌%◌, ℕ, zero, suc, ◌+◌, ◌==◌, if◌then◌else◌, Bool, true, false, not, ◌&&◌, ◌||◌, Option,
  none, some, List, [], ◌∷◌, update, map, take, foldl,
}
use noy_hadar.Proc.{Proc, ProcState, Trapframe, sig_dfl}
use noy_hadar.Ptable.{
  Ptable, nproc, own_chan, is_unused, is_zombie, find_proc, is_child, set_proc, sleep, exit_finish,
}

-- What other components do for the process table.
pub record Services (K : Type 0) : Type 0 where
  -- `kalloc` and `kfree`
  pub alloc_page : K → Option ℕ × K
  pub free_page : ℕ → K → K
  -- `proc_pagetable` for the page of a trapframe, and `proc_freepagetable`
  pub new_pagetable : ℕ → K → Option ℕ × K
  pub free_pagetable : ℕ → ℕ → K → K
  -- `uvmcopy`
  pub copy_memory : ℕ → ℕ → ℕ → K → Bool × K
  -- `filedup`, `fileclose`, `idup`, and `iput` in a transaction
  pub filedup : ℕ → K → K
  pub fileclose : ℕ → K → K
  pub idup : ℕ → K → K
  pub put_cwd : ℕ → K → K
  -- `uvminit` with the code of init, and `namei("/")`
  pub load_initcode : ℕ → K → K
  pub root_dir : K → ℕ × K
  -- `uvmalloc`, which returns 0 when it fails, and `uvmdealloc`
  pub grow_memory : ℕ → ℕ → ℕ → K → ℕ × K
  pub shrink_memory : ℕ → ℕ → ℕ → K → ℕ × K

-- What `allocproc` does at its end; a backup page that could not be had is null.
unfoldable pub clear_signals : ℕ → Proc → Proc
clear_signals backup p = record p {
  signal_mask = 0;
  pending_signals = 0;
  sig_handler_flag = false;
  frozen = false;
  backup_page = backup;
  signal_handlers = λ _. sig_dfl;
  sig_mask_array = λ _. 0;
}

abbrev pub or_null : Option ℕ → ℕ
or_null none = 0
or_null (some page) = page

-- The loop of `fork` over the open files: where the parent has none the child keeps what it has.
pub copy_files : List (Option ℕ) → List (Option ℕ) → List (Option ℕ)
copy_files (some f ∷ from) (_ ∷ to) = some f ∷ copy_files from to
copy_files (none ∷ from) (g ∷ to) = g ∷ copy_files from to
copy_files _ to = to

-- The child that `fork` makes, in the slot that `allocproc` found.
unfoldable pub copy_proc : Proc → Proc → Proc
unfolding copy_files
copy_proc p np = record np {
  sz = p.sz;
  signal_mask = p.signal_mask;
  signal_handlers = p.signal_handlers;
  sig_mask_array = p.sig_mask_array;
  trapframe = record (p.trapframe) { a0 = 0 };
  ofile = copy_files p.ofile np.ofile;
  cwd = p.cwd;
  name = take 15 p.name;
}

-- "initcode"
abbrev pub initcode_name : List ℕ
initcode_name = 105 ∷ 110 ∷ 105 ∷ 116 ∷ 99 ∷ 111 ∷ 100 ∷ 101 ∷ []

-- The first process, in the slot that `allocproc` found.
unfoldable pub first_proc : ℕ → Proc → Proc
first_proc root p = record p {
  sz = 4096;
  trapframe = record (p.trapframe) { epc = 0; sp = 4096 };
  name = initcode_name;
  cwd = root;
  state = ProcState.runnable;
}

-- How a pass of `wait` ends: it returns a pid or -1, or it sleeps.
pub data Waited : Type 0 where
  reaped : ℕ → Waited
  failed : Waited
  asleep : Waited

module _ {K : Type 0} where
  unfoldable pub claim_slot : ℕ → Ptable K → Ptable K
  claim_slot i t = record t {
    procs = update t.procs i (record (t.procs i) { pid = t.nextpid; state = ProcState.used });
    nextpid = t.nextpid + 1;
  }

  unfoldable pub set_frame : ℕ → ℕ → K → Ptable K → Ptable K
  set_frame i page k t = record t {
    procs = update t.procs i (record (t.procs i) { trapframe_page = page });
    kernel = k;
  }

  unfoldable pub set_table : ℕ → ℕ → K → Ptable K → Ptable K
  set_table i table k t = record t {
    procs = update t.procs i (record (t.procs i) { pagetable = table });
    kernel = k;
  }

  -- `fork` under `wait_lock`, and its last part, which returns the child's pid.
  unfoldable pub fork_adopt : ℕ → ℕ → Ptable K → Ptable K
  fork_adopt i j t = set_proc j (record (t.procs j) { parent = some i }) t

  unfoldable pub fork_finish : ℕ → Ptable K → ℕ × Ptable K
  fork_finish j t =
      ((t.procs j).pid, set_proc j (record (t.procs j) { state = ProcState.runnable }) t)

module _ {K : Type 0} (s : Services K) where
  -- `if(p->page) kfree(p->page)`
  unfoldable pub free_if : ℕ → K → K
  free_if page k = if page == 0 then k else s.free_page page k

  unfoldable pub freeproc : ℕ → Ptable K → Ptable K
  unfolding free_if
  freeproc i t =
      let p = t.procs i in
      let k1 = free_if p.trapframe_page t.kernel in
      let k2 = free_if p.backup_page k1 in
      let k3 = if p.pagetable == 0 then k2 else s.free_pagetable p.pagetable p.sz k2 in
      record t {
        procs = update t.procs i (record p {
          trapframe_page = 0;
          backup_page = 0;
          pagetable = 0;
          sz = 0;
          pid = 0;
          parent = none;
          name = [];
          chan = 0;
          killed = false;
          xstate = 0;
          state = ProcState.unused;
        });
        kernel = k3;
      }

  -- The steps of `allocproc` behind `found`.
  unfoldable pub add_backup : ℕ → Ptable K → Ptable K
  unfolding clear_signals
  add_backup i t =
      let (backup, k) = s.alloc_page t.kernel in
      record t { procs = update t.procs i (clear_signals (or_null backup) (t.procs i)); kernel = k }

  unfoldable pub add_table : ℕ → Ptable K → Bool × Ptable K
  unfolding set_table freeproc add_backup
  add_table i t =
      let (table, k) = s.new_pagetable (t.procs i).trapframe_page t.kernel in
      let t1 = set_table i (or_null table) k t in
      if or_null table == 0 then (false, freeproc i t1) else (true, add_backup i t1)

  unfoldable pub add_frame : ℕ → Ptable K → Bool × Ptable K
  unfolding set_frame freeproc add_table
  add_frame i t =
      let (frame, k) = s.alloc_page t.kernel in
      let t1 = set_frame i (or_null frame) k t in
      if or_null frame == 0 then (false, freeproc i t1) else add_table i t1

  unfoldable pub init_proc : ℕ → Ptable K → Bool × Ptable K
  unfolding claim_slot add_frame
  init_proc i t = add_frame i (claim_slot i t)

  unfoldable pub allocproc : Ptable K → Option ℕ × Ptable K
  unfolding find_proc init_proc
  allocproc t = elim (find_proc (λ p. is_unused p.state) t.procs nproc 0) [
    | none ↦ (none, t)
    | some i ↦ let (ok, t') = init_proc i t in (if ok then some i else none, t')
  ]

  pub dup_all : List (Option ℕ) → K → K
  dup_all [] k = k
  dup_all (some f ∷ from) k = dup_all from (s.filedup f k)
  dup_all (none ∷ from) k = dup_all from k

  -- `fork` behind `allocproc`, for the child's slot.
  unfoldable pub fork_copy : ℕ → ℕ → Ptable K → Option ℕ × Ptable K
  unfolding copy_proc dup_all freeproc
  fork_copy i j t =
      let p = t.procs i in
      let (ok, k) = s.copy_memory p.pagetable (t.procs j).pagetable p.sz t.kernel in
      if ok
      then (
        some j,
        record t {
          procs = update t.procs j (copy_proc p (t.procs j));
          kernel = s.idup p.cwd (dup_all p.ofile k);
        },
      )
      else (none, freeproc j (record t { kernel = k }))

  -- `fork` up to the first release of the child's lock: the child, if there is one.
  unfoldable pub fork_start : ℕ → Ptable K → Option ℕ × Ptable K
  unfolding allocproc fork_copy
  fork_start i t =
      let (child, t1) = allocproc t in elim child [ none ↦ (none, t1) | some j ↦ fork_copy i j t1 ]

  pub close_all : List (Option ℕ) → K → K
  close_all [] k = k
  close_all (some f ∷ from) k = close_all from (s.fileclose f k)
  close_all (none ∷ from) k = close_all from k

  -- `exit` before it takes `wait_lock`; `none` is the panic.
  unfoldable pub exit_start : ℕ → Ptable K → Option (Ptable K)
  unfolding close_all
  exit_start i t =
      let p = t.procs i in
      if i == t.initproc
      then none
      else some (record t {
        procs = update t.procs i (record p { ofile = map (λ _. none) p.ofile; cwd = 0 });
        kernel = s.put_cwd p.cwd (close_all p.ofile t.kernel);
      })

  -- One pass of the loop of `wait`; `copied` says whether `addr` is 0 or the status can be copied
  -- to it.
  unfoldable pub wait_pass : ℕ → Bool → Ptable K → Waited × Ptable K
  unfolding find_proc is_child freeproc
  wait_pass i copied t = elim (find_proc (λ q. is_child i q && is_zombie q.state) t.procs nproc 0) [
    | some j ↦ if copied then (Waited.reaped (t.procs j).pid, freeproc j t) else (Waited.failed, t)
    | none ↦ elim (find_proc (is_child i) t.procs nproc 0) [
      | none ↦ (Waited.failed, t)
      | some _ ↦
          if (t.procs i).killed then (Waited.failed, t) else (Waited.asleep, sleep i (own_chan i) t)
    ]
  ]

  -- `userinit` behind `allocproc`.
  unfoldable pub userinit_in : ℕ → Ptable K → Ptable K
  unfolding first_proc
  userinit_in i t =
      let (root, k) = s.root_dir (s.load_initcode (t.procs i).pagetable t.kernel) in
      record t { procs = update t.procs i (first_proc root (t.procs i)); initproc = i; kernel = k }

  -- `none` stands for the write through a null pointer when there is no process.
  unfoldable pub userinit : Ptable K → Option (Ptable K)
  unfolding allocproc userinit_in
  userinit t =
      let (child, t1) = allocproc t in elim child [ none ↦ none | some i ↦ some (userinit_in i t1) ]

  -- `growproc` for the 32-bit pattern of `n`, whose sign is its top bit; the size is a uint.
  unfoldable pub growproc : ℕ → ℕ → Ptable K → Bool × Ptable K
  growproc i n t =
      let p = t.procs i in
      let old = p.sz % 4294967296 in
      let new = (old + n) % 4294967296 in
      if n == 0
      then (true, set_proc i (record p { sz = old }) t)
      else if ltb n 2147483648
      then (let (sz, k) = s.grow_memory p.pagetable old new t.kernel in
          if sz % 4294967296 == 0
          then (false, record t { kernel = k })
          else (true, set_proc i (record p { sz = sz % 4294967296 }) (record t { kernel = k })))
      else (let (sz, k) = s.shrink_memory p.pagetable old new t.kernel in
          (true, set_proc i (record p { sz = sz % 4294967296 }) (record t { kernel = k })))
