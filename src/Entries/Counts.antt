-- ===== src/Entries/Counts.antt =====
-- The reference counts of files in `sys_open` of kernel/sysfile.c.
use noy_hadar.Base.{
  ℕ, ◌+◌, ◌==◌, if◌then◌else◌, ◌&&◌, Option, none, some, List, ◌≡◌, inl, inr, refl, ap, sym, ◌∙◌,
  arith, Bool-cases,
}
use noy_hadar.Base.Bits.{has}
use noy_hadar.Vm.{Run, ◌>>=◌}
use noy_hadar.Vm.Lookup.{>>=-eq-returned}
use noy_hadar.Fs.{Inode}
use noy_hadar.Inodes.{iunlock}
use noy_hadar.Content.{itrunc, iunlockput}
use noy_hadar.File.{File, Files, Services, set_file}
use noy_hadar.Proc.{Trapframe}
use noy_hadar.Descriptors.{Ofile, open_fd, sys_dup, sys_close}
use noy_hadar.Descriptors.Balance.{
  IsBalanced, count, called_parts, same_IsBalanced, open_fd-IsBalanced, sys_dup-IsBalanced,
  sys_close-IsBalanced,
}
use noy_hadar.Entries.{t_file, t_device, Caller}
use noy_hadar.Entries.Open.{
  Kernel, fill_file, finish_open, open_inode, open_locked, sys_open, o_trunc,
}

fill_file-ref : (omode i : ℕ) (ip : Inode) (f : File) → (fill_file omode i ip f).ref ≡ f.ref
unfolding fill_file
fill_file-ref omode i ip f = elim (Bool-cases (ip.type == t_device)) [
  | inl e ↦ rw e refl
  | inr e ↦ rw e refl
]

set_file-ref :
    {K : Type 0} (f g : ℕ) (x : File) (t : Files K)
    → x.ref ≡ (t.file f).ref
    → ((set_file f x t).file g).ref ≡ (t.file g).ref
set_file-ref f g x t e = ground arith

module _ (p : Caller) where
  -- What the files and descriptors of `finish_open` are.
  record Finished (ofile ofile' : Ofile) (t t' : Files Kernel) : Type 0 where
    fds : ofile ≡ ofile'
    refs : (g : ℕ) → (t'.file g).ref ≡ (t.file g).ref

  finish_open-Finished :
      (omode i fd f : ℕ) (ofile : Ofile) (t : Files Kernel) {r : Option ℕ} {ofile' : Ofile}
      {t' : Files Kernel}
      → finish_open p omode i fd f ofile t ≡ Run.returned (r, ofile', t')
      → Finished ofile ofile' t t'
  unfolding finish_open
  finish_open-Finished omode i fd f ofile t {r} {ofile'} {t'} h =
      let ip = t.kernel.0.itable i in
      let end =
        λ (k : Kernel). record (set_file f (fill_file omode i ip (t.file f)) t) { kernel = k } in
      let (fs1, _, rest) =
        >>=-eq-returned
          (if has omode o_trunc && ip.type == t_file
            then itrunc i t.kernel.0
            else Run.returned t.kernel.0)
          (λ fs1.
            iunlock p.pid i fs1 >>= λ fs2. Run.returned (some fd, ofile, end (fs2, t.kernel.1)))
          h in
      let (fs2, _, last) =
        >>=-eq-returned (iunlock p.pid i fs1)
          (λ fs2. Run.returned (some fd, ofile, end (fs2, t.kernel.1))) rest in
      let (_, o, q) = called_parts last in
      record {
        fds = o;
        refs = λ g.
            ap (λ (u : Files Kernel). (u.file g).ref) (sym q)
            ∙ set_file-ref f g (fill_file omode i ip (t.file f)) t
                (fill_file-ref omode i ip (t.file f));
      }

  Finished-IsBalanced :
      {ofile0 ofile ofile' : Ofile} {t0 t t' : Files Kernel}
      → IsBalanced ofile0 ofile t0 t
      → Finished ofile ofile' t t'
      → IsBalanced ofile0 ofile' t0 t'
  Finished-IsBalanced {ofile0} {ofile} {ofile'} {t0} {t} {t'} b x = record {
    kept = λ g.
        ap (λ (m : ℕ). m + count g ofile0) (x.refs g)
        ∙ b.kept g
        ∙ ap (λ (o : Ofile). (t0.file g).ref + count g o) x.fds;
  }

  -- `open_locked` behind its `open_fd`.
  abbrev with_fd :
      ℕ → ℕ → Option (ℕ × ℕ) × Ofile × Files Kernel → Run (Option ℕ × Ofile × Files Kernel)
  with_fd omode i (got, ofile1, t1) = elim got [
    | none ↦ iunlockput p.pid i t1.kernel.0 >>= λ fs1.
        Run.returned (none, ofile1, record t1 { kernel = (fs1, t1.kernel.1) })
    | some (fd, f) ↦ finish_open p omode i fd f ofile1 t1
  ]

  with_fd-Finished :
      (omode i : ℕ) (got : Option (ℕ × ℕ)) (ofile : Ofile) (t : Files Kernel) {r : Option ℕ}
      {ofile' : Ofile} {t' : Files Kernel}
      → with_fd omode i (got, ofile, t) ≡ Run.returned (r, ofile', t')
      → Finished ofile ofile' t t'
  with_fd-Finished omode i (some (fd, f)) ofile t h = finish_open-Finished omode i fd f ofile t h
  with_fd-Finished omode i none ofile t h =
      let (fs1, _, rest) =
        >>=-eq-returned (iunlockput p.pid i t.kernel.0)
          (λ fs1. Run.returned (none, ofile, record t { kernel = (fs1, t.kernel.1) })) h in
      let (_, o, q) = called_parts rest in
      record { fds = o; refs = λ g. ap (λ (u : Files Kernel). (u.file g).ref) (sym q) }

  open_locked-IsBalanced :
      (s : Services Kernel) (omode i : ℕ) (ofile : Ofile) (t : Files Kernel) {r : Option ℕ}
      {ofile' : Ofile} {t' : Files Kernel}
      → open_locked p s omode i ofile t ≡ Run.returned (r, ofile', t')
      → IsBalanced ofile ofile' t t'
  unfolding open_locked
  open_locked-IsBalanced s omode i ofile t h =
      let ((got, ofile1, t1), opened, rest) =
        >>=-eq-returned (open_fd s ofile t) (with_fd omode i) h in
      Finished-IsBalanced (open_fd-IsBalanced s ofile t opened)
        (with_fd-Finished omode i got ofile1 t1 rest)

  sys_open-IsBalanced :
      (s : Services Kernel) (omode : ℕ) (path : Option (List ℕ)) (ofile : Ofile) (t : Files Kernel)
      {r : Option ℕ} {ofile' : Ofile} {t' : Files Kernel}
      → sys_open p s omode path ofile t ≡ Run.returned (r, ofile', t')
      → IsBalanced ofile ofile' t t'
  unfolding sys_open
  sys_open-IsBalanced s omode none ofile t h = same_IsBalanced h
  sys_open-IsBalanced s omode (some path) ofile t {r} {ofile'} {t'} h =
      let ((found, k1), _, rest) =
        >>=-eq-returned (open_inode p omode path t.kernel) (λ (found, k1). on_inode k1 found) h in
      split k1 found rest
    where
      on_inode : Kernel → Option ℕ → Run (Option ℕ × Ofile × Files Kernel)
      on_inode k1 found =
          let t1 = record t { kernel = k1 } in
          elim found [
            | none ↦ Run.returned (none, ofile, t1)
            | some i ↦ open_locked p s omode i ofile t1
          ]

      split :
          (k1 : Kernel) (found : Option ℕ)
          → on_inode k1 found ≡ Run.returned (r, ofile', t')
          → IsBalanced ofile ofile' t t'
      split k1 none e = let b = same_IsBalanced e in record { kept = b.kept }
      split k1 (some i) e =
          let b = open_locked-IsBalanced s omode i ofile (record t { kernel = k1 }) e in
          record { kept = b.kept }

  -- What a process may do with its descriptors, one call after another, each of which returns.
  pub data Calls (s : Services Kernel) (ofile : Ofile) (t : Files Kernel)
      : Ofile → Files Kernel → Type 0 where
    none_yet : Calls s ofile t ofile t
    dups :
        {ofile1 ofile2 : Ofile} {t1 t2 : Files Kernel} (frame : Trapframe) (r : Option ℕ)
        → Calls s ofile t ofile1 t1
        → sys_dup frame ofile1 t1 ≡ Run.returned (r, ofile2, t2)
        → Calls s ofile t ofile2 t2
    closes :
        {ofile1 ofile2 : Ofile} {t1 t2 : Files Kernel} (frame : Trapframe) (r : Option ℕ)
        → Calls s ofile t ofile1 t1
        → sys_close s frame ofile1 t1 ≡ Run.returned (r, ofile2, t2)
        → Calls s ofile t ofile2 t2
    opens :
        {ofile1 ofile2 : Ofile} {t1 t2 : Files Kernel} (omode : ℕ) (path : Option (List ℕ))
        (r : Option ℕ)
        → Calls s ofile t ofile1 t1
        → sys_open p s omode path ofile1 t1 ≡ Run.returned (r, ofile2, t2)
        → Calls s ofile t ofile2 t2

  IsBalanced-trans :
      {o0 o1 o2 : Ofile} {t0 t1 t2 : Files Kernel}
      → IsBalanced o0 o1 t0 t1
      → IsBalanced o1 o2 t1 t2
      → IsBalanced o0 o2 t0 t2
  IsBalanced-trans {o0} {o1} {o2} b c = record { kept = λ g. omega (arith, b.kept g, c.kept g) }

  Calls-IsBalanced :
      (s : Services Kernel) {ofile : Ofile} {t : Files Kernel} {ofile' : Ofile} {t' : Files Kernel}
      → Calls s ofile t ofile' t'
      → IsBalanced ofile ofile' t t'
  Calls-IsBalanced s Calls.none_yet = record { kept = λ g. refl }
  Calls-IsBalanced s (Calls.dups {ofile1} {ofile2} {t1} {t2} frame r before h) =
      IsBalanced-trans (Calls-IsBalanced s before) (sys_dup-IsBalanced s frame ofile1 t1 h)
  Calls-IsBalanced s (Calls.closes {ofile1} {ofile2} {t1} {t2} frame r before h) =
      IsBalanced-trans (Calls-IsBalanced s before) (sys_close-IsBalanced s frame ofile1 t1 h)
  Calls-IsBalanced s (Calls.opens {ofile1} {ofile2} {t1} {t2} omode path r before h) =
      IsBalanced-trans (Calls-IsBalanced s before) (sys_open-IsBalanced s omode path ofile1 t1 h)

  -- After any sequence of calls of `dup`, `close` and `open` that return, whether they succeed or
  -- not, the reference count of every file has changed by as much as the number of the process's
  -- descriptors that stand for it.
  pub calls_keep_refs :
      (s : Services Kernel) {ofile ofile' : Ofile} {t t' : Files Kernel}
      → Calls s ofile t ofile' t'
      → (g : ℕ) → (t'.file g).ref + count g ofile ≡ (t.file g).ref + count g ofile'
  calls_keep_refs s calls = let b = Calls-IsBalanced s calls in b.kept
