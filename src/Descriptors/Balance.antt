-- ===== src/Descriptors/Balance.antt =====
-- The descriptors of a process and the reference counts of files, in kernel/sysfile.c.
use noy_hadar.Base.{
  ℕ, zero, suc, ◌+◌, ◌-◌, ◌<◌, ◌==◌, ltb, if◌then◌else◌, not, Option, none, some, [], ◌∷◌, set, ◌≡◌,
  ◌≢◌, inl, inr, refl, ap, sym, ◌∙◌, arith, Bool-cases, Option-cases, some_inj, none-some,
}
use noy_hadar.Proc.{Trapframe}
use noy_hadar.Vm.{Run, ◌>>=◌}
use noy_hadar.Vm.Lookup.{>>=-eq-returned}
use noy_hadar.Syscall.{argint}
use noy_hadar.File.{Files, Services, set_file, filealloc, filedup, fileclose}
use noy_hadar.File.Refs.{
  filealloc-some, filedup-some, fileclose-file, fileclose-held, filealloc-same,
}
use noy_hadar.Descriptors.{
  nofile, Ofile, slot, argfd, fdalloc, dup_file, sys_dup, close_fd, sys_close, take_fd, open_fd,
}

-- How many descriptors stand for file `g`.
abbrev pub count : ℕ → Ofile → ℕ
count g [] = 0
count g (none ∷ ofile) = count g ofile
count g (some f ∷ ofile) = (if f == g then 1 else 0) + count g ofile

-- The counts of the files change as the descriptors do.
pub record IsBalanced {K : Type 0} (ofile ofile' : Ofile) (t t' : Files K) : Type 0 where
  pub kept : (g : ℕ) → (t'.file g).ref + count g ofile ≡ (t.file g).ref + count g ofile'

fdalloc-count :
    (f : ℕ) (ofile : Ofile) {fd : ℕ} {ofile' : Ofile}
    → fdalloc f ofile ≡ some (fd, ofile')
    → (g : ℕ) → count g ofile' ≡ (if f == g then 1 else 0) + count g ofile
unfolding fdalloc
fdalloc-count f [] h g = absurd (none-some h)
fdalloc-count f (none ∷ ofile) h g = ap (λ (r : ℕ × Ofile). count g r.1) (sym (some_inj h))
fdalloc-count f (some x ∷ ofile) h g = elim (Option-cases (fdalloc f ofile)) [
  | inl e ↦ absurd (none-some (rw e at h))
  | inr ((fd1, more), e) ↦
      ap (λ (r : ℕ × Ofile). count g r.1) (sym (some_inj (rw e at h)))
      ∙ ap (λ (m : ℕ). (if x == g then 1 else 0) + m) (fdalloc-count f ofile e g)
      ∙ omega arith
]

count-set :
    (ofile : Ofile) (fd f g : ℕ)
    → slot fd ofile ≡ some f
    → (if f == g then 1 else 0) + count g (set ofile fd none) ≡ count g ofile
count-set [] fd f g h = absurd (none-some h)
count-set (none ∷ ofile) zero f g h = absurd (none-some h)
count-set (some x ∷ ofile) zero f g h =
    ap (λ (m : ℕ). (if m == g then 1 else 0) + count g ofile) (sym (some_inj h))
count-set (none ∷ ofile) (suc fd) f g h = count-set ofile fd f g h
count-set (some x ∷ ofile) (suc fd) f g h =
    omega arith ∙ ap (λ (m : ℕ). (if x == g then 1 else 0) + m) (count-set ofile fd f g h)

found_slot :
    (fd0 : ℕ) (ofile : Ofile) (o : Option ℕ) {fd f : ℕ}
    → slot fd0 ofile ≡ o
    → ◌≡◌ {A = Run (Option (ℕ × ℕ))}
        (if not (ltb fd0 nofile)
          then Run.returned none
          else elim o [ none ↦ Run.returned none | some g ↦ Run.returned (some (fd0, g)) ])
        (Run.returned (some (fd, f)))
    → slot fd ofile ≡ some f
found_slot fd0 ofile none e h = elim (Bool-cases (ltb fd0 nofile)) [
  | inl low ↦ absurd (none_is (rw low at h))
  | inr high ↦ absurd (none_is (rw high at h))
]
  where
    none_is :
        {a : ℕ × ℕ} → ◌≢◌ {A = Run (Option (ℕ × ℕ))} (Run.returned none) (Run.returned (some a))
    none_is = λ e. cc
found_slot fd0 ofile (some g) {fd} {f} e h = elim (Bool-cases (ltb fd0 nofile)) [
  | inl low ↦
      let (p, q) = parts (rw low at h) in ap (λ (m : ℕ). slot m ofile) (sym p) ∙ e ∙ ap some q
  | inr high ↦ absurd (none_is (rw high at h))
]
  where
    none_is :
        {a : ℕ × ℕ} → ◌≢◌ {A = Run (Option (ℕ × ℕ))} (Run.returned none) (Run.returned (some a))
    none_is = λ e. cc

    parts :
        ◌≡◌ {A = Run (Option (ℕ × ℕ))} (Run.returned (some (fd0, g))) (Run.returned (some (fd, f)))
        → (fd0 ≡ fd) × (g ≡ f)
    parts q = (cc, cc)

argfd-slot :
    (n : ℕ) (frame : Trapframe) (ofile : Ofile) {fd f : ℕ}
    → argfd n frame ofile ≡ Run.returned (some (fd, f))
    → slot fd ofile ≡ some f
unfolding argfd
argfd-slot n frame ofile {fd} {f} h =
    let (fd0, _, rest) =
      >>=-eq-returned (argint n frame)
        (λ m. if not (ltb m nofile) then Run.returned none else elim (slot m ofile) [
          | none ↦ Run.returned none
          | some g ↦ Run.returned (some (m, g))
        ])
        h in
    found_slot fd0 ofile (slot fd0 ofile) refl rest

module _ {K : Type 0} where
  -- What a call returned, as an equation of each part.
  pub called_parts :
      {A : Type 0} {a b : A} {x y : Ofile} {t u : Files K}
      → ◌≡◌ {A = Run (A × Ofile × Files K)} (Run.returned (a, x, t)) (Run.returned (b, y, u))
      → (a ≡ b) × (x ≡ y) × (t ≡ u)
  called_parts e = (cc, cc, cc)

  dup_file-none :
      (f : ℕ) (ofile : Ofile) (t : Files K)
      → fdalloc f ofile ≡ none
      → dup_file f ofile t ≡ Run.returned (none, ofile, t)
  unfolding dup_file
  dup_file-none f ofile t e = rw (e, dup_file) refl

  dup_file-some :
      (f fd : ℕ) (ofile ofile' : Ofile) (t : Files K)
      → fdalloc f ofile ≡ some (fd, ofile')
      → dup_file f ofile t ≡ (filedup f t >>= λ t'. Run.returned (some fd, ofile', t'))
  unfolding dup_file
  dup_file-some f fd ofile ofile' t e = rw (e, dup_file) refl

  pub same_IsBalanced :
      {A : Type 0} {a b : A} {ofile ofile' : Ofile} {t t' : Files K}
      → ◌≡◌ {A = Run (A × Ofile × Files K)}
          (Run.returned (a, ofile, t))
          (Run.returned (b, ofile', t'))
      → IsBalanced ofile ofile' t t'
  same_IsBalanced {ofile = ofile} {ofile' = ofile'} {t = t} {t' = t'} e =
      let (_, p, q) = called_parts e in
      record {
        kept = λ g.
            ap (λ (u : Files K). (u.file g).ref + count g ofile) (sym q)
            ∙ ap (λ (o : Ofile). (t.file g).ref + count g o) p;
      }

  -- `sys_dup` and `sys_close` behind their `argfd`.
  abbrev dup_found : Ofile → Files K → Option (ℕ × ℕ) → Run (Option ℕ × Ofile × Files K)
  dup_found ofile t r = elim r [
    | none ↦ Run.returned (none, ofile, t)
    | some (_, f) ↦ dup_file f ofile t
  ]

  abbrev close_found :
      Services K → Ofile → Files K → Option (ℕ × ℕ) → Run (Option ℕ × Ofile × Files K)
  close_found s ofile t r = elim r [
    | none ↦ Run.returned (none, ofile, t)
    | some (fd, f) ↦ close_fd s fd f ofile t
  ]

module _ {K : Type 0} (s : Services K) where
  dup_file-IsBalanced :
      (f : ℕ) (ofile : Ofile) (t : Files K) {r : Option ℕ} {ofile' : Ofile} {t' : Files K}
      → dup_file f ofile t ≡ Run.returned (r, ofile', t')
      → IsBalanced ofile ofile' t t'
  dup_file-IsBalanced f ofile t {r} {ofile'} {t'} h = elim (Option-cases (fdalloc f ofile)) [
    | inl e ↦
        let (_, p, q) = called_parts (sym (dup_file-none f ofile t e) ∙ h) in
        record {
          kept = λ g.
              ap (λ (u : Files K). (u.file g).ref + count g ofile) (sym q)
              ∙ ap (λ (o : Ofile). (t.file g).ref + count g o) p;
        }
    | inr ((fd, more), e) ↦
        let (t1, dup, rest) =
          >>=-eq-returned (filedup f t) (λ t'. Run.returned (some fd, more, t'))
            (sym (dup_file-some f fd ofile more t e) ∙ h) in
        let (_, p, q) = called_parts rest in
        record {
          kept = λ g.
              ap (λ (u : Files K). (u.file g).ref + count g ofile) (sym q ∙ filedup-some s f t dup)
              ∙ added g
              ∙ ap (λ (m : ℕ). (t.file g).ref + m) (sym (fdalloc-count f ofile e g))
              ∙ ap (λ (o : Ofile). (t.file g).ref + count g o) p;
        }
  ]
    where
      added :
          (g : ℕ)
          → ((set_file f (record (t.file f) { ref = (t.file f).ref + 1 }) t).file g).ref
              + count g ofile
            ≡ (t.file g).ref + ((if f == g then 1 else 0) + count g ofile)
      added g = ground arith

  close_fd-IsBalanced :
      (fd f : ℕ) (ofile : Ofile) (t : Files K) {r : Option ℕ} {ofile' : Ofile} {t' : Files K}
      → slot fd ofile ≡ some f
      → close_fd s fd f ofile t ≡ Run.returned (r, ofile', t')
      → IsBalanced ofile ofile' t t'
  unfolding close_fd
  close_fd-IsBalanced fd f ofile t {r} {ofile'} {t'} at h =
      let (t1, close, rest) =
        >>=-eq-returned (fileclose s f t) (λ t'. Run.returned (some 0, set ofile fd none, t')) h in
      let (_, p, q) = called_parts rest in
      record {
        kept = λ g.
            ap (λ (u : Files K). (u.file g).ref + count g ofile) (sym q)
            ∙ dropped g _ _ _ (fileclose-file s f t close g) (fileclose-held s f t close)
                (count-set ofile fd f g at)
            ∙ ap (λ (o : Ofile). (t.file g).ref + count g o) p;
      }
    where
      dropped :
          (g n m k : ℕ)
          → n ≡ (if f == g then (t.file f).ref - 1 else (t.file g).ref)
          → 0 < (t.file f).ref
          → (if f == g then 1 else 0) + m ≡ k
          → n + k ≡ (t.file g).ref + m
      dropped g n m k e lt c = ground arith

  take_fd-full :
      (ofile : Ofile) (f : ℕ) (t : Files K)
      → fdalloc f ofile ≡ none
      → take_fd s ofile (some f, t) ≡ (fileclose s f t >>= λ t'. Run.returned (none, ofile, t'))
  unfolding take_fd
  take_fd-full ofile f t e = rw (e, take_fd) refl

  take_fd-some :
      (ofile : Ofile) (f fd : ℕ) (ofile' : Ofile) (t : Files K)
      → fdalloc f ofile ≡ some (fd, ofile')
      → take_fd s ofile (some f, t) ≡ Run.returned (some (fd, f), ofile', t)
  unfolding take_fd
  take_fd-some ofile f fd ofile' t e = rw (e, take_fd) refl

  opened_ref :
      (f g : ℕ) (t : Files K) {t1 : Files K}
      → filealloc t ≡ (some f, t1)
      → (t1.file g).ref ≡ (t.file g).ref + (if f == g then 1 else 0)
  opened_ref f g t e =
      let (z, eq) = filealloc-some s t e in
      ap (λ (u : Files K). (u.file g).ref) eq ∙ ground (arith, z)

  take_fd-IsBalanced :
      (ofile : Ofile) (t t1 : Files K) (f : ℕ) {r : Option (ℕ × ℕ)} {ofile' : Ofile} {t' : Files K}
      → filealloc t ≡ (some f, t1)
      → take_fd s ofile (some f, t1) ≡ Run.returned (r, ofile', t')
      → IsBalanced ofile ofile' t t'
  take_fd-IsBalanced ofile t t1 f {r} {ofile'} {t'} a h = elim (Option-cases (fdalloc f ofile)) [
    | inl e ↦
        let (t2, close, rest) =
          >>=-eq-returned (fileclose s f t1) (λ t'. Run.returned (none, ofile, t'))
            (sym (take_fd-full ofile f t1 e) ∙ h) in
        let (_, p, q) = called_parts rest in
        record {
          kept = λ g.
              ap (λ (u : Files K). (u.file g).ref + count g ofile) (sym q)
              ∙ undone g _ (fileclose-file s f t1 close g) (opened_ref f f t a) (opened_ref f g t a)
              ∙ ap (λ (o : Ofile). (t.file g).ref + count g o) p;
        }
    | inr ((fd, more), e) ↦
        let (_, p, q) = called_parts (sym (take_fd-some ofile f fd more t1 e) ∙ h) in
        record {
          kept = λ g.
              ap (λ (u : Files K). (u.file g).ref + count g ofile) (sym q)
              ∙ taken g _ _ (opened_ref f g t a) (fdalloc-count f ofile e g)
              ∙ ap (λ (o : Ofile). (t.file g).ref + count g o) p;
        }
  ]
    where
      undone :
          (g n : ℕ)
          → n ≡ (if f == g then (t1.file f).ref - 1 else (t1.file g).ref)
          → (t1.file f).ref ≡ (t.file f).ref + (if f == f then 1 else 0)
          → (t1.file g).ref ≡ (t.file g).ref + (if f == g then 1 else 0)
          → n + count g ofile ≡ (t.file g).ref + count g ofile
      undone g n e o1 o2 = ground arith

      taken :
          (g n m : ℕ)
          → n ≡ (t.file g).ref + (if f == g then 1 else 0)
          → m ≡ (if f == g then 1 else 0) + count g ofile
          → n + count g ofile ≡ (t.file g).ref + m
      taken g n m e c = omega arith

  pub sys_dup-IsBalanced :
      (frame : Trapframe) (ofile : Ofile) (t : Files K) {r : Option ℕ} {ofile' : Ofile}
      {t' : Files K}
      → sys_dup frame ofile t ≡ Run.returned (r, ofile', t')
      → IsBalanced ofile ofile' t t'
  unfolding sys_dup
  sys_dup-IsBalanced frame ofile t {r} {ofile'} {t'} h =
      let (found, _, rest) = >>=-eq-returned (argfd 0 frame ofile) (dup_found ofile t) h in
      split found rest
    where
      split :
          (a : Option (ℕ × ℕ))
          → dup_found ofile t a ≡ Run.returned (r, ofile', t')
          → IsBalanced ofile ofile' t t'
      split none e = same_IsBalanced e
      split (some (_, f)) e = dup_file-IsBalanced f ofile t e

  pub sys_close-IsBalanced :
      (frame : Trapframe) (ofile : Ofile) (t : Files K) {r : Option ℕ} {ofile' : Ofile}
      {t' : Files K}
      → sys_close s frame ofile t ≡ Run.returned (r, ofile', t')
      → IsBalanced ofile ofile' t t'
  unfolding sys_close
  sys_close-IsBalanced frame ofile t {r} {ofile'} {t'} h =
      let (found, e, rest) = >>=-eq-returned (argfd 0 frame ofile) (close_found s ofile t) h in
      split found e rest
    where
      split :
          (a : Option (ℕ × ℕ))
          → argfd 0 frame ofile ≡ Run.returned a
          → close_found s ofile t a ≡ Run.returned (r, ofile', t')
          → IsBalanced ofile ofile' t t'
      split none _ e = same_IsBalanced e
      split (some (fd, f)) a e = close_fd-IsBalanced fd f ofile t (argfd-slot 0 frame ofile a) e

  pub open_fd-IsBalanced :
      (ofile : Ofile) (t : Files K) {r : Option (ℕ × ℕ)} {ofile' : Ofile} {t' : Files K}
      → open_fd s ofile t ≡ Run.returned (r, ofile', t')
      → IsBalanced ofile ofile' t t'
  unfolding open_fd take_fd
  open_fd-IsBalanced ofile t {r} {ofile'} {t'} h = split (filealloc t) refl h
    where
      split :
          (a : Option ℕ × Files K)
          → filealloc t ≡ a
          → take_fd s ofile a ≡ Run.returned (r, ofile', t')
          → IsBalanced ofile ofile' t t'
      split (none, t1) e h =
          let (_, p, q) = called_parts h in
          record {
            kept = λ g.
                ap (λ (u : Files K). (u.file g).ref + count g ofile)
                  (sym (filealloc-same s t e ∙ q))
                ∙ ap (λ (o : Ofile). (t.file g).ref + count g o) p;
          }
      split (some f, t1) e h = take_fd-IsBalanced ofile t t1 f e h
