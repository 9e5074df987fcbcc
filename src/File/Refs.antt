-- ===== src/File/Refs.antt =====
-- The reference counts of the files of kernel/file.c, over any sequence of calls.
use noy_hadar.Base.{
  ℕ, zero, suc, ◌+◌, ◌-◌, ◌≤◌, ◌<◌, ◌==◌, ltb, if◌then◌else◌, Option, none, some, update, ◌≡◌, ◌≢◌,
  inl, inr, refl, ap, sym, ◌∙◌, arith, Bool-cases, Option-cases, some_inj, none-some, ltb-false→le,
  ==_iff, ==-false→ne, ℕ_discrete,
}
use noy_hadar.Vm.{Run}
use noy_hadar.Vm.Lookup.{>>=-eq-returned}
use noy_hadar.File.{
  File, Services, Files, nfile, find_file, set_file, closed, filealloc, filedup, close_rest,
  fileclose,
}

find_file-some :
    (rounds f : ℕ) (file : ℕ → File) {g : ℕ} → find_file rounds f file ≡ some g → (file g).ref ≡ 0
unfolding find_file
find_file-some zero f file h = absurd (none-some h)
find_file-some (suc rounds) f file h = elim (Bool-cases ((file f).ref == 0)) [
  | inl e ↦
      ap (λ (m : ℕ). (file m).ref) (sym (some_inj (rw (e, find_file) at h)))
      ∙ (==_iff (file f).ref 0).0 e
  | inr e ↦ find_file-some rounds (f + 1) file (rw (e, find_file) at h)
]

find_file-none :
    (rounds f : ℕ) (file : ℕ → File) (g : ℕ)
    → find_file rounds f file ≡ none
    → f ≤ g
    → g < f + rounds
    → (file g).ref ≢ 0
unfolding find_file
find_file-none zero f file g h lo hi = absurd (omega arith)
find_file-none (suc rounds) f file g h lo hi = elim (Bool-cases ((file f).ref == 0)) [
  | inl e ↦ absurd (none-some (sym (rw (e, find_file) at h)))
  | inr e ↦ elim (ℕ_discrete f g) [
    | yes q ↦ λ z. ==-false→ne (file f).ref 0 e (ap (λ (m : ℕ). (file m).ref) q ∙ z)
    | no q ↦
        find_file-none rounds (f + 1) file g (rw (e, find_file) at h) (omega arith) (omega arith)
  ]
]

-- The table, and how many references to each file the processes hold.
pub record System (K : Type 0) : Type 0 where
  pub files : Files K
  pub held : ℕ → ℕ

module _ {K : Type 0} (s : Services K) where
  -- A process opens a file, duplicates or closes one that it holds, or reads, writes and the rest,
  -- which change no reference.
  pub data Step (x : System K) : System K → Type 0 where
    opens :
        {t' : Files K} (f : ℕ)
        → filealloc x.files ≡ (some f, t')
        → Step x (record { files = t'; held = update x.held f (x.held f + 1) })
    dups :
        {t' : Files K} (f : ℕ)
        → 0 < x.held f
        → filedup f x.files ≡ Run.returned t'
        → Step x (record { files = t'; held = update x.held f (x.held f + 1) })
    closes :
        {t' : Files K} (f : ℕ)
        → 0 < x.held f
        → fileclose s f x.files ≡ Run.returned t'
        → Step x (record { files = t'; held = update x.held f (x.held f - 1) })
    elsewhere :
        (t' : Files K)
        → ((f : ℕ) → (t'.file f).ref ≡ (x.files.file f).ref)
        → Step x (record x { files = t' })

  pub data Reach (start : System K) : System K → Type 0 where
    here : Reach start start
    next : {x y : System K} → Reach start x → Step x y → Reach start y

  record Counted (x : System K) : Type 0 where
    refs : (f : ℕ) → (x.files.file f).ref ≡ x.held f

  pub filealloc-some :
      (t : Files K) {f : ℕ} {t' : Files K}
      → filealloc t ≡ (some f, t')
      → ((t.file f).ref ≡ 0) × (t' ≡ set_file f (record (t.file f) { ref = 1 }) t)
  unfolding filealloc
  filealloc-some t {f} {t'} h = elim (Option-cases (find_file nfile 0 t.file)) [
    | inl e ↦ absurd (none-some (ap (λ (r : Option ℕ × Files K). r.0) (rw (e, filealloc) at h)))
    | inr (g, e) ↦
        let run : ◌≡◌ {A = Option ℕ × Files K}
            (some g, set_file g (record (t.file g) { ref = 1 }) t) (some f, t') =
          rw (e, filealloc) at h in
        let same : g ≡ f = some_inj (ap (λ (r : Option ℕ × Files K). r.0) run) in
        (
          ap (λ (m : ℕ). (t.file m).ref) (sym same) ∙ find_file-some nfile 0 t.file e,
          sym (ap (λ (r : Option ℕ × Files K). r.1) run)
              ∙ ap (λ (m : ℕ). set_file m (record (t.file m) { ref = 1 }) t) same,
        )
  ]

  filealloc-none :
      (t : Files K) {t' : Files K}
      → filealloc t ≡ (none, t')
      → (f : ℕ) → f < nfile
      → (t.file f).ref ≢ 0
  unfolding filealloc
  filealloc-none t h f lt = elim (Option-cases (find_file nfile 0 t.file)) [
    | inl e ↦ find_file-none nfile 0 t.file f e (omega arith) lt
    | inr (g, e) ↦
        absurd (none-some (sym (ap (λ (r : Option ℕ × Files K). r.0) (rw (e, filealloc) at h))))
  ]

  pub filedup-some :
      (f : ℕ) (t : Files K) {t' : Files K}
      → filedup f t ≡ Run.returned t'
      → t' ≡ set_file f (record (t.file f) { ref = (t.file f).ref + 1 }) t
  unfolding filedup
  filedup-some f t h = ground arith

  -- What `fileclose` leaves of the table.
  pub fileclose-file :
      (f : ℕ) (t : Files K) {t' : Files K}
      → fileclose s f t ≡ Run.returned t'
      → (g : ℕ) → (t'.file g).ref ≡ (if f == g then (t.file f).ref - 1 else (t.file g).ref)
  unfolding fileclose
  fileclose-file f t {t'} h g = elim (Bool-cases (ltb (t.file f).ref 1)) [
    | inl none_left ↦ absurd (not_panic (rw none_left at h))
    | inr some_left ↦ elim (Bool-cases (ltb 0 ((t.file f).ref - 1))) [
      | inl more ↦
          ap (λ (x : Files K). (x.file g).ref) (sym (same (rw (some_left, more) at h)))
          ∙ kept g ((t.file f).ref - 1) (record (t.file f) { ref = (t.file f).ref - 1 }) refl
      | inr last ↦
          let (k, _, rest) =
            >>=-eq-returned (close_rest s (t.file f) t.kernel)
              (λ k.
                Run.returned (record t { file = update t.file f (closed (t.file f)); kernel = k }))
              (rw (some_left, last) at h) in
          ap (λ (x : Files K). (x.file g).ref) (sym (same rest))
          ∙ kept g ((t.file f).ref - 1) (closed (t.file f))
              (omega (arith, ltb-false→le 0 ((t.file f).ref - 1) last))
    ]
  ]
    where
      not_panic : ◌≢◌ {A = Run (Files K)} Run.panic (Run.returned t')
      not_panic = λ e. cc

      same : {a : Files K} → ◌≡◌ {A = Run (Files K)} (Run.returned a) (Run.returned t') → a ≡ t'
      same e = cc

      kept :
          (m n : ℕ) (x : File)
          → x.ref ≡ n
          → (update t.file f x m).ref ≡ (if f == m then n else (t.file m).ref)
      kept m n x e = ground arith

  pub fileclose-held :
      (f : ℕ) (t : Files K) {t' : Files K} → fileclose s f t ≡ Run.returned t' → 0 < (t.file f).ref
  unfolding fileclose
  fileclose-held f t {t'} h = elim (Bool-cases (ltb (t.file f).ref 1)) [
    | inl none_left ↦ absurd (not_panic (rw none_left at h))
    | inr some_left ↦ ltb-false→le (t.file f).ref 1 some_left
  ]
    where
      not_panic : ◌≢◌ {A = Run (Files K)} Run.panic (Run.returned t')
      not_panic = λ e. cc

  pub filealloc-same : (t : Files K) {t' : Files K} → filealloc t ≡ (none, t') → t ≡ t'
  unfolding filealloc
  filealloc-same t h = elim (Option-cases (find_file nfile 0 t.file)) [
    | inl e ↦ ap (λ (r : Option ℕ × Files K). r.1) (rw (e, filealloc) at h)
    | inr (g, e) ↦
        absurd (none-some (sym (ap (λ (r : Option ℕ × Files K). r.0) (rw (e, filealloc) at h))))
  ]

  Step-Counted : {x y : System K} → Step x y → Counted x → Counted y
  Step-Counted {x} (Step.opens {t'} f h) v =
      let (z, e) = filealloc-some x.files h in
      record {
        refs = λ g. ap (λ (u : Files K). (u.file g).ref) e ∙ ground (arith, v.refs f, v.refs g);
      }
  Step-Counted {x} (Step.dups {t'} f held h) v =
      let e = filedup-some f x.files h in
      record {
        refs = λ g. ap (λ (u : Files K). (u.file g).ref) e ∙ ground (arith, v.refs f, v.refs g);
      }
  Step-Counted {x} (Step.closes f held h) v = record {
    refs = λ g. fileclose-file f x.files h g ∙ ground (arith, v.refs f, v.refs g);
  }
  Step-Counted {x} (Step.elsewhere t' same) v = record { refs = λ f. same f ∙ v.refs f }

  Reach-Counted : {start x : System K} → Reach start x → Counted start → Counted x
  Reach-Counted Reach.here v = v
  Reach-Counted (Reach.next r st) v = Step-Counted st (Reach-Counted r v)

  filedup-held : (f : ℕ) (t : Files K) → 0 < (t.file f).ref → filedup f t ≢ Run.panic
  unfolding filedup
  filedup-held f t lt = ground arith

  -- From a table with no references, whatever the calls: the count of each file is the number of
  -- references that the processes hold, so that `filealloc` returns a file that nobody holds, fails
  -- only when every file is held, and `filedup` of a file that is held does not panic.
  pub file_refs :
      {start x : System K}
      → ((f : ℕ) → (start.files.file f).ref ≡ 0)
      → ((f : ℕ) → start.held f ≡ 0)
      → Reach start x
      → ((f : ℕ) → (x.files.file f).ref ≡ x.held f)
        × ((f : ℕ) (t' : Files K) → filealloc x.files ≡ (some f, t') → x.held f ≡ 0)
        × ((f : ℕ) (t' : Files K) → filealloc x.files ≡ (none, t') → f < nfile → 0 < x.held f)
        × ((f : ℕ) → 0 < x.held f → filedup f x.files ≢ Run.panic)
  file_refs {x = x} no_refs none_held r =
      let v = Reach-Counted r (record { refs = λ f. no_refs f ∙ sym (none_held f) }) in
      (
        v.refs,
        λ f t' h. sym (v.refs f) ∙ (filealloc-some x.files h).0,
        λ f t' h lt. omega (arith, filealloc-none x.files h f lt, v.refs f),
        λ f lt. filedup-held f x.files (omega (arith, v.refs f)),
      )
