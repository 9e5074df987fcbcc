-- ===== src/Proc/Signals/Kill.antt =====
-- `kill` of kernel/proc.c: which process gets the signal.
use noy_hadar.Base.{
  ℕ, zero, suc, ◌≤◌, ◌<◌, Bool, true, false, some, List, [], ◌∷◌, get_elem?, set, ◌≡◌, ◌≢◌, ◌⊎◌,
  inl, inr, refl, ap, ◌∙◌, arith, ==_iff, ℕ_discrete, ne→==-false, some_inj, le→leb, lt→leb-false,
}
use noy_hadar.Proc.{Proc, sigs_num}
use noy_hadar.Proc.Signals.{post, kill, kill_from}

-- The signal went to the process at `place`, the first with that number, and to no other.
pub record Posted (pid signum : ℕ) (procs : List Proc) (result : Bool × List Proc) : Type 0 where
  pub place : ℕ
  pub victim : Proc
  pub stands : get_elem? procs place ≡ some victim
  pub named : victim.pid ≡ pid
  pub earliest : (j : ℕ) (q : Proc) → j < place → get_elem? procs j ≡ some q → q.pid ≢ pid
  pub outcome : result ≡ (true, set procs place (post signum victim))

-- No process has that number, and nothing changes.
pub record Missed (pid : ℕ) (procs : List Proc) (result : Bool × List Proc) : Type 0 where
  pub absent : (j : ℕ) (q : Proc) → get_elem? procs j ≡ some q → q.pid ≢ pid
  pub outcome : result ≡ (false, procs)

Posted-cons :
    {pid signum : ℕ} (p : Proc) (procs : List Proc)
    → p.pid ≢ pid
    → Posted pid signum procs (kill_from pid signum procs)
    → Posted pid signum (p ∷ procs) (kill_from pid signum (p ∷ procs))
unfolding kill_from
Posted-cons {pid} {signum} p procs ne f = record {
  place = suc f.place;
  victim = f.victim;
  stands = f.stands;
  named = f.named;
  earliest = earlier;
  outcome = rw (ne→==-false p.pid pid ne) (ap (λ (r : Bool × List Proc). (r.0, p ∷ r.1)) f.outcome);
}
  where
    earlier : (j : ℕ) (q : Proc) → j < suc f.place → get_elem? (p ∷ procs) j ≡ some q → q.pid ≢ pid
    earlier zero q lt e = λ h. ne (ap (λ (x : Proc). x.pid) (some_inj e) ∙ h)
    earlier (suc j) q lt e = f.earliest j q (omega arith) e

Missed-cons :
    {pid : ℕ} (signum : ℕ) (p : Proc) (procs : List Proc)
    → p.pid ≢ pid
    → Missed pid procs (kill_from pid signum procs)
    → Missed pid (p ∷ procs) (kill_from pid signum (p ∷ procs))
unfolding kill_from
Missed-cons {pid} signum p procs ne f = record {
  absent = away;
  outcome = rw (ne→==-false p.pid pid ne) (ap (λ (r : Bool × List Proc). (r.0, p ∷ r.1)) f.outcome);
}
  where
    away : (j : ℕ) (q : Proc) → get_elem? (p ∷ procs) j ≡ some q → q.pid ≢ pid
    away zero q e = λ h. ne (ap (λ (x : Proc). x.pid) (some_inj e) ∙ h)
    away (suc j) q e = f.absent j q e

kill_from-cases :
    (pid signum : ℕ) (procs : List Proc)
    → Posted pid signum procs (kill_from pid signum procs)
      ⊎ Missed pid procs (kill_from pid signum procs)
unfolding kill_from
kill_from-cases pid signum [] = inr (record { absent = λ j q e. cc; outcome = refl })
kill_from-cases pid signum (p ∷ procs) = elim (ℕ_discrete p.pid pid) [
  | yes e ↦ inl (record {
    place = 0;
    victim = p;
    stands = refl;
    named = e;
    earliest = λ j q lt. absurd (omega arith);
    outcome = rw ((==_iff p.pid pid).1 e);
  })
  | no ne ↦ elim (kill_from-cases pid signum procs) [
    | inl f ↦ inl (Posted-cons p procs ne f)
    | inr f ↦ inr (Missed-cons signum p procs ne f)
  ]
]

-- With a signal number in range, `kill` posts the signal to the first process of that number and
-- to no other, or finds none and changes nothing. With another number it fails and changes nothing.
pub kill-cases :
    (pid signum : ℕ) (procs : List Proc)
    → (signum < sigs_num
        → Posted pid signum procs (kill pid signum procs)
          ⊎ Missed pid procs (kill pid signum procs))
      × (sigs_num ≤ signum → kill pid signum procs ≡ (false, procs))
unfolding kill
kill-cases pid signum procs = (
  λ lt. rw (lt→leb-false sigs_num signum lt) (kill_from-cases pid signum procs),
  λ le. rw (le→leb sigs_num signum le),
)
