-- ===== src/Proc/Signals/Life.antt =====
-- What holds of a process through any sequence of the signal operations of kernel/proc.c.
use noy_hadar.Base.{
  ℕ, zero, suc, ◌+◌, ◌≤◌, ◌<◌, ◌==◌, Bool, true, false, not, ◌&&◌, some, none, List, ◌≡◌, ◌≢◌, inl,
  inr, refl, ap, ◌∙◌, sym, arith, Option, Bool-cases,
}
use noy_hadar.Base.Bits.{has, without_bit, has-with_bit, has-without_bit}
use noy_hadar.Vm.{Run}
use noy_hadar.Vm.Lookup.{>>=-eq-returned}
use noy_hadar.Proc.{Proc, sigs_num, sigkill, sig_dfl}
use noy_hadar.Proc.Signals.{
  post, sigstop_handler, sigprocmask, Sigaction, sigaction, sigret, default_action, sigkill_handler,
  sigcont_handler, clear_pending, backup_mask, start_handler, Delivery, deliverable,
  user_space_handler, end_default, handle_signal, signals_from, signal_handler,
}
use noy_hadar.Proc.Signals.Stop.{stop_loop-none}

module _ {Memory : Type 0} (copyout : ℕ → ℕ → List ℕ → Memory → Memory) (code : List ℕ) where
  -- One operation on the process.
  pub data Event (p : Proc) : Proc → Type 0 where
    posted : (signum : ℕ) → signum < sigs_num → Event p (post signum p)
    masked : (mask : ℕ) → Event p (sigprocmask mask p).1
    acted :
        (signum : ℕ) (act : Option Sigaction) (ok : Bool) → Event p (sigaction signum act ok p).1
    returned : {q : Proc} → sigret p ≡ Run.returned q → Event p q
    delivered :
        (yields : List (List ℕ)) (memory : Memory) {d : Delivery Memory}
        → signal_handler copyout code (record { yields = yields; memory = memory; proc = p })
          ≡ Run.returned d
        → Event p d.proc

  pub data Life (p : Proc) : Proc → Type 0 where
    born : Life p p
    later : {q r : Proc} → Life p q → Event q r → Life p r

  returned_inj : {A : Type 0} {a b : A} → ◌≡◌ {A = Run A} (Run.returned a) (Run.returned b) → a ≡ b
  returned_inj e = cc

  -- What a `sigret` that returns keeps.
  sigret-keeps :
      (p : Proc) {q : Proc}
      → sigret p ≡ Run.returned q
      → (q.sig_handler_flag ≡ p.sig_handler_flag) × (q.pending_signals ≡ p.pending_signals)
  unfolding sigret
  sigret-keeps p h = ground arith

  busy :
      (d : Delivery Memory)
      → d.proc.sig_handler_flag ≡ true
      → signal_handler copyout code d ≡ Run.returned d
  unfolding signal_handler
  busy d e = rw e

  Event-flag : {p q : Proc} → Event p q → p.sig_handler_flag ≡ true → q.sig_handler_flag ≡ true
  unfolding post sigprocmask sigaction
  Event-flag (posted s lt) e = ground arith
  Event-flag (masked m) e = e
  Event-flag (acted s a ok) e = ground arith
  Event-flag {p} (returned h) e = (sigret-keeps p h).0 ∙ e
  Event-flag {p} (delivered y m {d} h) e =
      ap (λ (x : Delivery Memory). x.proc.sig_handler_flag)
        (returned_inj (sym h ∙ busy (record { yields = y; memory = m; proc = p }) e))
      ∙ e

  Life-flag : {p q : Proc} → Life p q → p.sig_handler_flag ≡ true → q.sig_handler_flag ≡ true
  Life-flag born e = e
  Life-flag (later l ev) e = Event-flag ev (Life-flag l e)

  -- Of a process with `sigHandlerFlag` set: nothing of the signal operations ends the handling of a
  -- signal, `sigret` included: once a user's handler is started, no later pass of `signalHandler`
  -- over the process does anything.
  pub never_again :
      {p q : Proc} (yields : List (List ℕ)) (memory : Memory)
      → p.sig_handler_flag ≡ true
      → Life p q
      → let d : Delivery Memory = record { yields = yields; memory = memory; proc = q } in
        signal_handler copyout code d ≡ Run.returned d
  never_again yields memory e l = busy _ (Life-flag l e)

  -- The pending bit of SIGKILL, which `kill` never sets.
  abbrev killbit : Proc → Bool
  killbit p = has p.pending_signals sigkill

  stop-none :
      (yields : List (List ℕ)) (p : Proc) → killbit p ≡ false → sigstop_handler yields p ≡ none
  unfolding sigstop_handler
  stop-none yields p clear = stop_loop-none yields (record p { frozen = true }) refl clear

  default-kill :
      (i : ℕ) (yields : List (List ℕ)) (p : Proc) {r : List (List ℕ)} {q : Proc}
      → killbit p ≡ false
      → default_action i yields p ≡ some (r, q)
      → killbit q ≡ false
  unfolding default_action sigkill_handler sigcont_handler
  default-kill i yields p clear e = ground (arith, stop-none yields p clear)

  without_bit-kill :
      (i x : ℕ) → i < sigs_num → has x sigkill ≡ false → has (without_bit x i) sigkill ≡ false
  without_bit-kill i x lt clear =
      has-without_bit x i sigkill lt (omega arith)
      ∙ ap (λ (b : Bool). b && not (i == sigkill)) clear

  caught-kill :
      (i : ℕ) (d : Delivery Memory) {e : Delivery Memory}
      → i < sigs_num
      → killbit d.proc ≡ false
      → user_space_handler copyout code i (record d { proc = backup_mask d.proc }) ≡ Run.returned e
      → killbit e.proc ≡ false
  unfolding user_space_handler start_handler clear_pending backup_mask
  caught-kill i d {e} lt clear h = elim (Bool-cases d.proc.sig_handler_flag) [
    | inl set ↦ keep (rw set at h) clear
    | inr free ↦ elim (Bool-cases (d.proc.backup_page == 0)) [
      | inl null ↦ absurd (not_panic (rw (free, null) at h))
      | inr page ↦ keep (rw (free, page) at h) (without_bit-kill i d.proc.pending_signals lt clear)
    ]
  ]
    where
      not_panic : ◌≢◌ {A = Run (Delivery Memory)} Run.panic (Run.returned e)
      not_panic = λ q. cc

      keep :
          {f : Delivery Memory}
          → ◌≡◌ {A = Run (Delivery Memory)} (Run.returned f) (Run.returned e)
          → killbit f.proc ≡ false
          → killbit e.proc ≡ false
      keep q c = ap (λ (x : Delivery Memory). killbit x.proc) (sym (returned_inj q)) ∙ c

  -- The three ways through the body of the loop.
  handle-idle :
      (i : ℕ) (d : Delivery Memory)
      → deliverable i d.proc ≡ false
      → handle_signal copyout code i d ≡ Run.returned d
  unfolding handle_signal
  handle-idle i d idle = rw idle

  handle-user :
      (i : ℕ) (d : Delivery Memory)
      → deliverable i d.proc ≡ true
      → (d.proc.signal_handlers i == sig_dfl) ≡ false
      → handle_signal copyout code i d
        ≡ user_space_handler copyout code i (record d { proc = backup_mask d.proc })
  unfolding handle_signal
  handle-user i d act user = rw (act, user)

  handle-default :
      (i : ℕ) (d : Delivery Memory)
      → deliverable i d.proc ≡ true
      → (d.proc.signal_handlers i == sig_dfl) ≡ true
      → handle_signal copyout code i d ≡ end_default i d (default_action i d.yields d.proc)
  unfolding handle_signal
  handle-default i d act default = rw (act, default)

  default-Delivery :
      (i : ℕ) (d : Delivery Memory) {e : Delivery Memory} (o : Option (List (List ℕ) × Proc))
      → i < sigs_num
      → killbit d.proc ≡ false
      → default_action i d.yields d.proc ≡ o
      → end_default i d o ≡ Run.returned e
      → killbit e.proc ≡ false
  unfolding end_default clear_pending
  default-Delivery i d none lt clear went h = absurd (cc)
  default-Delivery i d (some (r, q)) lt clear went h =
      ap (λ (x : Delivery Memory). killbit x.proc) (sym (returned_inj h))
      ∙ without_bit-kill i q.pending_signals lt (default-kill i d.yields d.proc clear went)

  handle-kill :
      (i : ℕ) (d : Delivery Memory) {e : Delivery Memory}
      → i < sigs_num
      → killbit d.proc ≡ false
      → handle_signal copyout code i d ≡ Run.returned e
      → killbit e.proc ≡ false
  handle-kill i d {e} lt clear h = elim (Bool-cases (deliverable i d.proc)) [
    | inr idle ↦ keep (returned_inj (sym (handle-idle i d idle) ∙ h)) clear
    | inl act ↦ elim (Bool-cases (d.proc.signal_handlers i == sig_dfl)) [
      | inr user ↦ caught-kill i d lt clear (sym (handle-user i d act user) ∙ h)
      | inl default ↦
          default-Delivery i d (default_action i d.yields d.proc) lt clear refl
            (sym (handle-default i d act default) ∙ h)
    ]
  ]
    where
      keep : {f : Delivery Memory} → f ≡ e → killbit f.proc ≡ false → killbit e.proc ≡ false
      keep q c = ap (λ (x : Delivery Memory). killbit x.proc) (sym q) ∙ c

  signals-kill :
      (rounds k : ℕ) (d : Delivery Memory) {e : Delivery Memory}
      → k + rounds ≤ sigs_num
      → killbit d.proc ≡ false
      → signals_from copyout code rounds k d ≡ Run.returned e
      → killbit e.proc ≡ false
  unfolding signals_from
  signals-kill zero k d le clear h =
      ap (λ (x : Delivery Memory). killbit x.proc) (sym (returned_inj h)) ∙ clear
  signals-kill (suc rounds) k d {e} le clear h =
      let (d', went, rest) =
        >>=-eq-returned (handle_signal copyout code k d) (signals_from copyout code rounds (k + 1))
          h in
      signals-kill rounds (k + 1) d' (omega arith) (handle-kill k d (omega arith) clear went) rest

  signals_run :
      (d : Delivery Memory)
      → d.proc.sig_handler_flag ≡ false
      → signal_handler copyout code d ≡ signals_from copyout code 32 0 d
  unfolding signal_handler
  signals_run d free = rw free

  freely :
      (d : Delivery Memory) {e : Delivery Memory}
      → d.proc.sig_handler_flag ≡ false
      → signal_handler copyout code d ≡ Run.returned e
      → signals_from copyout code 32 0 d ≡ Run.returned e
  freely d free h = sym (signals_run d free) ∙ h

  Event-kill : {p q : Proc} → Event p q → killbit p ≡ false → killbit q ≡ false
  unfolding post sigprocmask sigaction
  Event-kill {p} (posted s lt) e = ground (arith, has-with_bit p.pending_signals s sigkill)
  Event-kill (masked m) e = e
  Event-kill (acted s a ok) e = ground arith
  Event-kill {p} (returned h) e = ap (λ (x : ℕ). has x sigkill) (sigret-keeps p h).1 ∙ e
  Event-kill {p} (delivered y m {d} h) e = elim (Bool-cases p.sig_handler_flag) [
    | inl set ↦
        ap (λ (x : Delivery Memory). killbit x.proc)
          (returned_inj (sym h ∙ busy (record { yields = y; memory = m; proc = p }) set))
        ∙ e
    | inr free ↦
        signals-kill 32 0 (record { yields = y; memory = m; proc = p }) (omega arith) e
          (freely (record { yields = y; memory = m; proc = p }) free h)
  ]

  Life-kill : {p q : Proc} → Life p q → killbit p ≡ false → killbit q ≡ false
  Life-kill born e = e
  Life-kill (later l ev) e = Event-kill ev (Life-kill l e)

  -- A process with no pending SIGKILL at its start, through any signal operations on it and
  -- whatever is posted to it: if it then stops by SIGSTOP, no later signal resumes or kills it
  -- there, neither SIGCONT nor SIGKILL.
  pub stopped_for_good :
      {p q : Proc} (yields : List (List ℕ))
      → has p.pending_signals sigkill ≡ false
      → Life p q
      → sigstop_handler yields q ≡ none
  stopped_for_good {q} yields clear l = stop-none yields q (Life-kill l clear)
