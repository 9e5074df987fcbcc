-- ===== src/Proc/Signals/Deliver.antt =====
-- The loop of `signalHandler` in kernel/proc.c, for the signals that are pending.
use noy_hadar.Base.{
  ℕ, zero, suc, if◌then◌else◌, ◌+◌, ◌-◌, ◌%◌, ◌^◌, ◌≤◌, ◌<◌, ◌==◌, Bool, true, false, not, ◌&&◌,
  List, ◌≡◌, ◌≢◌, ap, ap₂, ◌∙◌, sym, arith, length, ℕ_discrete, ne→==-false, ==_iff, subst, inl,
  inr, Bool-cases, refl,
}
use noy_hadar.Base.Bits.{has, without_bit, has-without_bit}
use noy_hadar.Vm.{Run}
use noy_hadar.Proc.{Proc, sigs_num, sig_dfl, sig_ign}
use noy_hadar.Proc.Signals.{
  sigret, Delivery, deliverable, handle_signal, signals_from, signal_handler, user_space_handler,
  handler_frame, clear_pending, backup_mask, start_handler,
}

-- No signal from `k` up to `k + rounds` is pending.
abbrev Quiet : ℕ → ℕ → Proc → Type 0
Quiet k rounds p = (j : ℕ) → k ≤ j → j < k + rounds → has p.pending_signals j ≡ false

-- A signal with a handler of the user's is pending and not blocked.
pub record Caught (i : ℕ) (p : Proc) : Type 0 where
  pub pending : has p.pending_signals i ≡ true
  pub open_mask : has p.signal_mask i ≡ false
  pub not_default : p.signal_handlers i ≢ sig_dfl
  pub not_ignored : p.signal_handlers i ≢ sig_ign

-- The process after the start of a handler.
pub record Started (i size : ℕ) (p q : Proc) : Type 0 where
  pub pc : q.trapframe.epc ≡ p.signal_handlers i
  pub argument : q.trapframe.a0 ≡ i
  pub stack : q.trapframe.sp ≡ (p.trapframe.sp + 2 ^ 64 - size) % 2 ^ 64
  pub return_to : q.trapframe.ra ≡ q.trapframe.sp
  pub rest : q.trapframe.others ≡ p.trapframe.others
  pub mask : q.signal_mask ≡ p.sig_mask_array i
  pub flag : q.sig_handler_flag ≡ true
  pub handlers : q.signal_handlers ≡ p.signal_handlers
  pub taken : q.pending_signals ≡ without_bit p.pending_signals i
  pub saved : q.backup_trapframe ≡ p.trapframe
  pub saved_mask : q.backup_sig_mask ≡ p.signal_mask
  pub page : q.backup_page ≡ p.backup_page

module _ {Memory : Type 0} (copyout : ℕ → ℕ → List ℕ → Memory → Memory) (code : List ℕ) where
  skip :
      (i : ℕ) (d : Delivery Memory)
      → has d.proc.pending_signals i ≡ false
      → handle_signal copyout code i d ≡ Run.returned d
  unfolding handle_signal deliverable
  skip i d h = simp h

  skip_all :
      (rounds k : ℕ) (d : Delivery Memory)
      → Quiet k rounds d.proc
      → signals_from copyout code rounds k d ≡ Run.returned d
  unfolding signals_from
  skip_all zero k d h = refl
  skip_all (suc rounds) k d h =
      rw (skip k d (h k (omega arith) (omega arith)), signals_from)
        (skip_all rounds (k + 1) d (λ j a b. h j (omega arith) (omega arith)))

  -- The delivery once `i` is started, or reported while another handler runs.
  abbrev caught : ℕ → Delivery Memory → Delivery Memory
  caught i d =
      let q = start_handler copyout code i (backup_mask d.proc) in
      if d.proc.sig_handler_flag
      then record d { proc = backup_mask d.proc }
      else record d { memory = copyout d.proc.pagetable q.trapframe.sp code d.memory; proc = q }

  user_space-caught :
      (i : ℕ) (d : Delivery Memory)
      → d.proc.backup_page ≢ 0
      → user_space_handler copyout code i (record d { proc = backup_mask d.proc })
        ≡ Run.returned (caught i d)
  unfolding user_space_handler backup_mask
  user_space-caught i d page = elim (Bool-cases d.proc.sig_handler_flag) [
    | inl e ↦ simp e refl
    | inr e ↦ simp (e, ne→==-false d.proc.backup_page 0 page) refl
  ]

  handle-Caught :
      (i : ℕ) (d : Delivery Memory)
      → Caught i d.proc
      → d.proc.backup_page ≢ 0
      → handle_signal copyout code i d ≡ Run.returned (caught i d)
  unfolding handle_signal deliverable
  handle-Caught i d c page =
      simp
        (
          c.pending,
          c.open_mask,
          ne→==-false (d.proc.signal_handlers i) 1 c.not_ignored,
          ne→==-false (d.proc.signal_handlers i) 0 c.not_default,
        )
        (user_space-caught i d page)

  caught_first :
      (i : ℕ) (d : Delivery Memory)
      → d.proc.sig_handler_flag ≡ false
      → (caught i d).proc ≡ start_handler copyout code i (backup_mask d.proc)
  unfolding backup_mask
  caught_first i d e = simp e

  caught_later :
      (i : ℕ) (d : Delivery Memory)
      → d.proc.sig_handler_flag ≡ true
      → (caught i d).proc ≡ backup_mask d.proc
  unfolding backup_mask
  caught_later i d e = simp e

  start-Started :
      (i : ℕ) (p : Proc) → Started i (length code) p (start_handler copyout code i (backup_mask p))
  unfolding start_handler clear_pending backup_mask handler_frame
  start-Started i p = record {
    pc = refl;
    argument = refl;
    stack = refl;
    return_to = refl;
    rest = refl;
    mask = refl;
    flag = refl;
    handlers = refl;
    taken = refl;
    saved = refl;
    saved_mask = refl;
    page = refl;
  }

  skip_to :
      (m rest rounds k i : ℕ) (d : Delivery Memory)
      → m + rest ≡ rounds
      → k + m ≡ i
      → ((j : ℕ) → k ≤ j → j < i → has d.proc.pending_signals j ≡ false)
      → signals_from copyout code rounds k d ≡ signals_from copyout code rest i d
  unfolding signals_from
  skip_to zero rest rounds k i d e f h =
      ap₂ (λ (r n : ℕ). signals_from copyout code r n d) (omega arith) (omega arith)
  skip_to (suc m) rest zero k i d e f h = absurd (omega arith)
  skip_to (suc m) rest (suc rounds) k i d e f h =
      rw (skip k d (h k (omega arith) (omega arith)), signals_from)
        (skip_to m rest rounds (k + 1) i d (omega arith) (omega arith)
          (λ j a b. h j (omega arith) b))

  -- The signals below `i` are not pending, and `i` is caught.
  reach_caught :
      (i rest rounds k : ℕ) (d : Delivery Memory)
      → i + suc rest ≡ k + rounds
      → k ≤ i
      → ((j : ℕ) → k ≤ j → j < i → has d.proc.pending_signals j ≡ false)
      → Caught i d.proc
      → d.proc.backup_page ≢ 0
      → signals_from copyout code rounds k d ≡ signals_from copyout code rest (i + 1) (caught i d)
  unfolding signals_from
  reach_caught i rest rounds k d e le h c page =
      skip_to (i - k) (suc rest) rounds k i d (omega arith) (omega arith) h
      ∙ rw (handle-Caught i d c page, signals_from)

  handler_free :
      (d : Delivery Memory)
      → d.proc.sig_handler_flag ≡ false
      → signal_handler copyout code d ≡ signals_from copyout code 32 0 d
  unfolding signal_handler
  handler_free d e = rw e

  caught-Started :
      (i : ℕ) (d : Delivery Memory)
      → d.proc.sig_handler_flag ≡ false
      → Started i (length code) d.proc (caught i d).proc
  caught-Started i d e =
      subst (Started i (length code) d.proc) (sym (caught_first i d e)) (start-Started i d.proc)

  -- After the start of a handler its own signal is pending no more, the others as before.
  has-Started :
      {i size : ℕ} {p q : Proc} (j : ℕ)
      → Started i size p q
      → i < sigs_num
      → j < sigs_num
      → has q.pending_signals j ≡ (has p.pending_signals j && not (i == j))
  has-Started {i} {p} j s li lj =
      ap (λ (x : ℕ). has x j) s.taken ∙ has-without_bit p.pending_signals i j li lj

-- The process behind `sigret`.
abbrev back_at : Proc → Proc
back_at p = record p { trapframe = p.backup_trapframe; signal_mask = p.backup_sig_mask }

sigret-back : (p : Proc) → p.backup_page ≢ 0 → sigret p ≡ Run.returned (back_at p)
unfolding sigret
sigret-back p page = simp (ne→==-false p.backup_page 0 page) refl

-- No handler runs, the process has a page for the backup, exactly one signal is pending, it is not
-- blocked, and the user catches it: its handler is started, on the stack, with the registers and
-- the mask that `sigret` later brings back, and with the handler's own mask.
pub deliver_one :
    {Memory : Type 0} (copyout : ℕ → ℕ → List ℕ → Memory → Memory) (code : List ℕ) (i : ℕ)
    (d : Delivery Memory)
    → i < sigs_num
    → d.proc.sig_handler_flag ≡ false
    → d.proc.backup_page ≢ 0
    → Caught i d.proc
    → ((j : ℕ) → j < sigs_num → j ≢ i → has d.proc.pending_signals j ≡ false)
    → (e : Delivery Memory) × (signal_handler copyout code d ≡ Run.returned e)
      × Started i (length code) d.proc e.proc
      × (back : Proc) × (sigret e.proc ≡ Run.returned back)
      × (back.trapframe ≡ d.proc.trapframe)
      × (back.signal_mask ≡ d.proc.signal_mask)
deliver_one copyout code i d lt free page c alone = (
  caught copyout code i d,
  handler_free copyout code d free
      ∙ reach_caught copyout code i (31 - i) 32 0 d (omega arith) (omega arith)
          (λ j _ b. alone j (omega arith) (omega arith)) c page
      ∙ skip_all copyout code (31 - i) (i + 1) (caught copyout code i d) (λ j a b.
        has-Started copyout code j started lt (omega arith)
        ∙ ap (λ (x : Bool). x && not (i == j)) (alone j (omega arith) (omega arith))),
  started,
  back_at (caught copyout code i d).proc,
  sigret-back (caught copyout code i d).proc (λ z. page (sym started.page ∙ z)),
  started.saved,
  started.saved_mask,
)
  where
    started : Started i (length code) d.proc (caught copyout code i d).proc
    started = caught-Started copyout code i d free

-- No handler runs, the process has a page for the backup, just two signals are pending, neither is
-- blocked, the user catches both, and the mask of the handler of the first does not block the
-- second. The handler of the first is started; the second stays pending; and the mask that `sigret`
-- will bring back is the mask of the first handler, not the mask of the process.
pub deliver_two :
    {Memory : Type 0} (copyout : ℕ → ℕ → List ℕ → Memory → Memory) (code : List ℕ) (i j : ℕ)
    (d : Delivery Memory)
    → i < j
    → j < sigs_num
    → d.proc.sig_handler_flag ≡ false
    → d.proc.backup_page ≢ 0
    → Caught i d.proc
    → Caught j d.proc
    → has (d.proc.sig_mask_array i) j ≡ false
    → ((m : ℕ) → m < sigs_num → m ≢ i → m ≢ j → has d.proc.pending_signals m ≡ false)
    → (e : Delivery Memory) × (signal_handler copyout code d ≡ Run.returned e)
      × (e.proc.trapframe.epc ≡ d.proc.signal_handlers i)
      × (has e.proc.pending_signals j ≡ true)
      × (back : Proc) × (sigret e.proc ≡ Run.returned back)
      × (back.signal_mask ≡ d.proc.sig_mask_array i)
unfolding backup_mask
deliver_two {Memory} copyout code i j d lt lj free page ci cj passes alone = (
  second,
  handler_free copyout code d free
      ∙ reach_caught copyout code i (31 - i) 32 0 d (omega arith) (omega arith)
          (λ m _ b. alone m (omega arith) (omega arith) (omega arith)) ci page
      ∙ reach_caught copyout code j (31 - j) (31 - i) (i + 1) (caught copyout code i d)
          (omega arith) (omega arith) (λ m a b. gone m (omega arith) (omega arith)) again has_page
      ∙ skip_all copyout code (31 - j) (j + 1) second (λ m a b.
        ap (λ (q : Proc). has q.pending_signals m) same ∙ gone m (omega arith) (omega arith)),
  ap (λ (q : Proc). q.trapframe.epc) same ∙ started.pc,
  ap (λ (q : Proc). has q.pending_signals j) same ∙ again.pending,
  back_at second.proc,
  sigret-back second.proc (λ z. has_page (ap (λ (q : Proc). q.backup_page) (sym same) ∙ z)),
  ap (λ (q : Proc). q.backup_sig_mask) same ∙ started.mask,
)
  where
    first : Delivery Memory
    first = caught copyout code i d

    second : Delivery Memory
    second = caught copyout code j first

    started : Started i (length code) d.proc first.proc
    started = caught-Started copyout code i d free

    has_page : first.proc.backup_page ≢ 0
    has_page z = page (sym started.page ∙ z)

    same : second.proc ≡ backup_mask first.proc
    same = caught_later copyout code j first started.flag

    again : Caught j first.proc
    again = record {
      pending =
          has-Started copyout code j started (omega arith) lj
          ∙ ground (arith, cj.pending, ne→==-false i j (omega arith));
      open_mask = ap (λ (x : ℕ). has x j) started.mask ∙ passes;
      not_default = λ q. cj.not_default (ap (λ (h : ℕ → ℕ). h j) (sym started.handlers) ∙ q);
      not_ignored = λ q. cj.not_ignored (ap (λ (h : ℕ → ℕ). h j) (sym started.handlers) ∙ q);
    }

    gone : (m : ℕ) → m < sigs_num → m ≢ j → has first.proc.pending_signals m ≡ false
    gone m a b = elim (ℕ_discrete m i) [
      | yes e ↦
          has-Started copyout code m started (omega arith) a
          ∙ ground (arith, (==_iff i m).1 (sym e))
      | no ne ↦ has-Started copyout code m started (omega arith) a ∙ ground (arith, alone m a ne b)
    ]
