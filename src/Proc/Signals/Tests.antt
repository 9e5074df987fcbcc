-- ===== src/Proc/Signals/Tests.antt =====
-- Runs of the signal operations of kernel/proc.c.
use noy_hadar.Base.{
  ℕ, ◌≤◌, ◌<◌, ◌==◌, if◌then◌else◌, true, false, none, some, List, [], ◌∷◌, ◌≡◌, ◌≢◌, ◌⊎◌, refl,
  arith, ◌∙◌, ◌||◌,
}
use noy_hadar.Base.Bits.{has, with_bit, has-with_bit, has-zero}
use noy_hadar.Vm.{Run}
use noy_hadar.Proc.{Proc, ProcState, Trapframe, sigs_num, sigkill, sigcont}
use noy_hadar.Proc.Signals.{post, kill, sigret, sigstop_handler, Delivery, signal_handler}
use noy_hadar.Proc.Signals.Kill.{Posted, Missed, kill-cases}
use noy_hadar.Proc.Signals.Deliver.{Caught, Started, deliver_one, deliver_two}
use noy_hadar.Proc.Signals.Life.{Event, Life, never_again, stopped_for_good}

abbrev frame : Trapframe
frame = record { epc = 100; ra = 0; sp = 4096; a0 = 5; others = λ _. 0 }

-- A running process with no signal pending, and handlers for the signals 2 and 3.
abbrev quiet : Proc
quiet = record {
  state = ProcState.running;
  chan = 0;
  killed = false;
  xstate = 0;
  pid = 4;
  parent = some 0;
  sz = 8192;
  pagetable = 1;
  trapframe_page = 2;
  trapframe = frame;
  ofile = [];
  cwd = 1;
  name = [];
  pending_signals = 0;
  signal_mask = 0;
  signal_handlers = λ i. if i == 2 then 640 else if i == 3 then 704 else 0;
  backup_page = 3;
  backup_trapframe = frame;
  frozen = false;
  backup_sig_mask = 0;
  sig_handler_flag = false;
  sig_mask_array = λ i. if i == 2 then with_bit 0 1 else 0;
}

abbrev two : ℕ
two = with_bit 0 2

abbrev two_three : ℕ
two_three = with_bit (with_bit 0 2) 3

has-two : (j : ℕ) → has two j ≡ (2 == j)
has-two j = ground (arith, has-with_bit 0 2 j, has-zero j)

has-two_three : (j : ℕ) → has two_three j ≡ (2 == j || 3 == j)
has-two_three j = ground (arith, has-with_bit two 3 j, has-two j)

-- The copies to user memory, in order.
abbrev Copies : Type 0
Copies = List (ℕ × ℕ × List ℕ)

abbrev copyout : ℕ → ℕ → List ℕ → Copies → Copies
copyout pagetable va bytes copies = (pagetable, va, bytes) ∷ copies

abbrev code : List ℕ
code = 1 ∷ 2 ∷ 3 ∷ 4 ∷ []

abbrev delivery : ℕ → Delivery Copies
delivery pending = record {
  yields = [];
  memory = [];
  proc = record quiet { pending_signals = pending };
}

kill_one :
    (3 < sigs_num
      → Posted 4 3
          (record quiet { pid = 1 } ∷ quiet ∷ [])
          (kill 4 3 (record quiet { pid = 1 } ∷ quiet ∷ []))
        ⊎ Missed 4
            (record quiet { pid = 1 } ∷ quiet ∷ [])
            (kill 4 3 (record quiet { pid = 1 } ∷ quiet ∷ [])))
    × (sigs_num ≤ 3
        → kill 4 3 (record quiet { pid = 1 } ∷ quiet ∷ [])
          ≡ (false, record quiet { pid = 1 } ∷ quiet ∷ []))
kill_one = kill-cases 4 3 (record quiet { pid = 1 } ∷ quiet ∷ [])

two-Caught : Caught 2 (record quiet { pending_signals = two })
two-Caught = record {
  pending = has-two 2;
  open_mask = has-zero 2;
  not_default = λ q. omega arith;
  not_ignored = λ q. omega arith;
}

only_two : (j : ℕ) → j < sigs_num → j ≢ 2 → has two j ≡ false
only_two j lt ne = has-two j ∙ ground arith

has_page : quiet.backup_page ≢ 0
has_page e = omega arith

deliver_one_example :
    (e : Delivery Copies) × (signal_handler copyout code (delivery two) ≡ Run.returned e)
    × Started 2 4 (record quiet { pending_signals = two }) e.proc
    × (back : Proc) × (sigret e.proc ≡ Run.returned back)
    × (back.trapframe ≡ frame)
    × (back.signal_mask ≡ 0)
deliver_one_example =
    deliver_one copyout code 2 (delivery two) (omega arith) refl has_page two-Caught only_two

both_Caught :
    Caught 2 (record quiet { pending_signals = two_three })
    × Caught 3 (record quiet { pending_signals = two_three })
both_Caught = (
  record {
    pending = has-two_three 2;
    open_mask = has-zero 2;
    not_default = λ q. omega arith;
    not_ignored = λ q. omega arith;
  },
  record {
    pending = has-two_three 3;
    open_mask = has-zero 3;
    not_default = λ q. omega arith;
    not_ignored = λ q. omega arith;
  },
)

only_both : (j : ℕ) → j < sigs_num → j ≢ 2 → j ≢ 3 → has two_three j ≡ false
only_both j lt ne ne' = has-two_three j ∙ ground arith

passes : has (with_bit 0 1) 3 ≡ false
passes = has-with_bit 0 1 3 ∙ ground (arith, has-zero 3)

deliver_two_example :
    (e : Delivery Copies) × (signal_handler copyout code (delivery two_three) ≡ Run.returned e)
    × (e.proc.trapframe.epc ≡ 640)
    × (has e.proc.pending_signals 3 ≡ true)
    × (back : Proc) × (sigret e.proc ≡ Run.returned back)
    × (back.signal_mask ≡ with_bit 0 1)
deliver_two_example =
    deliver_two copyout code 2 3 (delivery two_three) (omega arith) (omega arith) refl has_page
      both_Caught.0 both_Caught.1 passes only_both

abbrev in_handler : Proc
in_handler = record quiet { sig_handler_flag = true }

abbrev after_sigret : Proc
after_sigret = record in_handler { signal_mask = 0 }

handler_returned : sigret in_handler ≡ Run.returned after_sigret
unfolding sigret
handler_returned = refl

handled_then_posted : Life copyout code in_handler (post 3 after_sigret)
handled_then_posted =
    Life.later (Life.later Life.born (Event.returned handler_returned))
      (Event.posted 3 (omega arith))

just_posted : Life copyout code quiet (post 3 quiet)
just_posted = Life.later Life.born (Event.posted 3 (omega arith))

never_again_example :
    signal_handler copyout code (record { yields = []; memory = []; proc = post 3 after_sigret })
    ≡ Run.returned (record { yields = []; memory = []; proc = post 3 after_sigret })
never_again_example = never_again copyout code [] [] refl handled_then_posted

stopped_for_good_example :
    sigstop_handler ((sigcont ∷ []) ∷ (sigkill ∷ []) ∷ []) (post 3 quiet) ≡ none
stopped_for_good_example =
    stopped_for_good copyout code ((sigcont ∷ []) ∷ (sigkill ∷ []) ∷ []) (has-zero 9) just_posted
