-- ===== src/Proc/Signals.antt =====
-- Signals in kernel/proc.c: `kill`, `sigprocmask`, `sigaction`, `sigret`, and delivery on the way
-- back to user space. User memory is written through `copyout`, here a parameter: the copy of the
-- code between `sigret_func_start` and `sigret_func_end` to the user's stack. A process whose
-- backup page could not be allocated has `backup_page` 0, and the copy to or from it is a fault in
-- the kernel, which panics.
pub mod Kill
pub mod Stop
pub mod Deliver
pub mod Life
mod Tests
use noy_hadar.Base.{
  ℕ, zero, suc, ◌+◌, ◌-◌, ◌%◌, ◌^◌, ◌==◌, ◌/=◌, ltb, leb, if◌then◌else◌, Bool, true, false, not,
  ◌&&◌, ◌||◌, Option, none, some, List, [], ◌∷◌, foldl, length, update,
}
use noy_hadar.Base.Bits.{has, with_bit, without_bit}
use noy_hadar.Vm.{Run, ◌>>=◌}
use noy_hadar.Proc.{
  Proc, ProcState, Trapframe, sig_dfl, sig_ign, sigkill, sigstop, sigcont, sigs_num,
}

-- A sleeping process that is killed is woken.
unfoldable pub wake_if_sleeping : ProcState → ProcState
wake_if_sleeping ProcState.sleeping = ProcState.runnable
wake_if_sleeping s = s

-- What `kill` does to the process that it finds, for a signal number in range.
unfoldable pub post : ℕ → Proc → Proc
unfolding wake_if_sleeping
post signum p =
    if signum == sigkill
    then record p { killed = true; state = wake_if_sleeping p.state }
    else record p { pending_signals = with_bit p.pending_signals signum }

-- The loop of `kill` over the process table, and whether it found the process.
kill_from : ℕ → ℕ → List Proc → Bool × List Proc
unfolding post
kill_from pid signum [] = (false, [])
kill_from pid signum (p ∷ procs) =
    let rest = kill_from pid signum procs in
    if p.pid == pid then (true, post signum p ∷ procs) else (rest.0, p ∷ rest.1)

-- `kill`: true for 0 and false for -1. A negative `signum` is refused as one above 31 is.
pub kill : ℕ → ℕ → List Proc → Bool × List Proc
unfolding kill_from
kill pid signum procs = if leb sigs_num signum then (false, procs) else kill_from pid signum procs

-- The old mask, and the process with the new one.
pub sigprocmask : ℕ → Proc → ℕ × Proc
sigprocmask sigmask p = (p.signal_mask, record p { signal_mask = sigmask })

-- `struct sigaction`
pub record Sigaction : Type 0 where
  pub sa_handler : ℕ
  pub sigmask : ℕ

-- `sigaction`: true for 0 and false for -1. `act` is what `copyin` brings of the new action, or
-- `none` if it fails; `old_ok` says whether `oldact` is null or the copies to it succeed. A
-- negative `signum` is refused as one above 31 is.
pub sigaction : ℕ → Option Sigaction → Bool → Proc → Bool × Proc
sigaction signum act old_ok p =
    if signum == sigkill || signum == sigstop || leb sigs_num signum then (false, p) else elim act [
      | none ↦ (false, p)
      | some a ↦
          if old_ok
          then (
            true,
            record p {
              signal_handlers = update p.signal_handlers signum a.sa_handler;
              sig_mask_array = update p.sig_mask_array signum a.sigmask;
            },
          )
          else (false, p)
    ]

pub sigret : Proc → Run Proc
sigret p =
    if p.backup_page == 0
    then Run.panic
    else Run.returned (record p { trapframe = p.backup_trapframe; signal_mask = p.backup_sig_mask })

pub sigkill_handler : Proc → Proc
sigkill_handler p = record p { killed = true }

pub post_all : List ℕ → Proc → Proc
unfolding post
post_all [] p = p
post_all (signum ∷ posts) p = post_all posts (post signum p)

-- The loop of `sigstopHandler`. Each `yield` lets other processes run: the list holds, for each
-- `yield`, the signals that they post meanwhile. With the process is returned what is left of the
-- list; `none` says that the process is stopped still at the end of the list.
pub stop_loop : List (List ℕ) → Proc → Option (List (List ℕ) × Proc)
unfolding post_all
stop_loop [] p =
    if p.frozen
    then if has p.pending_signals sigkill then some ([], record p { killed = true }) else none
    else some ([], p)
stop_loop (posts ∷ yields) p =
    let again = stop_loop yields (post_all posts p) in
    if p.frozen
    then if has p.pending_signals sigkill
      then some (posts ∷ yields, record p { killed = true })
      else again
    else some (posts ∷ yields, p)

pub sigstop_handler : List (List ℕ) → Proc → Option (List (List ℕ) × Proc)
unfolding stop_loop
sigstop_handler yields p = stop_loop yields (record p { frozen = true })

pub sigcont_handler : Proc → Proc
sigcont_handler p = if p.frozen then record p { frozen = false } else p

-- `p->pendingSignals & (~ (1 << i))`
pub clear_pending : ℕ → Proc → Proc
clear_pending i p = record p { pending_signals = without_bit p.pending_signals i }

-- The `switch` on a signal with the default action.
pub default_action : ℕ → List (List ℕ) → Proc → Option (List (List ℕ) × Proc)
unfolding sigkill_handler sigstop_handler sigcont_handler
default_action i yields p =
    if i == sigkill
    then some (yields, sigkill_handler p)
    else if i == sigstop
    then sigstop_handler yields p
    else if i == sigcont
    then some (yields, sigcont_handler p)
    else some (yields, sigkill_handler p)

-- The delivering process, the memory that it can write, and what other processes do meanwhile.
pub record Delivery (Memory : Type 0) : Type 0 where
  pub yields : List (List ℕ)
  pub memory : Memory
  pub proc : Proc

-- `p->backupSigMask = p->signalMask`
pub backup_mask : Proc → Proc
backup_mask p = record p { backup_sig_mask = p.signal_mask }

-- `i` is pending, not blocked, and not ignored.
pub deliverable : ℕ → Proc → Bool
deliverable i p =
    has p.pending_signals i && not (has p.signal_mask i) && p.signal_handlers i /= sig_ign

-- Behind the `switch`, for what it made of the process; `lost` if that stays stopped.
pub end_default :
    {Memory : Type 0} → ℕ → Delivery Memory → Option (List (List ℕ) × Proc) → Run (Delivery Memory)
unfolding clear_pending
end_default i d none = Run.lost
end_default i d (some (yields, p)) =
    Run.returned (record d { yields = yields; proc = clear_pending i p })

module _ {Memory : Type 0} (copyout : ℕ → ℕ → List ℕ → Memory → Memory) (sigret_code : List ℕ) where
  -- The trapframe that starts the user's handler, on a stack that holds the code of `sigret`.
  pub handler_frame : ℕ → ℕ → Trapframe → Trapframe
  handler_frame signum handler t =
      let sp = (t.sp + 2 ^ 64 - length sigret_code) % 2 ^ 64 in
      record t { sp = sp; ra = sp; a0 = signum; epc = handler }

  -- The process as `userSpaceHandler` leaves it, if no handler runs yet and there is a backup page.
  pub start_handler : ℕ → Proc → Proc
  unfolding handler_frame clear_pending
  start_handler signum p = clear_pending signum (record p {
    sig_handler_flag = true;
    backup_trapframe = p.trapframe;
    trapframe = handler_frame signum (p.signal_handlers signum) p.trapframe;
    backup_sig_mask = p.signal_mask;
    signal_mask = p.sig_mask_array signum;
  })

  -- A failed `copyout` is reported on the console and changes nothing else.
  pub user_space_handler : ℕ → Delivery Memory → Run (Delivery Memory)
  unfolding start_handler
  user_space_handler signum d =
      let q = start_handler signum d.proc in
      if d.proc.sig_handler_flag
      then Run.returned d
      else if d.proc.backup_page == 0
      then Run.panic
      else Run.returned (record d {
        memory = copyout d.proc.pagetable q.trapframe.sp sigret_code d.memory;
        proc = q;
      })

  -- The body of the loop of `signalHandler`.
  pub handle_signal : ℕ → Delivery Memory → Run (Delivery Memory)
  unfolding deliverable default_action end_default backup_mask user_space_handler
  handle_signal i d =
      let p = d.proc in
      if deliverable i p
      then if p.signal_handlers i == sig_dfl
        then end_default i d (default_action i d.yields p)
        else user_space_handler i (record d { proc = backup_mask p })
      else Run.returned d

  pub signals_from : ℕ → ℕ → Delivery Memory → Run (Delivery Memory)
  unfolding handle_signal
  signals_from zero i d = Run.returned d
  signals_from (suc rounds) i d = handle_signal i d >>= signals_from rounds (i + 1)

  pub signal_handler : Delivery Memory → Run (Delivery Memory)
  unfolding signals_from
  signal_handler d = if d.proc.sig_handler_flag then Run.returned d else signals_from sigs_num 0 d
