-- ===== src/Proc.antt =====
-- kernel/proc.h: `struct proc`, and the constants of kernel/types.h for signals.
pub mod Signals
use noy_hadar.Base.{ℕ, ◌+◌, ◌-◌, ◌≤◌, ◌<◌, ◌==◌, Bool, Option, none, some, List}

-- `enum procstate`
pub data ProcState : Type 0 where
  unused used sleeping runnable running zombie : ProcState

-- `struct trapframe`: the registers that the kernel's C code names, and all others.
pub record Trapframe : Type 0 where
  pub epc : ℕ
  pub ra : ℕ
  pub sp : ℕ
  pub a0 : ℕ
  pub others : ℕ → ℕ

-- Positions in the process table, channels, files and inodes stand for pointers, and 0 is null
-- where the code compares with null. A flag of type `int` is a Boolean where the code gives it no
-- value but 0 and 1. A trapframe is the address of its page, and what the page holds.
pub record Proc : Type 0 where
  pub state : ProcState
  pub chan : ℕ
  pub killed : Bool
  pub xstate : ℕ
  pub pid : ℕ
  pub parent : Option ℕ
  pub sz : ℕ
  pub pagetable : ℕ
  pub trapframe_page : ℕ
  pub trapframe : Trapframe
  pub ofile : List (Option ℕ)
  pub cwd : ℕ
  pub name : List ℕ
  pub pending_signals : ℕ
  pub signal_mask : ℕ
  pub signal_handlers : ℕ → ℕ
  pub backup_page : ℕ
  pub backup_trapframe : Trapframe
  pub frozen : Bool
  pub backup_sig_mask : ℕ
  pub sig_handler_flag : Bool
  pub sig_mask_array : ℕ → ℕ

abbrev pub sig_dfl : ℕ
sig_dfl = 0

abbrev pub sig_ign : ℕ
sig_ign = 1

abbrev pub sigkill : ℕ
sigkill = 9

abbrev pub sigstop : ℕ
sigstop = 17

abbrev pub sigcont : ℕ
sigcont = 19

abbrev pub sigs_num : ℕ
sigs_num = 32
