-- ===== src/Spinlock/Tests.antt =====
-- Runs of kernel/spinlock.c with CPUs 0 and 1.
use noy_hadar.Base.{ℕ, true, false, none, some, update, ◌≡◌, ◌≢◌, refl}
use noy_hadar.Spinlock.{
  Cpu, initlock, push_off, holding, acquire_start, test_and_set, acquire_finish, release_start,
  release_finish,
}
use noy_hadar.Spinlock.Exclusion.{
  Pc, System, Step, Reach, mutual_exclusion, release_never_panics, acquire_panics_iff,
}
use noy_hadar.Spinlock.Nesting.{pushes, pops, pops-pushes}

abbrev free_cpu : Cpu
free_cpu = record { noff = 0; intena = false; interrupts = true }

abbrev busy_cpu : Cpu
busy_cpu = record { noff = 1; intena = true; interrupts = false }

abbrev cpus : ℕ → Cpu
cpus = update (update (λ _. free_cpu) 0 busy_cpu) 1 busy_cpu

abbrev pcs : ℕ → Pc
pcs =
    update (update (update (update (λ _. Pc.outside) 0 Pc.spinning) 0 Pc.taken) 0 Pc.held) 1
      Pc.spinning

-- CPU 0 has acquired the lock, and CPU 1 spins.
abbrev contended : System
contended = record { lock = record { locked = true; cpu = 1 }; cpu = cpus; pc = pcs }

contended-Reach : Reach contended
unfolding initlock acquire_start push_off holding test_and_set acquire_finish
contended-Reach =
    Reach.next
      (Reach.next
        (Reach.next (Reach.next (Reach.init (λ _. free_cpu)) (Step.start 0 busy_cpu refl refl))
          (Step.take 0 refl refl))
        (Step.enter 0 refl))
      (Step.start 1 busy_cpu refl refl)

mutual_exclusion_example : ◌≡◌ {A = ℕ} 0 0
mutual_exclusion_example = mutual_exclusion contended-Reach 0 0 refl refl

release_never_panics_example :
    (contended.pc 0 ≡ Pc.held → release_start 0 contended.lock ≢ none)
    × (contended.pc 0 ≡ Pc.leaving → release_finish contended.lock (contended.cpu 0) ≢ none)
    × (contended.pc 0 ≢ Pc.outside → (contended.cpu 0).interrupts ≡ false)
release_never_panics_example = release_never_panics contended-Reach 0

acquire_panics_iff_example :
    (contended.pc 0 ≡ Pc.held → acquire_start 0 contended.lock (contended.cpu 0) ≡ none)
    × (contended.pc 0 ≢ Pc.held → acquire_start 0 contended.lock (contended.cpu 0) ≢ none)
acquire_panics_iff_example = acquire_panics_iff contended-Reach 0

pops-pushes_example : pops 3 (pushes 3 free_cpu) ≡ some (record free_cpu { intena = true })
pops-pushes_example = pops-pushes 2 free_cpu refl
