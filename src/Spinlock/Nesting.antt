-- ===== src/Spinlock/Nesting.antt =====
-- Matched calls of `push_off` and `pop_off` of kernel/spinlock.c on one CPU.
use noy_hadar.Base.{ℕ, zero, suc, Bool, false, Option, none, some, ◌≡◌, arith, ap, ◌∙◌}
use noy_hadar.Spinlock.{Cpu, push_off, pop_off}

pub pushes : ℕ → Cpu → Cpu
pushes zero c = c
pushes (suc n) c = push_off (pushes n c)

pub pops : ℕ → Cpu → Option Cpu
pops zero c = some c
pops (suc n) c = elim (pop_off c) [ none ↦ none | some c' ↦ pops n c' ]

abbrev nested : ℕ → Bool → Cpu
nested n b = record { noff = suc n; intena = b; interrupts = false }

pushes-suc : (n : ℕ) (c : Cpu) → c.noff ≡ 0 → pushes (suc n) c ≡ nested n c.interrupts
unfolding pushes push_off
pushes-suc zero c h = ground arith
pushes-suc (suc n) c h = ap push_off (pushes-suc n c h) ∙ ground arith

pops-suc :
    (n : ℕ) (b : Bool)
    → pops (suc n) (nested n b) ≡ some (record { noff = 0; intena = b; interrupts = b })
unfolding pops pop_off
pops-suc zero b = ground arith
pops-suc (suc n) b = step ∙ pops-suc n b
  where
    step : pops (suc (suc n)) (nested (suc n) b) ≡ pops (suc n) (nested n b)
    step = ground arith

-- On a CPU with nothing nested, any number of calls of `push_off`, at least one, and as many of
-- `pop_off` end without a panic, with nothing nested and interrupts enabled just as before.
pub pops-pushes :
    (n : ℕ) (c : Cpu)
    → c.noff ≡ 0
    → pops (suc n) (pushes (suc n) c) ≡ some (record c { intena = c.interrupts; noff = 0 })
pops-pushes n c h = ap (pops (suc n)) (pushes-suc n c h) ∙ pops-suc n c.interrupts
