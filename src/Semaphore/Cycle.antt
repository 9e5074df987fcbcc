-- ===== src/Semaphore/Cycle.antt =====
-- Down and up on one binary semaphore of kernel/proc.c, and the allocation of a new one.
use noy_hadar.Base.{
  ℕ, ◌+◌, ◌^◌, ◌<◌, if◌then◌else◌, Bool, true, false, not, Option, none, some, update_self,
  update_ne, ◌≡◌, ◌≢◌, inl, inr, ap, sym, ◌∙◌, arith, ℕ_discrete, Option-cases, some_inj, none-some,
  fun_ext, subst,
}
use noy_hadar.Semaphore.{
  Semaphore, Bsems, max_bsem, find_slot, alloc_at, bsem_alloc, set_locked, Down, down_at, bsem_down,
  bsem_up,
}
use noy_hadar.Semaphore.Ids.{Passes, find_slot-Passes}
use noy_hadar.Semaphore.Reach.{Reach, Reach-IsValid}
use noy_hadar.Semaphore.Calls.{found_slot}

reopened_slot :
    (k j : ℕ) (c : Bsems)
    → (c.slot k).is_locked ≡ false
    → (set_locked false k (set_locked true k c)).slot j ≡ c.slot j
unfolding set_locked
reopened_slot k j c e = elim (ℕ_discrete k j) [
  | yes p ↦ ground (arith, p, e)
  | no ne ↦ ground (arith, ne)
]

reopened :
    (k : ℕ) (c : Bsems)
    → (c.slot k).is_locked ≡ false
    → set_locked false k (set_locked true k c) ≡ c
unfolding set_locked
reopened k c e =
    ap (λ (f : ℕ → Semaphore). record c { slot = f }) (fun_ext (λ j. reopened_slot k j c e))

locked_slot :
    (k : ℕ) (c : Bsems)
    → ((set_locked true k c).slot k).is_locked ≡ true
      × ((set_locked true k c).slot k).id ≡ (c.slot k).id
      × ((set_locked true k c).slot k).is_used ≡ (c.slot k).is_used
unfolding set_locked
locked_slot k c = ground arith

down_open :
    (k : ℕ) (c : Bsems)
    → (c.slot k).is_locked ≡ false
    → down_at k c ≡ (Down.returned, set_locked true k c)
unfolding down_at
down_open k c e = simp e

down_locked : (k : ℕ) (c : Bsems) → (c.slot k).is_locked ≡ true → down_at k c ≡ (Down.asleep k, c)
unfolding down_at
down_locked k c e = simp e

-- After any calls and wake-ups, before the numbers of an `int` run out, for a semaphore that is in
-- use and open: `bsem_down` returns; a second `bsem_down` sleeps and changes nothing; and `bsem_up`
-- then wakes the sleepers and leaves the semaphores just as they were before the first.
pub down_up :
    {allocs : ℕ} {c : Bsems} (k : ℕ)
    → Reach allocs c
    → allocs + 1 < 2 ^ 31
    → k < max_bsem
    → (c.slot k).is_used ≡ true
    → (c.slot k).is_locked ≡ false
    → (taken : Bsems) × (bsem_down (c.slot k).id c ≡ (Down.returned, taken))
      × (bsem_down (c.slot k).id taken ≡ (Down.asleep k, taken))
      × (bsem_up (c.slot k).id taken ≡ (some k, c))
down_up {allocs} {c} k r small lt u e =
    let (down, _, _) = found_slot k r small lt u in
    let first : bsem_down (c.slot k).id c ≡ (Down.returned, set_locked true k c) =
      down ∙ down_open k c e in
    let (locked, same, used) = locked_slot k c in
    let r' : Reach allocs (set_locked true k c) =
      subst (Reach allocs) (ap (λ (x : Down × Bsems). x.1) first) (Reach.downed (c.slot k).id r) in
    let (down', _, up') = found_slot k r' small lt (used ∙ u) in
    (
      set_locked true k c,
      first,
      ap (λ (n : ℕ). bsem_down n (set_locked true k c)) (sym same)
          ∙ down'
          ∙ down_locked k (set_locked true k c) locked,
      ap (λ (n : ℕ). bsem_up n (set_locked true k c)) (sym same)
          ∙ up'
          ∙ ap
              (λ (b : Bool).
                if b
                then (some k, set_locked false k (set_locked true k c))
                else (none, set_locked true k c))
              locked
          ∙ ap (λ (b : Bsems). (some k, b)) (reopened k c e),
    )

-- The new semaphore is an open one in a slot that was not in use.
record Allocated (b : Bsems) (n : ℕ) (b' : Bsems) : Type 0 where
  place : ℕ
  in_table : place < max_bsem
  was_free : (b.slot place).is_used ≡ false
  number : n ≡ b.nextsid
  after : b' ≡ alloc_at place b

not-true : (x : Bool) → not x ≡ true → x ≡ false
not-true x h = ground arith

alloc_none :
    (b : Bsems) → find_slot (λ s. not s.is_used) b.slot max_bsem 0 ≡ none → bsem_alloc b ≡ (none, b)
unfolding bsem_alloc
alloc_none b e = rw (e, bsem_alloc)

alloc_some :
    (k : ℕ) (b : Bsems)
    → find_slot (λ s. not s.is_used) b.slot max_bsem 0 ≡ some k
    → bsem_alloc b ≡ (some b.nextsid, alloc_at k b)
unfolding bsem_alloc
alloc_some k b e = rw (e, bsem_alloc)

bsem_alloc-Allocated : (n : ℕ) (b b' : Bsems) → bsem_alloc b ≡ (some n, b') → Allocated b n b'
bsem_alloc-Allocated n b b' e =
    elim (Option-cases (find_slot (λ s. not s.is_used) b.slot max_bsem 0)) [
      | inl q ↦ absurd (none-some (ap (λ (r : Option ℕ × Bsems). r.0) (sym (alloc_none b q) ∙ e)))
      | inr (k, q) ↦
          let p : Passes (λ s. not s.is_used) b.slot 0 max_bsem k =
            find_slot-Passes (λ s. not s.is_used) b.slot max_bsem 0 max_bsem (omega arith) q in
          let same = sym e ∙ alloc_some k b q in
          record {
            place = k;
            in_table = p.below;
            was_free = not-true (b.slot k).is_used p.passed;
            number = some_inj (ap (λ (r : Option ℕ × Bsems). r.0) same);
            after = ap (λ (r : Option ℕ × Bsems). r.1) same;
          }
    ]

new_slot :
    (k : ℕ) (b : Bsems)
    → (alloc_at k b).slot k ≡ record { id = b.nextsid; is_locked = false; is_used = true }
unfolding alloc_at
new_slot k b = update_self b.slot k _

other_slot : (k j : ℕ) (b : Bsems) → k ≢ j → (alloc_at k b).slot j ≡ b.slot j
unfolding alloc_at
other_slot k j b ne = update_ne b.slot k _ j ne

-- After any calls and wake-ups, before the numbers of an `int` run out, a `bsem_alloc` that does
-- not fail returns a number that no semaphore in use has. It stands for an open semaphore in a slot
-- that was not in use, and every other slot is as it was.
pub alloc_fresh :
    {allocs : ℕ} {b b' : Bsems} (n : ℕ)
    → Reach allocs b
    → allocs + 1 < 2 ^ 31
    → bsem_alloc b ≡ (some n, b')
    → ((i : ℕ) → (b.slot i).is_used ≡ true → (b.slot i).id ≢ n)
      × (k : ℕ) × (k < max_bsem)
      × ((b.slot k).is_used ≡ false)
      × (b'.slot k ≡ record { id = n; is_locked = false; is_used = true })
      × ((j : ℕ) → k ≢ j → b'.slot j ≡ b.slot j)
alloc_fresh {b = b} {b' = b'} n r small e =
    let v = Reach-IsValid r small in
    let a : Allocated b n b' = bsem_alloc-Allocated n b b' e in
    (
      λ i u q. absurd (omega (arith, (v.used i u).1, a.number)),
      a.place,
      a.in_table,
      a.was_free,
      ap (λ (c : Bsems). c.slot a.place) a.after
          ∙ new_slot a.place b
          ∙ ap (λ (m : ℕ). record { id = m; is_locked = false; is_used = true }) (sym a.number),
      λ j ne. ap (λ (c : Bsems). c.slot j) a.after ∙ other_slot a.place j b ne,
    )
