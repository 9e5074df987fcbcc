-- ===== src/Proc/Signals/Stop.antt =====
-- The stop loop of kernel/proc.c's signals.
use noy_hadar.Base.{ℕ, true, false, none, List, [], ◌∷◌, ◌≡◌, refl, ◌∙◌, arith}
use noy_hadar.Base.Bits.{has, has-with_bit}
use noy_hadar.Proc.{Proc, sigkill}
use noy_hadar.Proc.Signals.{post, post_all, stop_loop}

-- A posted signal leaves a stopped process stopped, and never sets the pending bit of SIGKILL.
pub post-keeps :
    (signum : ℕ) (p : Proc)
    → ((post signum p).frozen ≡ p.frozen)
      × (has (post signum p).pending_signals sigkill ≡ has p.pending_signals sigkill)
unfolding post
post-keeps signum p = ground (arith, has-with_bit p.pending_signals signum sigkill)

pub posts-keep :
    (posts : List ℕ) (p : Proc)
    → let q = post_all posts p in
      (q.frozen ≡ p.frozen) × (has q.pending_signals sigkill ≡ has p.pending_signals sigkill)
unfolding post_all
posts-keep [] p = (refl, refl)
posts-keep (s ∷ posts) p =
    let (a, b) = posts-keep posts (post s p) in let (c, d) = post-keeps s p in (a ∙ c, b ∙ d)

-- A process that `sigstopHandler` has stopped stays stopped, whatever signals other processes post
-- to it in however many rounds, SIGCONT and SIGKILL among them, if the pending bit of SIGKILL is
-- clear at the start.
pub stop_loop-none :
    (yields : List (List ℕ)) (p : Proc)
    → p.frozen ≡ true
    → has p.pending_signals sigkill ≡ false
    → stop_loop yields p ≡ none
unfolding stop_loop
stop_loop-none [] p frozen clear = simp (frozen, clear)
stop_loop-none (posts ∷ yields) p frozen clear =
    let (a, b) = posts-keep posts p in
    simp (frozen, clear) (stop_loop-none yields (post_all posts p) (a ∙ frozen) (b ∙ clear))
