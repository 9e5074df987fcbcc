-- ===== src/Strings/Compare/Equal.antt =====
-- What it means that `strncmp` of kernel/string.c returns 0.
use noy_hadar.Base.{
  ℕ, zero, suc, ◌+◌, ◌<◌, ◌==◌, ◌/=◌, if◌then◌else◌, ◌&&◌, some, ◌≡◌, ◌≢◌, ◌⊎◌, inl, inr, refl, ap,
  sym, ◌∙◌, arith,
}
use noy_hadar.Strings.{Bytes}
use noy_hadar.Strings.Compare.{ℤ, minus, strncmp, strlen}

-- The strings at `p` and `q` agree up to their NUL, or in their first `n` bytes.
abbrev pub Agree : ℕ → ℕ → ℕ → Bytes → Type 0
Agree p q n mem = (i : ℕ) → i < n → ((j : ℕ) → j < i → mem (p + j) ≢ 0) → mem (p + i) ≡ mem (q + i)

minus-zero : (a b : ℕ) → minus a b ≡ ℤ.pos 0 → a ≡ b
unfolding minus
minus-zero a b h = ground arith

minus_self : (a : ℕ) → minus a a ≡ ℤ.pos 0
unfolding minus
minus_self a = ground arith

Agree-suc :
    (p q n : ℕ) (mem : Bytes) → mem p ≡ mem q → Agree (p + 1) (q + 1) n mem → Agree p q (suc n) mem
Agree-suc p q n mem e f zero lt no_nul = ap mem (omega arith) ∙ e ∙ ap mem (omega arith)
Agree-suc p q n mem e f (suc i) lt no_nul =
    ap mem (omega arith)
    ∙ f i (omega arith) (λ j lj z. no_nul (suc j) (omega arith) (ap mem (omega arith) ∙ z))
    ∙ ap mem (omega arith)

Agree-nul : (p q n : ℕ) (mem : Bytes) → mem p ≡ 0 → mem p ≡ mem q → Agree p q n mem
Agree-nul p q n mem z e zero lt no_nul = ap mem (omega arith) ∙ e ∙ ap mem (omega arith)
Agree-nul p q n mem z e (suc i) lt no_nul =
    absurd (no_nul 0 (omega arith) (ap mem (omega arith) ∙ z))

Agree-head : (p q n : ℕ) (mem : Bytes) → Agree p q (suc n) mem → mem p ≡ mem q
Agree-head p q n mem f =
    ap mem (omega arith) ∙ f 0 (omega arith) (λ j lt. absurd (omega arith)) ∙ ap mem (omega arith)

Agree-tail :
    (p q n : ℕ) (mem : Bytes) → mem p ≢ 0 → Agree p q (suc n) mem → Agree (p + 1) (q + 1) n mem
Agree-tail p q n mem ne f i lt no_nul =
    ap mem (omega arith) ∙ f (suc i) (omega arith) go ∙ ap mem (omega arith)
  where
    go : (j : ℕ) → j < suc i → mem (p + j) ≢ 0
    go zero lj = λ z. ne (ap mem (omega arith) ∙ z)
    go (suc j) lj = λ z. no_nul j (omega arith) (ap mem (omega arith) ∙ z)

go_on : (a b : ℕ) (x y : ℤ) → a ≢ 0 → a ≡ b → (if (a /= 0) && (a == b) then x else y) ≡ x
go_on a b x y ne e = ground arith

stop : (a b : ℕ) (x y : ℤ) → (a ≡ 0) ⊎ (a ≢ b) → (if (a /= 0) && (a == b) then x else y) ≡ y
stop a b x y h = ground arith

byte-cases : (a b : ℕ) → ((a ≢ 0) × (a ≡ b)) ⊎ ((a ≡ 0) ⊎ (a ≢ b))
byte-cases a b = omega arith

-- `strncmp` returns 0 just when the two strings agree up to a common NUL or in their first `n`
-- bytes.
pub strncmp_iff :
    (p q n : ℕ) (mem : Bytes)
    → (strncmp p q n mem ≡ ℤ.pos 0 → Agree p q n mem)
      × (Agree p q n mem → strncmp p q n mem ≡ ℤ.pos 0)
unfolding strncmp
strncmp_iff p q zero mem = (λ _ i lt. absurd (omega arith), λ _. refl)
strncmp_iff p q (suc n) mem = elim (byte-cases (mem p) (mem q)) [
  | inl (ne, e) ↦
      let next =
        go_on (mem p) (mem q) (strncmp (p + 1) (q + 1) n mem) (minus (mem p) (mem q)) ne e in
      (
        λ h. Agree-suc p q n mem e ((strncmp_iff (p + 1) (q + 1) n mem).0 (sym next ∙ h)),
        λ f. next ∙ (strncmp_iff (p + 1) (q + 1) n mem).1 (Agree-tail p q n mem ne f),
      )
  | inr h ↦
      let end = stop (mem p) (mem q) (strncmp (p + 1) (q + 1) n mem) (minus (mem p) (mem q)) h in
      (
        λ z. ended (minus-zero (mem p) (mem q) (sym end ∙ z)) h,
        λ f. end ∙ ap (λ (x : ℕ). minus x (mem q)) (Agree-head p q n mem f) ∙ minus_self (mem q),
      )
]
  where
    ended : mem p ≡ mem q → (mem p ≡ 0) ⊎ (mem p ≢ mem q) → Agree p q (suc n) mem
    ended e (inl z) = Agree-nul p q (suc n) mem z e
    ended e (inr ne) = absurd (ne e)

strlen-some :
    (fuel s len : ℕ) (mem : Bytes)
    → len < fuel
    → ((i : ℕ) → i < len → mem (s + i) ≢ 0)
    → mem (s + len) ≡ 0
    → strlen fuel s mem ≡ some len
unfolding strlen
strlen-some zero s len mem lt before z = absurd (omega arith)
strlen-some (suc fuel) s zero mem lt before z =
    let here : mem s ≡ 0 = ap mem (omega arith) ∙ z in rw (here, strlen)
strlen-some (suc fuel) s (suc len) mem lt before z =
    let more : mem s ≢ 0 = λ e. before 0 (omega arith) (ap mem (omega arith) ∙ e) in
    let rest : strlen fuel (s + 1) mem ≡ some len =
      strlen-some fuel (s + 1) len mem (omega arith)
        (λ i li e. before (suc i) (omega arith) (ap mem (omega arith) ∙ e))
        (ap mem (omega arith) ∙ z) in
    ground (arith, more, rest)
