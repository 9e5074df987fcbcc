-- ===== src/Strings/Copy.antt =====
-- `safestrcpy` of kernel/string.c.
use noy_hadar.Base.{
  ℕ, zero, suc, ◌+◌, ◌≤◌, ◌<◌, ◌==◌, update, update_self, update_ne, ◌≡◌, ◌≢◌, ◌⊎◌, inl, inr, ap,
  sym, ◌∙◌, arith, ==_iff, ==-false→ne, Bool-cases,
}
use noy_hadar.Strings.{Bytes, copy_string, safestrcpy}

-- A string of `len` bytes and a NUL stands at `s`, of at most `n` bytes in all. Its bytes are those
-- at `t` in the old memory, up to their NUL or as many as fit.
pub record Copied (s t n : ℕ) (old new : Bytes) : Type 0 where
  pub len : ℕ
  pub fits : len < n
  pub same : (i : ℕ) → i < len → new (s + i) ≡ old (t + i)
  pub no_nul : (i : ℕ) → i < len → old (t + i) ≢ 0
  pub ended : new (s + len) ≡ 0
  pub whole : (old (t + len) ≡ 0) ⊎ (len + 1 ≡ n)
  pub rest : (a : ℕ) → (a < s) ⊎ (s + n ≤ a) → new a ≡ old a

-- The loop, with the NUL that comes behind it.
abbrev terminated : ℕ → ℕ → ℕ → Bytes → Bytes
terminated n s t mem = update (copy_string n s t mem).1 (copy_string n s t mem).0 0

nul_found :
    (n s t : ℕ) (mem : Bytes)
    → mem t ≡ 0
    → Copied s t (suc (suc n)) mem (update (update mem s (mem t)) (s + 1) 0)
nul_found n s t mem e = record {
  len = 0;
  fits = omega arith;
  same = λ i lt. absurd (omega arith);
  no_nul = λ i lt. absurd (omega arith);
  ended =
      update_ne (update mem s (mem t)) (s + 1) 0 (s + 0) (λ q. omega arith)
      ∙ ap (update mem s (mem t)) (omega arith)
      ∙ update_self mem s (mem t)
      ∙ e;
  whole = inl (ap mem (omega arith) ∙ e);
  rest = λ a out.
      update_ne (update mem s (mem t)) (s + 1) 0 a (λ q. omega arith)
      ∙ update_ne mem s (mem t) a (λ q. omega arith);
}

one_more :
    (n s t : ℕ) (mem new : Bytes)
    → (s + suc (suc n) ≤ t) ⊎ (t + suc (suc n) ≤ s)
    → mem t ≢ 0
    → Copied (s + 1) (t + 1) (suc n) (update mem s (mem t)) new
    → Copied s t (suc (suc n)) mem new
one_more n s t mem new apart ne c = record {
  len = suc c.len;
  fits = omega (arith, c.fits);
  same = same';
  no_nul = no_nul';
  ended = ap new (omega arith) ∙ c.ended;
  whole = elim c.whole [
    | inl z ↦ inl (sym (away c.len (omega (arith, c.fits))) ∙ z)
    | inr e ↦ inr (omega arith)
  ];
  rest = λ a out. c.rest a (omega arith) ∙ update_ne mem s (mem t) a (λ q. omega arith);
}
  where
    away : (i : ℕ) → i ≤ n → update mem s (mem t) (t + 1 + i) ≡ mem (t + suc i)
    away i le = update_ne mem s (mem t) (t + 1 + i) (λ q. omega arith) ∙ ap mem (omega arith)

    same' : (i : ℕ) → i < suc c.len → new (s + i) ≡ mem (t + i)
    same' zero lt =
        c.rest (s + 0) (inl (omega arith))
        ∙ ap (update mem s (mem t)) (omega arith)
        ∙ update_self mem s (mem t)
        ∙ ap mem (omega arith)
    same' (suc i) lt =
        ap new (omega arith) ∙ c.same i (omega arith) ∙ away i (omega (arith, c.fits))

    no_nul' : (i : ℕ) → i < suc c.len → mem (t + i) ≢ 0
    no_nul' zero lt = λ q. ne (ap mem (omega arith) ∙ q)
    no_nul' (suc i) lt = λ q. c.no_nul i (omega arith) (away i (omega (arith, c.fits)) ∙ q)

terminated-Copied :
    (n s t : ℕ) (mem : Bytes)
    → (s + suc n ≤ t) ⊎ (t + suc n ≤ s)
    → Copied s t (suc n) mem (terminated n s t mem)
unfolding copy_string
terminated-Copied zero s t mem apart = record {
  len = 0;
  fits = omega arith;
  same = λ i lt. absurd (omega arith);
  no_nul = λ i lt. absurd (omega arith);
  ended = ap (update mem s 0) (omega arith) ∙ update_self mem s 0;
  whole = inr (omega arith);
  rest = λ a out. update_ne mem s 0 a (λ q. omega arith);
}
terminated-Copied (suc n) s t mem apart = elim (Bool-cases (mem t == 0)) [
  | inl nul ↦ rw nul (nul_found n s t mem ((==_iff (mem t) 0).0 nul))
  | inr more ↦ rw more (
      one_more n s t mem _ apart (==-false→ne (mem t) 0 more)
        (terminated-Copied n (s + 1) (t + 1) (update mem s (mem t)) (omega arith)))
]

-- Between regions of `n` bytes that do not overlap, `n` at least 1, `safestrcpy` leaves a string
-- that ends in a NUL within its `n` bytes, and is the source's, cut off only where it does not fit;
-- no byte outside the `n` changes.
pub safestrcpy-Copied :
    (s t n : ℕ) (mem : Bytes)
    → 0 < n
    → (s + n ≤ t) ⊎ (t + n ≤ s)
    → Copied s t n mem (safestrcpy s t n mem)
unfolding safestrcpy
safestrcpy-Copied s t zero mem pos apart = absurd (omega arith)
safestrcpy-Copied s t (suc n) mem pos apart = terminated-Copied n s t mem apart
