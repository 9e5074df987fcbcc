-- ===== src/Disk/Laws.antt =====
-- What the operations on buffers do to the disk, to the kernel's view of it, and to the list of
-- writes.
use noy_hadar.Base.{
  ℕ, zero, suc, List, [], ◌∷◌, ◌++◌, take, All, update, ◌≡◌, ◌≢◌, refl, sym, ap, ◌∙◌, fun_ext,
  arith, ==_iff, ==_refl, append-nil, append_assoc,
}
use noy_hadar.Disk.{Block, Disk, Writes, Store, view, bread, set_data, bwrite, bunpin, apply_writes}

-- What a buffer operation did: it wrote `ws`.
pub record Wrote (s t : Store) (ws : Writes) : Type 0 where
  pub seen : view t ≡ apply_writes ws (view s)
  pub stored : t.disk ≡ apply_writes ws s.disk
  pub told : t.writes ≡ s.writes ++ ws

pub bread-eq-view : (b : ℕ) (s : Store) → (bread b s).0 ≡ view s b
unfolding bread
bread-eq-view b s = ground arith

pub bread-Wrote : (b : ℕ) (s : Store) → Wrote s (bread b s).1 []
unfolding bread apply_writes
bread-Wrote b s = record {
  seen = fun_ext λ c. ground (arith, ==_iff b c, ap s.disk);
  stored = ground arith;
  told = ground (arith, append-nil s.writes);
}

-- New data that is written at once, as every writer in log.c does.
pub write_data-Wrote :
    (b : ℕ) (d : Block) (s : Store) → Wrote s (bwrite b (set_data b d s)) ((b, d) ∷ [])
unfolding bwrite set_data apply_writes
write_data-Wrote b d s = record {
  seen = fun_ext λ c. ground arith;
  stored = fun_ext λ c. ground (arith, ==_refl b);
  told = ground (arith, ==_refl b);
}

pub bunpin-Wrote : (b : ℕ) (s : Store) → Wrote s (bunpin b s) []
unfolding bunpin apply_writes
bunpin-Wrote b s = record { seen = refl; stored = refl; told = sym (append-nil s.writes) }

pub apply_writes-append :
    (ws vs : Writes) (d : Disk) → apply_writes (ws ++ vs) d ≡ apply_writes vs (apply_writes ws d)
unfolding apply_writes
apply_writes-append [] vs d = refl
apply_writes-append ((b, x) ∷ ws) vs d = apply_writes-append ws vs (update d b x)

pub Wrote-trans :
    {s t u : Store} {ws vs : Writes} → Wrote s t ws → Wrote t u vs → Wrote s u (ws ++ vs)
Wrote-trans {s} {ws} {vs} p q = record {
  seen = q.seen ∙ ap (apply_writes vs) p.seen ∙ sym (apply_writes-append ws vs (view s));
  stored = q.stored ∙ ap (apply_writes vs) p.stored ∙ sym (apply_writes-append ws vs s.disk);
  told = q.told ∙ ap (λ l. l ++ vs) p.told ∙ append_assoc s.writes ws vs;
}

-- A block that no write names keeps its contents.
pub apply_writes_other :
    (ws : Writes) (d : Disk) (b : ℕ) → All (λ p. p.0 ≢ b) ws → apply_writes ws d b ≡ d b
unfolding apply_writes
apply_writes_other [] d b h = refl
apply_writes_other ((c, x) ∷ ws) d b h =
    apply_writes_other ws (update d c x) b h.1 ∙ ground (arith, h.0)

-- A block that holds `x`, and to which only `x` is written, holds `x`.
pub apply_writes_same :
    (ws : Writes) (d : Disk) (b : ℕ) (x : Block)
    → All (λ p. p.0 ≡ b → p.1 ≡ x) ws
    → d b ≡ x
    → apply_writes ws d b ≡ x
unfolding apply_writes
apply_writes_same [] d b x h e = e
apply_writes_same ((c, y) ∷ ws) d b x h e =
    apply_writes_same ws (update d c y) b x h.1 (ground (arith, h.0))

pub All-take {ℓ κ} :
    {A : Type ℓ} (P : A → Type κ) (n : ℕ) (xs : List A) → All P xs → All P (take n xs)
All-take P zero xs h = tt
All-take P (suc n) [] h = tt
All-take P (suc n) (x ∷ xs) h = (h.0, All-take P n xs h.1)
