-- ===== src/Content/Again.antt =====
-- `bmap` of kernel/fs.c gives a file's block a fixed place.
use noy_hadar.Base.{
  ℕ, ◌-◌, ◌*◌, ◌^◌, ◌≤◌, ◌<◌, ◌==◌, ltb, true, false, ◌||◌, update_self, ◌≡◌, ◌≢◌, inl, inr, refl,
  ap, sym, subst, ◌∙◌, arith, Bool-cases, ==-false→ne, ne→==-false,
}
use noy_hadar.Vm.{Run, ◌>>=◌}
use noy_hadar.Vm.Lookup.{>>=-eq-returned}
use noy_hadar.Fs.{Inode, Fs, get_le, put_le, log_write, balloc, bblock}
use noy_hadar.Fs.Bytes.{get_le-put_le}
use noy_hadar.Fs.Bitmap.{used, IsSafe, Allocated, balloc-Allocated}
use noy_hadar.Inodes.{}
use noy_hadar.Content.{ndirect, nindirect, set_addr, addr_at, entry_at, bmap}

-- The bitmap's blocks and the boot block are in use, and block numbers fit into 32 bits.
pub record IsSound (fs : Fs) : Type 0 where
  pub safe : IsSafe fs
  pub boot : (0 < fs.sb.size) × (used fs 0 ≡ true)
  pub small : fs.sb.size ≤ 2 ^ 32

returned_parts :
    {a b : ℕ} {x y : Fs}
    → ◌≡◌ {A = Run (ℕ × Fs)} (Run.returned (a, x)) (Run.returned (b, y))
    → (a ≡ b) × (x ≡ y)
returned_parts e = (cc, cc)

used_more :
    (fs fs' : Fs) (k : ℕ)
    → IsSound fs
    → ((c : ℕ) → c < fs.sb.size → used fs' c ≡ (used fs c || k == c))
    → fs'.sb ≡ fs.sb
    → IsSound fs'
used_more fs fs' k v bits e = record {
  safe = record {
    own = λ c lt.
        let (inside, own) = v.safe.own c (subst (λ s. c < s.size) e lt) in
        (
          subst (λ s. bblock c s < s.size) (sym e) inside,
          ap (λ s. used fs' (bblock c s)) e ∙ bits (bblock c fs.sb) inside ∙ ground (arith, own),
        );
  };
  boot = (subst (λ s. 0 < s.size) (sym e) v.boot.0, bits 0 v.boot.0 ∙ ground (arith, v.boot.1));
  small = subst (λ s. s.size ≤ 2 ^ 32) (sym e) v.small;
}

Allocated-IsSound :
    (fs : Fs) {k : ℕ} {fs' : Fs}
    → IsSound fs
    → Allocated fs (Run.returned (k, fs'))
    → (k ≢ 0) × (k < 2 ^ 32) × IsSound fs' × (fs'.itable ≡ fs.itable)
Allocated-IsSound fs v (Allocated.taken k fs' lt is_free _ bits _ _ (e, same)) = (
  λ q. cc (v.boot.1, is_free, ap (used fs) q),
  omega (arith, v.small),
  used_more fs fs' k v bits e,
  same,
)

balloc-IsSound :
    (fs : Fs) {k : ℕ} {fs' : Fs}
    → IsSound fs
    → balloc fs ≡ Run.returned (k, fs')
    → (k ≢ 0) × (k < 2 ^ 32) × IsSound fs' × (fs'.itable ≡ fs.itable)
balloc-IsSound fs v h = Allocated-IsSound fs v (subst (Allocated fs) h (balloc-Allocated fs v.safe))

set_addr-IsSound : (i n a : ℕ) (fs : Fs) → IsSound fs → IsSound (set_addr i n a fs)
unfolding used
set_addr-IsSound i n a fs v = record {
  safe = record { own = v.safe.own };
  boot = v.boot;
  small = v.small;
}

set_addr-addrs : (i n a : ℕ) (fs : Fs) → ((set_addr i n a fs).itable i).addrs n ≡ a
set_addr-addrs i n a fs = ground arith

addr_at_old :
    (i n : ℕ) (fs : Fs)
    → (fs.itable i).addrs n ≢ 0
    → addr_at i n fs ≡ Run.returned ((fs.itable i).addrs n, fs)
unfolding addr_at
addr_at_old i n fs ne = rw (ne→==-false ((fs.itable i).addrs n) 0 ne) refl

addr_at_new :
    (i n : ℕ) (fs : Fs)
    → ((fs.itable i).addrs n == 0) ≡ true
    → addr_at i n fs ≡ (balloc fs >>= λ (a, fs1). Run.returned (a, set_addr i n a fs1))
unfolding addr_at
addr_at_new i n fs e = rw e refl

addr_at-IsSound :
    (i n : ℕ) (fs : Fs) {a : ℕ} {fs' : Fs}
    → IsSound fs
    → addr_at i n fs ≡ Run.returned (a, fs')
    → (a ≢ 0) × ((fs'.itable i).addrs n ≡ a) × IsSound fs'
addr_at-IsSound i n fs {a} {fs'} v h = elim (Bool-cases ((fs.itable i).addrs n == 0)) [
  | inl z ↦
      let ((k, fs1), got, rest) =
        >>=-eq-returned (balloc fs) (λ (a, fs1). Run.returned (a, set_addr i n a fs1))
          (sym (addr_at_new i n fs z) ∙ h) in
      let (ne, _, v1, _) = balloc-IsSound fs v got in
      let (e, f) = returned_parts rest in
      (
        λ q. ne (e ∙ q),
        ap (λ (x : Fs). (x.itable i).addrs n) (sym f) ∙ set_addr-addrs i n k fs1 ∙ e,
        subst IsSound f (set_addr-IsSound i n k fs1 v1),
      )
  | inr z ↦
      let ne = ==-false→ne ((fs.itable i).addrs n) 0 z in
      let (e, f) = returned_parts (sym (addr_at_old i n fs ne) ∙ h) in
      (λ q. ne (e ∙ q), ap (λ (x : Fs). (x.itable i).addrs n) (sym f) ∙ e, subst IsSound f v)
]

entry_at_old :
    (at bn : ℕ) (fs : Fs)
    → get_le 4 (4 * bn) (fs.blocks at) ≢ 0
    → entry_at at bn fs ≡ Run.returned (get_le 4 (4 * bn) (fs.blocks at), fs)
unfolding entry_at
entry_at_old at bn fs ne = rw (ne→==-false (get_le 4 (4 * bn) (fs.blocks at)) 0 ne) refl

entry_at_new :
    (at bn : ℕ) (fs : Fs)
    → (get_le 4 (4 * bn) (fs.blocks at) == 0) ≡ true
    → entry_at at bn fs ≡ (
        balloc fs >>= λ (a, fs1).
        Run.returned (a, log_write at (put_le 4 (4 * bn) a (fs1.blocks at)) fs1))
unfolding entry_at
entry_at_new at bn fs e = rw e refl

entry_at_kept :
    (at bn i : ℕ) (fs : Fs) {a : ℕ} {fs' : Fs}
    → IsSound fs
    → entry_at at bn fs ≡ Run.returned (a, fs')
    → (a ≢ 0) × (get_le 4 (4 * bn) (fs'.blocks at) ≡ a) × (fs'.itable i ≡ fs.itable i)
entry_at_kept at bn i fs {a} {fs'} v h = elim (Bool-cases (get_le 4 (4 * bn) (fs.blocks at) == 0)) [
  | inl z ↦
      let ((k, fs1), got, rest) =
        >>=-eq-returned (balloc fs)
          (λ (a, fs1). Run.returned (a, log_write at (put_le 4 (4 * bn) a (fs1.blocks at)) fs1))
          (sym (entry_at_new at bn fs z) ∙ h) in
      let (ne, lt, _, same) = balloc-IsSound fs v got in
      let (e, f) = returned_parts rest in
      let new = put_le 4 (4 * bn) k (fs1.blocks at) in
      (
        λ q. ne (e ∙ q),
        ap (λ (x : Fs). get_le 4 (4 * bn) (x.blocks at)) (sym f)
            ∙ ap (get_le 4 (4 * bn)) (update_self fs1.blocks at new)
            ∙ get_le-put_le 4 (4 * bn) k (fs1.blocks at) lt
            ∙ e,
        ap (λ (x : Fs). x.itable i) (sym f) ∙ ap (λ (x : ℕ → Inode). x i) same,
      )
  | inr z ↦
      let ne = ==-false→ne (get_le 4 (4 * bn) (fs.blocks at)) 0 z in
      let (e, f) = returned_parts (sym (entry_at_old at bn fs ne) ∙ h) in
      (
        λ q. ne (e ∙ q),
        ap (λ (x : Fs). get_le 4 (4 * bn) (x.blocks at)) (sym f) ∙ e,
        ap (λ (x : Fs). x.itable i) (sym f),
      )
]

addr_at_again :
    (i n a : ℕ) (fs : Fs)
    → a ≢ 0
    → (fs.itable i).addrs n ≡ a
    → addr_at i n fs ≡ Run.returned (a, fs)
addr_at_again i n a fs ne e =
    addr_at_old i n fs (λ q. ne (sym e ∙ q)) ∙ ap (λ (x : ℕ). Run.returned (x, fs)) e

entry_at_again :
    (at bn a : ℕ) (fs : Fs)
    → a ≢ 0
    → get_le 4 (4 * bn) (fs.blocks at) ≡ a
    → entry_at at bn fs ≡ Run.returned (a, fs)
entry_at_again at bn a fs ne e =
    entry_at_old at bn fs (λ q. ne (sym e ∙ q)) ∙ ap (λ (x : ℕ). Run.returned (x, fs)) e

bmap-direct : (i bn : ℕ) (fs : Fs) → ltb bn ndirect ≡ true → bmap i bn fs ≡ addr_at i bn fs
unfolding bmap
bmap-direct i bn fs e = rw e refl

bmap-indirect :
    (i bn : ℕ) (fs : Fs)
    → ltb bn ndirect ≡ false
    → ltb (bn - ndirect) nindirect ≡ true
    → bmap i bn fs ≡ (addr_at i ndirect fs >>= λ (at, fs1). entry_at at (bn - ndirect) fs1)
unfolding bmap
bmap-indirect i bn fs e f = rw (e, f) refl

bmap_far :
    (i bn : ℕ) (fs : Fs)
    → ltb bn ndirect ≡ false
    → ltb (bn - ndirect) nindirect ≡ false
    → bmap i bn fs ≡ Run.panic
unfolding bmap
bmap_far i bn fs e f = rw (e, f) refl

-- Block `bn` of inode `i` stands at `a`.
pub data Mapped (i bn a : ℕ) (fs : Fs) : Type 0 where
  direct : ltb bn ndirect ≡ true → a ≢ 0 → (fs.itable i).addrs bn ≡ a → Mapped i bn a fs
  indirect :
      (at : ℕ)
      → ltb bn ndirect ≡ false
      → ltb (bn - ndirect) nindirect ≡ true
      → at ≢ 0
      → (fs.itable i).addrs ndirect ≡ at
      → a ≢ 0
      → get_le 4 (4 * (bn - ndirect)) (fs.blocks at) ≡ a
      → Mapped i bn a fs

pub bmap-Mapped :
    (i bn : ℕ) (fs : Fs) {a : ℕ} {fs' : Fs}
    → IsSound fs
    → bmap i bn fs ≡ Run.returned (a, fs')
    → Mapped i bn a fs'
bmap-Mapped i bn fs {a} {fs'} v h = elim (Bool-cases (ltb bn ndirect)) [
  | inl near ↦
      let (ne, e, _) = addr_at-IsSound i bn fs v (sym (bmap-direct i bn fs near) ∙ h) in
      Mapped.direct near ne e
  | inr far ↦ elim (Bool-cases (ltb (bn - ndirect) nindirect)) [
    | inr out ↦ absurd (cc (sym (bmap_far i bn fs far out) ∙ h))
    | inl in_ ↦
        let ((at, fs1), first, second) =
          >>=-eq-returned (addr_at i ndirect fs) (λ (at, fs1). entry_at at (bn - ndirect) fs1)
            (sym (bmap-indirect i bn fs far in_) ∙ h) in
        let (ne, e, v1) = addr_at-IsSound i ndirect fs v first in
        let (ne', e', same) = entry_at_kept at (bn - ndirect) i fs1 v1 second in
        Mapped.indirect at far in_ ne (ap (λ (ip : Inode). ip.addrs ndirect) same ∙ e) ne' e'
  ]
]

pub Mapped-bmap : (i bn a : ℕ) (fs : Fs) → Mapped i bn a fs → bmap i bn fs ≡ Run.returned (a, fs)
Mapped-bmap i bn a fs (Mapped.direct near ne e) =
    bmap-direct i bn fs near ∙ addr_at_again i bn a fs ne e
Mapped-bmap i bn a fs (Mapped.indirect at far in_ ne e ne' e') =
    bmap-indirect i bn fs far in_
    ∙ ap (λ (r : Run (ℕ × Fs)). r >>= λ (m, x). entry_at m (bn - ndirect) x)
        (addr_at_again i ndirect at fs ne e)
    ∙ entry_at_again at (bn - ndirect) a fs ne' e'
