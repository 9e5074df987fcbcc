-- ===== src/Inodes/Dinode.antt =====
-- The fields of inodes on disk, in kernel/fs.c.
use noy_hadar.Base.{
  ℕ, zero, suc, ◌+◌, ◌*◌, ◌^◌, ◌≤◌, ◌<◌, update, update_self, update_ne, ◌≡◌, ◌≢◌, ◌⊎◌, inl, refl,
  ap, sym, subst, ◌∙◌, arith, ℕ_discrete,
}
use noy_hadar.Fs.{Block, Inode, Fs, get_le, put_le}
use noy_hadar.Fs.Bytes.{get_le-put_le, get_le-put_le_apart, get_le_same, put_le_outside}
use noy_hadar.Inodes.{iblock, islot, put_addrs, put_dinode, get_dinode, iupdate}

-- The fields of an inode fit into those of `struct dinode`.
pub record Fits (ip : Inode) : Type 0 where
  pub type : ip.type < 2 ^ 16
  pub major : ip.major < 2 ^ 16
  pub minor : ip.minor < 2 ^ 16
  pub nlink : ip.nlink < 2 ^ 16
  pub size : ip.size < 2 ^ 32
  pub addrs : (n : ℕ) → n < 13 → ip.addrs n < 2 ^ 32

-- Two inodes agree in what `struct dinode` holds.
pub record Agree (ip iq : Inode) : Type 0 where
  pub type : ip.type ≡ iq.type
  pub major : ip.major ≡ iq.major
  pub minor : ip.minor ≡ iq.minor
  pub nlink : ip.nlink ≡ iq.nlink
  pub size : ip.size ≡ iq.size
  pub addrs : (n : ℕ) → n < 13 → ip.addrs n ≡ iq.addrs n

put_addrs_outside :
    (rounds n at : ℕ) (addrs : ℕ → ℕ) (b : Block) (i : ℕ)
    → (i < at + 4 * n) ⊎ (at + 4 * (n + rounds) ≤ i)
    → put_addrs rounds n at addrs b i ≡ b i
unfolding put_addrs
put_addrs_outside zero n at addrs b i out = refl
put_addrs_outside (suc rounds) n at addrs b i out =
    put_addrs_outside rounds (n + 1) at addrs (put_le 4 (at + 4 * n) (addrs n) b) i (omega arith)
    ∙ put_le_outside 4 (at + 4 * n) (addrs n) b i (omega arith)

get_le-put_addrs :
    (rounds n at : ℕ) (addrs : ℕ → ℕ) (b : Block) (m : ℕ)
    → n ≤ m
    → m < n + rounds
    → addrs m < 2 ^ 32
    → get_le 4 (at + 4 * m) (put_addrs rounds n at addrs b) ≡ addrs m
unfolding put_addrs
get_le-put_addrs zero n at addrs b m lo hi fits = absurd (omega arith)
get_le-put_addrs (suc rounds) n at addrs b m lo hi fits = elim (ℕ_discrete n m) [
  | yes e ↦
      get_le_same 4 (at + 4 * m) _ (put_le 4 (at + 4 * n) (addrs n) b) (λ i lj hj.
        put_addrs_outside rounds (n + 1) at addrs (put_le 4 (at + 4 * n) (addrs n) b) i
          (inl (omega arith)))
      ∙ ap (λ (x : ℕ). get_le 4 (at + 4 * m) (put_le 4 (at + 4 * x) (addrs x) b)) e
      ∙ get_le-put_le 4 (at + 4 * m) (addrs m) b fits
  | no ne ↦
      get_le-put_addrs rounds (n + 1) at addrs (put_le 4 (at + 4 * n) (addrs n) b) m (omega arith)
        (omega arith) fits
]

-- A field before the addresses is what was written last there.
before_addrs :
    (n at : ℕ) (from : ℕ) (addrs : ℕ → ℕ) (b : Block)
    → at + n ≤ from
    → get_le n at (put_addrs 13 0 from addrs b) ≡ get_le n at b
before_addrs n at from addrs b le =
    get_le_same n at _ b (λ i lo hi. put_addrs_outside 13 0 from addrs b i (inl (omega arith)))

get_dinode-put_dinode :
    (at : ℕ) (ip iq : Inode) (b : Block)
    → Fits ip
    → Agree (get_dinode at (put_dinode at ip b) iq) ip
unfolding get_dinode put_dinode
get_dinode-put_dinode at ip iq b f =
    let b1 = put_le 2 at ip.type b in
    let b2 = put_le 2 (at + 2) ip.major b1 in
    let b3 = put_le 2 (at + 4) ip.minor b2 in
    let b4 = put_le 2 (at + 6) ip.nlink b3 in
    let b5 = put_le 4 (at + 8) ip.size b4 in
    record {
      type =
          before_addrs 2 at (at + 12) ip.addrs b5 (omega arith)
          ∙ get_le-put_le_apart 2 at 4 (at + 8) ip.size b4 (inl (omega arith))
          ∙ get_le-put_le_apart 2 at 2 (at + 6) ip.nlink b3 (inl (omega arith))
          ∙ get_le-put_le_apart 2 at 2 (at + 4) ip.minor b2 (inl (omega arith))
          ∙ get_le-put_le_apart 2 at 2 (at + 2) ip.major b1 (inl (omega arith))
          ∙ get_le-put_le 2 at ip.type b f.type;
      major =
          before_addrs 2 (at + 2) (at + 12) ip.addrs b5 (omega arith)
          ∙ get_le-put_le_apart 2 (at + 2) 4 (at + 8) ip.size b4 (inl (omega arith))
          ∙ get_le-put_le_apart 2 (at + 2) 2 (at + 6) ip.nlink b3 (inl (omega arith))
          ∙ get_le-put_le_apart 2 (at + 2) 2 (at + 4) ip.minor b2 (inl (omega arith))
          ∙ get_le-put_le 2 (at + 2) ip.major b1 f.major;
      minor =
          before_addrs 2 (at + 4) (at + 12) ip.addrs b5 (omega arith)
          ∙ get_le-put_le_apart 2 (at + 4) 4 (at + 8) ip.size b4 (inl (omega arith))
          ∙ get_le-put_le_apart 2 (at + 4) 2 (at + 6) ip.nlink b3 (inl (omega arith))
          ∙ get_le-put_le 2 (at + 4) ip.minor b2 f.minor;
      nlink =
          before_addrs 2 (at + 6) (at + 12) ip.addrs b5 (omega arith)
          ∙ get_le-put_le_apart 2 (at + 6) 4 (at + 8) ip.size b4 (inl (omega arith))
          ∙ get_le-put_le 2 (at + 6) ip.nlink b3 f.nlink;
      size =
          before_addrs 4 (at + 8) (at + 12) ip.addrs b5 (omega arith)
          ∙ get_le-put_le 4 (at + 8) ip.size b4 f.size;
      addrs = λ n lt. get_le-put_addrs 13 0 (at + 12) ip.addrs b5 n (omega arith) lt (f.addrs n lt);
    }

put_dinode_outside :
    (at : ℕ) (ip : Inode) (b : Block) (i : ℕ)
    → (i < at) ⊎ (at + 64 ≤ i)
    → put_dinode at ip b i ≡ b i
unfolding put_dinode
put_dinode_outside at ip b i out =
    let b1 = put_le 2 at ip.type b in
    let b2 = put_le 2 (at + 2) ip.major b1 in
    let b3 = put_le 2 (at + 4) ip.minor b2 in
    let b4 = put_le 2 (at + 6) ip.nlink b3 in
    put_addrs_outside 13 0 (at + 12) ip.addrs (put_le 4 (at + 8) ip.size b4) i (omega arith)
    ∙ put_le_outside 4 (at + 8) ip.size b4 i (omega arith)
    ∙ put_le_outside 2 (at + 6) ip.nlink b3 i (omega arith)
    ∙ put_le_outside 2 (at + 4) ip.minor b2 i (omega arith)
    ∙ put_le_outside 2 (at + 2) ip.major b1 i (omega arith)
    ∙ put_le_outside 2 at ip.type b i (omega arith)

-- The inode `inum` as the disk has it.
unfoldable pub on_disk : Fs → ℕ → Inode → Inode
on_disk fs inum ip = get_dinode (islot inum) (fs.blocks (iblock inum fs.sb)) ip

get_dinode_same :
    (at : ℕ) (b c : Block) (ip : Inode)
    → ((i : ℕ) → at ≤ i → i < at + 64 → b i ≡ c i)
    → Agree (get_dinode at b ip) (get_dinode at c ip)
unfolding get_dinode
get_dinode_same at b c ip same =
    let field : (n k : ℕ) → k + n ≤ 64 → get_le n (at + k) b ≡ get_le n (at + k) c =
      λ n k le. get_le_same n (at + k) b c (λ i lo hi. same i (omega arith) (omega arith)) in
    record {
      type = get_le_same 2 at b c (λ i lo hi. same i (omega arith) (omega arith));
      major = field 2 2 (omega arith);
      minor = field 2 4 (omega arith);
      nlink = field 2 6 (omega arith);
      size = field 4 8 (omega arith);
      addrs = λ n lt.
          get_le_same 4 (at + 12 + 4 * n) b c (λ i lo hi. same i (omega arith) (omega arith));
    }

-- `iupdate` of an inode whose fields fit leaves the disk with just those fields, no other inode on
-- disk is changed, and no block that holds no inodes of its group.
pub iupdate-Agree :
    (i : ℕ) (fs : Fs) (iq : Inode)
    → Fits (fs.itable i)
    → Agree (on_disk (iupdate i fs) (fs.itable i).inum iq) (fs.itable i)
      × ((m : ℕ) → m ≢ (fs.itable i).inum → Agree (on_disk (iupdate i fs) m iq) (on_disk fs m iq))
      × ((n : ℕ) → n ≢ iblock (fs.itable i).inum fs.sb → (iupdate i fs).blocks n ≡ fs.blocks n)
unfolding on_disk iupdate
iupdate-Agree i fs iq fits =
    let ip = fs.itable i in
    let bno = iblock ip.inum fs.sb in
    let new = put_dinode (islot ip.inum) ip (fs.blocks bno) in
    (
      subst (λ (b : Block). Agree (get_dinode (islot ip.inum) b iq) ip)
          (sym (update_self fs.blocks bno new))
          (get_dinode-put_dinode (islot ip.inum) ip iq (fs.blocks bno) fits),
      λ m ne.
          get_dinode_same (islot m) (update fs.blocks bno new (iblock m fs.sb))
            (fs.blocks (iblock m fs.sb)) iq
            (λ k lo hi. elim (ℕ_discrete bno (iblock m fs.sb)) [
              | yes e ↦
                  ap (λ (x : ℕ). update fs.blocks bno new x k) (sym e)
                  ∙ ap (λ (b : Block). b k) (update_self fs.blocks bno new)
                  ∙ put_dinode_outside (islot ip.inum) ip (fs.blocks bno) k (omega arith)
                  ∙ ap (λ (x : ℕ). fs.blocks x k) e
              | no apart ↦
                  ap (λ (b : Block). b k) (update_ne fs.blocks bno new (iblock m fs.sb) apart)
            ]),
      λ n ne. update_ne fs.blocks bno new n (λ q. ne (sym q)),
    )
