-- ===== src/Content/Write.antt =====
-- What `writei` of kernel/fs.c writes within a block, `readi` reads.
use noy_hadar.Base.{
  ℕ, zero, suc, ◌+◌, ◌-◌, ◌*◌, ◌/◌, ◌%◌, ◌^◌, ◌≤◌, ◌<◌, ltb, min, true, false, ◌||◌, Option, some,
  ◌≡◌, ◌≢◌, inl, inr, refl, ap, sym, subst, ◌∙◌, arith, Bool-cases, ltb-false→le, le→ltb-false,
  lt→ltb, none-some, update, update_self, update_ne,
}
use noy_hadar.Kalloc.{Memory}
use noy_hadar.Vm.{Pagetable, Run, ◌>>=◌}
use noy_hadar.Usercopy.{write_bytes, read_bytes, either_copyout, either_copyin}
use noy_hadar.Fs.{Block, bsize, Fs, get_le, log_write}
use noy_hadar.Inodes.{iblock, iupdate}
use noy_hadar.Content.{
  ndirect, bmap, wraps, max_file_bytes, readi_loop, readi, writei_loop, grow_file, writei,
}
use noy_hadar.Content.Again.{IsSound, Mapped, bmap-Mapped, Mapped-bmap}

write_bytes_before :
    (n a s : ℕ) (mem to : Memory) (i : ℕ) → i < a → write_bytes a (read_bytes n s mem) to i ≡ to i
unfolding write_bytes read_bytes
write_bytes_before zero a s mem to i lt = refl
write_bytes_before (suc n) a s mem to i lt =
    write_bytes_before n (a + 1) (s + 1) mem (update to a (mem s)) i (omega arith)
    ∙ update_ne to a (mem s) i (λ q. omega arith)

write_bytes-read_bytes :
    (n a s : ℕ) (mem to : Memory) (k : ℕ)
    → k < n
    → write_bytes a (read_bytes n s mem) to (a + k) ≡ mem (s + k)
unfolding write_bytes read_bytes
write_bytes-read_bytes zero a s mem to k lt = absurd (omega arith)
write_bytes-read_bytes (suc n) a s mem to zero lt =
    ap (write_bytes (a + 1) (read_bytes n (s + 1) mem) (update to a (mem s))) (omega arith)
    ∙ write_bytes_before n (a + 1) (s + 1) mem (update to a (mem s)) a (omega arith)
    ∙ update_self to a (mem s)
    ∙ ap mem (omega arith)
write_bytes-read_bytes (suc n) a s mem to (suc k) lt =
    ap (write_bytes (a + 1) (read_bytes n (s + 1) mem) (update to a (mem s))) (omega arith)
    ∙ write_bytes-read_bytes n (a + 1) (s + 1) mem (update to a (mem s)) k (omega arith)
    ∙ ap mem (omega arith)

-- The bytes that one round of `writei` writes.
abbrev written : ℕ → ℕ → ℕ → Memory → Block → Block
written off n src mem b = write_bytes (off % bsize) (read_bytes n src mem) b

writei_one :
    (fuel i : ℕ) (pt : Pagetable) (src off n : ℕ) (fs : Fs) (mem : Memory)
    → 0 < n
    → off % bsize + n ≤ bsize
    → writei_loop (suc (suc fuel)) i false pt src off 0 n fs mem ≡ (
        bmap i (off / bsize) fs >>= λ (addr, fs1).
        Run.returned (n, off + n, log_write addr (written off n src mem (fs1.blocks addr)) fs1))
unfolding writei_loop either_copyin
writei_one fuel i pt src off n fs mem lt fits =
    let least : min (n - 0) (bsize - off % bsize) ≡ n = omega arith in
    let go : ltb 0 n ≡ true = lt→ltb 0 n lt in
    let stop : ltb n n ≡ false = le→ltb-false n n (omega arith) in
    let all : 0 + n ≡ n = omega arith in simp (least, go, stop, all) refl

readi_one :
    (fuel i : ℕ) (pt : Pagetable) (dst off n : ℕ) (fs : Fs) (mem : Memory)
    → 0 < n
    → off % bsize + n ≤ bsize
    → readi_loop (suc (suc fuel)) i false pt dst off 0 n fs mem ≡ (
        bmap i (off / bsize) fs >>= λ (addr, fs1).
        Run.returned
          (some n, fs1, write_bytes dst (read_bytes n (off % bsize) (fs1.blocks addr)) mem))
unfolding readi_loop either_copyout
readi_one fuel i pt dst off n fs mem lt fits =
    let least : min (n - 0) (bsize - off % bsize) ≡ n = omega arith in
    let go : ltb 0 n ≡ true = lt→ltb 0 n lt in
    let stop : ltb n n ≡ false = le→ltb-false n n (omega arith) in
    let all : 0 + n ≡ n = omega arith in simp (least, go, stop, all) refl

-- A block of a file is neither a block of inodes nor the file's indirect block.
pub record IsApart (i addr : ℕ) (fs : Fs) : Type 0 where
  pub inode : addr ≢ iblock (fs.itable i).inum fs.sb
  pub table : (fs.itable i).addrs ndirect ≢ iblock (fs.itable i).inum fs.sb
  pub itself : addr ≢ (fs.itable i).addrs ndirect

-- What `writei` leaves when it writes the bytes `new` into block `addr`.
abbrev left_by : ℕ → ℕ → ℕ → Block → Fs → Fs
left_by i addr off new fs = grow_file i off (log_write addr new fs)

left-addrs :
    (i addr off : ℕ) (new : Block) (fs : Fs)
    → ((left_by i addr off new fs).itable i).addrs ≡ (fs.itable i).addrs
unfolding grow_file iupdate
left-addrs i addr off new fs = ground arith

left-size :
    (i addr off : ℕ) (new : Block) (fs : Fs) → off ≤ ((left_by i addr off new fs).itable i).size
unfolding grow_file iupdate
left-size i addr off new fs = ground arith

left-blocks :
    (i addr off n : ℕ) (new : Block) (fs : Fs)
    → n ≢ iblock (fs.itable i).inum fs.sb
    → (left_by i addr off new fs).blocks n ≡ update fs.blocks addr new n
unfolding grow_file iupdate
left-blocks i addr off n new fs ne = ground arith

left-Mapped :
    (i bn addr off : ℕ) (new : Block) (fs : Fs)
    → IsApart i addr fs
    → Mapped i bn addr fs
    → Mapped i bn addr (left_by i addr off new fs)
left-Mapped i bn addr off new fs apart (Mapped.direct near ne e) =
    Mapped.direct near ne (ap (λ (f : ℕ → ℕ). f bn) (left-addrs i addr off new fs) ∙ e)
left-Mapped i bn addr off new fs apart (Mapped.indirect at far in_ ne e ne' e') =
    Mapped.indirect at far in_ ne (ap (λ (f : ℕ → ℕ). f ndirect) (left-addrs i addr off new fs) ∙ e)
      ne'
      (ap (get_le 4 (4 * (bn - ndirect))) (
          left-blocks i addr off at new fs (λ q. apart.table (e ∙ q))
          ∙ update_ne fs.blocks addr new at (λ q. apart.itself (q ∙ sym e)))
        ∙ e')

abbrev finish : ℕ → ℕ × ℕ × Fs → Run (Option ℕ × Fs)
finish i (t, off, x) = Run.returned (some t, grow_file i off x)

writei_done :
    (i : ℕ) (pt : Pagetable) (src off n tot : ℕ) (fs : Fs) (mem : Memory) {fs' : Fs}
    → writei i false pt src off n fs mem ≡ Run.returned (some tot, fs')
    → (off + n ≤ max_file_bytes)
      × ((writei_loop (n / bsize + 3) i false pt src off 0 n fs mem >>= finish i)
          ≡ Run.returned (some tot, fs'))
unfolding writei
writei_done i pt src off n tot fs mem h =
    elim (Bool-cases (ltb (fs.itable i).size off || wraps off n)) [
      | inl bad ↦ absurd (none-some (ap (λ (r : Option ℕ × Fs). r.0) (parts (rw bad at h))))
      | inr ok ↦ elim (Bool-cases (ltb max_file_bytes (off + n))) [
        | inl big ↦ absurd (none-some (ap (λ (r : Option ℕ × Fs). r.0) (parts (rw (ok, big) at h))))
        | inr small ↦
            (omega (arith, ltb-false→le max_file_bytes (off + n) small), rw (ok, small) at h)
      ]
    ]
  where
    parts :
        {a b : Option ℕ × Fs}
        → ◌≡◌ {A = Run (Option ℕ × Fs)} (Run.returned a) (Run.returned b)
        → a ≡ b
    parts e = cc

readi_done :
    (i : ℕ) (pt : Pagetable) (dst off n : ℕ) (fs : Fs) (mem : Memory)
    → off + n ≤ (fs.itable i).size
    → off + n < 2 ^ 32
    → readi i false pt dst off n fs mem ≡ readi_loop (n / bsize + 3) i false pt dst off 0 n fs mem
unfolding readi
readi_done i pt dst off n fs mem le lt =
    let inside : ltb (fs.itable i).size off ≡ false =
      le→ltb-false (fs.itable i).size off (omega arith) in
    let whole : ltb (fs.itable i).size (off + n) ≡ false =
      le→ltb-false (fs.itable i).size (off + n) le in
    let straight : wraps off n ≡ false = le→ltb-false ((off + n) % 2 ^ 32) off (omega arith) in
    simp (inside, whole, straight) refl

-- A write from the kernel's memory within one block of a file, whose `bmap` gives a block apart
-- from the inode's and from the indirect block: when it returns the number of bytes, a read of as
-- many bytes from the same place returns it too, changes nothing in the file system, and leaves
-- just those bytes at `dst`, be the block old or new.
pub readi-writei :
    (i : ℕ) (pt : Pagetable) (src dst off n addr : ℕ) (fs fs1 : Fs) (mem : Memory) {fs' : Fs}
    → IsSound fs
    → bmap i (off / bsize) fs ≡ Run.returned (addr, fs1)
    → IsApart i addr fs1
    → 0 < n
    → off % bsize + n ≤ bsize
    → writei i false pt src off n fs mem ≡ Run.returned (some n, fs')
    → (mem' : Memory) × (readi i false pt dst off n fs' mem ≡ Run.returned (some n, fs', mem'))
      × ((k : ℕ) → k < n → mem' (dst + k) ≡ mem (src + k))
readi-writei i pt src dst off n addr fs fs1 mem {fs'} sound at apart lt fits h =
    let (small, run) = writei_done i pt src off n n fs mem h in
    let new = written off n src mem (fs1.blocks addr) in
    let final = left_by i addr (off + n) new fs1 in
    let at_left = Mapped-bmap i (off / bsize) addr final (
      left-Mapped i (off / bsize) addr (off + n) new fs1 apart
        (bmap-Mapped i (off / bsize) fs sound at)) in
    let same : final ≡ fs' = done_same n final fs' (sym (wrote (n / bsize + 1)) ∙ rounds run) in
    subst
      (λ (x : Fs).
        (mem' : Memory) × (readi i false pt dst off n x mem ≡ Run.returned (some n, x, mem'))
        × ((k : ℕ) → k < n → mem' (dst + k) ≡ mem (src + k)))
      same
      (
        write_bytes dst (read_bytes n (off % bsize) (final.blocks addr)) mem,
        readi_done i pt dst off n final mem (left-size i addr (off + n) new fs1) (omega arith)
            ∙ ap (λ (m : ℕ). readi_loop m i false pt dst off 0 n final mem) (omega arith)
            ∙ readi_one (n / bsize + 1) i pt dst off n final mem lt fits
            ∙ ap
                (λ (r : Run (ℕ × Fs)). r >>= λ (a, x).
                  Run.returned
                    (some n, x, write_bytes dst (read_bytes n (off % bsize) (x.blocks a)) mem))
                at_left,
        λ k lk.
            write_bytes-read_bytes n dst (off % bsize) (final.blocks addr) mem k lk
            ∙ ap (λ (b : Block). b (off % bsize + k))
                (left-blocks i addr (off + n) addr new fs1 apart.inode
                  ∙ update_self fs1.blocks addr new)
            ∙ write_bytes-read_bytes n (off % bsize) src mem (fs1.blocks addr) k lk,
      )
  where
    done_same :
        (m : ℕ) (x y : Fs)
        → ◌≡◌ {A = Run (Option ℕ × Fs)} (Run.returned (some m, x)) (Run.returned (some m, y))
        → x ≡ y
    done_same m x y e = cc

    wrote :
        (fuel : ℕ)
        → (writei_loop (suc (suc fuel)) i false pt src off 0 n fs mem >>= finish i)
          ≡ Run.returned
              (some n, left_by i addr (off + n) (written off n src mem (fs1.blocks addr)) fs1)
    wrote fuel =
        ap (λ (r : Run (ℕ × ℕ × Fs)). r >>= finish i)
          (writei_one fuel i pt src off n fs mem lt fits
            ∙ ap
                (λ (r : Run (ℕ × Fs)). r >>= λ (a, x).
                  Run.returned (n, off + n, log_write a (written off n src mem (x.blocks a)) x))
                at)

    rounds :
        (writei_loop (n / bsize + 3) i false pt src off 0 n fs mem >>= finish i)
          ≡ Run.returned (some n, fs')
        → (writei_loop (suc (suc (n / bsize + 1))) i false pt src off 0 n fs mem >>= finish i)
          ≡ Run.returned (some n, fs')
    rounds e =
        ap (λ (m : ℕ). writei_loop m i false pt src off 0 n fs mem >>= finish i) (omega arith) ∙ e
