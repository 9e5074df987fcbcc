-- ===== src/Content/Ends.antt =====
-- `bmap`, `readi` and `writei` of kernel/fs.c come to an end.
use noy_hadar.Base.{
  ℕ, zero, suc, ◌+◌, ◌-◌, ◌*◌, ◌/◌, ◌%◌, ◌≤◌, ◌<◌, ltb, min, if◌then◌else◌, Bool, true, false, not,
  Option, none, some, List, ◌≢◌, inl, inr, refl, sym, ◌∙◌, arith, Bool-cases, ltb→lt,
}
use noy_hadar.Kalloc.{Memory}
use noy_hadar.Vm.{Pagetable, Run, ◌>>=◌}
use noy_hadar.Usercopy.{write_bytes, read_bytes, copyout, copyin, either_copyout, either_copyin}
use noy_hadar.Usercopy.Bytes.{}
use noy_hadar.Usercopy.Pages.{copyout-eq}
use noy_hadar.Usercopy.Loads.{copyin-eq}
use noy_hadar.Fs.{bsize, Fs, get_le, put_le, log_write, balloc}
use noy_hadar.Fs.Bitmap.{balloc_ends}
use noy_hadar.Content.{
  ndirect, set_addr, addr_at, entry_at, bmap, continue_read, continue_write, readi_loop, readi,
  writei_loop, grow_file, writei,
}

>>=-ends :
    {A B : Type 0} (m : Run A) (f : A → Run B)
    → m ≢ Run.lost
    → ((a : A) → f a ≢ Run.lost)
    → (m >>= f) ≢ Run.lost
>>=-ends Run.panic f h g = λ e. cc
>>=-ends Run.lost f h g = λ e. h refl
>>=-ends (Run.returned a) f h g = g a

returned_ends : {A : Type 0} (a : A) → Run.returned a ≢ Run.lost
returned_ends a = λ e. cc

panic_ends : {A : Type 0} → ◌≢◌ {A = Run A} Run.panic Run.lost
panic_ends = λ e. cc

if_ends :
    {A : Type 0} (b : Bool) (m n : Run A)
    → m ≢ Run.lost
    → n ≢ Run.lost
    → (if b then m else n) ≢ Run.lost
if_ends true m n h k = h
if_ends false m n h k = k

addr_at_ends : (i n : ℕ) (fs : Fs) → addr_at i n fs ≢ Run.lost
unfolding addr_at
addr_at_ends i n fs =
    if_ends _ _ _
      (>>=-ends (balloc fs) (λ (a, fs1). Run.returned (a, set_addr i n a fs1)) (balloc_ends fs)
        (λ (a, fs1). returned_ends (a, set_addr i n a fs1)))
      (returned_ends ((fs.itable i).addrs n, fs))

entry_at_ends : (at bn : ℕ) (fs : Fs) → entry_at at bn fs ≢ Run.lost
unfolding entry_at
entry_at_ends at bn fs =
    if_ends _ _ _
      (>>=-ends (balloc fs)
        (λ (a, fs1). Run.returned (a, log_write at (put_le 4 (4 * bn) a (fs1.blocks at)) fs1))
        (balloc_ends fs)
        (λ (a, fs1). returned_ends (a, log_write at (put_le 4 (4 * bn) a (fs1.blocks at)) fs1)))
      (returned_ends (get_le 4 (4 * bn) (fs.blocks at), fs))

bmap_ends : (i bn : ℕ) (fs : Fs) → bmap i bn fs ≢ Run.lost
unfolding bmap
bmap_ends i bn fs = if_ends _ _ _ (addr_at_ends i bn fs) (
    if_ends _ _ _
      (>>=-ends (addr_at i ndirect fs) (λ (at, fs1). entry_at at (bn - ndirect) fs1)
        (addr_at_ends i ndirect fs) (λ (at, fs1). entry_at_ends at (bn - ndirect) fs1))
      panic_ends)

either_copyout_ends :
    (user_dst : Bool) (pt : Pagetable) (dst : ℕ) (src : List ℕ) (mem : Memory)
    → either_copyout user_dst pt dst src mem ≢ Run.lost
unfolding either_copyout
either_copyout_ends user_dst pt dst src mem =
    if_ends user_dst (copyout pt dst src mem) (Run.returned (true, write_bytes dst src mem))
      (λ e. cc (sym (copyout-eq pt dst src mem) ∙ e))
      (returned_ends (true, write_bytes dst src mem))

either_copyin_ends :
    (user_src : Bool) (pt : Pagetable) (src n : ℕ) (mem : Memory)
    → either_copyin user_src pt src n mem ≢ Run.lost
unfolding either_copyin
either_copyin_ends user_src pt src n mem =
    if_ends user_src (copyin pt src n mem) (Run.returned (true, read_bytes n src mem))
      (λ e. cc (sym (copyin-eq pt src n mem) ∙ e)) (returned_ends (true, read_bytes n src mem))

-- The rounds that are left are enough.
abbrev Enough : ℕ → ℕ → ℕ → ℕ → Type 0
Enough fuel off tot n = (0 < fuel) × (tot < n → (n - tot) + off % bsize + bsize ≤ fuel * bsize)

Enough-suc :
    (fuel off tot n : ℕ)
    → tot < n
    → Enough (suc fuel) off tot n
    → Enough fuel
        (off + min (n - tot) (bsize - off % bsize))
        (tot + min (n - tot) (bsize - off % bsize))
        n
Enough-suc fuel off tot n lt h = (omega (arith, h.1 lt), λ more. omega (arith, h.1 lt))

-- A loop that is done, or whose round ends.
round_ends :
    {A : Type 0} (tot n : ℕ) (m r : Run A)
    → m ≢ Run.lost
    → (tot < n → r ≢ Run.lost)
    → (if not (ltb tot n) then m else r) ≢ Run.lost
round_ends tot n m r h k = elim (Bool-cases (ltb tot n)) [
  | inl e ↦ rw e (k (ltb→lt tot n e))
  | inr e ↦ rw e h
]

continue_read_ends :
    (go : Fs → Memory → Run (Option ℕ × Fs × Memory)) (fs : Fs) (r : Bool × Memory)
    → ((fs' : Fs) (mem : Memory) → go fs' mem ≢ Run.lost)
    → continue_read go fs r ≢ Run.lost
continue_read_ends go fs (true, mem) h = h fs mem
continue_read_ends go fs (false, mem) h = returned_ends (none, fs, mem)

continue_write_ends :
    (go : Fs → Run (ℕ × ℕ × Fs)) (addr tot off : ℕ) (fs : Fs) (r : Bool × List ℕ)
    → ((fs' : Fs) → go fs' ≢ Run.lost)
    → continue_write go addr tot off fs r ≢ Run.lost
continue_write_ends go addr tot off fs (true, bytes) h = h _
continue_write_ends go addr tot off fs (false, bytes) h = returned_ends _

readi_loop_ends :
    (fuel i : ℕ) (user_dst : Bool) (pt : Pagetable) (dst off tot n : ℕ) (fs : Fs) (mem : Memory)
    → Enough fuel off tot n
    → readi_loop fuel i user_dst pt dst off tot n fs mem ≢ Run.lost
unfolding readi_loop
readi_loop_ends zero i user_dst pt dst off tot n fs mem h = absurd (omega (arith, h.0))
readi_loop_ends (suc fuel) i user_dst pt dst off tot n fs mem h =
    let m = min (n - tot) (bsize - off % bsize) in
    let go = readi_loop fuel i user_dst pt (dst + m) (off + m) (tot + m) n in
    round_ends tot n _ _ (returned_ends (some tot, fs, mem)) (λ lt.
      >>=-ends (bmap i (off / bsize) fs)
        (λ (addr, fs1).
          either_copyout user_dst pt dst (read_bytes m (off % bsize) (fs1.blocks addr)) mem
          >>= continue_read go fs1)
        (bmap_ends i (off / bsize) fs)
        (λ (addr, fs1).
          >>=-ends
            (either_copyout user_dst pt dst (read_bytes m (off % bsize) (fs1.blocks addr)) mem)
            (continue_read go fs1)
            (either_copyout_ends user_dst pt dst (read_bytes m (off % bsize) (fs1.blocks addr)) mem)
            (λ r. continue_read_ends go fs1 r (λ fs2 mem2.
              readi_loop_ends fuel i user_dst pt (dst + m) (off + m) (tot + m) n fs2 mem2
                (Enough-suc fuel off tot n lt h)))))

writei_loop_ends :
    (fuel i : ℕ) (user_src : Bool) (pt : Pagetable) (src off tot n : ℕ) (fs : Fs) (mem : Memory)
    → Enough fuel off tot n
    → writei_loop fuel i user_src pt src off tot n fs mem ≢ Run.lost
unfolding writei_loop
writei_loop_ends zero i user_src pt src off tot n fs mem h = absurd (omega (arith, h.0))
writei_loop_ends (suc fuel) i user_src pt src off tot n fs mem h =
    let m = min (n - tot) (bsize - off % bsize) in
    let go : Fs → Run (ℕ × ℕ × Fs) =
      λ fs2. writei_loop fuel i user_src pt (src + m) (off + m) (tot + m) n fs2 mem in
    round_ends tot n _ _ (returned_ends (tot, off, fs)) (λ lt.
      >>=-ends (bmap i (off / bsize) fs)
        (λ (addr, fs1). either_copyin user_src pt src m mem >>= continue_write go addr tot off fs1)
        (bmap_ends i (off / bsize) fs)
        (λ (addr, fs1).
          >>=-ends (either_copyin user_src pt src m mem) (continue_write go addr tot off fs1)
            (either_copyin_ends user_src pt src m mem)
            (λ r. continue_write_ends go addr tot off fs1 r (λ fs2.
              writei_loop_ends fuel i user_src pt (src + m) (off + m) (tot + m) n fs2 mem
                (Enough-suc fuel off tot n lt h)))))

-- `readi` and `writei` always return or panic: their loops never run out of the rounds that the
-- model gives them, whatever the file and the memory are.
pub readi-writei_end :
    (i : ℕ) (user : Bool) (pt : Pagetable) (at off n : ℕ) (fs : Fs) (mem : Memory)
    → (readi i user pt at off n fs mem ≢ Run.lost) × (writei i user pt at off n fs mem ≢ Run.lost)
unfolding readi writei
readi-writei_end i user pt at off n fs mem =
    let n' = if ltb (fs.itable i).size (off + n) then (fs.itable i).size - off else n in
    (
      if_ends _ _ _ (returned_ends (some 0, fs, mem)) (
          readi_loop_ends (n' / bsize + 3) i user pt at off 0 n' fs mem
            (omega arith, λ _. omega arith)),
      if_ends _ _ _ (returned_ends (none, fs)) (
          if_ends _ _ _ (returned_ends (none, fs)) (
            >>=-ends (writei_loop (n / bsize + 3) i user pt at off 0 n fs mem)
              (λ (tot, off', fs1). Run.returned (some tot, grow_file i off' fs1))
              (writei_loop_ends (n / bsize + 3) i user pt at off 0 n fs mem
                (omega arith, λ _. omega arith))
              (λ (tot, off', fs1). returned_ends (some tot, grow_file i off' fs1)))),
    )
