-- ===== src/Directory.antt =====
-- Directories and path names in kernel/fs.c: dirlookup, dirlink, namex and its two callers. `de` is
-- where the local variable of that name stands in the kernel's memory, and `name` the buffer of
-- `DIRSIZ` bytes; a path is its bytes before the NUL.
pub mod Path
mod Tests
use noy_hadar.Base.{
  ℕ, zero, suc, ◌+◌, ◌-◌, ◌*◌, ◌/◌, ◌%◌, ◌==◌, ltb, leb, if◌then◌else◌, Bool, true, false, not,
  ◌&&◌, ◌||◌, Option, none, some, List, [], ◌∷◌, ◌++◌, length, take, update,
}
use noy_hadar.Kalloc.{Memory}
use noy_hadar.Vm.{Pagetable, Run, ◌>>=◌}
use noy_hadar.Usercopy.{write_bytes}
use noy_hadar.Strings.Compare.{ℤ, strncmp, strncpy}
use noy_hadar.Fs.{Inode, Fs, get_le, put_le}
use noy_hadar.Inodes.{iget, idup, ilock, iunlock}
use noy_hadar.Content.{readi, writei, iput, iunlockput}

abbrev pub dirsiz : ℕ
dirsiz = 14

abbrev pub t_dir : ℕ
t_dir = 1

abbrev pub is_zero : ℤ → Bool
is_zero (ℤ.pos n) = n == 0
is_zero (ℤ.negsuc n) = false

-- `namecmp(s, t) == 0`
pub same_name : ℕ → ℕ → Memory → Bool
unfolding strncmp
same_name s t mem = is_zero (strncmp s t dirsiz mem)

-- `readi` of a `struct dirent` in a loop that panics when it gets less.
pub read_dirent : ℕ → Pagetable → ℕ → ℕ → Fs → Memory → Run (Fs × Memory)
unfolding readi
read_dirent dp pt de off fs mem = readi dp false pt de off 16 fs mem >>= λ (r, fs1, mem1). elim r [
  | none ↦ Run.panic
  | some n ↦ if n == 16 then Run.returned (fs1, mem1) else Run.panic
]

-- The loop of `dirlookup`, from `off` on: the inode, and the offset of its entry.
pub dirlookup_from :
    ℕ → ℕ → Pagetable → ℕ → ℕ → ℕ → Fs → Memory → Run (Option (ℕ × ℕ) × Fs × Memory)
unfolding read_dirent same_name get_le iget
dirlookup_from zero dp pt de name off fs mem = Run.lost
dirlookup_from (suc fuel) dp pt de name off fs mem =
    if not (ltb off (fs.itable dp).size)
    then Run.returned (none, fs, mem)
    else read_dirent dp pt de off fs mem >>= λ (fs1, mem1).
        let inum = get_le 2 de mem1 in
        if inum == 0 || not (same_name name (de + 2) mem1)
        then dirlookup_from fuel dp pt de name (off + 16) fs1 mem1
        else iget (fs1.itable dp).dev inum fs1 >>= λ (i, fs2).
            Run.returned (some (i, off), fs2, mem1)

pub dirlookup : ℕ → Pagetable → ℕ → ℕ → Fs → Memory → Run (Option (ℕ × ℕ) × Fs × Memory)
unfolding dirlookup_from
dirlookup dp pt de name fs mem =
    if (fs.itable dp).type == t_dir
    then dirlookup_from ((fs.itable dp).size / 16 + 2) dp pt de name 0 fs mem
    else Run.panic

-- The loop of `dirlink`: the offset of the first empty entry, or the end.
pub find_empty : ℕ → ℕ → Pagetable → ℕ → ℕ → Fs → Memory → Run (ℕ × Fs × Memory)
unfolding read_dirent get_le
find_empty zero dp pt de off fs mem = Run.lost
find_empty (suc fuel) dp pt de off fs mem =
    if not (ltb off (fs.itable dp).size)
    then Run.returned (off, fs, mem)
    else read_dirent dp pt de off fs mem >>= λ (fs1, mem1).
        if get_le 2 de mem1 == 0
        then Run.returned (off, fs1, mem1)
        else find_empty fuel dp pt de (off + 16) fs1 mem1

-- The part of `dirlink` that writes the entry at `off`.
pub write_dirent : ℕ → Pagetable → ℕ → ℕ → ℕ → ℕ → Fs → Memory → Run (Fs × Memory)
unfolding strncpy put_le writei
write_dirent dp pt de name inum off fs mem =
    let mem1 = put_le 2 de inum (strncpy (de + 2) name dirsiz mem) in
    writei dp false pt de off 16 fs mem1 >>= λ (r, fs1). elim r [
      | none ↦ Run.panic
      | some n ↦ if n == 16 then Run.returned (fs1, mem1) else Run.panic
    ]

-- True for 0 and false for -1.
pub dirlink : ℕ → ℕ → Pagetable → ℕ → ℕ → ℕ → Fs → Memory → Run (Bool × Fs × Memory)
unfolding dirlookup find_empty write_dirent
dirlink pid dp pt de name inum fs mem = dirlookup dp pt de name fs mem >>= λ (found, fs1, mem1).
    elim found [
      | some (i, _) ↦ iput pid i fs1 >>= λ fs2. Run.returned (false, fs2, mem1)
      | none ↦
          find_empty ((fs1.itable dp).size / 16 + 2) dp pt de 0 fs1 mem1 >>= λ (off, fs2, mem2).
          write_dirent dp pt de name inum off fs2 mem2 >>= λ (fs3, mem3).
          Run.returned (true, fs3, mem3)
    ]

-- `while(*path == '/') path++`
unfoldable pub skip_slashes : List ℕ → List ℕ
skip_slashes [] = []
skip_slashes (c ∷ path) = let rest = skip_slashes path in if c == 47 then rest else c ∷ path

-- The loop up to the next '/': what it passes, and where it stops.
unfoldable pub span_name : List ℕ → List ℕ × List ℕ
span_name [] = ([], [])
span_name (c ∷ path) =
    let (s, rest) = span_name path in if c == 47 then ([], c ∷ path) else (c ∷ s, rest)

-- What is copied to `name`: a name that is shorter than `DIRSIZ` gets a NUL.
abbrev pub clip : List ℕ → List ℕ
clip s = if leb dirsiz (length s) then take dirsiz s else s ++ 0 ∷ []

-- What is copied to `name`, and the rest of the path; none for 0.
unfoldable pub skipelem : List ℕ → Option (List ℕ × List ℕ)
unfolding skip_slashes span_name
skipelem path = elim (skip_slashes path) [
  | [] ↦ none
  | c ∷ more ↦ let (s, rest) = span_name (c ∷ more) in some (clip s, skip_slashes rest)
]

abbrev pub is_empty : List ℕ → Bool
is_empty [] = true
is_empty _ = false

-- A round of the loop of `namex` on inode `i`: true with the next inode when it goes on, and else
-- false with what it returns.
pub namex_step :
    ℕ → Bool → Pagetable → ℕ → ℕ → List ℕ → ℕ → Fs → Memory → Run (Bool × Option ℕ × Fs × Memory)
unfolding ilock iunlock dirlookup
namex_step pid parent pt de name path i fs mem = ilock pid i fs >>= λ fs1.
    if not ((fs1.itable i).type == t_dir)
    then (iunlockput pid i fs1 >>= λ fs2. Run.returned (false, none, fs2, mem))
    else if parent && is_empty path
    then (iunlock pid i fs1 >>= λ fs2. Run.returned (false, some i, fs2, mem))
    else dirlookup i pt de name fs1 mem >>= λ (found, fs2, mem2). iunlockput pid i fs2 >>= λ fs3.
        elim found [
          | none ↦ Run.returned (false, none, fs3, mem2)
          | some (j, _) ↦ Run.returned (true, some j, fs3, mem2)
        ]

-- The loop of `namex`, with the path that is left.
unfoldable pub namex_loop :
    ℕ → ℕ → Bool → Pagetable → ℕ → ℕ → List ℕ → ℕ → Fs → Memory → Run (Option ℕ × Fs × Memory)
unfolding skipelem namex_step
namex_loop zero pid parent pt de name path i fs mem = Run.lost
namex_loop (suc fuel) pid parent pt de name path i fs mem = elim (skipelem path) [
  | none ↦
      if parent
      then (iput pid i fs >>= λ fs1. Run.returned (none, fs1, mem))
      else Run.returned (some i, fs, mem)
  | some (bytes, rest) ↦
      namex_step pid parent pt de name rest i fs (write_bytes name bytes mem)
      >>= λ (more, r, fs1, mem1). elim r [
        | none ↦ Run.returned (none, fs1, mem1)
        | some j ↦
            if more
            then namex_loop fuel pid parent pt de name rest j fs1 mem1
            else Run.returned (some j, fs1, mem1)
      ]
]

-- Where `namex` starts; the root is inode 1 of device 1.
unfoldable pub namex_start : List ℕ → ℕ → Fs → Run (ℕ × Fs)
unfolding iget idup
namex_start (c ∷ path) cwd fs = if c == 47 then iget 1 1 fs else Run.returned (cwd, idup cwd fs)
namex_start [] cwd fs = Run.returned (cwd, idup cwd fs)

unfoldable pub namex :
    ℕ → Bool → Pagetable → ℕ → ℕ → List ℕ → ℕ → Fs → Memory → Run (Option ℕ × Fs × Memory)
unfolding namex_start namex_loop
namex pid parent pt de name path cwd fs mem = namex_start path cwd fs >>= λ (i, fs1).
    namex_loop (length path + 1) pid parent pt de name path i fs1 mem

unfoldable pub namei :
    ℕ → Pagetable → ℕ → ℕ → List ℕ → ℕ → Fs → Memory → Run (Option ℕ × Fs × Memory)
unfolding namex
namei pid = namex pid false

pub nameiparent : ℕ → Pagetable → ℕ → ℕ → List ℕ → ℕ → Fs → Memory → Run (Option ℕ × Fs × Memory)
unfolding namex
nameiparent pid = namex pid true
