-- ===== src/File/Tests.antt =====
-- Runs of the file table of kernel/file.c.
use noy_hadar.Base.{ℕ, true, false, none, some, ◌<◌, ◌+◌, ◌≡◌, ◌≢◌, refl, arith, update}
use noy_hadar.Vm.{Run}
use noy_hadar.File.{
  FileType, File, Files, Services, nfile, find_file, filealloc, filedup, fileclose, close_rest,
}
use noy_hadar.File.Refs.{System, Step, Reach, file_refs}

-- The other components as a counter of their calls.
abbrev pub counting : Services ℕ
counting = record {
  piperead = λ pipe addr n k. Run.returned (some n, k + 1);
  pipewrite = λ pipe addr n k. Run.returned (some n, k + 1);
  pipeclose = λ pipe writable k. Run.returned (k + 1);
  begin_op = λ k. Run.returned (k + 1);
  end_op = λ k. Run.returned (k + 1);
  iput = λ ip k. Run.returned (k + 1);
  ilock = λ ip k. Run.returned (k + 1);
  iunlock = λ ip k. Run.returned (k + 1);
  stati = λ ip k. record { dev = 1; ino = ip; type = 2; nlink = 1; size = 0 };
  copy_stat = λ addr st k. Run.returned (true, k + 1);
  readi = λ ip addr off n k. Run.returned (some n, k + 1);
  writei = λ ip addr off n k. Run.returned (some n, k + 1);
  device_read = λ major. none;
  device_write = λ major. none;
}

abbrev pub empty_file : File
empty_file = record {
  type = FileType.fd_none;
  ref = 0;
  readable = false;
  writable = false;
  pipe = 0;
  ip = 0;
  off = 0;
  major = 0;
}

abbrev start : System ℕ
start = record { files = record { file = λ _. empty_file; kernel = 0 }; held = λ _. 0 }

abbrev opened : System ℕ
opened = record { files = (filealloc start.files).1; held = update start.held 0 1 }

opened_one : filealloc start.files ≡ (some 0, opened.files)
unfolding filealloc find_file
opened_one = refl

abbrev files_of : Run (Files ℕ) → Files ℕ
files_of (Run.returned t) = t
files_of _ = start.files

abbrev done : System ℕ
done = record {
  files = files_of (fileclose counting 0 opened.files);
  held = update opened.held 0 0;
}

closed_one : fileclose counting 0 opened.files ≡ Run.returned done.files
unfolding fileclose close_rest filealloc find_file
closed_one = refl

file_refs_example :
    ((f : ℕ) → (done.files.file f).ref ≡ done.held f)
    × ((f : ℕ) (t' : Files ℕ) → filealloc done.files ≡ (some f, t') → done.held f ≡ 0)
    × ((f : ℕ) (t' : Files ℕ) → filealloc done.files ≡ (none, t') → f < nfile → 0 < done.held f)
    × ((f : ℕ) → 0 < done.held f → filedup f done.files ≢ Run.panic)
file_refs_example =
    file_refs counting (λ f. refl) (λ f. refl)
      (Reach.next (Reach.next Reach.here (Step.opens 0 opened_one))
        (Step.closes 0 (omega arith) closed_one))
