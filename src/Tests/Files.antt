-- ===== src/Tests/Files.antt =====
-- Streams that are opened again, formatted output to a file, and temporary files.
use riscos64_simple_binaries.Base.{
  ℕ, refl, inl, true, false, none, some, List, [], arith, codes, length, take, drop, ℤ, pos, negsuc,
  ◌+◌, ◌-◌, ◌≡◌, ◌∷◌, ◌++◌, ◌==◌, if◌then◌else◌,
}
use riscos64_simple_binaries.Io.Console.{Vdu}
use riscos64_simple_binaries.Io.Stream.{File, Dispatch, State, no_error}
use riscos64_simple_binaries.Io.Open.{Files, FileSwis, fopen_file}
use riscos64_simple_binaries.Io.Reopen.{freopen, fgetpos, fsetpos}
use riscos64_simple_binaries.Io.Reopen.Laws.{Reopened, freopen_lem, fsetpos-fgetpos}
use riscos64_simple_binaries.Io.Vprintf.{scan}
use riscos64_simple_binaries.Io.Vprintf.Convert.{vprintf}
use riscos64_simple_binaries.Fs.Errors.{ErrorNumbers}
use riscos64_simple_binaries.Fs.Device.{Reply, failed, replied, FileSwitch, fs_dispatch}
use riscos64_simple_binaries.Fs.Device.Laws.{IsFile, IsUpdate, overwritten}
use riscos64_simple_binaries.Fs.Tmpnam.{Surroundings, named, tmpnam}
use riscos64_simple_binaries.Fs.Tmpfile.{null, tmpfile}
use riscos64_simple_binaries.Fs.Tmpfile.Laws.{tmpfile_lem}

abbrev open_file : File
open_file = record {
  magic = true;
  char_pushed = false;
  delete_on_close = false;
  readable = true;
  writable = true;
  console = false;
  append = false;
  shortbuf = 0;
  fileno = pos 3;
}

-- Only the stream 4 is open, and on the chain.
abbrev one_open : Files
one_open = record {
  block = λ n. if n == 4 then some open_file else none;
  chain = 4 ∷ [];
  closed = [];
}

-- A system, which is a counter of calls, without any file
abbrev no_files : FileSwis ℕ
no_files = record {
  find = λ d reason name. (inl 214, d + 1);
  read_extent = λ d h. (none, d);
  set_pointer = λ d h n. (false, d);
}

freopen_lem_example :
    Reopened one_open 4 open_file
      (fopen_file no_files 1 (codes "data") (codes "r"))
      (freopen no_files (λ d f. d + 1) one_open 0 (some (codes "data")) (codes "r") (some 4))
freopen_lem_example =
    freopen_lem no_files (λ d f. d + 1) one_open 0 (codes "data") (codes "r") 4 open_file refl refl

-- A file that takes all at its end
abbrev sink : Dispatch (List ℕ)
sink = record {
  read_multiple = λ d n. (pos 0, [], d);
  read_byte = λ d. (negsuc 0, d);
  write_multiple = λ d t. (pos (length t), d ++ t);
  write_byte = λ d c. (pos 0, elim c [ pos n ↦ d ++ n ∷ [] | negsuc n ↦ d ]);
  flush = λ d. (pos 0, d);
  read_pos = λ d. (pos (length d), d);
  write_pos = λ d p w. (negsuc 0, d);
  check_eof = λ d. (pos 1, d);
}

abbrev blank : Vdu (List ℕ)
blank = record { writen = λ d t. (true, d); newline = λ d. (true, d); writec = λ d c. (true, d) }

abbrev log : State (List ℕ)
log = record { fh = some open_file; dev = codes "log:"; errno = no_error }

-- A system in which only the directory "D" is there, and the clock stands at 1
abbrev only_scrap : Surroundings ℕ
only_scrap = record {
  scrap_dir = λ d. some (codes "D");
  object_type = λ d name. if length name == 1 then 2 else 0;
  tick = λ d. (1, d);
}

abbrev first_name : List ℕ
first_name = codes "D.x00000001"

first_named : tmpnam only_scrap 3 0 0 ≡ named first_name 0
unfolding tmpnam vprintf scan
first_named = refl

tmpfile_lem_example : (d : ℕ) × (tmpfile no_files only_scrap true 3 0 0 ≡ null d)
tmpfile_lem_example =
    tmpfile_lem no_files only_scrap true 3 0 0 0 first_name (λ d name free. (214, d + 1, refl))
      first_named (omega arith)

-- A disc with one file: its pointer and its contents
abbrev Disc : Type 0
Disc = ℕ × List ℕ

abbrev moved_to : Disc → ℤ → Reply ℕ × Disc
moved_to d (pos n) = (replied 0, (n, d.1))
moved_to d (negsuc n) = (failed 1, d)

abbrev disc : FileSwitch Disc
disc = record {
  read_block = λ d h n.
      let got = take n (drop d.0 d.1) in (replied (n - length got), got, (d.0 + length got, d.1));
  write_block = λ d h bytes. (replied 0, (d.0 + length bytes, overwritten d.1 d.0 bytes));
  get_byte = λ d h. (replied 65, d);
  put_byte = λ d h c. (replied 0, d);
  at_end = λ d h. (replied 0, d);
  get_pointer = λ d h. (replied d.0, d);
  get_extent = λ d h. (replied (length d.1), d);
  set_pointer = λ d h n. moved_to d n;
}

disc-IsFile : IsFile disc (pos 3) (λ d. d)
disc-IsFile = record {
  writes = λ d p c bytes e l. rw e ((p + length bytes, overwritten c p bytes), refl, refl);
  seeks = λ d p c n e l. rw e ((n, c), refl, refl);
  reads = λ d p c n e. rw e ((p + length (take n (drop p c)), c), refl, refl);
}

abbrev errors : ErrorNumbers
errors = record {
  eisdir = 21;
  enotempty = 39;
  eacces = 13;
  emfile = 24;
  enoent = 2;
  ebadf = 9;
  eio = 5;
}

abbrev at_two : State Disc
at_two = record { fh = some open_file; dev = (2, codes "abcdef"); errno = no_error }

-- The same file, further on and with other contents
abbrev later : State Disc
later = record { fh = some open_file; dev = (5, codes "ABCDE"); errno = no_error }

fsetpos-fgetpos_example :
    let ops = fs_dispatch disc errors (pos 3) in
    let (r, position, s₁) = fgetpos ops at_two in
    let (r', s₂) = fsetpos ops later position in
    (r ≡ pos 0) × (s₁ ≡ at_two) × (r' ≡ pos 0) × (s₂.dev ≡ (2, codes "ABCDE"))
fsetpos-fgetpos_example =
    fsetpos-fgetpos disc errors (pos 3) (λ d. d) at_two open_file 2 (codes "abcdef") disc-IsFile
      update refl (omega arith) refl later open_file 5 (codes "ABCDE") update' refl (omega arith)
  where
    update : IsUpdate at_two open_file
    update = record {
      handle = refl;
      magic = refl;
      readable = refl;
      writable = refl;
      console = refl;
      append = refl;
    }

    update' : IsUpdate later open_file
    update' = record {
      handle = refl;
      magic = refl;
      readable = refl;
      writable = refl;
      console = refl;
      append = refl;
    }
