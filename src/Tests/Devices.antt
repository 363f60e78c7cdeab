-- ===== src/Tests/Devices.antt =====
-- Files, the keyboard, signals, system variables and the stack, on concrete values.
use riscos64_simple_binaries.Base.{
  ℕ, refl, true, false, some, List, [], arith, leb, codes, length, get_or, take, drop, ℤ, pos,
  negsuc, ◌+◌, ◌-◌, ◌^◌, ◌≤◌, ◌<◌, ◌≡◌, ◌⊎◌, ◌∷◌, ◌==◌, if◌then◌else◌,
}
use riscos64_simple_binaries.Memory.Text.{HasString}
use riscos64_simple_binaries.Io.Memstream.{seek_set}
use riscos64_simple_binaries.Io.Stream.{File, State, no_error}
use riscos64_simple_binaries.Io.Stream.Input.{fread}
use riscos64_simple_binaries.Io.Stream.Output.{fwrite}
use riscos64_simple_binaries.Io.Stream.Position.{fseek}
use riscos64_simple_binaries.Fs.Errors.{ErrorNumbers}
use riscos64_simple_binaries.Fs.Device.{Reply, failed, replied, FileSwitch, fs_dispatch}
use riscos64_simple_binaries.Fs.Device.Laws.{IsFile, overwritten, fread-fwrite}
use riscos64_simple_binaries.Io.Console.Input.{typed, Keyboard, con_read_line, fgets}
use riscos64_simple_binaries.Io.Console.Input.Laws.{fgets-typed}
use riscos64_simple_binaries.Runtime.Clock.{clock_init}
use riscos64_simple_binaries.Runtime.Signal.{Values, Signals, Program, raise, signal_init}
use riscos64_simple_binaries.Runtime.Signal.Laws.{raise_unblocks}
use riscos64_simple_binaries.Kernel.Unwind.{
  Words, UnwindBlock, stack_invalid, address_invalid, backtrace, complete, corrupt,
}
use riscos64_simple_binaries.Kernel.Unwind.Laws.{Upward, IsChain, backtrace-chain, backtrace-Ends}
use riscos64_simple_binaries.Sysvars.{wrote, overflow, ReadVar, Allocator}

-- A file system with one file: its pointer and its contents
abbrev Disc : Type 0
Disc = ℕ × List ℕ

abbrev moved_to : Disc → ℤ → Reply ℕ × Disc
moved_to d (pos n) = (replied 0, (n, d.1))
moved_to d (negsuc n) = (failed 1, d)

abbrev disc : FileSwitch Disc
disc = record {
  read_block = λ d h n.
      let got = take n (drop d.0 d.1) in (replied (n - length got), got, (d.0 + length got, d.1));
  write_block = λ d h bytes. (replied 0, (d.0 + length bytes, overwritten d.1 d.0 bytes));
  get_byte = λ d h. (replied (get_or d.1 d.0 0), (d.0 + 1, d.1));
  put_byte = λ d h c. (replied 0, (d.0 + 1, overwritten d.1 d.0 (c ∷ [])));
  at_end = λ d h. (replied (if leb (length d.1) d.0 then 1 else 0), d);
  get_pointer = λ d h. (replied d.0, d);
  get_extent = λ d h. (replied (length d.1), d);
  set_pointer = λ d h n. moved_to d n;
}

disc-IsFile : IsFile disc (pos 3) (λ d. d)
disc-IsFile = record {
  writes = λ d p c bytes e l. rw e ((p + length bytes, overwritten c p bytes), refl, refl);
  seeks = λ d p c n e l. rw e ((n, c), refl, refl);
  reads = λ d p c n e. rw e ((p + length (take n (drop p c)), c), refl, refl);
}

abbrev numbers : ErrorNumbers
numbers = record {
  eisdir = 21;
  enotempty = 39;
  eacces = 13;
  emfile = 24;
  enoent = 2;
  ebadf = 9;
  eio = 5;
}

abbrev open_file : File
open_file = record {
  magic = true;
  char_pushed = true;
  delete_on_close = false;
  readable = true;
  writable = true;
  console = false;
  append = false;
  shortbuf = 0;
  fileno = pos 3;
}

abbrev on : {D : Type 0} → D → State D
on d = record { fh = some open_file; dev = d; errno = no_error }

fread-fwrite_example :
    let ops = fs_dispatch disc numbers (pos 3) in
    let (n, s₁) = fwrite ops (on (2, codes "abcdef")) (codes "xyz") 1 3 in
    let (r, s₂) = fseek ops s₁ (pos 2) seek_set in
    let (k, got, s₃) = fread ops s₂ 1 3 in (n ≡ 3) × (r ≡ pos 0) × (k ≡ 3) × (got ≡ codes "xyz")
fread-fwrite_example =
    fread-fwrite disc numbers (pos 3) (λ d. d) (on (2, codes "abcdef")) open_file 2 (codes "abcdef")
      (codes "xyz") disc-IsFile
      (record {
        handle = refl;
        magic = refl;
        readable = refl;
        writable = refl;
        console = refl;
        append = refl;
      })
      refl (omega arith) (omega arith) (omega arith) (omega arith)

-- A keyboard on which "hi" is typed, at the time that is its state
abbrev keyboard : Keyboard ℕ
keyboard = record {
  readc = λ d. (pos b'h', d + 10);
  read_line = λ d len. (typed (codes "hi"), d + 50);
  now = λ d. d;
}

fgets-typed_example :
    let ((r, m'), s') =
      fgets
        (con_read_line keyboard 4)
        (λ a. 99)
        (on (record { kbd = 1000; clk = clock_init 7 }))
        300
        8 in
    (r ≡ some 300)
    × HasString m' 300 (codes "hi\n")
    × ((x : ℕ) → (x < 300) ⊎ (300 + 8 ≤ x) → m' x ≡ 99)
fgets-typed_example =
    fgets-typed keyboard 4 300 8 (λ a. 99) (on (record { kbd = 1000; clk = clock_init 7 }))
      open_file (codes "hi") 1050 (record { handle = refl; magic = refl; readable = refl }) refl
      (omega arith) (omega arith)

abbrev values : Values
values = record {
  sigint = 2;
  sigabrt = 6;
  sig_ign = 1;
  sig_dfl = 0;
  sig_err = 99;
  signal_escape = 4000;
  signal_abort = 4100;
}

-- A program whose handlers do nothing
abbrev program : Program Signals
program = record { signals = λ w. w; set_signals = λ w s. s; call = λ f sig w. w }

raise_unblocks_example :
    ((raise program values (signal_init values) 2).0 ≡ pos 0)
    × ((raise program values (signal_init values) 2).1.blocked 2 ≡ false)
raise_unblocks_example =
    raise_unblocks program values (record { get_set = λ w s. refl }) (signal_init values) 2
      (omega arith)

-- Two frames, the second without a caller
abbrev frames : Words
frames a =
    if a == 0x8000
    then 0x8010
    else if a == 0x8008
    then 0x9000
    else if a == 0x8018
    then 0x9004
    else 0

abbrev current : UnwindBlock
current = record { pc = 0x8888; fp = 0x8000; sp = 0x7ff0; lr = 0x9000 }

frames-IsChain : IsChain frames 0x8000 (0x9000 ∷ 0x9004 ∷ [])
unfolding stack_invalid address_invalid
frames-IsChain = (omega arith, refl, omega arith, refl, refl, (omega arith, refl, refl, refl, refl))

backtrace-chain_example : backtrace 3 frames current ≡ (0x8888 ∷ 0x9000 ∷ 0x9004 ∷ [], complete)
backtrace-chain_example =
    backtrace-chain frames current 3 (0x9000 ∷ 0x9004 ∷ []) frames-IsChain (omega arith)

upward : Upward frames current
upward a r h = ground arith

backtrace-Ends_example :
    ((backtrace (2 ^ 32 + 1) frames current).1 ≡ complete)
    ⊎ ((backtrace (2 ^ 32 + 1) frames current).1 ≡ corrupt)
backtrace-Ends_example =
    backtrace-Ends frames current (2 ^ 32 + 1) upward (omega arith) (omega arith)

abbrev variable : ReadVar
variable name size = if leb 3 size then wrote (codes "abc") else overflow

abbrev memory_blocks : Allocator ℕ
memory_blocks = record {
  malloc = λ h n. (4096, h);
  realloc = λ h m p n. (8192, h, m);
  free = λ h p. h;
}
