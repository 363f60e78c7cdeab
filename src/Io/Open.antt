-- ===== src/Io/Open.antt =====
-- Opening and closing: clib/io/io-file-fopen.c and io-init.c. FILE blocks have numbers; the three
-- standard ones are not on the chain.
pub mod Laws
use riscos64_simple_binaries.Base.{
  ℕ, inl, inr, Bool, true, false, not, Option, none, some, List, [], ℤ, pos, negsuc, ◌+◌, ◌⊎◌, ◌&&◌,
  ◌||◌, ◌∷◌, ◌==◌, if◌then◌else◌,
}
use riscos64_simple_binaries.Io.Stream.{File, set_file}
use riscos64_simple_binaries.Io.Stream.Position.{fd_console, fileno}

-- What the mode text asks for: bits 6 and 7 of `reason`, and `append`.
pub record Mode : Type 0 where
  pub reads : Bool
  pub writes : Bool
  pub appends : Bool

-- One character of the mode.
unfoldable pub mode_char : Mode → ℕ → Mode
mode_char m c =
    if c == b'r'
    then record m { reads = true }
    else if c == b'w'
    then record m { reads = m.reads && m.writes; writes = true }
    else if c == b'a'
    then record { reads = true; writes = true; appends = true }
    else if c == b'+'
    then record m { reads = true; writes = true }
    else m

unfoldable pub parse_mode_from : Mode → List ℕ → Mode
parse_mode_from m [] = m
parse_mode_from m (c ∷ cs) = parse_mode_from (mode_char m c) cs

unfoldable pub parse_mode : List ℕ → Mode
unfolding parse_mode_from mode_char
parse_mode mode = parse_mode_from (record { reads = false; writes = false; appends = false }) mode

-- `reason`, with bits 2 and 3 set for OS_Find
abbrev pub find_reason : Mode → ℕ
find_reason m = (if m.reads then 0x40 else 0) + (if m.writes then 0x80 else 0) + 12

-- The SWIs that opening makes: OS_Find gives an error number or a file handle, the two OS_Args calls
-- the extent or an error, and whether the pointer could be set.
pub record FileSwis (D : Type 0) : Type 0 where
  pub find : D → ℕ → List ℕ → (ℕ ⊎ ℕ) × D
  pub read_extent : D → ℕ → Option ℕ × D
  pub set_pointer : D → ℕ → ℕ → Bool × D

module _ {D : Type 0} (os : FileSwis D) where
  -- "seek to the end"; the flag says whether that worked.
  unfoldable pub seek_end_of : D → ℕ → Bool × D
  seek_end_of d handle =
      let (ext, d') = os.read_extent d handle in
      elim ext [ none ↦ (false, d') | some n ↦ os.set_pointer d' handle n ]

  -- The FILE for an open file.
  unfoldable pub file_of : Mode → Bool → ℕ → File
  file_of m appends handle = record {
    magic = true;
    char_pushed = false;
    delete_on_close = false;
    readable = m.reads;
    writable = m.writes;
    console = false;
    append = appends;
    shortbuf = 0;
    fileno = pos handle;
  }

  -- The FILE for ":tt", which cannot be both read and written.
  unfoldable pub console_of : Mode → File
  console_of m = record {
    magic = true;
    char_pushed = false;
    delete_on_close = false;
    readable = m.reads && not m.writes;
    writable = m.writes;
    console = true;
    append = m.appends;
    shortbuf = 0;
    fileno = pos 0;
  }

  unfoldable pub is_console_name : List ℕ → Bool
  is_console_name [] = false
  is_console_name (c ∷ []) = false
  is_console_name (c ∷ d ∷ []) = false
  is_console_name (c ∷ d ∷ e ∷ []) = (c == b':') && (d == b't') && (e == b't')
  is_console_name (c ∷ d ∷ e ∷ f ∷ cs) = false

  -- Behind OS_Find: the append mode, and the FILE.
  unfoldable pub fopen_found : Mode → (ℕ ⊎ ℕ) × D → (ℕ ⊎ File) × D
  unfolding seek_end_of file_of
  fopen_found m (inl err, d) = (inl err, d)
  fopen_found m (inr handle, d) =
      if m.appends
      then (let (at_end, d') = seek_end_of d handle in (inr (file_of m at_end handle), d'))
      else (inr (file_of m false handle), d)

  -- `_fopen`: the error of OS_Find, or the FILE.
  unfoldable pub fopen_file : D → List ℕ → List ℕ → (ℕ ⊎ File) × D
  unfolding parse_mode is_console_name console_of fopen_found
  fopen_file d filename mode =
      let m = parse_mode mode in
      if is_console_name filename
      then (inr (console_of m), d)
      else fopen_found m (os.find d (find_reason m) filename)

-- The numbers of the standard FILEs.
abbrev pub stdin : ℕ
stdin = 0

abbrev pub stdout : ℕ
stdout = 1

abbrev pub stderr : ℕ
stderr = 2

-- All FILE blocks (`none`: not allocated), the chain `__file_list`, and the blocks whose dispatch
-- function `close` has been called, latest first.
pub record Files : Type 0 where
  pub block : ℕ → Option File
  pub chain : List ℕ
  pub closed : List ℕ

abbrev pub set_block : (ℕ → Option File) → ℕ → Option File → ℕ → Option File
set_block b fh v n = if n == fh then v else b n

-- A standard stream as `__io_init` sets it up.
abbrev pub console_stream : Bool → File → File
console_stream input f = record f {
  magic = true;
  char_pushed = false;
  delete_on_close = false;
  readable = input;
  writable = not input;
  console = true;
  append = false;
  fileno = fd_console;
}

-- `_flags = -1`, which has every bit but not the magic word
abbrev pub closed_file : File → File
closed_file f = record f {
  magic = false;
  char_pushed = true;
  delete_on_close = true;
  readable = true;
  writable = true;
  console = true;
  append = true;
}

-- `_fclose`
unfoldable pub reset_file : ℕ → File → File
reset_file fh f =
    if fh == stdin
    then console_stream true f
    else if (fh == stdout) || (fh == stderr)
    then console_stream false f
    else closed_file f

-- The loop that unlinks `fh` from the chain; the flag says whether it was there.
unfoldable pub unlink : ℕ → List ℕ → Bool × List ℕ
unlink fh [] = (false, [])
unlink fh (cur ∷ rest) =
    let (found, rest') = unlink fh rest in if cur == fh then (true, rest) else (found, cur ∷ rest')

-- Behind CHECK_MAGIC: `_fclose`, then the block is freed if it was on the chain.
unfoldable pub fclose_file : Files → ℕ → File → Files
unfolding unlink reset_file
fclose_file s fh f =
    let (found, chain') = unlink fh s.chain in
    record {
      block = set_block s.block fh (if found then none else some (reset_file fh f));
      chain = chain';
      closed = fh ∷ s.closed;
    }

-- The result, and the FILE blocks afterwards.
unfoldable pub fclose : Files → ℕ → ℤ × Files
unfolding fclose_file
fclose s fh = elim (s.block fh) [
  | none ↦ (negsuc 0, s)
  | some f ↦ if f.magic then (pos 0, fclose_file s fh f) else (negsuc 0, s)
]

-- `fopen` with the block `fh` from `calloc`, which is not in use, once `_fopen` has filled it in.
unfoldable pub fopen_link : Files → ℕ → File → Files
fopen_link s fh f = record s { block = set_block s.block fh (some f); chain = fh ∷ s.chain }

-- The loop of `__io_final` over the chain that it has taken off.
unfoldable pub close_all : Files → List ℕ → Files
close_all s [] = s
close_all s (cur ∷ rest) = close_all (fclose s cur).1 rest

-- `__io_final` where `free` and `fclose` are linked in, which are weak symbols there.
unfoldable pub io_final : Files → Files
unfolding close_all fclose
io_final s =
    let s' = close_all (record s { chain = [] }) s.chain in
    (fclose (fclose (fclose s' stdin).1 stdout).1 stderr).1

-- The loop without `fclose`: only the blocks are freed.
unfoldable free_all : Files → List ℕ → Files
free_all s [] = s
free_all s (cur ∷ rest) = free_all (record s { block = set_block s.block cur none }) rest

-- `__io_final`, by whether `free` and `fclose` are linked in
unfoldable io_final_linked : Bool → Bool → Files → Files
unfolding io_final free_all
io_final_linked false has_fclose s = record s { chain = [] }
io_final_linked true true s = io_final s
io_final_linked true false s = free_all (record s { chain = [] }) s.chain
