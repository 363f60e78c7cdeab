-- ===== src/Io/Reopen.antt =====
-- clib/io/io-file-fopen-lesser.c, io-file-seek-lesser.c, and `__io_init` of io-init.c.
pub mod Laws
use riscos64_simple_binaries.Base.{
  ℕ, inl, inr, Bool, true, false, Option, none, some, List, ℤ, pos, negsuc, ◌⊎◌, ◌||◌, ◌∷◌, ◌==◌,
  if◌then◌else◌,
}
use riscos64_simple_binaries.Io.Memstream.{Whence, seek_set}
use riscos64_simple_binaries.Io.Stream.{File, Dispatch, State}
use riscos64_simple_binaries.Io.Stream.Position.{fseek, ftell, fileno}
use riscos64_simple_binaries.Io.Open.{
  Files, FileSwis, fopen_file, reset_file, set_block, stdin, stdout, stderr, console_stream,
}

-- The call came to an end with `errno` unchanged, set to EBADF, or set from an error of OS_Find.
pub data Errors : Type 0 where
  untouched : Errors
  bad_stream : Errors
  find_failed : ℕ → Errors

-- A FILE that `_fopen` fills in keeps what it does not set: the pushed character and, for the
-- console, the file handle.
abbrev pub opened_into : File → File → File
opened_into old new = record new {
  shortbuf = old.shortbuf;
  fileno = if new.console then old.fileno else new.fileno;
}

-- The test for the three standard streams
abbrev pub is_standard : ℕ → Bool
is_standard fh = (fh == stdin) || ((fh == stdout) || (fh == stderr))

-- What the dispatch function `close` does to the system is a parameter.
module _ {D : Type 0} (os : FileSwis D) (close : D → File → D) where
  -- `_fclose`, with the system
  unfoldable pub closed_stream : Files → ℕ → File → Files
  unfolding reset_file
  closed_stream s fh f = record s {
    block = set_block s.block fh (some (reset_file fh f));
    closed = fh ∷ s.closed;
  }

  -- Behind `_fopen`: a failure frees the block unless it is a standard stream.
  unfoldable pub reopen_done : Files → ℕ → File → (ℕ ⊎ File) × D → Option ℕ × Errors × Files × D
  reopen_done s fh old (inr new, d) = (
    some fh,
    untouched,
    record s { block = set_block s.block fh (some (opened_into old new)) },
    d,
  )
  reopen_done s fh old (inl err, d) = (
    none,
    find_failed err,
    (if is_standard fh then s else record s { block = set_block s.block fh none }),
    d,
  )

  -- Behind the test of `filename`, for the FILE that the handle points to
  unfoldable pub reopen_stream :
      Files → D → List ℕ → List ℕ → ℕ → File → Option ℕ × Errors × Files × D
  unfolding closed_stream reopen_done
  reopen_stream s d filename mode fh f =
      if f.magic
      then reopen_done (closed_stream s fh f) fh (reset_file fh f)
          (fopen_file os (close d f) filename mode)
      else (none, bad_stream, s, d)

  -- The stream that `freopen` returns, `errno`, the FILE blocks and the system.
  unfoldable pub freopen :
      Files → D → Option (List ℕ) → List ℕ → Option ℕ → Option ℕ × Errors × Files × D
  unfolding reopen_stream
  freopen s d filename mode none = (none, bad_stream, s, d)
  freopen s d none mode (some fh) = (some fh, untouched, s, d)
  freopen s d (some filename) mode (some fh) = elim (s.block fh) [
    | none ↦ (none, bad_stream, s, d)
    | some f ↦ reopen_stream s d filename mode fh f
  ]

-- `__io_init`: `_fileno` is left as it is, and the shortened buffer too.
abbrev pub init_stream : Bool → File → File
init_stream input f = record (console_stream input f) { fileno = f.fileno }

unfoldable pub io_init : (ℕ → File) → ℕ → File
io_init standard fh =
    if fh == stdin
    then init_stream true (standard stdin)
    else if (fh == stdout) || (fh == stderr)
    then init_stream false (standard fh)
    else standard fh

module _ {D : Type 0} (ops : Dispatch D) where
  unfoldable pub fsetpos : State D → ℤ → ℤ × State D
  unfolding fseek
  fsetpos s position = fseek ops s position seek_set

  unfoldable pub rewind : State D → State D
  unfolding fseek
  rewind s = (fseek ops s (pos 0) seek_set).1

  -- `pos == -1 ? -1 : 0`
  abbrev pub told : ℤ → ℤ
  told (pos n) = pos 0
  told (negsuc n) = if n == 0 then negsuc 0 else pos 0

  -- The result, the position that is stored, and the state
  unfoldable pub fgetpos : State D → ℤ × ℤ × State D
  unfolding ftell
  fgetpos s = let (p, s') = ftell ops s in (told p, p, s')
