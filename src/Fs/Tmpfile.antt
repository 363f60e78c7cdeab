-- ===== src/Fs/Tmpfile.antt =====
-- clib/fs/fs-tmpfile.c, and `__fs_close` of fs-io.c, which deletes the file.
pub mod Laws
use riscos64_simple_binaries.Base.{
  ℕ, inl, inr, Bool, true, Option, none, some, List, codes, ℤ, pos, ◌⊎◌, if◌then◌else◌,
}
use riscos64_simple_binaries.Io.Stream.{File}
use riscos64_simple_binaries.Io.Open.{FileSwis, fopen_file}
use riscos64_simple_binaries.Fs.Tmpnam.{Surroundings, Result, no_name, named, unfinished, tmpnam}

-- A FILE with the name in its `_markers`, `none` for NULL
pub record Marked : Type 0 where
  pub file : File
  pub markers : Option (List ℕ)

-- `_kernel_osfind(0, …)` and `_kernel_osfile(6, …)`, whose results are not looked at, and `free` of
-- the block with the name
pub record CloseCalls (D : Type 0) : Type 0 where
  pub close_handle : D → ℤ → D
  pub delete : D → List ℕ → D
  pub free_markers : D → List ℕ → D

-- Behind the test of `_IO_DELETEONCLOSE`
abbrev pub deleted : {D : Type 0} → CloseCalls D → File → Option (List ℕ) → D → Marked × D
deleted calls f none d = (record { file = f; markers = none }, d)
deleted calls f (some name) d =
    (record { file = f; markers = none }, calls.free_markers (calls.delete d name) name)

-- `__fs_close`, whose result is always 0
unfoldable pub fs_close : {D : Type 0} → CloseCalls D → Marked → D → ℤ × Marked × D
fs_close calls m d =
    let d' = calls.close_handle d m.file.fileno in
    let f = record m.file { fileno = pos 0 } in
    let (m', d'') =
      if m.file.delete_on_close
      then deleted calls f m.markers d'
      else (record { file = f; markers = m.markers }, d') in
    (pos 0, m', d'')

-- What `tmpfile` gives: a stream, NULL, or none of the two within the fuel
pub data Opened (D : Type 0) : Type 0 where
  stream : Marked → D → Opened D
  null : D → Opened D
  unfinished_name : Opened D

module _ {D : Type 0} (os : FileSwis D) (surroundings : Surroundings D) where
  -- Behind `fopen`
  abbrev pub marked : List ℕ → (ℕ ⊎ File) × D → Opened D
  marked name (inl err, d) = null d
  marked name (inr f, d) =
      stream (record { file = record f { delete_on_close = true }; markers = some name }) d

  -- Behind `tmpnam`; `has_room` says whether `calloc` gives a block.
  unfoldable pub tmpfile_named : Bool → Result D → Opened D
  unfolding fopen_file
  tmpfile_named has_room (no_name d) = null d
  tmpfile_named has_room unfinished = unfinished_name
  tmpfile_named has_room (named name d) =
      if has_room then marked name (fopen_file os d name (codes "w+b")) else null d

  -- `tmpfile`, with the fuel and the counter of `tmpnam`
  unfoldable pub tmpfile : Bool → ℕ → ℕ → D → Opened D
  unfolding tmpfile_named tmpnam
  tmpfile has_room fuel counter d = tmpfile_named has_room (tmpnam surroundings fuel counter d)
