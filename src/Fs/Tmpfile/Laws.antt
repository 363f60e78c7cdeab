-- ===== src/Fs/Tmpfile/Laws.antt =====
-- Temporary files on a system whose OS_Find opens only what is there.
use riscos64_simple_binaries.Base.{
  ℕ, refl, subst, inl, Bool, true, false, some, List, [], arith, codes, length, pos, ◌<◌, ◌≡◌, ◌∷◌,
}
use riscos64_simple_binaries.Io.Stream.{File}
use riscos64_simple_binaries.Io.Open.{
  FileSwis, fopen_file, fopen_found, parse_mode, is_console_name,
}
use riscos64_simple_binaries.Fs.Tmpnam.{Surroundings, named, tmpnam}
use riscos64_simple_binaries.Fs.Tmpnam.Laws.{IsFree, tmpnam-IsFree}
use riscos64_simple_binaries.Fs.Tmpfile.{null, tmpfile, tmpfile_named, CloseCalls, fs_close}

-- OS_Find for update, 0xCC, gives an error for the name of no object.
abbrev pub OpensOnlyObjects : {D : Type 0} → FileSwis D → Surroundings D → Type 0
OpensOnlyObjects {D} os surroundings =
    (d : D) (name : List ℕ)
    → surroundings.object_type d name ≡ 0
    → (err : ℕ) × (d' : D) × (os.find d 0xcc name ≡ (inl err, d'))

module _ {D : Type 0} (os : FileSwis D) (surroundings : Surroundings D) where
  long_name : (name : List ℕ) → 3 < length name → is_console_name os name ≡ false
  unfolding is_console_name
  long_name [] l = absurd (omega arith)
  long_name (a ∷ []) l = absurd (omega arith)
  long_name (a ∷ b ∷ []) l = absurd (omega arith)
  long_name (a ∷ b ∷ c ∷ []) l = absurd (omega arith)
  long_name (a ∷ b ∷ c ∷ e ∷ name) l = refl

  fopen_file-missing :
      (d : D) (name : List ℕ) (err : ℕ) (d' : D)
      → 3 < length name
      → os.find d 0xcc name ≡ (inl err, d')
      → fopen_file os d name (codes "w+b") ≡ (inl err, d')
  unfolding fopen_file fopen_found parse_mode
  fopen_file-missing d name err d' l e = rw (long_name name l) (rw e refl)

  -- `tmpfile` never gives a stream for a name of more than three characters, on a system whose OS_Find opens for update only
  -- objects that are there: `tmpnam` returns the name of no object, and the mode "w+b" opens for update.
  pub tmpfile_lem :
      (has_room : Bool) (fuel counter : ℕ) (d d' : D) (name : List ℕ)
      → OpensOnlyObjects os surroundings
      → tmpnam surroundings fuel counter d ≡ named name d'
      → 3 < length name
      → (d'' : D) × (tmpfile os surroundings has_room fuel counter d ≡ null d'')
  unfolding tmpfile tmpfile_named
  tmpfile_lem false fuel counter d d' name h e l = rw e (d', refl)
  tmpfile_lem true fuel counter d d' name h e l =
      let free = subst (IsFree surroundings) e (tmpnam-IsFree surroundings fuel counter d) in
      let (err, d'', refused) = h d' name free in
      rw e (rw (fopen_file-missing d' name err d'' l refused) (d'', refl))

-- Closing a stream that has the flag and a name closes its handle, deletes the file of that name, and frees
-- the name, once: a second call finds no name and deletes nothing more.
fs_close_twice :
    {D : Type 0} (calls : CloseCalls D) (f : File) (name : List ℕ) (d : D)
    → f.delete_on_close ≡ true
    → let (r, m, d') = fs_close calls (record { file = f; markers = some name }) d in
      let (r', m', d'') = fs_close calls m d' in
      (d' ≡ calls.free_markers (calls.delete (calls.close_handle d f.fileno) name) name)
      × (m' ≡ m)
      × (d'' ≡ calls.close_handle d' (pos 0))
unfolding fs_close
fs_close_twice calls f name d e = rw e (refl, refl, refl)
