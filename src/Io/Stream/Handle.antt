-- ===== src/Io/Stream/Handle.antt =====
-- A handle that is NULL or closed is refused by every operation.
use riscos64_simple_binaries.Base.{
  ℕ, inl, inr, true, false, none, some, List, [], arith, ℤ, pos, negsuc, ◌≡◌, ◌⊎◌,
}
use riscos64_simple_binaries.Io.Memstream.{Whence}
use riscos64_simple_binaries.Io.Stream.{
  File, Dispatch, State, eof, set_errno, check_magic, ebadf, eperm,
}
use riscos64_simple_binaries.Io.Stream.Position.{fseek, ftell, feof, fileno}
use riscos64_simple_binaries.Io.Stream.Input.{fgetc, ungetc, fread}
use riscos64_simple_binaries.Io.Stream.Output.{fputc, fwrite, fflush}

-- NULL, or a FILE without the magic word, such as one that has been closed.
abbrev pub IsBad : {D : Type 0} → State D → Type 0
IsBad s = (s.fh ≡ none) ⊎ ((f : File) × (s.fh ≡ some f) × (f.magic ≡ false))

check_magic-bad :
    {D R : Type 0} (s : State D) (fail : R) (body : File → R × State D)
    → IsBad s
    → check_magic s fail body ≡ (fail, set_errno s ebadf)
check_magic-bad s fail body (inl e) = ground arith
check_magic-bad s fail body (inr (f, e, m)) = ground arith

module _ {D : Type 0} (ops : Dispatch D) where
  -- On a bad handle every operation fails with its failure value and sets `errno` to EBADF; the
  -- handle and the device are left alone, and no bytes are read.
  bad_handle :
      (s : State D) (size nitems : ℕ) (bytes : List ℕ) (c offset : ℤ) (whence : Whence)
      → IsBad s
      → let s' = set_errno s ebadf in
        (fgetc ops s ≡ (eof, s'))
        × (ungetc s c ≡ (eof, s'))
        × (fread ops s size nitems ≡ (0, [], s'))
        × (fwrite ops s bytes size nitems ≡ (0, s'))
        × (fputc ops s c ≡ (negsuc 0, s'))
        × (fflush ops s ≡ (negsuc 0, s'))
        × (fseek ops s offset whence ≡ (negsuc 0, s'))
        × (ftell ops s ≡ (negsuc 0, s'))
        × (feof ops s ≡ (negsuc 0, s'))
        × (fileno s ≡ (negsuc 0, s'))
  unfolding fgetc ungetc fread fwrite fputc fflush fseek ftell feof fileno
  bad_handle s size nitems bytes c offset whence b = (
    check_magic-bad s eof _ b,
    check_magic-bad s eof _ b,
    read_bad b,
    check_magic-bad s 0 _ b,
    check_magic-bad s (negsuc 0) _ b,
    check_magic-bad s (negsuc 0) _ b,
    check_magic-bad s (negsuc 0) _ b,
    check_magic-bad s (negsuc 0) _ b,
    check_magic-bad s (negsuc 0) _ b,
    check_magic-bad s (negsuc 0) _ b,
  )
    where
      read_bad : IsBad s → fread ops s size nitems ≡ (0, [], set_errno s ebadf)
      read_bad (inl e) = ground arith
      read_bad (inr (f, e, m)) = ground arith

  -- A stream that may not be written takes no byte: `errno` is EPERM, and the handle and the device
  -- are left alone. `fputc` and `fflush` return 0 all the same.
  no_write_permission :
      (s : State D) (f : File) (size nitems : ℕ) (bytes : List ℕ) (c : ℤ)
      → s.fh ≡ some f
      → f.magic ≡ true
      → f.writable ≡ false
      → let s' = set_errno s eperm in
        (fwrite ops s bytes size nitems ≡ (0, s'))
        × (fputc ops s c ≡ (pos 0, s'))
        × (fflush ops s ≡ (pos 0, s'))
  unfolding fwrite fputc fflush
  no_write_permission s f size nitems bytes c e m w = (ground arith, ground arith, ground arith)
