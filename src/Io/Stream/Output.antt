-- ===== src/Io/Stream/Output.antt =====
-- clib/io/io-file-write.c.
pub mod Laws
use riscos64_simple_binaries.Base.{
  ℕ, Option, none, some, List, codes, length, take, ℤ, pos, negsuc, neg, ◌+◌, ◌*◌, ◌/◌, ◌%◌, ◌^◌,
  ◌||◌, ◌==◌, if◌then◌else◌,
}
use riscos64_simple_binaries.Io.Memstream.{Whence, seek_cur}
use riscos64_simple_binaries.Io.Stream.{
  Errno, File, Dispatch, State, eof, set_errno, check_magic, unpush, device_error, eperm,
}
use riscos64_simple_binaries.Io.Stream.Position.{fseek}

-- `none` is NULL, for which "<NULL>" is written; the string has no zero in it.
unfoldable pub fputs_text : Option (List ℕ) → List ℕ
fputs_text none = codes "<NULL>"
fputs_text (some str) = str

module _ {D : Type 0} (ops : Dispatch D) where
  -- Behind a write that is short; as in `fread`, a division by 0 gives 0.
  unfoldable pub fwrite_short : State D → ℕ → ℕ → ℕ → ℕ × State D
  fwrite_short s size nitems transferred =
      if size == 1
      then (transferred, s)
      else (let items = transferred / nitems in
          let excess = transferred % items in
          (items, if excess == 0 then s else (fseek ops s (neg excess) seek_cur).1))

  unfoldable pub fwrite_done : State D → File → ℕ → ℕ → ℤ × D → ℕ × State D
  unfolding fwrite_short
  fwrite_done s f size nitems (negsuc n, d) = (0, device_error (record s { dev = d }) n)
  fwrite_done s f size nitems (pos transferred, d) =
      if transferred == size * nitems % 2 ^ 64
      then (nitems, unpush (record s { dev = d }) f)
      else fwrite_short (unpush (record s { dev = d }) f) size nitems transferred

  -- The `size * nitems` bytes at `ptr` are the first bytes of the list.
  unfoldable pub fwrite : State D → List ℕ → ℕ → ℕ → ℕ × State D
  unfolding fwrite_done
  fwrite s bytes size nitems = check_magic s 0 (λ f.
      if f.writable
      then (if (size == 0) || (nitems == 0)
          then (0, s)
          else fwrite_done s f size nitems
              (ops.write_multiple s.dev (take (size * nitems % 2 ^ 64) bytes)))
      else (0, set_errno s eperm))

  unfoldable pub fflush_done : State D → ℤ × D → ℤ × State D
  fflush_done s (negsuc n, d) = (negsuc 0, device_error (record s { dev = d }) n)
  fflush_done s (pos n, d) = (pos 0, record s { dev = d })

  unfoldable pub fflush : State D → ℤ × State D
  unfolding fflush_done
  fflush s = check_magic s (negsuc 0) (λ f.
      if f.writable
      then (if f.console then (pos 0, s) else fflush_done s (ops.flush s.dev))
      else (pos 0, set_errno s eperm))

  unfoldable pub fputc_done : State D → File → ℤ × D → ℤ × State D
  fputc_done s f (negsuc n, d) = (eof, device_error (record s { dev = d }) n)
  fputc_done s f (pos c, d) = (pos c, unpush (record s { dev = d }) f)

  unfoldable pub fputc : State D → ℤ → ℤ × State D
  unfolding fputc_done
  fputc s c = check_magic s (negsuc 0) (λ f.
      if f.writable then fputc_done s f (ops.write_byte s.dev c) else (pos 0, set_errno s eperm))

  unfoldable pub fputs : State D → Option (List ℕ) → ℕ × State D
  unfolding fputs_text
  fputs s str =
      let text = fputs_text str in
      let (wrote, s') = fwrite s text 1 (length text) in (wrote + 1, (fputc s' (pos 10)).1)
