-- ===== src/Io/Stream/Position.antt =====
-- clib/io/io-file-seek.c and io-file-misc.c.
use riscos64_simple_binaries.Base.{long_int, ℤ, pos, negsuc, ◌==◌, if◌then◌else◌}
use riscos64_simple_binaries.Io.Memstream.{Whence}
use riscos64_simple_binaries.Io.Stream.{
  File, Dispatch, State, set_errno, check_magic, unpush, device_error, ebadf, eperm, einval,
}

-- IO_FD_CONSOLE
abbrev pub fd_console : ℤ
fd_console = negsuc 1

module _ {D : Type 0} (ops : Dispatch D) where
  -- The result of the dispatch function and the device after it, in `fseek`.
  unfoldable pub fseek_done : State D → File → ℤ × D → ℤ × State D
  fseek_done s f (negsuc n, d) = (negsuc 0, device_error (record s { dev = d }) n)
  fseek_done s f (pos n, d) = (pos 0, unpush (record s { dev = d }) f)

  -- `int result`, of a `long int`
  abbrev pub as_result : ℤ × D → ℤ × D
  as_result (p, d) = (long_int p, d)

  unfoldable pub fseek : State D → ℤ → Whence → ℤ × State D
  unfolding fseek_done
  fseek s offset whence = check_magic s (negsuc 0) (λ f.
      if f.console
      then (negsuc 0, set_errno s eperm)
      else if f.append
      then (negsuc 0, set_errno s einval)
      else fseek_done s f (as_result (ops.write_pos s.dev offset whence)))

  unfoldable pub ftell_done : State D → ℤ × D → ℤ × State D
  ftell_done s (negsuc n, d) = (negsuc 0, device_error (record s { dev = d }) n)
  ftell_done s (pos n, d) = (pos n, record s { dev = d })

  unfoldable pub ftell : State D → ℤ × State D
  unfolding ftell_done
  ftell s =
      check_magic s (negsuc 0) (λ f.
        if f.console then (negsuc 0, set_errno s eperm) else ftell_done s (ops.read_pos s.dev))

  unfoldable pub feof_done : State D → ℤ × D → ℤ × State D
  feof_done s (negsuc n, d) = (pos 1, device_error (record s { dev = d }) n)
  feof_done s (pos n, d) = (pos n, record s { dev = d })

  unfoldable pub feof : State D → ℤ × State D
  unfolding feof_done
  feof s = check_magic s (negsuc 0) (λ f. feof_done s (ops.check_eof s.dev))

module _ {D : Type 0} where
  unfoldable pub fileno : State D → ℤ × State D
  fileno s =
      check_magic s (negsuc 0)
        (λ f. if f.console then (fd_console, set_errno s ebadf) else (f.fileno, s))

  -- `setbuf`, `setvbuf` and `clearerr` do nothing; `ferror` never reports an error.
  unfoldable pub ferror : State D → ℤ × State D
  ferror s = (pos 0, s)

unfoldable pub isatty : ℤ → ℤ
isatty (pos n) = pos 0
isatty (negsuc n) = if n == 1 then pos 1 else pos 0
