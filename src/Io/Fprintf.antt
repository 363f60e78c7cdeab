-- ===== src/Io/Fprintf.antt =====
-- Formatted output to streams: clib/io/io-fprintf.c, the checked calls of io/stackcheck.c,
-- errno/perror.c, and io-console.c.
pub mod Laws
use riscos64_simple_binaries.Base.{
  ℕ, Option, none, some, List, [], codes, length, ℤ, pos, negsuc, int_size, ◌%◌, ◌^◌, ◌∷◌, ◌==◌,
  if◌then◌else◌,
}
use riscos64_simple_binaries.Memory.{Memory}
use riscos64_simple_binaries.Io.Console.{Vdu}
use riscos64_simple_binaries.Io.Stream.{File, Dispatch, State, Errno, check_magic, set_errno, eperm}
use riscos64_simple_binaries.Io.Stream.Input.{fgetc}
use riscos64_simple_binaries.Io.Stream.Output.{fwrite, fputc, fputs, fflush}
use riscos64_simple_binaries.Io.Sprintf.{Outputter}
use riscos64_simple_binaries.Io.Vprintf.{Arg, string_arg}
use riscos64_simple_binaries.Io.Vprintf.Convert.{OutputterOf, vprintf}
use riscos64_simple_binaries.Io.Printf.{vsnprintf}
use riscos64_simple_binaries.Io.Printf.Screen.{Write0, stdout_vprintf}

module _ {D : Type 0} (ops : Dispatch D) where
  -- `wrote = fwrite(…)`, an `int`
  abbrev pub as_wrote : ℕ × State D → ℕ × State D
  as_wrote (n, s) = (n % 2 ^ 32, s)

  unfoldable pub file_writen : State D → List ℕ → ℕ × State D
  unfolding fwrite
  file_writen s str = as_wrote (fwrite ops s str 1 (length str))

  -- `len` is an `int`.
  unfoldable pub file_write0 : State D → List ℕ → ℕ × State D
  unfolding fwrite
  file_write0 s str = as_wrote (fwrite ops s str 1 (int_size (length str)))

  -- `wrote == EOF ? 0 : 1`
  abbrev pub unless_eof : ℤ × State D → ℕ × State D
  unless_eof (pos c, s) = (1, s)
  unless_eof (negsuc n, s) = (if n == 0 then 0 else 1, s)

  unfoldable pub file_writec : State D → ℕ → ℕ × State D
  unfolding fputc
  file_writec s c = unless_eof (fputc ops s (pos c))

  unfoldable pub file_newline : State D → ℕ × State D
  unfolding file_writec
  file_newline s = file_writec s 10

  abbrev pub file_outputter : OutputterOf (State D)
  file_outputter = record {
    write0 = file_write0;
    writec = file_writec;
    writen = file_writen;
    newline = file_newline;
  }

  -- `vfprintf`, and `__vfprintf_chk` and `__fprintf_chk`, which call it
  unfoldable pub vfprintf : State D → List ℕ → List Arg → ℕ × State D
  vfprintf s format args = vprintf file_outputter format args s

-- The screen is a part of the device.
module _ {D : Type 0} (ops : Dispatch D) (vdu : Vdu D) (write0end : Write0 D) where
  abbrev pub on_screen : State D → ℕ × D → ℕ × State D
  on_screen s (n, d) = (n, record s { dev = d })

  unfoldable pub fprintf : State D → List ℕ → List Arg → ℕ × State D
  unfolding vfprintf stdout_vprintf
  fprintf s format args = check_magic s 0 (λ f.
      if f.writable
      then (if f.console
          then on_screen s (stdout_vprintf vdu write0end format args s.dev)
          else vfprintf ops s format args)
      else (0, set_errno s eperm))

  -- `perror` on the stream stderr, with `strerror`; `none` is NULL.
  unfoldable pub perror : (Errno → List ℕ) → State D → Option (List ℕ) → State D
  unfolding fflush fprintf
  perror strerror s none =
      let errmsg = strerror s.errno in
      (fprintf (fflush ops s).1 (codes "%s\n") (string_arg (some errmsg) ∷ [])).1
  perror strerror s (some prefix) =
      let errmsg = strerror s.errno in
      (fprintf (fflush ops s).1 (codes "%s: %s\n")
        (string_arg (some prefix) ∷ string_arg (some errmsg) ∷ [])).1

-- `getchar`, `putchar` and `puts`, on the streams stdin and stdout
module _ {D : Type 0} (ops : Dispatch D) where
  unfoldable pub getchar : State D → ℤ × State D
  unfolding fgetc
  getchar s = fgetc ops s

  unfoldable pub putchar : State D → ℤ → ℤ × State D
  unfolding fputc
  putchar s c = fputc ops s c

  unfoldable pub puts : State D → List ℕ → ℕ × State D
  unfolding fputs
  puts s ptr = fputs ops s (some ptr)

-- `__snprintf_chk` and `__vsnprintf_chk`: it is `slen`, the size of the object, that is passed on, and
-- not `maxlen`.
unfoldable pub snprintf_chk : Memory → ℕ → ℕ → ℕ → List ℕ → List Arg → ℕ × Outputter
unfolding vsnprintf
snprintf_chk m s maxlen slen format args = vsnprintf m s slen format args
