-- ===== src/Io/Console/Input.antt =====
-- clib/io/io-consoleio.c, reading from the keyboard, with the process clock that stands still
-- meanwhile; and clib/io/io-fgets.c.
pub mod Laws
use riscos64_simple_binaries.Base.{
  ℕ, Bool, true, false, Option, none, some, List, [], length, ℤ, pos, negsuc, neg, sub_ℕ, ◌+◌,
  if◌then◌else◌,
}
use riscos64_simple_binaries.Memory.{Memory, store}
use riscos64_simple_binaries.Io.Sprintf.{store_all}
use riscos64_simple_binaries.Io.Stream.{State, check_magic, set_errno, device_error, eperm}
use riscos64_simple_binaries.Runtime.Clock.{Clock, clock_freeze}

-- What OS_ReadLine32 gives: an error, Escape, or the line, without its end
pub data Line : Type 0 where
  failed : Line
  escaped : Line
  typed : List ℕ → Line

-- The keyboard over a state `D`: OS_ReadC and OS_ReadLine32 (with the size that it is given), and
-- the time, which each call of the clock reads
pub record Keyboard (D : Type 0) : Type 0 where
  pub readc : D → ℤ × D
  pub read_line : D → ℤ → Line × D
  pub now : D → ℕ

-- The device of the console: the keyboard and the clock
pub record Console (D : Type 0) : Type 0 where
  pub kbd : D
  pub clk : Clock

module _ {D : Type 0} (keys : Keyboard D) where
  abbrev pub freeze : Bool → Console D → Console D
  freeze on c = record c { clk = clock_freeze c.clk on (keys.now c.kbd) }

  unfoldable pub con_read_byte : Console D → ℤ × Console D
  con_read_byte c =
      let c' = freeze true c in
      let (b, d) = keys.readc c'.kbd in (b, freeze false (record c' { kbd = d }))

  -- Behind OS_ReadLine32, for 64-bit RISC OS: `none` is an error. A line is stored with a terminator.
  unfoldable pub os_readline_done : Memory → ℕ → Line × D → Option (List ℕ) × Memory × D
  os_readline_done m line (failed, d) = (none, m, d)
  os_readline_done m line (escaped, d) = (none, m, d)
  os_readline_done m line (typed text, d) =
      (some text, store (store_all m line text) (line + length text) 0, d)

  unfoldable pub os_readline : Memory → D → ℕ → ℤ → Option (List ℕ) × Memory × D
  unfolding os_readline_done
  os_readline m d line len = os_readline_done m line (keys.read_line d len)

  -- Behind `os_readline`: `strlen(str)` is the length of the line, which has no 0 in it.
  unfoldable pub con_line : ℕ → ℕ → Clock → Option (List ℕ) × Memory × D → ℤ × Memory × Console D
  con_line eintr str clk (none, m, d) = (neg eintr, m, freeze false (record { kbd = d; clk = clk }))
  con_line eintr str clk (some text, m, d) =
      let len = length text in
      (
        pos 0,
        store (store m (str + len) 10) (str + len + 1) 0,
        freeze false (record { kbd = d; clk = clk }),
      )

  -- `eintr` is the value of EINTR.
  unfoldable pub con_read_line : ℕ → Memory → Console D → ℕ → ℕ → ℤ × Memory × Console D
  unfolding os_readline con_line
  con_read_line eintr m c str size =
      let c' = freeze true c in con_line eintr str c'.clk (os_readline m c'.kbd str (sub_ℕ size 1))

  unfoldable pub con_read_multiple : Console D → ℕ → ℤ × List ℕ × Console D
  con_read_multiple c transfer = (pos 0, [], c)

  unfoldable pub con_read_pos : Console D → ℤ × Console D
  con_read_pos c = (pos 0, c)

  -- `-EIO`
  unfoldable pub con_write_pos : ℕ → Console D → ℤ × Console D
  con_write_pos eio c = (neg eio, c)

  unfoldable pub con_check_eof : Console D → ℤ × Console D
  con_check_eof c = (pos 0, c)

-- `fgets` over the `read_line` of any device: NULL is `none`.
module _ {D : Type 0} (read_line : Memory → D → ℕ → ℕ → ℤ × Memory × D) where
  unfoldable pub fgets_done : State D → ℕ → ℤ × Memory × D → (Option ℕ × Memory) × State D
  fgets_done s str (negsuc n, m, d) = ((none, m), device_error (record s { dev = d }) n)
  fgets_done s str (pos n, m, d) = ((some str, m), record s { dev = d })

  unfoldable pub fgets : Memory → State D → ℕ → ℕ → (Option ℕ × Memory) × State D
  unfolding fgets_done
  fgets m s str size =
      check_magic s (none, m)
        (λ f.
          if f.readable
          then fgets_done s str (read_line m s.dev str size)
          else ((none, m), set_errno s eperm))
