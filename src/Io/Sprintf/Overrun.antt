-- ===== src/Io/Sprintf/Overrun.antt =====
-- Where the outputter leaves its buffer.
use riscos64_simple_binaries.Base.{
  lt_int, as_int, ℕ, sym, subst, false, List, [], arith, ltb, length, pos, ◌+◌, ◌-◌, ◌%◌, ◌^◌, ◌<◌,
  ◌≡◌,
}
use riscos64_simple_binaries.Memory.{Memory}
use riscos64_simple_binaries.Io.Sprintf.{
  Outputter, writen_left, str_writen, str_writec, snprintf_start,
}
use riscos64_simple_binaries.Io.Sprintf.Laws.{Holds}

-- Once the buffer is full, writing an empty string stores a terminator at `p`. After a text longer
-- than `size` that byte lies outside the buffer, at the length of the whole text.
str_writen_empty_overrun :
    (m : Memory) (size : ℕ) (text : List ℕ) (outs : Outputter)
    → size < length text
    → size < 2 ^ 31
    → Holds m size text outs
    → let outs' = (str_writen outs []).1 in
      (outs.start + size < outs.start + length text) × (outs'.mem (outs.start + length text) ≡ 0)
unfolding str_writen
str_writen_empty_overrun m size text outs f b h = (
  omega arith,
  subst (λ l. (writen_left outs [] l).mem (outs.start + length text) ≡ 0) (sym h.left_at) zeroed,
)
  where
    zeroed : (writen_left outs [] (pos (size - length text))).mem (outs.start + length text) ≡ 0
    zeroed = ground (arith, h.p_at)

start_size : (n : ℕ) → n < 2 ^ 31 → as_int ((n + 1 + 2 ^ 64 - 1) % 2 ^ 64) ≡ pos n
start_size n h = ground arith

-- `str_writec` does not count down `left`, so a string that follows characters may pass the end: in
-- a new buffer of `size` characters, after one character a string of `size` characters is stored
-- whole, and its terminator lands one byte past the last byte of the buffer.
str_writec_overrun :
    (m : Memory) (start size c : ℕ) (str : List ℕ)
    → 1 < size
    → size < 2 ^ 31
    → length str ≡ size
    → let outs = (str_writec (snprintf_start m start (size + 1)) c).1 in
      (str_writen outs str).1.mem (start + size + 1) ≡ 0
unfolding str_writec snprintf_start str_writen
str_writec_overrun m start size c str n b e =
    rw (start_size size b) (rw room (rw full (ground arith)))
  where
    room : ltb (start + size) (start + 2) ≡ false
    room = ground arith

    full : lt_int (pos size) (as_int (length str)) ≡ false
    full = ground arith
