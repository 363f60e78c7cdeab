-- ===== src/Tests/Streams.antt =====
-- Streams over a device that is a list of bytes still to be read.
use riscos64_simple_binaries.Base.{
  ℕ, refl, true, false, none, some, List, [], codes, length, take, drop, ℤ, pos, negsuc, pos_part,
  ◌≡◌, ◌∷◌, ◌++◌,
}
use riscos64_simple_binaries.Io.Stream.{File, Dispatch, State, no_error}
use riscos64_simple_binaries.Io.Stream.Output.{fwrite}

abbrev next_byte : List ℕ → ℤ × List ℕ
next_byte [] = (negsuc 4, [])
next_byte (c ∷ cs) = (pos c, cs)

abbrev tape : Dispatch (List ℕ)
tape = record {
  read_multiple = λ d n. (pos (length (take n d)), take n d, drop n d);
  read_byte = next_byte;
  write_multiple = λ d bs. (pos (length bs), d ++ bs);
  write_byte = λ d c. (pos (pos_part c), d ++ pos_part c ∷ []);
  flush = λ d. (pos 0, d);
  read_pos = λ d. (pos (length d), d);
  write_pos = λ d offset whence. (pos 0, d);
  check_eof = λ d. (pos 0, d);
}

abbrev plain : File
plain = record {
  magic = true;
  char_pushed = false;
  delete_on_close = false;
  readable = true;
  writable = true;
  console = false;
  append = false;
  shortbuf = 0;
  fileno = pos 7;
}

abbrev pushed : File
pushed = record plain { char_pushed = true; shortbuf = b'!' }

abbrev on : File → List ℕ → State (List ℕ)
on f d = record { fh = some f; dev = d; errno = no_error }

fwrite_all_run :
    fwrite tape (on pushed []) (codes "ab") 1 2
    ≡ (2, on (record pushed { char_pushed = false }) (codes "ab"))
unfolding fwrite
fwrite_all_run = refl

abbrev null_handle : State (List ℕ)
null_handle = record { fh = none; dev = codes "abc"; errno = no_error }

abbrev unreadable : State (List ℕ)
unreadable = on (record plain { readable = false }) (codes "abc")

abbrev unwritable : State (List ℕ)
unwritable = on (record plain { writable = false }) (codes "abc")
