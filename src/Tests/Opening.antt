-- ===== src/Tests/Opening.antt =====
-- Mode texts, and a chain of two open files.
use riscos64_simple_binaries.Base.{
  refl, true, false, not, none, some, [], arith, ltb, codes, pos, ◌≡◌, ◌&&◌, ◌∷◌, ◌==◌,
  if◌then◌else◌,
}
use riscos64_simple_binaries.Io.Stream.{File}
use riscos64_simple_binaries.Io.Open.{Files, parse_mode, find_reason, io_final}
use riscos64_simple_binaries.Io.Open.Laws.{io_final_lem}

abbrev open_file : File
open_file = record {
  magic = true;
  char_pushed = false;
  delete_on_close = false;
  readable = true;
  writable = false;
  console = false;
  append = false;
  shortbuf = 0;
  fileno = pos 7;
}

-- The standard streams and the blocks 4 and 5 are open.
abbrev two_open : Files
two_open = record {
  block = λ n. if ltb n 6 && not (n == 3) then some open_file else none;
  chain = 5 ∷ 4 ∷ [];
  closed = [];
}

parse_mode_runs :
    (find_reason (parse_mode (codes "rb")) ≡ 0x4c) × (find_reason (parse_mode (codes "w")) ≡ 0x8c)
unfolding parse_mode
parse_mode_runs = (refl, refl)

io_final_lem_example :
    ((io_final two_open).chain ≡ []) × ((io_final two_open).closed ≡ 2 ∷ 1 ∷ 0 ∷ 4 ∷ 5 ∷ [])
io_final_lem_example =
    io_final_lem two_open
      (
        (open_file, refl, refl),
        omega arith,
        (omega arith, tt),
        ((open_file, refl, refl), omega arith, tt, tt),
      )
      (open_file, refl, refl) (open_file, refl, refl) (open_file, refl, refl)
