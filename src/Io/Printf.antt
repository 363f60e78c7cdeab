-- ===== src/Io/Printf.antt =====
-- `vsprintf` and `vsnprintf`, clib/io/io-sprintf.c: `_vprintf` with the outputter of a string. `sprintf`
-- and `snprintf` only pass their arguments on.
pub mod Laws
pub mod Screen
use riscos64_simple_binaries.Base.{ℕ, List, []}
use riscos64_simple_binaries.Memory.{Memory}
use riscos64_simple_binaries.Io.Sprintf.{
  Outputter, str_writen, str_write0, str_writec, str_newline, snprintf_start, sprintf_start,
}
use riscos64_simple_binaries.Io.Vprintf.{Arg}
use riscos64_simple_binaries.Io.Vprintf.Convert.{OutputterOf, vprintf, collector}

abbrev pub string_outputter : OutputterOf Outputter
string_outputter = record {
  write0 = str_write0;
  writec = str_writec;
  writen = str_writen;
  newline = str_newline;
}

unfoldable pub vsprintf : Memory → ℕ → List ℕ → List Arg → ℕ × Outputter
vsprintf m str format args = vprintf string_outputter format args (sprintf_start m str)

unfoldable pub vsnprintf : Memory → ℕ → ℕ → List ℕ → List Arg → ℕ × Outputter
vsnprintf m str max format args = vprintf string_outputter format args (snprintf_start m str max)

-- What a format prints.
unfoldable pub printed : List ℕ → List Arg → List ℕ
printed format args = (vprintf collector format args []).1
