-- ===== src/Tests/Kernel.antt =====
-- SWI calls, and the library as it starts and fails, on concrete values.
use riscos64_simple_binaries.Base.{ℕ, refl, true, false, [], arith, pos, ◌+◌, ◌*◌, ◌^◌, ◌≡◌, ◌∷◌}
use riscos64_simple_binaries.Io.Stream.{File}
use riscos64_simple_binaries.Kernel.Swi.{Kernel, swix, swi}
use riscos64_simple_binaries.Kernel.Swi
use riscos64_simple_binaries.Kernel.Swi.Laws.{CallsOnce, swix_lem}
use riscos64_simple_binaries.Runtime.Clock.{clock_init}
use riscos64_simple_binaries.Runtime.Signal.{Values}
use riscos64_simple_binaries.Runtime.Library.{Library, clib_internalinit}
use riscos64_simple_binaries.Runtime.Library.Laws.{Initialised, clib_internalinit_lem}
use riscos64_simple_binaries.Sysvars

-- A system that adds one to every register and counts its calls.
abbrev adding : Kernel ℕ
adding = record { kernel_swi = λ d n r. (0, (λ k. r k + 1), d + 1) }

abbrev state : Swi.State ℕ
state = record { dev = 5; last_error = 3 }

-- R0 and R2 in, R1 and R2 out
abbrev two_in_two_out : ℕ
two_in_two_out = 1 + 4 + 2 ^ 30 + 2 ^ 29

swix_lem_example :
    CallsOnce adding
      (λ n. 0)
      state
      6
      two_in_two_out
      (10 ∷ 20 ∷ 5000 ∷ 6000 ∷ [])
      (swix adding (λ n. 0) state 6 two_in_two_out (10 ∷ 20 ∷ 5000 ∷ 6000 ∷ []))
swix_lem_example = swix_lem adding (λ n. 0) state 6 two_in_two_out (10 ∷ 20 ∷ 5000 ∷ 6000 ∷ [])

stores_run :
    (swix adding (λ n. 0) state 6 two_in_two_out (10 ∷ 20 ∷ 5000 ∷ 6000 ∷ [])).stores
    ≡ (5000, 1) ∷ (6000, 21) ∷ []
unfolding swix
stores_run = refl

-- `_RETURN(2)` gives register 1.
return_run : (swi adding (λ n. 0) state 6 (2 + 2 * 2 ^ 16) (10 ∷ [])).result ≡ 11
unfolding swi
return_run = refl

abbrev values : Values
values = record {
  sigint = 2;
  sigabrt = 6;
  sig_ign = 1;
  sig_dfl = 0;
  sig_err = 99;
  signal_escape = 0x8100;
  signal_abort = 0x8200;
}

abbrev old_file : File
old_file = record {
  magic = false;
  char_pushed = true;
  delete_on_close = true;
  readable = true;
  writable = true;
  console = false;
  append = true;
  shortbuf = 65;
  fileno = pos 9;
}

-- What an earlier run may leave
abbrev leftover : Library ℕ ℕ
leftover = record {
  kernel = state;
  inmodule = true;
  signals = record { handlers = λ k. 5; blocked = λ k. true };
  clock = clock_init 3;
  sysvars = record {
    envstring = 0x9000;
    envstringlen = 256;
    mem = λ a. 1;
    heap = 0;
    errno = Sysvars.unchanged;
  };
  standard = λ n. old_file;
}

clib_internalinit_lem_example :
    Initialised values leftover (clib_internalinit values 100 leftover) 100 250 3 0x8300 1
clib_internalinit_lem_example =
    clib_internalinit_lem values leftover 100 250 3 0x8300 1 (omega arith) (omega arith)
      (omega arith) (omega arith)
