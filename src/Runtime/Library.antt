-- ===== src/Runtime/Library.antt =====
-- clib/clib.c and module.c: the parts of the library brought up together, and down.
pub mod Laws
use riscos64_simple_binaries.Base.{ℕ, Bool, true, List}
use riscos64_simple_binaries.Io.Stream.{File, State}
use riscos64_simple_binaries.Io.Reopen.{io_init}
use riscos64_simple_binaries.Io.Open.{Files, io_final}
use riscos64_simple_binaries.Kernel.Swi.{kernel_init}
use riscos64_simple_binaries.Kernel.Swi
use riscos64_simple_binaries.Runtime.Atexit.{atexit_trigger}
use riscos64_simple_binaries.Runtime.Clock.{Clock, clock_init}
use riscos64_simple_binaries.Runtime.Signal.{Values, Signals, signal_init}
use riscos64_simple_binaries.Sysvars.{ReadVar, Allocator, getenv_init, getenv_final}
use riscos64_simple_binaries.Sysvars

-- The static state of the library, with the FILE of each standard stream, over a system `D` and a
-- heap `H`.
pub record Library (D H : Type 0) : Type 0 where
  pub kernel : Swi.State D
  pub inmodule : Bool
  pub signals : Signals
  pub clock : Clock
  pub sysvars : Sysvars.State H
  pub standard : ℕ → File

module _ {D H : Type 0} (v : Values) where
  -- `_clib_internalinit`, at the time `now` of the clock
  unfoldable pub clib_internalinit : ℕ → Library D H → Library D H
  unfolding kernel_init signal_init clock_init getenv_init io_init
  clib_internalinit now l =
      let l₁ = record l { kernel = kernel_init l.kernel } in
      let l₂ = record l₁ { signals = signal_init v } in
      let l₃ = record l₂ { clock = clock_init now } in
      let l₄ = record l₃ { sysvars = getenv_init l₃.sysvars } in
      record l₄ { standard = io_init l₄.standard }

  -- `_clib_initialisemodule`; `relocate` is `__RelocCode`, or nothing where it is not linked. The result
  -- is NULL.
  unfoldable pub clib_initialisemodule :
      (Library D H → Library D H) → ℕ → Library D H → ℕ × Library D H
  unfolding clib_internalinit
  clib_initialisemodule relocate now l =
      (0, clib_internalinit now (record (relocate l) { inmodule = true }))

-- What `_clib_finalise` leaves: the exit handlers that have run, latest first, with their slots, the
-- system variables, and the streams.
pub record Ended (H : Type 0) : Type 0 where
  pub called : List ℕ
  pub slots : List ℕ
  pub sysvars : Sysvars.State H
  pub files : Files

module _ {H : Type 0} (run : ℕ → List ℕ → List ℕ) (read : ReadVar) (a : Allocator H) where
  -- `_clib_finalise`, and `_clib_finalisemodule`, which calls only it
  unfoldable pub finalised : List ℕ → Sysvars.State H → Files → Ended H
  unfolding atexit_trigger getenv_final io_final
  finalised slots sysvars files =
      let (slots', called) = atexit_trigger run slots in
      record {
        called = called;
        slots = slots';
        sysvars = getenv_final read a sysvars;
        files = io_final files;
      }
