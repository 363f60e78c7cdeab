-- ===== src/Runtime/Failures.antt =====
-- How a program fails: clib/assert.c, abort.c, io/stackcheck.c, the default actions of signal.c, and
-- `__heap_fatal` of malloc.c. Each is the calls that it makes, in order.
use riscos64_simple_binaries.Base.{ℕ, Option, none, some, List, [], codes, ◌∷◌, ◌++◌}
use riscos64_simple_binaries.Cvt.Decimal.{cvt_uint64_decimal}
use riscos64_simple_binaries.Runtime.Handlers.{
  Action, newline, kernel_backtrace, restore_environment, generate_error, clib_finalise, leave_with,
  exit,
}
use riscos64_simple_binaries.Runtime.Signal.{Values, Program, raise}

-- OS_Write0 of a text, or another call
pub data Call : Type 0 where
  write0 : List ℕ → Call
  act : Action → Call

abbrev pub acts : List Action → List Call
acts [] = []
acts (a ∷ rest) = act a ∷ acts rest

-- The name of the function, if there is one
abbrev pub function_part : Option (List ℕ) → List Call
function_part none = []
function_part (some function) = write0 function ∷ write0 (codes " in ") ∷ []

-- The report of `__assert_fail`; the number of the line is unsigned.
unfoldable pub assert_report : List ℕ → List ℕ → ℕ → Option (List ℕ) → List Call
unfolding cvt_uint64_decimal
assert_report assertion file line function =
    (write0 (codes "Assertion failed: ")
      ∷ write0 assertion
      ∷ act newline
      ∷ write0 (codes "              at: ")
      ∷ [])
    ++ (function_part function
        ++ write0 file
          ∷ write0 (codes ", line ")
          ∷ write0 (cvt_uint64_decimal line)
          ∷ act newline
          ∷ [])

-- `__assert_fail`; the last call is made only if `os_generateerror` returns.
unfoldable pub assert_fail : List ℕ → List ℕ → ℕ → Option (List ℕ) → List Call
unfolding assert_report clib_finalise
assert_fail assertion file line function =
    assert_report assertion file line function
    ++ acts (
        kernel_backtrace
        ∷ (clib_finalise ++ restore_environment ∷ generate_error ∷ leave_with 0 ∷ []))

-- `__stack_chk_fail`
unfoldable pub stack_chk_fail : List Call
stack_chk_fail =
    write0 (codes "Stack smash detected")
    ∷ act newline
    ∷ act newline
    ∷ act kernel_backtrace
    ∷ act (leave_with 1)
    ∷ []

-- `__heap_fatal`
unfoldable pub heap_fatal : List ℕ → List Call
unfolding exit
heap_fatal msg = write0 msg ∷ act newline ∷ acts (exit 1)

-- `signal_escape`
unfoldable pub signal_escape : List Call
signal_escape = act generate_error ∷ []

-- `signal_abort`
unfoldable pub signal_abort : List Call
unfolding exit
signal_abort =
    write0 (codes "Aborted") ∷ act newline ∷ act newline ∷ act kernel_backtrace ∷ acts (exit 1)

-- `abort`: a handler that does not return leaves the program itself. `quit` is `exit`.
unfoldable pub abort : {W : Type 0} → Program W → Values → (ℕ → W → W) → W → W
unfolding raise
abort prog v quit w = quit 1 (raise prog v w v.sigabrt).1
