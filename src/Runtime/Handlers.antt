-- ===== src/Runtime/Handlers.antt =====
-- clib/env.c, the handlers themselves, and clib/clib.c: what they call, in order.
pub mod Laws
use riscos64_simple_binaries.Base.{
  ℕ, zero, suc, Bool, List, [], ltb, ◌+◌, ◌||◌, ◌∷◌, ◌++◌, ◌==◌, if◌then◌else◌,
}

pub data Action : Type 0 where
  newline : Action
  write_error : Action
  write_reentered : Action
  write_recursion : Action
  write_message : Action
  kernel_backtrace : Action
  atexit_trigger : Action
  getenv_final : Action
  io_final : Action
  restore_environment : Action
  generate_error : Action
  acknowledge_escape : Action
  raise_sigint : Action
  leave_with : ℕ → Action

-- `_clib_finalise`
unfoldable pub clib_finalise : List Action
clib_finalise = atexit_trigger ∷ getenv_final ∷ io_final ∷ []

-- `exit`
unfoldable pub exit : ℕ → List Action
unfolding clib_finalise
exit rc = clib_finalise ++ leave_with rc ∷ []

-- `_env_exit`
unfoldable pub env_exit : List Action
unfolding clib_finalise
env_exit = clib_finalise ++ leave_with 0 ∷ []

-- `_env_escape`, with `reentered`, which is set only while the escape is acknowledged
unfoldable pub env_escape : Bool → List Action
env_escape reentered = if reentered then [] else acknowledge_escape ∷ raise_sigint ∷ []

-- What `_env_error` writes at its `count`-th call
unfoldable pub error_report : ℕ → List Action
error_report count =
    if (count == 1) || (count == 2)
    then (if count == 1 then write_error else write_reentered)
      ∷ write_message
      ∷ newline
      ∷ kernel_backtrace
      ∷ []
    else write_recursion ∷ newline ∷ []

-- `_env_error`, with `count` as it was before: the calls, and `count` afterwards
unfoldable pub env_error : ℕ → List Action × ℕ
unfolding error_report clib_finalise
env_error before =
    let count = before + 1 in
    (
      newline
          ∷ (error_report count
              ++ ((if ltb count 3 then clib_finalise else [])
                  ++ restore_environment ∷ generate_error ∷ [])),
      count,
    )

-- `n` errors in a row
unfoldable pub env_errors : ℕ → ℕ → List Action
unfolding env_error
env_errors zero count = []
env_errors (suc n) count = let (actions, count') = env_error count in actions ++ env_errors n count'
