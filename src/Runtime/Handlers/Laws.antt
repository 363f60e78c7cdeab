-- ===== src/Runtime/Handlers/Laws.antt =====
-- Errors within the error handler.
use riscos64_simple_binaries.Base.{
  ℕ, zero, suc, refl, Bool, true, false, List, [], arith, ltb, ◌+◌, ◌-◌, ◌≤◌, ◌≡◌, ◌∷◌, ◌++◌, ◌==◌,
  if◌then◌else◌,
}
use riscos64_simple_binaries.Runtime.Handlers.{
  Action, atexit_trigger, generate_error, clib_finalise, error_report, env_error, env_errors,
}

abbrev is_trigger : Action → Bool
is_trigger atexit_trigger = true
is_trigger _ = false

abbrev is_generated : Action → Bool
is_generated generate_error = true
is_generated _ = false

abbrev count_of : (Action → Bool) → List Action → ℕ
count_of p [] = 0
count_of p (x ∷ xs) = (if p x then 1 else 0) + count_of p xs

count_of-append :
    (p : Action → Bool) (xs ys : List Action)
    → count_of p (xs ++ ys) ≡ count_of p xs + count_of p ys
count_of-append p [] ys = omega arith
count_of-append p (x ∷ xs) ys = omega (arith, count_of-append p xs ys)

env_error_triggers :
    (count : ℕ)
    → (count_of is_trigger (env_error count).0 ≡ (if ltb count 2 then 1 else 0))
      × (count_of is_generated (env_error count).0 ≡ 1)
unfolding env_error error_report clib_finalise
env_error_triggers zero = (refl, refl)
env_error_triggers (suc zero) = (refl, refl)
env_error_triggers (suc (suc k)) =
    let first : (suc (suc k) + 1 == 1) ≡ false = ground arith in
    let second : (suc (suc k) + 1 == 2) ≡ false = ground arith in
    let third : ltb (suc (suc k) + 1) 3 ≡ false = ground arith in
    let late : ltb (suc (suc k)) 2 ≡ false = ground arith in
    rw (first, second, third, late) (refl, refl)

-- However many errors come, also while an error is dealt with, the exit handlers are triggered for the
-- first two at most, and each error is passed on to the handler that was there before.
env_errors_triggers :
    (n count : ℕ)
    → (count_of is_trigger (env_errors n count) ≤ 2 - count)
      × (count_of is_generated (env_errors n count) ≡ n)
unfolding env_errors
env_errors_triggers zero count = (omega arith, refl)
env_errors_triggers (suc n) count =
    let here = env_error_triggers count in
    let later = env_errors_triggers n (count + 1) in
    let split = count_of-append is_trigger (env_error count).0 (env_errors n (count + 1)) in
    let split' = count_of-append is_generated (env_error count).0 (env_errors n (count + 1)) in
    (ground (arith, here.0, later.0, split), omega (arith, here.1, later.1, split'))
