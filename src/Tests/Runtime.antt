-- ===== src/Tests/Runtime.antt =====
-- The start-up and shut-down code, and the clock, on concrete values.
use riscos64_simple_binaries.Base.{
  ◌≢◌, ℕ, refl, false, List, [], arith, ltb, length, pos, negsuc, ◌+◌, ◌≡◌, ◌∷◌, ◌==◌,
  if◌then◌else◌,
}
use riscos64_simple_binaries.Runtime.Atexit.{
  atexit, atexit_max, atexit_trigger, no_handlers, register_all,
}
use riscos64_simple_binaries.Runtime.Atexit.Laws.{atexit_trigger_lem}
use riscos64_simple_binaries.Runtime.Env.{
  Entry, Environment, Addresses, State, env_init, env_restore, merged,
}
use riscos64_simple_binaries.Runtime.Env.Laws.{PutBack, env_restore-init}

abbrev three_handlers : List ℕ
three_handlers = 11 ∷ 12 ∷ 13 ∷ []

atexit_trigger_lem_example :
    ((atexit (register_all no_handlers three_handlers) 14).0
      ≡ (if ltb (length three_handlers) atexit_max then pos 0 else negsuc 0))
    × (atexit_trigger (λ f funcs. funcs) (register_all no_handlers three_handlers)
        ≡ (no_handlers, three_handlers))
atexit_trigger_lem_example =
    atexit_trigger_lem (λ f funcs. funcs) three_handlers 14 (λ f funcs. refl)
      (omega arith, (omega arith, (omega arith, tt))) (omega arith)

-- An environment that is a table of entries.
abbrev change_table : (ℕ → Entry) → ℕ → Entry → Entry × (ℕ → Entry)
change_table e n new = (e n, λ k. if k == n then merged (e n) new else e k)

abbrev table : Environment (ℕ → Entry)
table = record {
  entry = λ e n. e n;
  change = change_table;
  change_old = λ e n new. refl;
  change_entry = λ e n new k. refl;
}

abbrev addresses : Addresses
addresses = record { env_error = 32768; env_escape = 32780; env_exit = 32800; error_buffer = 40000 }

abbrev before : State (ℕ → Entry)
before = record {
  env = λ n. record { handler = n + 1; workspace = if n == 6 then 7 else 0; buffer = 0 };
  oldhandlers = λ n. record { handler = 0; workspace = 0; buffer = 0 };
  env_initialised = false;
}

env_restore-init_example :
    let s = env_restore table (env_init table addresses before) in
    ((k : ℕ) → k ≢ 6 → k ≢ 9 → k ≢ 11 → s.env k ≡ before.env k)
    × ((k : ℕ) → PutBack table (before.env k) (s.env k))
    × (env_restore table s ≡ s)
env_restore-init_example = env_restore-init table addresses before
