-- ===== src/Runtime/Env.antt =====
-- The environment handlers, clib/env.c: `_env_init` and `_env_restore`. A handler's entry is the three
-- values of OS_ChangeEnvironment; `oldhandlers` is a function of the handler's number.
pub mod Laws
use riscos64_simple_binaries.Base.{
  ℕ, Bool, true, false, List, [], ◌+◌, ◌≡◌, ◌∷◌, ◌==◌, if◌then◌else◌,
}

pub record Entry : Type 0 where
  pub handler : ℕ
  pub workspace : ℕ
  pub buffer : ℕ

-- ENV_READ: a value of 0 leaves the entry as it is.
abbrev pub merged : Entry → Entry → Entry
merged old new = record {
  handler = if new.handler == 0 then old.handler else new.handler;
  workspace = if new.workspace == 0 then old.workspace else new.workspace;
  buffer = if new.buffer == 0 then old.buffer else new.buffer;
}

-- OS_ChangeEnvironment over a state `E`: it gives the entry before the call, and sets those values
-- that are not 0.
pub record Environment (E : Type 0) : Type 0 where
  pub entry : E → ℕ → Entry
  pub change : E → ℕ → Entry → Entry × E
  pub change_old : (e : E) (n : ℕ) (new : Entry) → (change e n new).0 ≡ entry e n
  pub change_entry :
      (e : E) (n : ℕ) (new : Entry) (k : ℕ)
      → entry (change e n new).1 k ≡ (if k == n then merged (entry e n) new else entry e k)

abbrev pub env_read : Entry
env_read = record { handler = 0; workspace = 0; buffer = 0 }

-- The addresses that the library installs: its three handlers and the error buffer.
pub record Addresses : Type 0 where
  pub env_error : ℕ
  pub env_escape : ℕ
  pub env_exit : ℕ
  pub error_buffer : ℕ

-- The calls of `_env_init`, in order: the handler's number and the new entry. The error handler gets
-- `&error_buffer.err` for its workspace, four bytes behind `&error_buffer`.
abbrev pub init_calls : Addresses → List (ℕ × Entry)
init_calls a =
    (0, env_read)
    ∷ (1, env_read)
    ∷ (2, env_read)
    ∷ (3, env_read)
    ∷ (4, env_read)
    ∷ (5, env_read)
    ∷ (6, record { handler = a.env_error; workspace = a.error_buffer + 4; buffer = a.error_buffer })
    ∷ (7, env_read)
    ∷ (9, record env_read { handler = a.env_escape })
    ∷ (10, env_read)
    ∷ (11, record env_read { handler = a.env_exit })
    ∷ (16, env_read)
    ∷ []

-- The handlers that `_env_restore` puts back, in order.
abbrev pub restore_calls : List ℕ
restore_calls = 0 ∷ 1 ∷ 2 ∷ 3 ∷ 4 ∷ 5 ∷ 6 ∷ 7 ∷ 9 ∷ 10 ∷ 11 ∷ 16 ∷ []

-- The environment, `oldhandlers` and `env_initialised`.
pub record State (E : Type 0) : Type 0 where
  pub env : E
  pub oldhandlers : ℕ → Entry
  pub env_initialised : Bool

module _ {E : Type 0} (os : Environment E) where
  -- `os_changeenvironment(n, …, &oldhandlers.…)`
  unfoldable pub save_entry : State E → ℕ → Entry → State E
  save_entry s n new = record s {
    env = (os.change s.env n new).1;
    oldhandlers = λ k. if k == n then (os.change s.env n new).0 else s.oldhandlers k;
  }

  unfoldable pub save_all : State E → List (ℕ × Entry) → State E
  save_all s [] = s
  save_all s ((n, new) ∷ calls) = save_all (save_entry s n new) calls

  unfoldable pub env_init : Addresses → State E → State E
  unfolding save_all save_entry
  env_init a s = save_all (record s { env_initialised = true }) (init_calls a)

  unfoldable pub restore_all : State E → List ℕ → State E
  restore_all s [] = s
  restore_all s (n ∷ calls) =
      restore_all (record s { env = (os.change s.env n (s.oldhandlers n)).1 }) calls

  unfoldable pub env_restore : State E → State E
  unfolding restore_all
  env_restore s =
      if s.env_initialised
      then restore_all (record s { env_initialised = false }) restore_calls
      else s
