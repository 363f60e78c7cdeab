-- ===== src/Start/Args.antt =====
-- clib/main.c, `__main`: the command line is cut into arguments in two passes over a copy of it, which
-- the second pass rewrites in place. The file is built with BUILD_ARGV_ON_STACK.
pub mod Written
pub mod InPlace
pub mod Words
pub mod Split
use riscos64_simple_binaries.Base.{
  ℕ, zero, suc, Bool, true, false, not, Option, none, some, List, [], ◌+◌, ◌∷◌, ◌++◌, ◌==◌,
  if◌then◌else◌,
}
use riscos64_simple_binaries.Memory.{Memory, store}

-- `argc`, `in_spaces`, `in_quotes` and `escape` in the first pass.
pub record Count : Type 0 where
  pub argc : ℕ
  pub in_spaces : Bool
  pub in_quotes : Bool
  pub escape : Bool

abbrev pub count_start : Count
count_start = record { argc = 0; in_spaces = true; in_quotes = false; escape = false }

-- `if (*p == '"') in_quotes = 1;`
unfoldable pub count_open : ℕ → Count → Count
count_open c s = if c == b'"' then record s { in_quotes = true } else s

-- The body of the first loop, for the character `c`.
unfoldable pub count_char : ℕ → Count → Count
unfolding count_open
count_char c s =
    if c == b'\\'
    then record s { escape = true }
    else if s.escape
    then record s { escape = false }
    else if not s.in_quotes
    then (if s.in_spaces
        then (if c == b' '
            then s
            else count_open c (record s { argc = s.argc + 1; in_spaces = false }))
        else if c == b' '
        then record s { in_spaces = true }
        else count_open c s)
    else if c == b'"'
    then record s { in_quotes = false }
    else s

-- `for (p=arg; *p; p++)`, with fuel
unfoldable pub count_loop : ℕ → Memory → ℕ → Count → Count
unfolding count_char
count_loop zero m p s = s
count_loop (suc fuel) m p s =
    let rest = count_loop fuel m (p + 1) (count_char (m p) s) in if m p == 0 then s else rest

-- The second pass: the copy of the command line, `p`, `argout`, `argv[0..argc]` and the flags.
pub record Build : Type 0 where
  pub mem : Memory
  pub p : ℕ
  pub argout : ℕ
  pub argv : List ℕ
  pub in_spaces : Bool
  pub in_quotes : Bool
  pub escape : Bool

abbrev pub build_start : Memory → ℕ → Build
build_start m arg = record {
  mem = m;
  p = arg;
  argout = arg;
  argv = [];
  in_spaces = true;
  in_quotes = false;
  escape = false;
}

-- `*argout++ = c`
abbrev pub put : ℕ → Build → Build
put c s = record s { mem = store s.mem s.argout c; argout = s.argout + 1 }

-- The end of the branch outside quotes
unfoldable pub build_open : ℕ → Build → Build
build_open c s = if c == b'"' then record s { in_quotes = true } else put c s

-- The body of the second loop, for the character `c`.
unfoldable pub build_char : ℕ → Build → Build
unfolding build_open
build_char c s =
    if c == b'\\'
    then record s { escape = true }
    else if s.escape
    then (let s' = record s { escape = false } in put c (if c == b'"' then s' else put b'\\' s'))
    else if not s.in_quotes
    then (if s.in_spaces
        then (if c == b' '
            then s
            else build_open c (record s { argv = s.argv ++ s.argout ∷ []; in_spaces = false }))
        else if c == b' '
        then record (put 0 s) { in_spaces = true }
        else build_open c s)
    else if c == b'"'
    then record s { in_quotes = false }
    else put c s

unfoldable pub build_loop : ℕ → Build → Build
unfolding build_char
build_loop zero s = s
build_loop (suc fuel) s =
    let s' = build_char (s.mem s.p) s in
    let rest = build_loop fuel (record s' { p = s'.p + 1 }) in if s.mem s.p == 0 then s else rest

-- Both passes over a copy at `arg` of a command line of `len` characters; `none` is the failure with
-- "Missmatched quotes". The result is the memory and `argv`.
unfoldable pub split_args : Memory → ℕ → ℕ → Option (Memory × List ℕ)
unfolding count_loop build_loop
split_args m arg len =
    let counted = count_loop len m arg count_start in
    let built = build_loop len (build_start m arg) in
    if counted.in_quotes then none else some (built.mem, built.argv)
