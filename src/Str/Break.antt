-- ===== src/Str/Break.antt =====
-- clib/string/strpbrk.c, built with USE_ARRAY and without USE_FILTER. `none` is a loop that has not
-- ended with its fuel, an inner `none` is NULL.
pub mod Laws
use riscos64_simple_binaries.Base.{
  ℕ, zero, suc, Bool, Option, none, some, ◌>>=◌, ◌+◌, ◌/◌, ◌%◌, ◌&&◌, ◌||◌, ◌==◌, if◌then◌else◌,
}
use riscos64_simple_binaries.Memory.{Memory}
use riscos64_simple_binaries.Str.{strchr}

-- `terms`: the bits of its four words
abbrev pub Table : Type 0
Table = ℕ → ℕ → Bool

-- `{1, 0, 0, 0}`
abbrev pub terminator_only : Table
terminator_only word bit = (word == 0) && (bit == 0)

-- The loop for two characters
unfoldable pub two_loop : ℕ → Memory → ℕ → ℕ → ℕ → Option (Option ℕ)
two_loop zero m s c1 c2 = none
two_loop (suc fuel) m s c1 c2 =
    let rest = two_loop fuel m (s + 1) c1 c2 in
    if m s == 0 then some none else if (m s == c1) || (m s == c2) then some (some s) else rest

-- `(terms[c >> 6] >> (c & 63)) & 1`
abbrev pub in_table : Table → ℕ → Bool
in_table terms c = terms (c / 64) (c % 64)

-- The loop over the string: the table has the terminator, so that it ends there too.
unfoldable pub table_loop : ℕ → Memory → ℕ → Table → Option (Option ℕ)
table_loop zero m s terms = none
table_loop (suc fuel) m s terms =
    let rest = table_loop fuel m (s + 1) terms in
    if in_table terms (m s) then some (some s) else rest

-- `shifted n` are the bits of `1u << n`, which C leaves open from 32 on.
module _ (shifted : ℕ → ℕ → Bool) where
  -- `terms[c >> 6] |= 1u << (c & 63)`
  abbrev pub add_term : Table → ℕ → Table
  add_term terms c word bit = terms word bit || ((word == c / 64) && shifted (c % 64) bit)

  -- The loop over the set
  unfoldable pub fill_table : ℕ → Memory → ℕ → Table → Option Table
  fill_table zero m charset terms = none
  fill_table (suc fuel) m charset terms =
      let rest = fill_table fuel m (charset + 1) (add_term terms (m charset)) in
      if m charset == 0 then some terms else rest

  unfoldable pub strpbrk : ℕ → Memory → ℕ → ℕ → Option (Option ℕ)
  unfolding strchr two_loop fill_table table_loop
  strpbrk fuel m s charset =
      if m charset == 0
      then some none
      else if m (charset + 1) == 0
      then strchr fuel m s (m charset)
      else if m (charset + 2) == 0
      then two_loop fuel m s (m charset) (m (charset + 1))
      else (do terms ← fill_table fuel m charset terminator_only; table_loop fuel m s terms)
