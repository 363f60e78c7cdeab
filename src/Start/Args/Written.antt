-- ===== src/Start/Args/Written.antt =====
-- The second pass over the command line as a pass over lists, which writes behind what it has written.
use riscos64_simple_binaries.Base.{
  ℕ, Bool, true, false, not, List, [], length, ◌+◌, ◌∷◌, ◌++◌, ◌==◌, if◌then◌else◌,
}

-- What the pass writes, as a list, and where in it the arguments start.
pub record Written : Type 0 where
  pub out : List ℕ
  pub starts : List ℕ
  pub in_spaces : Bool
  pub in_quotes : Bool
  pub escape : Bool

abbrev pub written_start : Written
written_start = record {
  out = [];
  starts = [];
  in_spaces = true;
  in_quotes = false;
  escape = false;
}

abbrev pub emit : ℕ → Written → Written
emit c t = record t { out = t.out ++ c ∷ [] }

abbrev pub open_with : ℕ → Written → Written
open_with c t = if c == b'"' then record t { in_quotes = true } else emit c t

abbrev pub begin : Written → Written
begin t = record t { starts = t.starts ++ length t.out ∷ []; in_spaces = false }

unfoldable pub write_char : ℕ → Written → Written
write_char c t =
    if c == b'\\'
    then record t { escape = true }
    else if t.escape
    then emit c (
        if c == b'"' then record t { escape = false } else emit b'\\' (record t { escape = false }))
    else if not t.in_quotes
    then (if t.in_spaces
        then (if c == b' ' then t else open_with c (begin t))
        else if c == b' '
        then record (emit 0 t) { in_spaces = true }
        else open_with c t)
    else if c == b'"'
    then record t { in_quotes = false }
    else emit c t

unfoldable pub write_all : List ℕ → Written → Written
unfolding write_char
write_all [] t = t
write_all (c ∷ cs) t = write_all cs (write_char c t)

abbrev pub addresses : ℕ → List ℕ → List ℕ
addresses arg [] = []
addresses arg (n ∷ ns) = (arg + n) ∷ addresses arg ns
