-- ===== src/Io/Sscanf.antt =====
-- clib/io/sscanf.c. Strings are lists of characters; the result is the strings that are stored, whose
-- number is the result of `vsscanf`. `isspace` is that of <ctype.h>.
pub mod Laws
use riscos64_simple_binaries.Base.{ℕ, Bool, List, [], get_or, ◌∷◌, ◌==◌, if◌then◌else◌}

module _ (isspace : ℕ → Bool) where
  -- `while (*str && isspace(*str)) str++;`
  unfoldable pub skip_space : List ℕ → List ℕ
  skip_space [] = []
  skip_space (c ∷ cs) = if isspace c then skip_space cs else c ∷ cs

  -- `while (*str && !isspace(*str)) *dest++ = *str++;`: what is stored, and what is left
  unfoldable pub take_word : List ℕ → List ℕ × List ℕ
  take_word [] = ([], [])
  take_word (c ∷ cs) =
      let (word, rest) = take_word cs in if isspace c then ([], c ∷ cs) else (c ∷ word, rest)

  -- Behind a conversion: `if (*str == '\0') goto done;`
  unfoldable pub unless_done : List ℕ → (List ℕ → List (List ℕ)) → List (List ℕ)
  unless_done [] more = []
  unless_done (c ∷ cs) more = more (c ∷ cs)

  unfoldable pub vsscanf : List ℕ → List ℕ → List (List ℕ)
  unfolding skip_space take_word unless_done
  vsscanf str [] = []
  vsscanf str (f ∷ []) = []
  vsscanf str (f ∷ c ∷ format) =
      let (word, rest) = take_word (skip_space str) in
      if f == b' '
      then vsscanf (skip_space str) (c ∷ format)
      else if f == b'%'
      then (if c == b's'
          then word ∷ unless_done rest (λ str'. vsscanf str' format)
          else vsscanf str format)
      else if get_or str 0 0 == f
      then vsscanf str (c ∷ format)
      else []
