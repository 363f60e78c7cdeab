-- ===== src/Start/Args/Split.antt =====
-- The two passes over the command line compared, and the text of a command line of words.
use riscos64_simple_binaries.Base.{
  ℕ, zero, suc, refl, sym, ap, false, List, [], append-nil, append_assoc, arith, length,
  length-append, ◌+◌, ◌≤◌, ◌≡◌, ◌∙◌, ◌≢◌, ◌∷◌, ◌++◌, ◌==◌,
}
use riscos64_simple_binaries.Memory.{Memory}
use riscos64_simple_binaries.Memory.Text.{HasString}
use riscos64_simple_binaries.Start.Args.{
  Count, count_char, count_loop, count_start, build_loop, build_start,
}
use riscos64_simple_binaries.Start.Args.InPlace.{build_loop-written}
use riscos64_simple_binaries.Start.Args.Written.{
  Written, written_start, write_char, write_all, addresses,
}

-- The first pass has seen what the second has written.
record Counted (s : Count) (t : Written) : Type 0 where
  argc_at : s.argc ≡ length t.starts
  spaces_at : s.in_spaces ≡ t.in_spaces
  quotes_at : s.in_quotes ≡ t.in_quotes
  escape_at : s.escape ≡ t.escape

char-Counted :
    (c : ℕ) (s : Count) (t : Written) → Counted s t → Counted (count_char c s) (write_char c t)
unfolding count_char write_char
char-Counted c s t h = record {
  argc_at = ground (
    arith,
    h.argc_at,
    h.spaces_at,
    h.quotes_at,
    h.escape_at,
    length-append t.starts (length t.out ∷ []),
  );
  spaces_at = ground (arith, h.spaces_at, h.quotes_at, h.escape_at);
  quotes_at = ground (arith, h.spaces_at, h.quotes_at, h.escape_at);
  escape_at = ground (arith, h.spaces_at, h.quotes_at, h.escape_at);
}

count_loop-Counted :
    (fuel : ℕ) (m : Memory) (p : ℕ) (cs : List ℕ) (s : Count) (t : Written)
    → HasString m p cs
    → length cs ≤ fuel
    → Counted s t
    → Counted (count_loop fuel m p s) (write_all cs t)
unfolding count_loop write_all
count_loop-Counted zero m p [] s t h l k = k
count_loop-Counted zero m p (c ∷ cs) s t h l k = absurd (omega arith)
count_loop-Counted (suc fuel) m p [] s t h l k = rw h k
count_loop-Counted (suc fuel) m p (c ∷ cs) s t h l k =
    let z : (c == 0) ≡ false = ground (arith, h.1) in
    rw (h.0, z)
      (count_loop-Counted fuel m (p + 1) cs (count_char c s) (write_char c t) h.2 (omega arith)
        (char-Counted c s t k))

start-Counted : Counted count_start written_start
start-Counted = record { argc_at = refl; spaces_at = refl; quotes_at = refl; escape_at = refl }

length-addresses : (arg : ℕ) (ns : List ℕ) → length (addresses arg ns) ≡ length ns
length-addresses arg [] = refl
length-addresses arg (n ∷ ns) = ap suc (length-addresses arg ns)

pub count_loop-written :
    (m : Memory) (arg : ℕ) (cs : List ℕ)
    → HasString m arg cs
    → (count_loop (length cs) m arg count_start).in_quotes ≡ (write_all cs written_start).in_quotes
count_loop-written m arg cs h =
    (count_loop-Counted (length cs) m arg cs count_start written_start h (omega arith)
      start-Counted).quotes_at

-- The first pass counts the arguments that the second stores, so that `argv[argc + 1]` has room for
-- them and for the NULL behind; and the second pass leaves the quotes as the first has found them.
pub count_loop-build_loop :
    (m : Memory) (arg : ℕ) (cs : List ℕ)
    → HasString m arg cs
    → ((count_loop (length cs) m arg count_start).argc
        ≡ length (build_loop (length cs) (build_start m arg)).argv)
      × ((count_loop (length cs) m arg count_start).in_quotes
          ≡ (build_loop (length cs) (build_start m arg)).in_quotes)
count_loop-build_loop m arg cs h =
    let counted =
      count_loop-Counted (length cs) m arg cs count_start written_start h (omega arith)
        start-Counted in
    let built = build_loop-written m arg cs h in
    (
      counted.argc_at ∙ sym (length-addresses arg _) ∙ ap length (sym built.argv_at),
      counted.quotes_at ∙ sym built.quotes_at,
    )

-- The text of a command line in which each word of `ws` stands behind a `c`
abbrev pub behind : ℕ → List (List ℕ) → List ℕ
behind c [] = []
behind c (w ∷ ws) = c ∷ (w ++ behind c ws)

-- Where the first word and those behind it start, from `n` on
abbrev pub offsets : ℕ → List ℕ → List (List ℕ) → List ℕ
offsets n w [] = n ∷ []
offsets n w (w' ∷ ws) = n ∷ offsets (n + length w + 1) w' ws

-- A word with no space, quote, backslash or 0
abbrev pub IsPlain : List ℕ → Type 0
IsPlain [] = Unit
IsPlain (c ∷ cs) = (c ≢ 0) × (c ≢ b' ') × (c ≢ b'"') × (c ≢ b'\\') × IsPlain cs

abbrev pub ArePlain : List (List ℕ) → Type 0
ArePlain [] = Unit
ArePlain (w ∷ ws) = (1 ≤ length w) × IsPlain w × ArePlain ws

-- The state within an argument, with `out` written
abbrev pub within : List ℕ → List ℕ → Written
within out starts = record {
  out = out;
  starts = starts;
  in_spaces = false;
  in_quotes = false;
  escape = false;
}

pub write_all-append :
    (xs ys : List ℕ) (t : Written) → write_all (xs ++ ys) t ≡ write_all ys (write_all xs t)
unfolding write_all
write_all-append [] ys t = refl
write_all-append (x ∷ xs) ys t = write_all-append xs ys (write_char x t)

pub write_all_word :
    (w out starts : List ℕ) → IsPlain w → write_all w (within out starts) ≡ within (out ++ w) starts
unfolding write_all write_char
write_all_word [] out starts h = ap (λ o. within o starts) (sym (append-nil out))
write_all_word (c ∷ w) out starts h =
    let e : (c == b'\\') ≡ false = ground (arith, h.3) in
    let e' : (c == b' ') ≡ false = ground (arith, h.1) in
    let e'' : (c == b'"') ≡ false = ground (arith, h.2) in
    rw (e, e', e'')
      (write_all_word w (out ++ c ∷ []) starts h.4
        ∙ ap (λ o. within o starts) (append_assoc out (c ∷ []) w))
