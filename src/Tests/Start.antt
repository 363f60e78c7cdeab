-- ===== src/Tests/Start.antt =====
-- The command line and the memory of a program, on concrete values.
use riscos64_simple_binaries.Base.{
  ℕ, refl, some, List, [], arith, codes, length, get_or, ◌+◌, ◌-◌, ◌*◌, ◌≤◌, ◌≡◌, ◌∷◌, ◌++◌,
}
use riscos64_simple_binaries.Memory.{Memory}
use riscos64_simple_binaries.Memory.Text.{HasString}
use riscos64_simple_binaries.Start.Args.{
  count_loop, count_start, build_loop, build_start, split_args,
}
use riscos64_simple_binaries.Start.Args.Split.{behind, count_loop-build_loop}
use riscos64_simple_binaries.Start.Args.Words.{AreArgs, split_args_words}
use riscos64_simple_binaries.Start.Redirect.{
  Freopen, redirection, redirection_start, main_arguments, mode,
}
use riscos64_simple_binaries.Start.Redirect.Laws.{Ends, redirected, redirection-redirected}
use riscos64_simple_binaries.Start.Layout.{layout, layout_bounds}

abbrev text_at : ℕ → List ℕ → Memory
text_at p cs a = get_or cs (a - p) 0

abbrev words : List ℕ
words = codes "cc -c x"

words-HasString : HasString (text_at 100 words) 100 words
words-HasString = omega arith

split_args_words_example :
    (m' : Memory) × (addrs : List ℕ) × (split_args
        (text_at 100 words)
        100
        (length (codes "cc" ++ behind b' ' (codes "-c" ∷ codes "x" ∷ [])))
      ≡ some (m', addrs))
    × AreArgs m' addrs (codes "cc" ∷ codes "-c" ∷ codes "x" ∷ [])
split_args_words_example =
    split_args_words (text_at 100 words) 100 (codes "cc") (codes "-c" ∷ codes "x" ∷ [])
      (omega arith) words-HasString

count_loop-build_loop_example :
    ((count_loop (length words) (text_at 100 words) 100 count_start).argc
      ≡ length (build_loop (length words) (build_start (text_at 100 words) 100)).argv)
    × ((count_loop (length words) (text_at 100 words) 100 count_start).in_quotes
        ≡ (build_loop (length words) (build_start (text_at 100 words) 100)).in_quotes)
count_loop-build_loop_example = count_loop-build_loop (text_at 100 words) 100 words words-HasString

abbrev quoted : List ℕ
quoted = codes "p \"a b\""

-- Streams that are the list of what has been opened
abbrev opens : Freopen (List (List ℕ × ℕ))
opens w name mode fd = some ((name, fd) ∷ w)

abbrev arguments : List (List ℕ)
arguments = codes "p" ∷ codes ">" ∷ codes "out" ∷ codes "a" ∷ codes "<in" ∷ []

redirection-redirected_example :
    Ends []
      (redirected opens arguments [])
      (redirection (length arguments) opens (redirection_start arguments []))
redirection-redirected_example = redirection-redirected opens arguments []

-- `main` is called with the old number of arguments, and finds stale ones behind those that are left.
stale_arguments :
    main_arguments 5 (redirection 5 opens (redirection_start arguments []))
    ≡ some (codes "p" ∷ codes "a" ∷ codes "<in" ∷ codes "a" ∷ codes "<in" ∷ [])
unfolding main_arguments redirection
stale_arguments = refl

layout_bounds_example :
    let base : ℕ = 0x9000 in
    let limit : ℕ = 0x30000 in
    (base ≡ 0x9000) × (base + 4 * 1024 ≤ limit) × (limit + 64 * 1024 ≡ 0x40000)
unfolding layout
layout_bounds_example =
    layout_bounds 0x9000 0x40000 0 0 0x9000 0x30000 (omega arith) (omega arith) (omega arith) refl
