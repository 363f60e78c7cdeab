-- ===== src/Start/Args/Words.antt =====
-- Words that single spaces separate, through the second pass and as strings in its memory.
use riscos64_simple_binaries.Base.{
  ℕ, zero, suc, refl, sym, ap, subst, inl, inr, true, false, some, List, [], append-nil,
  append_assoc, arith, ltb, ltb→lt, Bool-cases, length, get_or, length-append, ◌+◌, ◌≤◌, ◌<◌, ◌≡◌,
  ◌∙◌, ◌≢◌, ◌∷◌, ◌++◌, ◌==◌,
}
use riscos64_simple_binaries.Memory.{Memory}
use riscos64_simple_binaries.Memory.Text.{
  HasString, IsText, HasString-intro, HasString-byte, HasString-nonzero, get_or_past,
}
use riscos64_simple_binaries.Start.Args.{build_loop, build_start, split_args}
use riscos64_simple_binaries.Start.Args.InPlace.{Same, build_loop-written}
use riscos64_simple_binaries.Start.Args.Written.{
  Written, written_start, write_char, write_all, addresses,
}
use riscos64_simple_binaries.Start.Args.Split.{
  count_loop-written, behind, offsets, IsPlain, ArePlain, within, write_all-append, write_all_word,
}

-- The state in the spaces before an argument
abbrev between : List ℕ → List ℕ → Written
between out starts = record {
  out = out;
  starts = starts;
  in_spaces = true;
  in_quotes = false;
  escape = false;
}

-- The first character of a word opens an argument.
write_all_open :
    (w out starts : List ℕ)
    → 1 ≤ length w
    → IsPlain w
    → write_all w (between out starts) ≡ within (out ++ w) (starts ++ length out ∷ [])
unfolding write_all write_char
write_all_open [] out starts l h = absurd (omega arith)
write_all_open (c ∷ w) out starts l h =
    let e : (c == b'\\') ≡ false = ground (arith, h.3) in
    let e' : (c == b' ') ≡ false = ground (arith, h.1) in
    let e'' : (c == b'"') ≡ false = ground (arith, h.2) in
    rw (e, e', e'')
      (write_all_word w (out ++ c ∷ []) (starts ++ length out ∷ []) h.4
        ∙ ap (λ o. within o (starts ++ length out ∷ [])) (append_assoc out (c ∷ []) w))

write_all_words :
    (w : List ℕ) (ws : List (List ℕ)) (out starts : List ℕ)
    → ArePlain (w ∷ ws)
    → write_all (w ++ behind b' ' ws) (between out starts)
      ≡ within (out ++ (w ++ behind 0 ws)) (starts ++ offsets (length out) w ws)
unfolding write_all write_char
write_all_words w [] out starts (l, h, hs) = rw (append-nil w) (write_all_open w out starts l h)
write_all_words w (w' ∷ ws) out starts (l, h, hs) =
    let next = write_all_words w' ws ((out ++ w) ++ 0 ∷ []) (starts ++ length out ∷ []) hs in
    let at : length ((out ++ w) ++ 0 ∷ []) ≡ length out + length w + 1 =
      omega (arith, length-append (out ++ w) (0 ∷ []), length-append out w) in
    let texts : ((out ++ w) ++ 0 ∷ []) ++ (w' ++ behind 0 ws) ≡ out ++ (w ++ behind 0 (w' ∷ ws)) =
      append_assoc (out ++ w) (0 ∷ []) (w' ++ behind 0 ws) ∙ append_assoc out w _ in
    let places : (starts ++ length out ∷ []) ++ offsets (length ((out ++ w) ++ 0 ∷ [])) w' ws
        ≡ starts ++ offsets (length out) w (w' ∷ ws) =
      rw at (append_assoc starts (length out ∷ []) _) in
    rw
      (
        write_all-append w (behind b' ' (w' ∷ ws)) (between out starts),
        write_all_open w out starts l h,
      )
      (next
        ∙ ap
            (λ o.
              within o
                ((starts ++ length out ∷ []) ++ offsets (length ((out ++ w) ++ 0 ∷ [])) w' ws))
            texts
        ∙ ap (λ s. within (out ++ (w ++ behind 0 (w' ∷ ws))) s) places)

-- The strings at the addresses are the words.
abbrev pub AreArgs : Memory → List ℕ → List (List ℕ) → Type 0
AreArgs m [] [] = Unit
AreArgs m [] (w ∷ ws) = ⊥
AreArgs m (a ∷ addrs) [] = ⊥
AreArgs m (a ∷ addrs) (w ∷ ws) = HasString m a w × AreArgs m addrs ws

IsPlain-IsText : (w : List ℕ) → IsPlain w → IsText w
IsPlain-IsText [] h = tt
IsPlain-IsText (c ∷ w) h = (h.0, IsPlain-IsText w h.4)

behind_head : (ws : List (List ℕ)) → get_or (behind 0 ws) 0 0 ≡ 0
behind_head [] = refl
behind_head (w ∷ ws) = refl

get_or_before :
    (xs ys : List ℕ) (i : ℕ)
    → i ≤ length xs
    → get_or ys 0 0 ≡ 0
    → get_or (xs ++ ys) i 0 ≡ get_or xs i 0
get_or_before [] ys zero l h = h
get_or_before [] ys (suc i) l h = absurd (omega arith)
get_or_before (x ∷ xs) ys zero l h = refl
get_or_before (x ∷ xs) ys (suc i) l h = get_or_before xs ys i (omega arith) h

get_or_beyond :
    (xs : List ℕ) (y : ℕ) (ys : List ℕ) (i : ℕ)
    → get_or (xs ++ y ∷ ys) (length xs + 1 + i) 0 ≡ get_or ys i 0
get_or_beyond [] y ys i = let e : 0 + 1 + i ≡ suc i = omega arith in rw e refl
get_or_beyond (x ∷ xs) y ys i =
    let e : suc (length xs) + 1 + i ≡ suc (length xs + 1 + i) = omega arith in
    rw e (get_or_beyond xs y ys i)

module _ (m : Memory) (arg : ℕ) where
  word-HasString :
      (n : ℕ) (w : List ℕ) (ws : List (List ℕ))
      → IsPlain w
      → ((i : ℕ) → i ≤ length (w ++ behind 0 ws) → m (arg + n + i) ≡ get_or (w ++ behind 0 ws) i 0)
      → HasString m (arg + n) w
  word-HasString n w ws p h = HasString-intro m (arg + n) w (IsPlain-IsText w p) (λ i l.
      h i (omega (arith, length-append w (behind 0 ws)))
      ∙ get_or_before w (behind 0 ws) i l (behind_head ws))

  words-AreArgs :
      (n : ℕ) (w : List ℕ) (ws : List (List ℕ))
      → ArePlain (w ∷ ws)
      → ((i : ℕ) → i ≤ length (w ++ behind 0 ws) → m (arg + n + i) ≡ get_or (w ++ behind 0 ws) i 0)
      → AreArgs m (addresses arg (offsets n w ws)) (w ∷ ws)
  words-AreArgs n w [] (l, p, ps) h = (word-HasString n w [] p h, tt)
  words-AreArgs n w (w' ∷ ws) (l, p, ps) h = (
    word-HasString n w (w' ∷ ws) p h,
    words-AreArgs (n + length w + 1) w' ws ps (λ i k.
        let far : arg + (n + length w + 1) + i ≡ arg + n + (length w + 1 + i) = omega arith in
        let at = h (length w + 1 + i) (omega (arith, length-append w (behind 0 (w' ∷ ws)))) in
        ap m far ∙ at ∙ get_or_beyond w 0 (w' ++ behind 0 ws) i),
  )

length-behind : (b c : ℕ) (ws : List (List ℕ)) → length (behind b ws) ≡ length (behind c ws)
length-behind b c [] = refl
length-behind b c (w ∷ ws) =
    omega
      (arith, length-append w (behind b ws), length-append w (behind c ws), length-behind b c ws)

-- What `__main` gets of a command line whose quotes are balanced
split_args-written :
    (m : Memory) (arg : ℕ) (cs : List ℕ)
    → HasString m arg cs
    → (write_all cs written_start).in_quotes ≡ false
    → split_args m arg (length cs)
      ≡ some (
        (build_loop (length cs) (build_start m arg)).mem,
        addresses arg (write_all cs written_start).starts,
      )
unfolding split_args
split_args-written m arg cs h q =
    let built = build_loop-written m arg cs h in
    rw (count_loop-written m arg cs h ∙ q, built.argv_at) refl

-- A command line of words that single spaces separate is cut into just these words, each a string
-- of its own.
pub split_args_words :
    (m : Memory) (arg : ℕ) (w : List ℕ) (ws : List (List ℕ))
    → ArePlain (w ∷ ws)
    → HasString m arg (w ++ behind b' ' ws)
    → (m' : Memory) × (addrs : List ℕ) × (split_args m arg (length (w ++ behind b' ' ws))
        ≡ some (m', addrs))
      × AreArgs m' addrs (w ∷ ws)
split_args_words m arg w ws plain h =
    let cs = w ++ behind b' ' ws in
    let out = w ++ behind 0 ws in
    let built = build_loop-written m arg cs h in
    let written : write_all cs written_start ≡ within out (offsets 0 w ws) =
      write_all_words w ws [] [] plain in
    let whole : length cs ≡ length out = omega (
      arith,
      length-append w (behind b' ' ws),
      length-append w (behind 0 ws),
      length-behind b' ' 0 ws,
    ) in
    let m' = (build_loop (length cs) (build_start m arg)).mem in
    let parts : Same m arg (build_loop (length cs) (build_start m arg))
        (within out (offsets 0 w ws)) =
      subst (λ t. Same m arg (build_loop (length cs) (build_start m arg)) t) written built in
    let bytes : (i : ℕ) → i ≤ length out → m' (arg + 0 + i) ≡ get_or out i 0 = λ i l.
      elim (Bool-cases (ltb i (length out))) [
        | inl e ↦ ap m' (omega arith) ∙ parts.stored i (ltb→lt i (length out) e)
        | inr e ↦
            let here : arg + 0 + i ≡ arg + length cs = ground arith in
            ap m' here
            ∙ parts.kept (arg + length cs) (inr (omega arith))
            ∙ HasString-byte m arg cs (length cs) h (omega arith)
            ∙ get_or_past cs (length cs) (omega arith)
            ∙ sym (get_or_past out i (ground arith))
      ] in
    (
      m',
      addresses arg (offsets 0 w ws),
      split_args-written m arg cs h (ap (λ (t : Written). t.in_quotes) written)
          ∙ ap (λ (t : Written). some (m', addresses arg t.starts)) written,
      words-AreArgs m' arg 0 w ws plain (λ i l. bytes i l),
    )

-- No terminator is written behind the last argument. Where the passes have taken characters away,
-- as quotes or a second space, the text that stood there goes on as part of the last argument:
-- behind what is written stands a character of the command line that is not 0.
split_args_tail :
    (m : Memory) (arg : ℕ) (cs : List ℕ)
    → HasString m arg cs
    → (write_all cs written_start).in_quotes ≡ false
    → length (write_all cs written_start).out < length cs
    → (m' : Memory) × (split_args m arg (length cs)
        ≡ some (m', addresses arg (write_all cs written_start).starts))
      × (m' (arg + length (write_all cs written_start).out)
          ≡ get_or cs (length (write_all cs written_start).out) 0)
      × (m' (arg + length (write_all cs written_start).out) ≢ 0)
split_args_tail m arg cs h q l =
    let built = build_loop-written m arg cs h in
    let n = length (write_all cs written_start).out in
    let kept = built.kept (arg + n) (inr (omega arith)) in
    let byte = HasString-byte m arg cs n h (omega arith) in
    (
      (build_loop (length cs) (build_start m arg)).mem,
      split_args-written m arg cs h q,
      kept ∙ byte,
      λ z. HasString-nonzero m arg cs n h l (sym kept ∙ z),
    )
