-- ===== src/Io/Sscanf/Laws.antt =====
-- Words behind spaces, and characters that have to match.
use riscos64_simple_binaries.Base.{
  ℕ, zero, suc, refl, ap, Bool, true, false, List, [], arith, ==_self, length, ◌≤◌, ◌≡◌, ◌≢◌, ◌∷◌,
  ◌++◌, ◌==◌,
}
use riscos64_simple_binaries.Io.Sscanf.{skip_space, take_word, unless_done, vsscanf}

-- "%s" for each of `n` words
abbrev formats : ℕ → List ℕ
formats zero = []
formats (suc n) = b'%' ∷ b's' ∷ formats n

-- Each word behind a space
abbrev spaced : List (List ℕ) → List ℕ
spaced [] = []
spaced (w ∷ ws) = b' ' ∷ (w ++ spaced ws)

module _ (isspace : ℕ → Bool) where
  abbrev HasNoSpace : List ℕ → Type 0
  HasNoSpace [] = Unit
  HasNoSpace (c ∷ cs) = (isspace c ≡ false) × HasNoSpace cs

  -- A word has a character, and no space.
  abbrev AreWords : List (List ℕ) → Type 0
  AreWords [] = Unit
  AreWords (w ∷ ws) = (1 ≤ length w) × HasNoSpace w × AreWords ws

  take_word-spaced :
      (w : List ℕ) (ws : List (List ℕ))
      → HasNoSpace w
      → isspace b' ' ≡ true
      → take_word isspace (w ++ spaced ws) ≡ (w, spaced ws)
  unfolding take_word
  take_word-spaced [] [] h sp = refl
  take_word-spaced [] (w ∷ ws) h sp = rw sp refl
  take_word-spaced (c ∷ w) ws (n, h) sp = rw (n, take_word-spaced w ws h sp) refl

  skip_space-spaced :
      (w rest : List ℕ)
      → 1 ≤ length w
      → HasNoSpace w
      → isspace b' ' ≡ true
      → skip_space isspace (b' ' ∷ (w ++ rest)) ≡ w ++ rest
  unfolding skip_space
  skip_space-spaced [] rest l h sp = absurd (omega arith)
  skip_space-spaced (c ∷ w) rest l (n, h) sp = rw (sp, n) refl

  -- A format of as many "%s" as there are words reads back the words that stand each behind a
  -- space, whatever else counts as a space.
  vsscanf-spaced :
      (ws : List (List ℕ))
      → isspace b' ' ≡ true
      → AreWords ws
      → vsscanf isspace (spaced ws) (formats (length ws)) ≡ ws
  unfolding vsscanf unless_done
  vsscanf-spaced [] sp h = refl
  vsscanf-spaced (w ∷ []) sp (l, h, hs) =
      rw (skip_space-spaced w [] l h sp, take_word-spaced w [] h sp) refl
  vsscanf-spaced (w ∷ w' ∷ ws) sp (l, h, hs) =
      rw (skip_space-spaced w (spaced (w' ∷ ws)) l h sp, take_word-spaced w (w' ∷ ws) h sp)
        (ap (λ t. w ∷ t) (vsscanf-spaced (w' ∷ ws) sp hs))

  -- A character of the format that is not a space or '%' has to be the next of the text, but is not taken
  -- off it: a "%s" behind it reads it again.
  vsscanf_stays :
      (x : ℕ) (str : List ℕ)
      → x ≢ b' '
      → x ≢ b'%'
      → vsscanf isspace (x ∷ str) (x ∷ b'%' ∷ b's' ∷ [])
        ≡ vsscanf isspace (x ∷ str) (b'%' ∷ b's' ∷ [])
  unfolding vsscanf
  vsscanf_stays x str ns np =
      let e : (x == b' ') ≡ false = ground arith in
      let e' : (x == b'%') ≡ false = ground arith in rw (e, e', ==_self x) refl
