-- ===== src/Str/Copy.antt =====
-- strlen, strcpy, strncpy, strcat and strncat on strings that end.
use riscos64_simple_binaries.Base.{
  ℕ, zero, suc, refl, ap, inl, inr, true, false, Option, none, some, List, [], arith, ltb, leb,
  Bool-cases, Option-cases, length, get_or, ◌+◌, ◌-◌, ◌%◌, ◌^◌, ◌<◌, ◌≡◌, ◌∙◌, ◌≢◌, ◌⊎◌, ◌&&◌, ◌∷◌,
  ◌==◌, if◌then◌else◌,
}
use riscos64_simple_binaries.Memory.{Memory, store}
use riscos64_simple_binaries.Memory.Text.{HasString, HasString-kept}
use riscos64_simple_binaries.Str.{
  str_end, strlen, copy_text, copy_counted, strcpy, strcat, strncat, strncpy,
}

-- The string of `n` characters at `dst` and that at `src` share no byte.
abbrev pub Apart : ℕ → ℕ → ℕ → Type 0
Apart dst src n = (dst + n < src) ⊎ (src + n < dst)

-- `m` and `m'` agree but for the string of `n` characters at `dst`.
abbrev pub AgreeBut : Memory → Memory → ℕ → ℕ → Type 0
AgreeBut m m' dst n = (a : ℕ) → (a < dst) ⊎ (dst + n < a) → m' a ≡ m a

str_end_lem :
    (fuel : ℕ) (m : Memory) (s : ℕ) (cs : List ℕ)
    → HasString m s cs
    → length cs < fuel
    → str_end fuel m s ≡ some (s + length cs + 1)
unfolding str_end
str_end_lem zero m s cs h l = absurd (omega arith)
str_end_lem (suc fuel) m s [] h l =
    let z : (m s == 0) ≡ true = ground arith in rw z (ap some (omega arith))
str_end_lem (suc fuel) m s (c ∷ cs) h l =
    let z : (m s == 0) ≡ false = ground (arith, h.0, h.1) in
    let e : s + 1 + length cs + 1 ≡ s + suc (length cs) + 1 = omega arith in
    rw z (str_end_lem fuel m (s + 1) cs h.2 (omega arith) ∙ ap some e)

-- `strlen` of a string that ends is the number of its characters, given fuel for them.
pub strlen_lem :
    (fuel : ℕ) (m : Memory) (s : ℕ) (cs : List ℕ)
    → HasString m s cs
    → length cs < fuel
    → strlen fuel m s ≡ some (length cs)
unfolding strlen
strlen_lem fuel m s cs h l =
    let e : s + length cs + 1 - s - 1 ≡ length cs = omega arith in
    rw (str_end_lem fuel m s cs h l, e)

stored_byte : (m : Memory) (p v : ℕ) → store m p v p ≡ v
stored_byte m p v = ground arith

-- The rest of the source is as it was after its first character has been copied.
rest-HasString :
    (m : Memory) (dst src c : ℕ) (cs : List ℕ)
    → HasString m (src + 1) cs
    → Apart dst src (suc (length cs))
    → HasString (store m dst c) (src + 1) cs
rest-HasString m dst src c cs h a =
    HasString-kept m (store m dst c) (src + 1) cs h (λ i l. ground arith)

abbrev Copied : Memory → ℕ → List ℕ → Option Memory → Type 0
Copied m dst cs none = ⊥
Copied m dst cs (some m') = HasString m' dst cs × AgreeBut m m' dst (length cs)

Copied-suc :
    (m : Memory) (dst c : ℕ) (cs : List ℕ) (r : Option Memory)
    → c ≢ 0
    → Copied (store m dst c) (dst + 1) cs r
    → Copied m dst (c ∷ cs) r
Copied-suc m dst c cs none ne h = h
Copied-suc m dst c cs (some m') ne (h, k) = (
  (k dst (inl (omega arith)) ∙ stored_byte m dst c, ne, h),
  λ a o. k a (ground arith) ∙ ground arith,
)

copy_text_lem :
    (fuel : ℕ) (m : Memory) (dst src : ℕ) (cs : List ℕ)
    → HasString m src cs
    → length cs < fuel
    → Apart dst src (length cs)
    → Copied m dst cs (copy_text fuel m dst src)
unfolding copy_text
copy_text_lem zero m dst src cs h l a = absurd (omega arith)
copy_text_lem (suc fuel) m dst src [] h l a =
    let z : (m src == 0) ≡ true = ground arith in
    rw z (stored_byte m dst (m src) ∙ h, λ b o. ground arith)
copy_text_lem (suc fuel) m dst src (c ∷ cs) h l a =
    let z : (m src == 0) ≡ false = ground (arith, h.0, h.1) in
    rw (z, h.0)
      (Copied-suc m dst c cs _ h.1 (
        copy_text_lem fuel (store m dst c) (dst + 1) (src + 1) cs
          (rest-HasString m dst src c cs h.2 a) (omega arith) (ground arith)))

-- A result of `Copied` is there.
Copied-result :
    (m : Memory) (dst : ℕ) (cs : List ℕ) (r : Option Memory)
    → Copied m dst cs r
    → (m' : Memory) × (r ≡ some m') × HasString m' dst cs × AgreeBut m m' dst (length cs)
Copied-result m dst cs none h = absurd h
Copied-result m dst cs (some m') h = (m', refl, h.0, h.1)

-- `strcpy` of a string to a place apart from it makes the same string there, and changes no byte
-- but those of the copy.
strcpy_lem :
    (fuel : ℕ) (m : Memory) (dst src : ℕ) (cs : List ℕ)
    → HasString m src cs
    → length cs < fuel
    → Apart dst src (length cs)
    → (m' : Memory) × (strcpy fuel m dst src ≡ some m')
      × HasString m' dst cs
      × AgreeBut m m' dst (length cs)
unfolding strcpy
strcpy_lem fuel m dst src cs h l a =
    Copied-result m dst cs (copy_text fuel m dst src) (copy_text_lem fuel m dst src cs h l a)

-- `strcat` does not join the strings: its first loop passes the terminator of the first string `a`,
-- so that the second is copied behind it. The string at `a` is the same afterwards, and a copy of
-- the second stands one byte past its terminator.
strcat_leaves :
    (fuel : ℕ) (m : Memory) (a b : ℕ) (xs ys : List ℕ)
    → HasString m a xs
    → HasString m b ys
    → length xs < fuel
    → length ys < fuel
    → Apart (a + length xs + 1) b (length ys)
    → (m' : Memory) × (strcat fuel m a b ≡ some m')
      × HasString m' a xs
      × HasString m' (a + length xs + 1) ys
unfolding strcat
strcat_leaves fuel m a b xs ys h k l l' p =
    let (m', e, copy, others) =
      Copied-result m (a + length xs + 1) ys (copy_text fuel m (a + length xs + 1) b)
        (copy_text_lem fuel m (a + length xs + 1) b ys k l' p) in
    rw (str_end_lem fuel m a xs h l)
      (m', e, HasString-kept m m' a xs h (λ i j. others (a + i) (inl (omega arith))), copy)

copy_counted-copy_text :
    (fuel : ℕ) (m : Memory) (dst src n : ℕ)
    → copy_counted fuel m dst src n ≡ copy_text fuel m dst src
unfolding copy_counted copy_text
copy_counted-copy_text zero m dst src n = refl
copy_counted-copy_text (suc fuel) m dst src n =
    let any : leb 0 ((n + 2 ^ 64 - 1) % 2 ^ 64) ≡ true = ground arith in
    rw (
      any,
      copy_counted-copy_text fuel (store m dst (m src)) (dst + 1) (src + 1)
          ((n + 2 ^ 64 - 1) % 2 ^ 64),
    )

-- The bound of `strncat` bounds nothing: `--n >= 0` holds for every `size_t`, and whatever `n` is it
-- does what `strcat` does.
strncat-strcat : (fuel : ℕ) (m : Memory) (a b n : ℕ) → strncat fuel m a b n ≡ strcat fuel m a b
unfolding strncat strcat
strncat-strcat fuel m a b n = elim (Option-cases (str_end fuel m a)) [
  | inl e ↦ rw e refl
  | inr (a', e) ↦ rw e (copy_counted-copy_text fuel m a' b n)
]

-- `strncpy` writes the characters of a text that is shorter than `n`, and one 0: the rest of the `n`
-- bytes keeps what it held. Of a text of `n` characters or more it writes `n`, and no 0.
pub strncpy_lem :
    (m : Memory) (dst src : ℕ) (cs : List ℕ) (n : ℕ)
    → HasString m src cs
    → Apart dst src (length cs)
    → (a : ℕ)
    → strncpy m dst src n a ≡ (
        if leb dst a && ltb a (dst + n) && leb a (dst + length cs)
        then get_or cs (a - dst) 0
        else m a)
unfolding strncpy
strncpy_lem m dst src cs zero h p a = ground arith
strncpy_lem m dst src [] (suc n) h p a =
    let z : (m src == 0) ≡ true = ground arith in rw z (ground arith)
strncpy_lem m dst src (c ∷ cs) (suc n) h p a =
    let z : (m src == 0) ≡ false = ground (arith, h.0, h.1) in
    let next =
      strncpy_lem (store m dst c) (dst + 1) (src + 1) cs n (rest-HasString m dst src c cs h.2 p)
        (ground arith) a in
    rw (z, h.0, next)
      (elim (Bool-cases (leb (dst + 1) a)) [
        | inl e ↦ let s : a - dst ≡ suc (a - (dst + 1)) = ground arith in rw s (ground arith)
        | inr e ↦ ground arith
      ])
