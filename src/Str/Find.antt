-- ===== src/Str/Find.antt =====
-- strchr, strrchr and strstr on strings that end.
use riscos64_simple_binaries.Base.{
  as_int_small, as_int, int_size, ◌^◌, ℕ, zero, suc, refl, sym, ap, inl, inr, true, false, Option,
  none, some, List, [], arith, Bool-cases, length, ℤ, pos, ◌+◌, ◌-◌, ◌%◌, ◌≤◌, ◌<◌, ◌≡◌, ◌∙◌, ◌≢◌,
  ◌↔◌, ◌⊎◌, ◌&&◌, ◌∷◌, ◌==◌, if◌then◌else◌,
}
use native.Mathlib.Nat.{add-zero}
use riscos64_simple_binaries.Memory.{Memory}
use riscos64_simple_binaries.Memory.Text.{HasString}
use riscos64_simple_binaries.Memory.Search.{memchr, Alike, memcmp-eq_zero_iff}
use riscos64_simple_binaries.Str.{
  sub_int, turns_of, strchr, strchr_loop, strrchr, strrchr_loop, strstr, strstr_loop, strncmp,
  is_zero,
}
use riscos64_simple_binaries.Str.Copy.{strlen_lem}
use riscos64_simple_binaries.Str.Compare.{strncmp-memcmp}

strchr_loop-memchr :
    (fuel : ℕ) (m : Memory) (s want : ℕ) (cs : List ℕ)
    → HasString m s cs
    → length cs < fuel
    → strchr_loop fuel m s want ≡ some (memchr m s want (suc (length cs)))
unfolding strchr_loop memchr
strchr_loop-memchr zero m s want cs h l = absurd (omega arith)
strchr_loop-memchr (suc fuel) m s want [] h l =
    rw h (elim (Bool-cases (0 == want)) [ inl e ↦ rw e refl | inr e ↦ rw e refl ])
strchr_loop-memchr (suc fuel) m s want (c ∷ cs) h l =
    let z : (c == 0) ≡ false = ground (arith, h.1) in
    rw (h.0, z)
      (elim (Bool-cases (c == want)) [
        | inl e ↦ rw e refl
        | inr e ↦ rw e (strchr_loop-memchr fuel m (s + 1) want cs h.2 (omega arith))
      ])

-- `strchr` is `memchr` over the string and its terminator, for the low byte of the character.
strchr-memchr :
    (fuel : ℕ) (m : Memory) (s want : ℕ) (cs : List ℕ)
    → HasString m s cs
    → length cs < fuel
    → strchr fuel m s want ≡ some (memchr m s (want % 256) (suc (length cs)))
unfolding strchr
strchr-memchr fuel m s want cs h l = strchr_loop-memchr fuel m s (want % 256) cs h l

-- `r` is the last place of `want` in the `n` bytes at `s`, or `last` if there is none.
abbrev pub IsLast : Memory → ℕ → ℕ → ℕ → Option ℕ → Option ℕ → Type 0
IsLast m s want n last r =
    ((r ≡ last) × ((q : ℕ) → s ≤ q → q < s + n → m q ≢ want))
    ⊎ ((p : ℕ) × (r ≡ some p)
        × (s ≤ p)
        × (p < s + n)
        × (m p ≡ want)
        × ((q : ℕ) → p < q → q < s + n → m q ≢ want))

IsLast-suc :
    (m : Memory) (s want n : ℕ) (last r : Option ℕ)
    → IsLast m (s + 1) want n (if m s == want then some s else last) r
    → IsLast m s want (suc n) last r
IsLast-suc m s want n last r (inl (e, clear)) = elim (Bool-cases (m s == want)) [
  | inl hit ↦ inr (
    s,
    e ∙ rw hit refl,
    omega arith,
    omega arith,
    ground arith,
    λ q k l. clear q (omega arith) (omega arith),
  )
  | inr miss ↦ inl (
    e ∙ rw miss refl,
    λ q k l. elim (Bool-cases (q == s)) [
      | inl here ↦ let e' : q ≡ s = ground arith in rw e' (ground arith)
      | inr behind ↦ clear q (ground arith) (omega arith)
    ],
  )
]
IsLast-suc m s want n last r (inr (p, e, k, l, at, clear)) =
    inr (p, e, omega arith, omega arith, at, λ q k' l'. clear q k' (omega arith))

strrchr_loop-IsLast :
    (fuel : ℕ) (m : Memory) (s want : ℕ) (last : Option ℕ) (cs : List ℕ)
    → HasString m s cs
    → length cs < fuel
    → (r : Option ℕ) × (strrchr_loop fuel m s want last ≡ some r)
      × IsLast m s want (suc (length cs)) last r
unfolding strrchr_loop
strrchr_loop-IsLast zero m s want last cs h l = absurd (omega arith)
strrchr_loop-IsLast (suc fuel) m s want last [] h l =
    let z : (m s == 0) ≡ true = ground arith in
    rw z (
      (if m s == want then some s else last),
      refl,
      IsLast-suc m s want 0 last _ (inl (refl, λ q k k'. absurd (omega arith))),
    )
strrchr_loop-IsLast (suc fuel) m s want last (c ∷ cs) h l =
    let z : (m s == 0) ≡ false = ground (arith, h.0, h.1) in
    let (r, e, last_is) =
      strrchr_loop-IsLast fuel m (s + 1) want (if m s == want then some s else last) cs h.2
        (omega arith) in
    rw z (r, e, IsLast-suc m s want (suc (length cs)) last r last_is)

-- `strrchr` returns the last occurrence of the low byte of the character in the string, its
-- terminator included, and NULL only if there is none.
pub strrchr-IsLast :
    (fuel : ℕ) (m : Memory) (s want : ℕ) (cs : List ℕ)
    → HasString m s cs
    → length cs < fuel
    → (r : Option ℕ) × (strrchr fuel m s want ≡ some r)
      × IsLast m s (want % 256) (suc (length cs)) none r
unfolding strrchr
strrchr-IsLast fuel m s want cs h l = strrchr_loop-IsLast fuel m s (want % 256) none cs h l

-- The first of `turns` places from `a` at which the `n` bytes at `b` stand, or there is none
abbrev pub IsFirstMatch : Memory → ℕ → ℕ → ℕ → ℕ → Option ℕ → Type 0
IsFirstMatch m a b n turns none = (q : ℕ) → a ≤ q → q < a + turns → ¬ Alike m q b n
IsFirstMatch m a b n turns (some p) =
    (a ≤ p) × (p < a + turns) × Alike m p b n × ((q : ℕ) → a ≤ q → q < p → ¬ Alike m q b n)

IsFirstMatch-suc :
    (m : Memory) (a b n turns : ℕ) (r : Option ℕ)
    → ¬ Alike m a b n
    → IsFirstMatch m (a + 1) b n turns r
    → IsFirstMatch m a b n (suc turns) r
IsFirstMatch-suc m a b n turns none miss h = λ q k l. elim (Bool-cases (q == a)) [
  | inl here ↦ let e : q ≡ a = ground arith in rw e miss
  | inr behind ↦ h q (ground arith) (omega arith)
]
IsFirstMatch-suc m a b n turns (some p) miss (k, l, at, h) = (
  omega arith,
  omega arith,
  at,
  λ q k' l'. elim (Bool-cases (q == a)) [
    | inl here ↦ let e : q ≡ a = ground arith in rw e miss
    | inr behind ↦ h q (ground arith) l'
  ],
)

is_zero_iff : (z : ℤ) → (is_zero z ≡ true) ↔ (z ≡ pos 0)
is_zero_iff z = ground arith

-- What the test in the loop decides
match_iff :
    (m : Memory) (a b y : ℕ) (ys : List ℕ)
    → HasString m b (y ∷ ys)
    → (((m a == m b) && is_zero (strncmp m a b (suc (length ys)))) ≡ true)
      ↔ Alike m a b (suc (length ys))
match_iff m a b y ys h =
    let bytes = strncmp-memcmp m a b (suc (length ys)) (y ∷ ys) h (omega arith) in
    let same = memcmp-eq_zero_iff m a b (suc (length ys)) in
    let zero_iff = is_zero_iff (strncmp m a b (suc (length ys))) in
    elim (Bool-cases (m a == m b)) [
      | inl e ↦ rw e (λ t. same.0 (sym bytes ∙ zero_iff.0 t), λ s. zero_iff.1 (bytes ∙ same.1 s))
      | inr e ↦ rw e (
        λ t. absurd (ground arith),
        λ s. absurd (ground (arith, s 0 (omega arith), add-zero a, add-zero b)),
      )
    ]

strstr_loop-IsFirstMatch :
    (turns : ℕ) (m : Memory) (a b y : ℕ) (ys : List ℕ)
    → HasString m b (y ∷ ys)
    → IsFirstMatch m a b (suc (length ys)) turns (strstr_loop turns m a b (suc (length ys)))
unfolding strstr_loop
strstr_loop-IsFirstMatch zero m a b y ys h = λ q k l. absurd (omega arith)
strstr_loop-IsFirstMatch (suc turns) m a b y ys h =
    let found = match_iff m a b y ys h in
    elim (Bool-cases ((m a == m b) && is_zero (strncmp m a b (suc (length ys))))) [
      | inl e ↦ rw e (omega arith, omega arith, found.0 e, λ q k l. absurd (omega arith))
      | inr e ↦ rw e (
          IsFirstMatch-suc m a b _ turns _ (λ s. absurd (ground (arith, found.1 s)))
            (strstr_loop-IsFirstMatch turns m (a + 1) b y ys h))
    ]

int_turns :
    (alen blen : ℕ)
    → alen < 2 ^ 31
    → blen < 2 ^ 31
    → turns_of (sub_int (as_int alen) (as_int blen)) ≡ alen + 1 - blen
int_turns alen blen h k = rw (as_int_small alen h, as_int_small blen k) (ground arith)

int_size_small : (n : ℕ) → n < 2 ^ 31 → int_size n ≡ n
int_size_small n h = ground arith

-- Where both strings are shorter than 2^31, `strstr` of a text that is not empty returns the first place in the string where it stands, and
-- NULL only if there is none.
pub strstr-IsFirstMatch :
    (fuel : ℕ) (m : Memory) (a b y : ℕ) (xs ys : List ℕ)
    → HasString m a xs
    → HasString m b (y ∷ ys)
    → length xs < fuel
    → length (y ∷ ys) < fuel
    → length xs < 2 ^ 31
    → length (y ∷ ys) < 2 ^ 31
    → (r : Option ℕ) × (strstr fuel m a b ≡ some r)
      × IsFirstMatch m a b (suc (length ys)) (length xs + 1 - suc (length ys)) r
unfolding strstr
strstr-IsFirstMatch fuel m a b y xs ys h k l l' ba bb =
    rw
      (
        strlen_lem fuel m b (y ∷ ys) k l',
        strlen_lem fuel m a xs h l,
        int_turns (length xs) (suc (length ys)) ba bb,
        int_size_small (suc (length ys)) bb,
      )
      (
        strstr_loop (length xs + 1 - suc (length ys)) m a b (suc (length ys)),
        refl,
        strstr_loop-IsFirstMatch (length xs + 1 - suc (length ys)) m a b y ys k,
      )

strstr_loop_empty :
    (m : Memory) (a b : ℕ) (xs : List ℕ)
    → HasString m a xs
    → m b ≡ 0
    → strstr_loop (suc (length xs)) m a b 0 ≡ some (a + length xs)
unfolding strstr_loop strncmp
strstr_loop_empty m a b [] h k = rw (h, k) (ap some (sym (add-zero a)))
strstr_loop_empty m a b (x ∷ xs) h k =
    let z : (m a == m b) ≡ false = ground (arith, h.0, h.1) in
    let e : a + 1 + length xs ≡ a + suc (length xs) = omega arith in
    rw z (strstr_loop_empty m (a + 1) b xs h.2 k ∙ ap some e)

-- An empty text is found at the end of the string, and not at its start.
strstr_empty :
    (fuel : ℕ) (m : Memory) (a b : ℕ) (xs : List ℕ)
    → HasString m a xs
    → HasString m b []
    → length xs < fuel
    → length xs < 2 ^ 31
    → strstr fuel m a b ≡ some (some (a + length xs))
unfolding strstr
strstr_empty fuel m a b xs h k l bound =
    let one : length xs + 1 - 0 ≡ suc (length xs) = omega arith in
    let turns = int_turns (length xs) 0 bound (omega arith) ∙ one in
    rw
      (
        strlen_lem fuel m b [] k (omega arith),
        strlen_lem fuel m a xs h l,
        turns,
        int_size_small 0 (omega arith),
      )
      (ap some (strstr_loop_empty m a b xs h k))
