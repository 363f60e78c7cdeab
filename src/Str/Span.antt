-- ===== src/Str/Span.antt =====
-- strcspn and strspn on strings that end.
use riscos64_simple_binaries.Base.{
  ℕ, zero, suc, refl, sym, ap, subst, inl, inr, Bool, true, false, Option, some, List, [], arith,
  Bool-cases, length, ◌+◌, ◌<◌, ◌≡◌, ◌∙◌, ◌≢◌, ◌&&◌, ◌||◌, ◌∷◌, ◌==◌, if◌then◌else◌,
}
use riscos64_simple_binaries.Memory.{Memory}
use riscos64_simple_binaries.Memory.Text.{HasString}
use riscos64_simple_binaries.Str.{strcspn, strspn, count_until, in_charset, runs_out}
use riscos64_simple_binaries.Str.Copy.{strlen_lem}

abbrev pub member : ℕ → List ℕ → Bool
member c [] = false
member c (x ∷ xs) = (c == x) || member c xs

-- How many characters stand before the first that `stops`
abbrev pub until : (ℕ → Bool) → List ℕ → ℕ
until stops [] = 0
until stops (c ∷ cs) = if stops c then 0 else suc (until stops cs)

abbrev all_are : ℕ → List ℕ → Bool
all_are c [] = true
all_are c (x ∷ xs) = (x == c) && all_are c xs

count_until_lem :
    (fuel : ℕ) (m : Memory) (s : ℕ) (cs : List ℕ) (test : ℕ → Option Bool) (stops : ℕ → Bool)
    → HasString m s cs
    → length cs < fuel
    → ((c : ℕ) → test c ≡ some (stops c))
    → count_until fuel m s test ≡ some (until stops cs)
unfolding count_until
count_until_lem zero m s cs test stops h l t = absurd (omega arith)
count_until_lem (suc fuel) m s [] test stops h l t = rw h refl
count_until_lem (suc fuel) m s (c ∷ cs) test stops h l t =
    let z : (c == 0) ≡ false = ground (arith, h.1) in
    rw (h.0, z, t c, count_until_lem fuel m (s + 1) cs test stops h.2 (omega arith) t)
      (elim (Bool-cases (stops c)) [ inl e ↦ rw e refl | inr e ↦ rw e refl ])

in_charset-member :
    (fuel : ℕ) (m : Memory) (p c : ℕ) (set : List ℕ)
    → HasString m p set
    → length set < fuel
    → in_charset fuel m p c ≡ some (member c set)
unfolding in_charset
in_charset-member zero m p c set h l = absurd (omega arith)
in_charset-member (suc fuel) m p c [] h l = rw h refl
in_charset-member (suc fuel) m p c (x ∷ set) h l =
    let z : (x == 0) ≡ false = ground (arith, h.1) in
    let swap : (x == c) ≡ (c == x) = ground arith in
    rw (h.0, z, swap, in_charset-member fuel m (p + 1) c set h.2 (omega arith))
      (elim (Bool-cases (c == x)) [ inl e ↦ rw e refl | inr e ↦ rw e refl ])

until-none : (cs : List ℕ) → until (λ c. false) cs ≡ length cs
until-none [] = refl
until-none (c ∷ cs) = ap suc (until-none cs)

pub or_false : (b : Bool) → (b || false) ≡ b
or_false true = refl
or_false false = refl

-- All paths of `strcspn`, those for an empty set, for one and for two characters and the general one,
-- count the characters before the first that belongs to the set.
pub strcspn_lem :
    (fuel : ℕ) (m : Memory) (s charset : ℕ) (cs set : List ℕ)
    → HasString m s cs
    → HasString m charset set
    → length cs < fuel
    → length set < fuel
    → strcspn fuel m s charset ≡ some (until (λ c. member c set) cs)
unfolding strcspn
strcspn_lem fuel m s charset cs [] h k l l' =
    rw k (strlen_lem fuel m s cs h l ∙ ap some (sym (until-none cs)))
strcspn_lem fuel m s charset cs (x ∷ []) h k l l' =
    let z : (x == 0) ≡ false = ground (arith, k.1) in
    rw (k.0, z, k.2)
      (count_until_lem fuel m s cs _ (λ c. member c (x ∷ [])) h l
        (λ c. ap some (sym (or_false (c == x)))))
strcspn_lem fuel m s charset cs (x ∷ y ∷ []) h k l l' =
    let z : (x == 0) ≡ false = ground (arith, k.1) in
    let z' : (y == 0) ≡ false = ground (arith, k.2.1) in
    let ended : m (charset + 2) ≡ 0 = subst (λ a. m a ≡ 0) (omega arith) k.2.2 in
    rw (k.0, z, k.2.0, z', ended)
      (count_until_lem fuel m s cs _ (λ c. member c (x ∷ y ∷ [])) h l
        (λ c. ap (λ b. some ((c == x) || b)) (sym (or_false (c == y)))))
strcspn_lem fuel m s charset cs (x ∷ y ∷ w ∷ set) h k l l' =
    let z : (x == 0) ≡ false = ground (arith, k.1) in
    let z' : (y == 0) ≡ false = ground (arith, k.2.1) in
    let third : m (charset + 2) ≡ w = subst (λ a. m a ≡ w) (omega arith) k.2.2.0 in
    let z'' : (w == 0) ≡ false = ground (arith, k.2.2.1) in
    let test = λ (c : ℕ). in_charset-member fuel m charset c (x ∷ y ∷ w ∷ set) k l' in
    rw (k.0, z, k.2.0, z', third, z'')
      (count_until_lem fuel m s cs (in_charset fuel m charset) (λ c. member c (x ∷ y ∷ w ∷ set)) h l
        test)

runs_out-all_are :
    (fuel : ℕ) (m : Memory) (p c : ℕ) (set : List ℕ)
    → HasString m p set
    → length set < fuel
    → runs_out fuel m p c ≡ some (all_are c set)
unfolding runs_out
runs_out-all_are zero m p c set h l = absurd (omega arith)
runs_out-all_are (suc fuel) m p c [] h l = rw h refl
runs_out-all_are (suc fuel) m p c (x ∷ set) h l =
    let z : (x == 0) ≡ false = ground (arith, h.1) in
    rw (h.0, z, runs_out-all_are fuel m (p + 1) c set h.2 (omega arith))
      (elim (Bool-cases (x == c)) [ inl e ↦ rw e refl | inr e ↦ rw e refl ])

until_never :
    (stops : ℕ → Bool) (cs : List ℕ) → ((c : ℕ) → stops c ≡ false) → until stops cs ≡ length cs
until_never stops [] h = refl
until_never stops (c ∷ cs) h = rw (h c) (ap suc (until_never stops cs h))

-- `strspn` does not count the characters that belong to the set: its inner loop goes on over the
-- characters of the set that are the one at hand. With two different characters at the start of the
-- set that never comes to the end, and every character of the string is counted, also those
-- that are not in the set.
strspn_counts_all :
    (fuel : ℕ) (m : Memory) (s charset : ℕ) (cs set : List ℕ) (x y : ℕ)
    → HasString m s cs
    → HasString m charset (x ∷ y ∷ set)
    → x ≢ y
    → length cs < fuel
    → length (x ∷ y ∷ set) < fuel
    → strspn fuel m s charset ≡ some (length cs)
unfolding strspn
strspn_counts_all fuel m s charset cs set x y h k ne l l' =
    count_until_lem fuel m s cs (runs_out fuel m charset) (λ c. all_are c (x ∷ y ∷ set)) h l
      (λ c. runs_out-all_are fuel m charset c (x ∷ y ∷ set) k l')
    ∙ ap some (until_never (λ c. all_are c (x ∷ y ∷ set)) cs (λ c. ground arith))
