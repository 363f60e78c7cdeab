-- ===== src/Str/Break/Laws.antt =====
-- What strpbrk finds, and what it gives when nothing is there.
use riscos64_simple_binaries.Base.{
  ℕ, zero, suc, refl, sym, ap, subst, inl, inr, Bool, true, false, Option, none, some, List, [],
  arith, ltb, Bool-cases, length, ◌+◌, ◌/◌, ◌%◌, ◌<◌, ◌≡◌, ◌∙◌, ◌≢◌, ◌⊎◌, ◌&&◌, ◌||◌, ◌∷◌, ◌==◌,
  if◌then◌else◌,
}
use riscos64_simple_binaries.Memory.{Memory}
use riscos64_simple_binaries.Memory.Text.{HasString, IsText, HasString-IsText}
use riscos64_simple_binaries.Str.{strchr, strchr_loop}
use riscos64_simple_binaries.Str.Span.{member, or_false}
use riscos64_simple_binaries.Str.Break.{
  Table, strpbrk, two_loop, table_loop, fill_table, add_term, in_table, terminator_only,
}

-- The place of the first character of a text at `s` that `stops`, or `missing` of the place of its
-- terminator.
abbrev pub first_at : (ℕ → Bool) → (ℕ → Option ℕ) → ℕ → List ℕ → Option ℕ
first_at stops missing s [] = missing s
first_at stops missing s (c ∷ cs) = if stops c then some s else first_at stops missing (s + 1) cs

-- Every character is a byte.
abbrev pub AllBytes : List ℕ → Type 0
AllBytes [] = Unit {0}
AllBytes (c ∷ cs) = (c < 256) × AllBytes cs

-- The low six bits of every character are below 32.
abbrev pub AllLow : List ℕ → Type 0
AllLow [] = Unit {0}
AllLow (c ∷ cs) = (c % 64 < 32) × AllLow cs

strchr_loop-first_at :
    (fuel : ℕ) (m : Memory) (s x : ℕ) (cs : List ℕ)
    → HasString m s cs
    → length cs < fuel
    → x ≢ 0
    → strchr_loop fuel m s x ≡ some (first_at (λ c. c == x) (λ e. none) s cs)
unfolding strchr_loop
strchr_loop-first_at zero m s x cs h l ne = absurd (omega arith)
strchr_loop-first_at (suc fuel) m s x [] h l ne =
    let z : (0 == x) ≡ false = ground arith in rw h (rw z refl)
strchr_loop-first_at (suc fuel) m s x (c ∷ cs) h l ne =
    let z : (c == 0) ≡ false = ground (arith, h.1) in
    rw (h.0, z)
      (elim (Bool-cases (c == x)) [
        | inl e ↦ rw e refl
        | inr e ↦ rw e (strchr_loop-first_at fuel m (s + 1) x cs h.2 (omega arith) ne)
      ])

strchr-first_at :
    (fuel : ℕ) (m : Memory) (s x : ℕ) (cs : List ℕ)
    → HasString m s cs
    → length cs < fuel
    → x < 256
    → x ≢ 0
    → strchr fuel m s x ≡ some (first_at (λ c. c == x) (λ e. none) s cs)
unfolding strchr
strchr-first_at fuel m s x cs h l b ne =
    let e : x % 256 ≡ x = omega arith in
    ap (strchr_loop fuel m s) e ∙ strchr_loop-first_at fuel m s x cs h l ne

two_loop-first_at :
    (fuel : ℕ) (m : Memory) (s x y : ℕ) (cs : List ℕ)
    → HasString m s cs
    → length cs < fuel
    → two_loop fuel m s x y ≡ some (first_at (λ c. (c == x) || (c == y)) (λ e. none) s cs)
unfolding two_loop
two_loop-first_at zero m s x y cs h l = absurd (omega arith)
two_loop-first_at (suc fuel) m s x y [] h l = rw h refl
two_loop-first_at (suc fuel) m s x y (c ∷ cs) h l =
    let z : (c == 0) ≡ false = ground (arith, h.1) in
    rw (h.0, z)
      (elim (Bool-cases ((c == x) || (c == y))) [
        | inl e ↦ rw e refl
        | inr e ↦ rw e (two_loop-first_at fuel m (s + 1) x y cs h.2 (omega arith))
      ])

table_loop-first_at :
    (fuel : ℕ) (m : Memory) (s : ℕ) (terms : Table) (cs : List ℕ)
    → HasString m s cs
    → length cs < fuel
    → in_table terms 0 ≡ true
    → table_loop fuel m s terms ≡ some (first_at (in_table terms) some s cs)
unfolding table_loop
table_loop-first_at zero m s terms cs h l t = absurd (omega arith)
table_loop-first_at (suc fuel) m s terms [] h l t = rw (h, t) refl
table_loop-first_at (suc fuel) m s terms (c ∷ cs) h l t =
    rw (h.0) (elim (Bool-cases (in_table terms c)) [
      | inl e ↦ rw e refl
      | inr e ↦ rw e (table_loop-first_at fuel m (s + 1) terms cs h.2 (omega arith) t)
    ])

first_at-same :
    (f g : ℕ → Bool) (missing : ℕ → Option ℕ) (s : ℕ) (cs : List ℕ)
    → ((c : ℕ) → f c ≡ g c)
    → first_at f missing s cs ≡ first_at g missing s cs
first_at-same f g missing s [] h = refl
first_at-same f g missing s (c ∷ cs) h = rw (h c, first_at-same f g missing (s + 1) cs h) refl

-- Behind a text the terminator counts for nothing.
first_at-text :
    (f : ℕ → Bool) (missing : ℕ → Option ℕ) (s : ℕ) (cs : List ℕ)
    → IsText cs
    → first_at (λ c. (c == 0) || f c) missing s cs ≡ first_at f missing s cs
first_at-text f missing s [] t = refl
first_at-text f missing s (c ∷ cs) t =
    let z : (c == 0) ≡ false = ground (arith, t.0) in
    rw (z, first_at-text f missing (s + 1) cs t.1) refl

first_at-never : (s : ℕ) (cs : List ℕ) → first_at (λ c. false) (λ e. none) s cs ≡ none
first_at-never s [] = refl
first_at-never s (c ∷ cs) = first_at-never (s + 1) cs

or_assoc : (a b c : Bool) → ((a || b) || c) ≡ (a || (b || c))
or_assoc true b c = refl
or_assoc false b c = refl

in_table-terminator_only : (c : ℕ) → in_table terminator_only c ≡ (c == 0)
in_table-terminator_only c = ground arith

module _ (shifted : ℕ → ℕ → Bool) (shifts : (n k : ℕ) → n < 32 → shifted n k ≡ (k == n)) where
  -- A character with low bits below 32 adds itself to the table, and nothing else.
  in_table-add_term :
      (terms : Table) (x c : ℕ)
      → x % 64 < 32
      → in_table (add_term shifted terms x) c ≡ (in_table terms c || (c == x))
  in_table-add_term terms x c l =
      rw (shifts (x % 64) (c % 64) l) (ap (λ b. in_table terms c || b) same)
    where
      same : ((c / 64 == x / 64) && (c % 64 == x % 64)) ≡ (c == x)
      same = ground arith

  fill_table_lem :
      (fuel : ℕ) (m : Memory) (charset : ℕ) (terms : Table) (set : List ℕ)
      → HasString m charset set
      → length set < fuel
      → AllLow set
      → (t : Table) × (fill_table shifted fuel m charset terms ≡ some t)
        × ((c : ℕ) → in_table t c ≡ (in_table terms c || member c set))
  unfolding fill_table
  fill_table_lem zero m charset terms set h l a = absurd (omega arith)
  fill_table_lem (suc fuel) m charset terms [] h l a =
      rw h (terms, refl, λ c. sym (or_false (in_table terms c)))
  fill_table_lem (suc fuel) m charset terms (x ∷ set) h l a =
      let z : (x == 0) ≡ false = ground (arith, h.1) in
      let (t, e, k) =
        fill_table_lem fuel m (charset + 1) (add_term shifted terms x) set h.2 (omega arith) a.1 in
      rw (h.0, z)
        (
          t,
          e,
          λ c.
              k c
              ∙ ap (λ b. b || member c set) (in_table-add_term terms x c a.0)
              ∙ or_assoc (in_table terms c) (c == x) (member c set),
        )

  -- `strpbrk` finds the first character of the string that belongs to the set, where the set has at
  -- most two characters, or the low six bits of each of its characters are below 32. Where there is none, it returns NULL for
  -- a set of at most two characters, but for a larger one the address of the terminator. `1u << n`
  -- is taken to be defined below 32.
  pub strpbrk-first_at :
      (fuel : ℕ) (m : Memory) (s charset : ℕ) (cs set : List ℕ)
      → HasString m s cs
      → HasString m charset set
      → length cs < fuel
      → length set < fuel
      → AllBytes set
      → (length set < 3) ⊎ AllLow set
      → strpbrk shifted fuel m s charset
        ≡ some
            (first_at (λ c. member c set) (if ltb (length set) 3 then (λ e. none) else some) s cs)
  unfolding strpbrk
  strpbrk-first_at fuel m s charset cs [] h k l l' b low =
      rw k (ap some (sym (first_at-never s cs)))
  strpbrk-first_at fuel m s charset cs (x ∷ []) h k l l' b low =
      let z : (x == 0) ≡ false = ground (arith, k.1) in
      rw (k.0, z, k.2)
        (strchr-first_at fuel m s x cs h l b.0 k.1
          ∙ (ap some (first_at-same _ _ _ s cs (λ c. sym (or_false (c == x))))))
  strpbrk-first_at fuel m s charset cs (x ∷ y ∷ []) h k l l' b low =
      let z : (x == 0) ≡ false = ground (arith, k.1) in
      let z' : (y == 0) ≡ false = ground (arith, k.2.1) in
      let ended : m (charset + 2) ≡ 0 = subst (λ a. m a ≡ 0) (omega arith) k.2.2 in
      rw (k.0, z, k.2.0, z', ended)
        (rw (two_loop-first_at fuel m s x y cs h l) (
          ap some
            (first_at-same _ _ _ s cs (λ c. ap (λ t. (c == x) || t) (sym (or_false (c == y)))))))
  strpbrk-first_at fuel m s charset cs (x ∷ y ∷ w ∷ set) h k l l' b (inl few) = absurd (omega arith)
  strpbrk-first_at fuel m s charset cs (x ∷ y ∷ w ∷ set) h k l l' b (inr low) =
      let z : (x == 0) ≡ false = ground (arith, k.1) in
      let z' : (y == 0) ≡ false = ground (arith, k.2.1) in
      let third : m (charset + 2) ≡ w = subst (λ a. m a ≡ w) (omega arith) k.2.2.0 in
      let z'' : (w == 0) ≡ false = ground (arith, k.2.2.1) in
      let (t, e, q) = fill_table_lem fuel m charset terminator_only (x ∷ y ∷ w ∷ set) k l' low in
      let large : ltb (length (x ∷ y ∷ w ∷ set)) 3 ≡ false = ground arith in
      rw (e, k.0, z, k.2.0, z', third, z'', large)
        (table_loop-first_at fuel m s t cs h l
            (q 0 ∙ ap (λ b. b || member 0 (x ∷ y ∷ w ∷ set)) (in_table-terminator_only 0))
          ∙ ap some (
              first_at-same _ (λ c. (c == 0) || member c (x ∷ y ∷ w ∷ set)) some s cs
                (λ c. q c ∙ ap (λ b. b || member c (x ∷ y ∷ w ∷ set)) (in_table-terminator_only c))
              ∙ first_at-text _ some s cs (HasString-IsText m s cs h)))
