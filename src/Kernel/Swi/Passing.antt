-- ===== src/Kernel/Swi/Passing.antt =====
-- Which argument of a variadic SWI call belongs to which register.
use native.Mathlib.Nat.{add-zero, zero-add}
use riscos64_simple_binaries.Base.{
  ℕ, zero, suc, refl, sym, ap, subst, inl, inr, Bool, true, Option, none, some, List, [], arith,
  ==_self, Bool-cases, length, get_or, ◌+◌, ◌-◌, ◌%◌, ◌^◌, ◌<◌, ◌≡◌, ◌∙◌, ◌≢◌, ◌∷◌, ◌++◌,
  if◌then◌else◌,
}
use riscos64_simple_binaries.Kernel.Swi.{
  Regs, has_bit, next_arg, in_reg, in_regs, out_reg, out_regs, Kernel, zero_regs,
}

-- How many of the bits from `n`, `left` of them, are set.
abbrev pub count : (ℕ → Bool) → ℕ → ℕ → ℕ
count b n zero = 0
count b n (suc left) = (if b n then 1 else 0) + count b (n + 1) left

-- The `i`-th argument, 0 if it is missing
abbrev pub arg : List ℕ → ℕ → ℕ
arg args i = get_or args i 0

arg-next_arg : (args : List ℕ) (i : ℕ) → arg (next_arg args).1 i ≡ arg args (suc i)
arg-next_arg [] i = refl
arg-next_arg (x ∷ args) i = refl

next_arg-arg : (args : List ℕ) → (next_arg args).0 ≡ arg args 0
next_arg-arg [] = refl
next_arg-arg (x ∷ args) = refl

module _ (flags : ℕ) where
  in_reg-rest :
      (n : ℕ) (s : Regs × List ℕ) (i : ℕ)
      → arg (in_reg flags n s).1 i ≡ arg s.1 ((if has_bit flags n then 1 else 0) + i)
  unfolding in_reg
  in_reg-rest n (r, args) i = elim (Bool-cases (has_bit flags n)) [
    | inl e ↦ rw e (arg-next_arg args i ∙ ap (arg args) (omega arith))
    | inr e ↦ rw e (ap (arg args) (omega arith))
  ]

  pub in_regs-rest :
      (left n : ℕ) (s : Regs × List ℕ) (i : ℕ)
      → arg (in_regs left n flags s).1 i ≡ arg s.1 (count (has_bit flags) n left + i)
  unfolding in_regs
  in_regs-rest zero n s i = ap (arg s.1) (omega arith)
  in_regs-rest (suc left) n s i =
      in_regs-rest left (n + 1) (in_reg flags n s) i
      ∙ in_reg-rest n s (count (has_bit flags) (n + 1) left + i)
      ∙ ap (arg s.1) (omega arith)

  in_reg-at :
      (n : ℕ) (s : Regs × List ℕ)
      → (in_reg flags n s).0 n ≡ (if has_bit flags n then arg s.1 0 % 2 ^ 32 else s.0 n)
  unfolding in_reg
  in_reg-at n (r, args) = elim (Bool-cases (has_bit flags n)) [
    | inl e ↦ rw e (rw ==_self (ap (λ a. a % 2 ^ 32) (next_arg-arg args)))
    | inr e ↦ rw e refl
  ]

  in_reg-other : (n : ℕ) (s : Regs × List ℕ) (k : ℕ) → k ≢ n → (in_reg flags n s).0 k ≡ s.0 k
  unfolding in_reg
  in_reg-other n (r, args) k ne = ground arith

  in_regs-below :
      (left n : ℕ) (s : Regs × List ℕ) (k : ℕ) → k < n → (in_regs left n flags s).0 k ≡ s.0 k
  unfolding in_regs
  in_regs-below zero n s k l = refl
  in_regs-below (suc left) n s k l =
      in_regs-below left (n + 1) (in_reg flags n s) k (omega arith)
      ∙ in_reg-other n s k (λ e. absurd (omega arith))

  in_regs-within :
      (left n : ℕ) (s : Regs × List ℕ) (j : ℕ)
      → j < left
      → (in_regs left n flags s).0 (n + j) ≡ (
          if has_bit flags (n + j)
          then arg s.1 (count (has_bit flags) n j) % 2 ^ 32
          else s.0 (n + j))
  unfolding in_regs
  in_regs-within zero n s j l = absurd (omega arith)
  in_regs-within (suc left) n s zero l =
      rw (add-zero n)
        (in_regs-below left (n + 1) (in_reg flags n s) n (omega arith) ∙ in_reg-at n s)
  in_regs-within (suc left) n s (suc j) l =
      let e : n + suc j ≡ n + 1 + j = omega arith in
      rw e (
        in_regs-within left (n + 1) (in_reg flags n s) j (omega arith)
        ∙ rw
            (
              in_reg-rest n s (count (has_bit flags) (n + 1) j),
              in_reg-other n s (n + 1 + j) (λ f. absurd (omega arith)),
            )
            refl)

-- The `i`-th element
abbrev pub get_elem? {ℓ} : {A : Type ℓ} → List A → ℕ → Option A
get_elem? [] i = none
get_elem? (x ∷ xs) zero = some x
get_elem? (x ∷ xs) (suc i) = get_elem? xs i

get_elem?-within :
    {A : Type 0} (xs ys : List A) (i : ℕ) → i < length xs → get_elem? (xs ++ ys) i ≡ get_elem? xs i
get_elem?-within [] ys i l = absurd (omega arith)
get_elem?-within (x ∷ xs) ys zero l = refl
get_elem?-within (x ∷ xs) ys (suc i) l = get_elem?-within xs ys i (omega arith)

get_elem?-last : {A : Type 0} (xs : List A) (y : A) → get_elem? (xs ++ y ∷ []) (length xs) ≡ some y
get_elem?-last [] y = refl
get_elem?-last (x ∷ xs) y = get_elem?-last xs y

length-last : {A : Type 0} (xs : List A) (y : A) → length (xs ++ y ∷ []) ≡ length xs + 1
length-last [] y = refl
length-last (x ∷ xs) y = ap suc (length-last xs y) ∙ omega arith

module _ (flags : ℕ) (r : Regs) where
  -- Whether register `n` is stored.
  abbrev pub out_bit : ℕ → Bool
  out_bit n = has_bit flags (31 - n)

  out_reg-rest :
      (n : ℕ) (s : List (ℕ × ℕ) × List ℕ) (i : ℕ)
      → arg (out_reg flags r n s).1 i ≡ arg s.1 ((if out_bit n then 1 else 0) + i)
  unfolding out_reg
  out_reg-rest n (st, args) i = elim (Bool-cases (has_bit flags (31 - n))) [
    | inl e ↦ rw e (arg-next_arg args i ∙ ap (arg args) (omega arith))
    | inr e ↦ rw e (ap (arg args) (omega arith))
  ]

  out_reg-length :
      (n : ℕ) (s : List (ℕ × ℕ) × List ℕ)
      → length (out_reg flags r n s).0 ≡ length s.0 + (if out_bit n then 1 else 0)
  unfolding out_reg
  out_reg-length n (st, args) = elim (Bool-cases (has_bit flags (31 - n))) [
    | inl e ↦ rw e (length-last st _)
    | inr e ↦ rw e (omega arith)
  ]

  out_reg-before :
      (n : ℕ) (s : List (ℕ × ℕ) × List ℕ) (i : ℕ)
      → i < length s.0
      → get_elem? (out_reg flags r n s).0 i ≡ get_elem? s.0 i
  unfolding out_reg
  out_reg-before n (st, args) i l = elim (Bool-cases (has_bit flags (31 - n))) [
    | inl e ↦ rw e (get_elem?-within st _ i l)
    | inr e ↦ rw e refl
  ]

  out_reg-at :
      (n : ℕ) (s : List (ℕ × ℕ) × List ℕ)
      → out_bit n ≡ true
      → get_elem? (out_reg flags r n s).0 (length s.0) ≡ some (arg s.1 0, r n)
  unfolding out_reg
  out_reg-at n (st, args) e =
      rw e
        (get_elem?-last st ((next_arg args).0, r n) ∙ ap (λ p. some (p, r n)) (next_arg-arg args))

  pub out_regs-length :
      (left n : ℕ) (s : List (ℕ × ℕ) × List ℕ)
      → length (out_regs left n flags r s).0 ≡ length s.0 + count out_bit n left
  unfolding out_regs
  out_regs-length zero n s = omega arith
  out_regs-length (suc left) n s =
      out_regs-length left (n + 1) (out_reg flags r n s)
      ∙ ap (λ k. k + count out_bit (n + 1) left) (out_reg-length n s)
      ∙ omega arith

  out_regs-before :
      (left n : ℕ) (s : List (ℕ × ℕ) × List ℕ) (i : ℕ)
      → i < length s.0
      → get_elem? (out_regs left n flags r s).0 i ≡ get_elem? s.0 i
  unfolding out_regs
  out_regs-before zero n s i l = refl
  out_regs-before (suc left) n s i l =
      let k = out_reg-length n s in
      out_regs-before left (n + 1) (out_reg flags r n s) i (omega arith) ∙ out_reg-before n s i l

  pub out_regs-within :
      (left n : ℕ) (s : List (ℕ × ℕ) × List ℕ) (j : ℕ)
      → j < left
      → out_bit (n + j) ≡ true
      → get_elem? (out_regs left n flags r s).0 (length s.0 + count out_bit n j)
        ≡ some (arg s.1 (count out_bit n j), r (n + j))
  unfolding out_regs
  out_regs-within zero n s j l b = absurd (omega arith)
  out_regs-within (suc left) n s zero l b =
      let b' : out_bit n ≡ true = ap out_bit (sym (add-zero n)) ∙ b in
      let k = out_reg-length n s in
      rw (add-zero n, add-zero (length s.0))
        (out_regs-before left (n + 1) (out_reg flags r n s) (length s.0) (
            subst (λ t. length s.0 < t) (sym (k ∙ ap (λ t. length s.0 + (if t then 1 else 0)) b'))
              (omega arith))
          ∙ out_reg-at n s b')
  out_regs-within (suc left) n s (suc j) l b =
      let e : n + suc j ≡ n + 1 + j = omega arith in
      let k = out_reg-length n s in
      let c = count out_bit (n + 1) j in
      let one = (if out_bit n then 1 else 0) in
      let here : length s.0 + (one + c) ≡ length (out_reg flags r n s).0 + c = omega arith in
      rw (e, here)
        (out_regs-within left (n + 1) (out_reg flags r n s) j (omega arith) (ap out_bit (sym e) ∙ b)
          ∙ rw (out_reg-rest n s c) refl)

module _ {D : Type 0} (os : Kernel D) (behind : ℕ → ℕ) where
  -- The registers that a call passes to the SWI.
  abbrev pub passed : ℕ → List ℕ → Regs
  passed flags args = (in_regs 10 0 flags (zero_regs behind, args)).0

  -- Each of the registers 0 to 9 whose bit is set in the flags gets the low 32 bits of the argument
  -- whose place is the number of bits set below it, and the other ones get 0.
  pub passed_lem :
      (flags : ℕ) (args : List ℕ) (k : ℕ)
      → k < 10
      → passed flags args k
        ≡ (if has_bit flags k then arg args (count (has_bit flags) 0 k) % 2 ^ 32 else 0)
  passed_lem flags args k l =
      let at = in_regs-within flags 10 0 (zero_regs behind, args) k l in
      let z : zero_regs behind k ≡ 0 = ground arith in
      subst
        (λ i. passed flags args i ≡ (
          if has_bit flags i
          then arg args (count (has_bit flags) 0 k) % 2 ^ 32
          else zero_regs behind i))
        (zero-add k) at
      ∙ ap (λ v. if has_bit flags k then arg args (count (has_bit flags) 0 k) % 2 ^ 32 else v) z
