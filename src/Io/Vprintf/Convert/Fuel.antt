-- ===== src/Io/Vprintf/Convert/Fuel.antt =====
-- The loop over the format ends: each turn takes at least one character.
use riscos64_simple_binaries.Base.{
  ℕ, zero, suc, refl, ap, inl, inr, List, [], arith, Bool-cases, length, ◌≤◌, ◌<◌, ◌≡◌, ◌∷◌, ◌==◌,
}
use riscos64_simple_binaries.Io.Vprintf.{Arg}
use riscos64_simple_binaries.Io.Vprintf.Scanned.{length-scan}
use riscos64_simple_binaries.Io.Vprintf.Convert.{
  OutputterOf, behind_plain, at_break, vprintf_loop, vprintf, both, write_plain, plain,
}

length-behind : (f : List ℕ) → length (behind_plain f) ≤ length f
unfolding behind_plain
length-behind [] = omega arith
length-behind (c ∷ cs) = ground (arith, length-behind cs)

module _ {W : Type 0} (out : OutputterOf W) where
  length-break :
      (f : List ℕ) (args : List Arg) → 0 < length f → length (at_break out f args).1 < length f
  unfolding at_break
  length-break [] args l = absurd (omega arith)
  length-break (c ∷ cs) args l = elim (Bool-cases (c == 10)) [
    | inl e ↦ rw e (omega arith)
    | inr e ↦ let k = length-scan cs args in rw e (omega arith)
  ]

  break_below :
      (f : List ℕ) (args : List Arg) (n : ℕ) → length f ≤ suc n → length (at_break out f args).1 ≤ n
  unfolding at_break
  break_below [] args n l = omega arith
  break_below (c ∷ cs) args n l = let k = length-break (c ∷ cs) args (omega arith) in omega arith

  turn :
      (c : ℕ) (cs : List ℕ) (args : List Arg)
      → length (at_break out (behind_plain (c ∷ cs)) args).1 ≤ length cs
  turn c cs args =
      break_below (behind_plain (c ∷ cs)) args (length cs)
        (let k = length-behind (c ∷ cs) in omega arith)

  fuel_lem :
      (n k : ℕ) (f : List ℕ) (args : List Arg)
      → length f ≤ n
      → length f ≤ k
      → vprintf_loop out n f args ≡ vprintf_loop out k f args
  unfolding vprintf_loop
  fuel_lem zero zero f args l m = refl
  fuel_lem zero (suc k) [] args l m = refl
  fuel_lem zero (suc k) (c ∷ cs) args l m = absurd (omega arith)
  fuel_lem (suc n) zero [] args l m = refl
  fuel_lem (suc n) zero (c ∷ cs) args l m = absurd (omega arith)
  fuel_lem (suc n) (suc k) [] args l m = refl
  fuel_lem (suc n) (suc k) (c ∷ cs) args l m =
      let (write, f', args') = at_break out (behind_plain (c ∷ cs)) args in
      let rest =
        fuel_lem n k f' args' (omega (arith, turn c cs args)) (omega (arith, turn c cs args)) in
      ap (λ r. both out (write_plain out (plain (c ∷ cs))) (both out write r)) rest

  -- The loop of `_vprintf` ends: with more turns than the format has characters it prints the same.
  pub vprintf-loop :
      (fuel : ℕ) (f : List ℕ) (args : List Arg)
      → length f ≤ fuel
      → vprintf_loop out fuel f args ≡ vprintf out f args
  unfolding vprintf
  vprintf-loop fuel f args l = fuel_lem fuel (length f) f args l (omega arith)
