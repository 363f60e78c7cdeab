-- ===== src/Cvt/Decimal/Laws.antt =====
-- The decimal print is the canonical one: exact, all digits, no leading zero, at most 20 characters.
use native.Mathlib.Nat.{pow-suc, div-add-mod}
use riscos64_simple_binaries.Base.{
  ℕ, zero, suc, refl, ap, inl, inr, true, false, List, [], arith, ltb, leb, ==_iff, Bool-cases,
  all_below, all_below_sound, length, get_or, ◌+◌, ◌-◌, ◌*◌, ◌/◌, ◌%◌, ◌^◌, ◌≤◌, ◌<◌, ◌≡◌, ◌∙◌, ◌≢◌,
  ◌∷◌, ◌==◌,
}
use riscos64_simple_binaries.Cvt.Decimal.{
  ints, subtract_loop, by_division, by_subtraction, decimal_loop, start_index, or_zero,
  cvt_uint64_decimal,
}

-- The number that decimal digits spell behind `n`.
abbrev pub spelled : ℕ → List ℕ → ℕ
spelled n [] = n
spelled n (c ∷ cs) = spelled (n * 10 + (c - b'0')) cs

abbrev pub AllDigits : List ℕ → Type 0
AllDigits [] = Unit {0}
AllDigits (c ∷ cs) = (b'0' ≤ c) × (c ≤ b'9') × AllDigits cs

-- No leading zero, except in "0" itself.
abbrev pub IsCanonical : List ℕ → Type 0
IsCanonical [] = ⊥
IsCanonical (c ∷ []) = Unit {0}
IsCanonical (c ∷ d ∷ cs) = c ≢ b'0'

ints_table : all_below 20 (λ i. get_or ints i 0 == 10 ^ i) ≡ true
unfolding all_below
ints_table = refl

get_or-ints : (i : ℕ) → i < 20 → get_or ints i 0 ≡ 10 ^ i
get_or-ints i h =
    (==_iff _ _).0 (all_below_sound 20 (λ j. get_or ints j 0 == 10 ^ j) i ints_table h)

pow_pos : (i : ℕ) → 0 < 10 ^ i
pow_pos zero = omega arith
pow_pos (suc i) = rw pow-suc (omega (arith, pow_pos i))

-- The loop divides: what it takes off is `m` for each step of the digit.
subtract_loop_lem :
    (fuel m digit value : ℕ)
    → 0 < m
    → value ≤ fuel
    → let (d, r) = subtract_loop fuel m digit value in
      (d * m + r ≡ digit * m + value) × (r < m) × (digit ≤ d)
unfolding subtract_loop
subtract_loop_lem zero m digit value h k = (omega arith, omega arith, omega arith)
subtract_loop_lem (suc fuel) m digit value h k =
    ground (arith, subtract_loop_lem fuel m (digit + 1) (value - m))

-- Quotient and remainder are determined by their equation.
div_mod_unique : (m q r v : ℕ) → r < m → q * m + r ≡ v → (q ≡ v / m) × (r ≡ v % m)
div_mod_unique m q r v h e = (grind arith, grind arith)

-- The two ways to compile a digit agree: counting subtractions gives the quotient and the remainder.
by_subtraction-eq-by_division :
    (m value : ℕ) → 0 < m → m ≤ value → by_subtraction m value ≡ by_division m value
unfolding by_subtraction by_division
by_subtraction-eq-by_division m value h k =
    let (d, r) = subtract_loop value m 1 (value - m) in
    let (e, l, _) = subtract_loop_lem value m 1 (value - m) h (omega arith) in
    ground (arith, div_mod_unique m d r value l (omega arith))

ten_pow : (i : ℕ) → 10 ^ suc i ≡ 10 * 10 ^ i
ten_pow i = rw pow-suc (omega arith)

-- The digit of a value below ten times its power of ten.
digit_le_nine : (m value : ℕ) → value < 10 * m → value / m ≤ 9
digit_le_nine m value l = grind arith

-- A digit in front of `k` digits.
digit_then :
    (q n k x w : ℕ) (text : List ℕ)
    → q ≤ 9
    → spelled (n * 10 + q) text ≡ x
    → AllDigits text
    → length text ≡ k
    → x ≡ w
    → (spelled n ((b'0' + q) ∷ text) ≡ w)
      × AllDigits ((b'0' + q) ∷ text)
      × (length ((b'0' + q) ∷ text) ≡ suc k)
digit_then q n k x w text h s d c e =
    let same : b'0' + q - b'0' ≡ q = omega arith in
    (rw same (s ∙ e), (omega arith, omega arith, d), omega arith)

-- Once a digit has been written, the loop writes exactly `k` digits, those of the value.
rest_lem :
    (k value n : ℕ)
    → k ≤ 20
    → value < 10 ^ k
    → let text = decimal_loop k value false in
      (spelled n text ≡ n * 10 ^ k + value) × AllDigits text × (length text ≡ k)
unfolding decimal_loop
rest_lem zero value n h l = (omega arith, tt, refl)
rest_lem (suc i) value n h l =
    let p = pow_pos i in
    let e = ten_pow i in
    let (s, d, c) =
      rest_lem i (value % 10 ^ i) (n * 10 + value / 10 ^ i) (omega arith) (omega arith) in
    let e' = ap (λ (t : ℕ). n * t) e in
    let nine = digit_le_nine (10 ^ i) value (omega arith) in
    let split = div-add-mod value (10 ^ i) in
    rw (get_or-ints i (omega arith)) (elim (Bool-cases (leb (10 ^ i) value)) [
      | inl hit ↦ rw hit (digit_then (value / 10 ^ i) n i _ _ _ nine s d c (omega arith))
      | inr miss ↦
          let (s', d', c') = rest_lem i value (n * 10 + 0) (omega arith) (ground arith) in
          rw miss (digit_then 0 n i _ _ _ (omega arith) s' d' c' (omega arith))
    ])

-- What the loop writes from its start: nothing for 0, else a text that starts with no zero.
abbrev StartsRight : ℕ → List ℕ → Type 0
StartsRight value [] = value ≡ 0
StartsRight value (c ∷ cs) = c ≢ b'0'

record Written (k value : ℕ) (text : List ℕ) : Type 0 where
  exact : spelled 0 text ≡ value
  all_digits : AllDigits text
  fits : length text ≤ k
  start : StartsRight value text

div_pos : (m value : ℕ) → 0 < m → m ≤ value → 0 < value / m
div_pos m value p h = grind arith

Written-hit :
    (i m value : ℕ) (text : List ℕ)
    → 0 < m
    → m ≤ value
    → value / m ≤ 9
    → spelled (0 * 10 + value / m) text ≡ (0 * 10 + value / m) * m + value % m
    → AllDigits text
    → length text ≡ i
    → Written (suc i) value ((b'0' + value / m) ∷ text)
Written-hit i m value text p h nine s d c =
    let (s', d', c') =
      digit_then (value / m) 0 i _ value text nine s d c (omega (arith, div-add-mod value m)) in
    record {
      exact = s';
      all_digits = d';
      fits = omega arith;
      start = omega (arith, div_pos m value p h);
    }

Written-more : {i value : ℕ} {text : List ℕ} → Written i value text → Written (suc i) value text
Written-more w = record {
  exact = w.exact;
  all_digits = w.all_digits;
  fits = omega arith;
  start = w.start;
}

first_lem : (k value : ℕ) → k ≤ 20 → value < 10 ^ k → Written k value (decimal_loop k value true)
unfolding decimal_loop
first_lem zero value h l = record {
  exact = omega arith;
  all_digits = tt;
  fits = omega arith;
  start = omega arith;
}
first_lem (suc i) value h l =
    let p = pow_pos i in
    let e = ten_pow i in
    let nine = digit_le_nine (10 ^ i) value (omega arith) in
    let (s, d, c) =
      rest_lem i (value % 10 ^ i) (0 * 10 + value / 10 ^ i) (omega arith) (omega arith) in
    rw (get_or-ints i (omega arith)) (elim (Bool-cases (leb (10 ^ i) value)) [
      | inl hit ↦ rw hit (Written-hit i (10 ^ i) value _ p (ground arith) nine s d c)
      | inr miss ↦ rw miss (Written-more (first_lem i value (omega arith) (ground arith)))
    ])

-- What it means to be the decimal print of `value`.
pub record IsDecimal (value : ℕ) (text : List ℕ) : Type 0 where
  pub exact : spelled 0 text ≡ value
  pub all_digits : AllDigits text
  pub canonical : IsCanonical text
  pub fits : length text ≤ 20

or_zero-IsDecimal :
    (value : ℕ) (text : List ℕ) → Written 20 value text → IsDecimal value (or_zero text)
unfolding or_zero
or_zero-IsDecimal value [] w = record {
  exact = omega arith;
  all_digits = omega arith;
  canonical = tt;
  fits = omega arith;
}
or_zero-IsDecimal value (c ∷ []) w = record {
  exact = w.exact;
  all_digits = w.all_digits;
  canonical = tt;
  fits = w.fits;
}
or_zero-IsDecimal value (c ∷ d ∷ cs) w = record {
  exact = w.exact;
  all_digits = w.all_digits;
  canonical = w.start;
  fits = w.fits;
}

Written-le : {k j value : ℕ} {text : List ℕ} → k ≤ j → Written k value text → Written j value text
Written-le h w = record {
  exact = w.exact;
  all_digits = w.all_digits;
  fits = omega arith;
  start = w.start;
}

-- The shortcuts for small values start above the highest digit.
start_index_bound :
    (value : ℕ) → value < 2 ^ 64 → (start_index value ≤ 20) × (value < 10 ^ start_index value)
unfolding start_index
start_index_bound value h = elim (Bool-cases (ltb value 100000)) [
  | inl a ↦ rw a (omega arith, ground arith)
  | inr a ↦ elim (Bool-cases (ltb value 10000000000)) [
    | inl b ↦ rw (a, b) (omega arith, ground arith)
    | inr b ↦ rw (a, b) (omega arith, omega arith)
  ]
]

-- The decimal print of a 64-bit value spells the value, consists of digits with no leading zero
-- (0 itself is "0"), and is at most 20 characters long.
pub cvt_uint64_decimal-IsDecimal :
    (value : ℕ) → value < 2 ^ 64 → IsDecimal value (cvt_uint64_decimal value)
unfolding cvt_uint64_decimal
cvt_uint64_decimal-IsDecimal value h =
    let (small, below) = start_index_bound value h in
    or_zero-IsDecimal value _ (Written-le small (first_lem (start_index value) value small below))
