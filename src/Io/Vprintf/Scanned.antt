-- ===== src/Io/Vprintf/Scanned.antt =====
-- Reading a conversion goes forward in the format.
use riscos64_simple_binaries.Base.{
  ℕ, inl, inr, List, [], arith, Bool-cases, length, ◌+◌, ◌-◌, ◌*◌, ◌≤◌, ◌∷◌,
}
use riscos64_simple_binaries.Io.Vprintf.{
  Arg, FormatParams, Scan, advance, advance_to, is_flag, set_flag, scan_flags, is_digit,
  scan_digits, scan_width, scan_precision, scan_precision_value, scan_size, scan_twice, scan,
  no_params,
}

le_trans : {a b c : ℕ} → a ≤ b → b ≤ c → a ≤ c
le_trans h k = omega arith

length-advance_to : (s : Scan) (f : List ℕ) → length (advance_to s f).format ≤ length f
unfolding advance_to
length-advance_to s [] = omega arith
length-advance_to s (c ∷ cs) = omega arith

length-advance : (s : Scan) → length (advance s).format ≤ length s.format
unfolding advance
length-advance s = length-advance_to s s.format

flags_length : (c : ℕ) (f : List ℕ) (p : FormatParams) → length (scan_flags c f p).1 ≤ length f
unfolding scan_flags
flags_length c [] p = ground arith
flags_length c (d ∷ ds) p = elim (Bool-cases (is_flag c)) [
  | inl e ↦ let k = flags_length d ds (set_flag c p) in rw e (omega arith)
  | inr e ↦ rw e (omega arith)
]

digits_length : (n c : ℕ) (f : List ℕ) → length (scan_digits n c f).2 ≤ length f
unfolding scan_digits
digits_length n c [] = ground arith
digits_length n c (d ∷ ds) = elim (Bool-cases (is_digit c)) [
  | inl e ↦ let k = digits_length (n * 10 + (c - b'0')) d ds in rw (scan_digits, e) (omega arith)
  | inr e ↦ rw (scan_digits, e) (omega arith)
]

width_length : (s : Scan) → length (scan_width s).format ≤ length s.format
unfolding scan_width
width_length s = grind (arith, digits_length 0 s.c s.format, length-advance)

value_length : (s : Scan) → length (scan_precision_value s).format ≤ length s.format
unfolding scan_precision_value
value_length s = grind (arith, digits_length 0 s.c s.format, length-advance)

precision_length : (s : Scan) → length (scan_precision s).format ≤ length s.format
unfolding scan_precision
precision_length s = grind (arith, value_length, length-advance)

twice_length : (one two : ℕ) (s : Scan) → length (scan_twice one two s).format ≤ length s.format
unfolding scan_twice
twice_length one two s = grind (arith, length-advance)

size_length : (s : Scan) → length (scan_size s).format ≤ length s.format
unfolding scan_size
size_length s = grind (arith, twice_length, length-advance)

rest_length :
    (s : Scan) → length (scan_size (scan_precision (scan_width s))).format ≤ length s.format
rest_length s = omega (
  arith,
  width_length s,
  precision_length (scan_width s),
  size_length (scan_precision (scan_width s)),
)

-- What is left of the format behind a conversion is no longer than what was left behind its '%'.
pub length-scan : (f : List ℕ) (args : List Arg) → length (scan f args).format ≤ length f
unfolding scan
length-scan f args =
    let first : Scan = advance (record { c = 0; format = f; params = no_params; args = args }) in
    let flags = scan_flags first.c first.format no_params in
    le_trans (rest_length (record { c = flags.0; format = flags.1; params = flags.2; args = args }))
      (le_trans (flags_length first.c first.format no_params)
        (length-advance (record { c = 0; format = f; params = no_params; args = args })))
