-- ===== src/Io/Vprintf/Number.antt =====
-- `_vprintf`, clib/io/io-vprintf.c: the digits of numbers, what comes in front of them, and how far a
-- string is shown.
use riscos64_simple_binaries.Base.{
  ℕ, zero, suc, Bool, true, false, not, Option, none, some, List, [], ltb, codes, length, take, ℤ,
  pos, negsuc, ◌+◌, ◌-◌, ◌/◌, ◌%◌, ◌^◌, ◌&&◌, ◌||◌, ◌∷◌, ◌==◌, if◌then◌else◌,
}
use riscos64_simple_binaries.Cvt.Decimal.{cvt_uint64_decimal}
use riscos64_simple_binaries.Io.Vprintf.{FormatParams}

-- The characters for the digits of a base up to 16.
abbrev pub digit_char : Bool → ℕ → ℕ
digit_char lower v =
    if ltb v 10 then b'0' + v else if lower then b'a' + (v - 10) else b'A' + (v - 10)

-- The loop that fills `buf` from its end: at most `i` digits, in front of `acc`.
unfoldable pub radix_loop : ℕ → ℕ → Bool → ℕ → List ℕ → List ℕ
radix_loop zero base lower value acc = acc
radix_loop (suc i) base lower value acc =
    let acc' = digit_char lower (value % base) ∷ acc in
    let rest = radix_loop i base lower (value / base) acc' in
    if value / base == 0 then acc' else rest

-- How far `pad_digits` and `count_pad_digits` fill up a number of `size` digits with a prefix of `n`.
unfoldable pub digit_fill : FormatParams → ℕ → ℕ → ℕ
digit_fill p size n = if p.digit_pad == 0 then 0 else elim p.precision [
  | pos k ↦ k - size
  | negsuc zero ↦ if p.align_left then 0 else p.field_width - n - size
  | negsuc (suc k) ↦ 0
]

abbrev pub prefix_length : Option (List ℕ) → ℕ
prefix_length none = 0
prefix_length (some t) = length t

unfoldable pub count_pad_digits : FormatParams → ℕ → Option (List ℕ) → ℕ
unfolding digit_fill
count_pad_digits p size prefix = prefix_length prefix + digit_fill p size (prefix_length prefix)

-- The unsigned and the signed value of an argument; a signed one is its magnitude, and whether it is
-- negative.
unfoldable pub unsigned_value : ℕ → ℕ → ℕ
unsigned_value param_width a =
    if param_width == b'b'
    then a % 2 ^ 8
    else if param_width == b'h'
    then a % 2 ^ 16
    else if param_width == b'l'
    then a % 2 ^ 32
    else a % 2 ^ 64

abbrev pub signed_of : ℕ → ℕ → ℕ × Bool
signed_of modulus a =
    if ltb (a % modulus) (modulus / 2) then (a % modulus, false) else (modulus - a % modulus, true)

unfoldable pub signed_value : ℕ → ℕ → ℕ × Bool
signed_value param_width a =
    if param_width == b'b'
    then signed_of (2 ^ 8) a
    else if param_width == b'h'
    then signed_of (2 ^ 16) a
    else if (param_width == b'l') || (param_width == 0)
    then signed_of (2 ^ 32) a
    else signed_of (2 ^ 64) a

-- What a number prints: its digits, and what comes in front of them.
abbrev pub is_hex : ℕ → Bool
is_hex c = (c == b'p') || (c == b'x') || (c == b'X')

abbrev pub is_zero_precision : ℤ → Bool
is_zero_precision (pos n) = n == 0
is_zero_precision (negsuc n) = false

abbrev pub is_no_precision : ℤ → Bool
is_no_precision (pos n) = false
is_no_precision (negsuc n) = n == 0

-- Hexadecimal and octal, built with ZERO_IS_JUST_ZERO
unfoldable pub radix_text : ℕ → FormatParams → ℕ → List ℕ × Option (List ℕ)
unfolding radix_loop
radix_text c p value =
    if (c == b'p') && (value == 0)
    then (codes "NULL", none)
    else if (value == 0) && is_zero_precision p.precision
    then ([], none)
    else if value == 0
    then (b'0' ∷ [], none)
    else (
      (if is_hex c then radix_loop 16 16 (c == b'x') value [] else radix_loop 22 8 false value []),
      (if (c == b'p') || (is_hex c && p.alternate)
          then some (if c == b'X' then codes "0X" else codes "0x")
          else if (c == b'o') && p.alternate
          then some (codes "0")
          else none),
    )

-- The sign in front of a signed value
unfoldable pub sign_prefix : FormatParams → Bool → Option (List ℕ)
sign_prefix p negative =
    if negative then some (b'-' ∷ []) else if p.sign == 0 then none else some (p.sign ∷ [])

abbrev pub is_none : Option (List ℕ) → Bool
is_none none = true
is_none (some t) = false

unfoldable pub decimal_text : FormatParams → ℕ → Option (List ℕ) → List ℕ
decimal_text p value prefix =
    if (value == 0) && is_zero_precision p.precision && is_none prefix
    then []
    else cvt_uint64_decimal value

unfoldable pub number_text : ℕ → FormatParams → ℕ → List ℕ × Option (List ℕ)
unfolding unsigned_value signed_value radix_text sign_prefix decimal_text
number_text c p a =
    if is_hex c || (c == b'o')
    then radix_text c p (unsigned_value p.param_width a)
    else if c == b'u'
    then (decimal_text p (unsigned_value p.param_width a) none, none)
    else (let (value, negative) = signed_value p.param_width a in
        let prefix = sign_prefix p negative in (decimal_text p value prefix, prefix))

-- `if (params.precision != -1 && !params.digit_pad)`
unfoldable pub default_pad : FormatParams → FormatParams
default_pad p =
    if not (is_no_precision p.precision) && (p.digit_pad == 0)
    then record p { digit_pad = b'0' }
    else p

-- The characters of a string that a precision leaves
unfoldable pub limited : ℤ → List ℕ → List ℕ
limited (pos k) t = take k t
limited (negsuc zero) t = t
limited (negsuc (suc k)) t = []

unfoldable pub shown : FormatParams → Option (List ℕ) → List ℕ
unfolding limited
shown p none = limited p.precision (codes "<NULL>")
shown p (some t) = limited p.precision t
