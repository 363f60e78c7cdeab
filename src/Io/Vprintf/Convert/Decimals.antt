-- ===== src/Io/Vprintf/Convert/Decimals.antt =====
-- The decimal conversions of io-vprintf.c, `%d`, `%i` and `%u`, against a description of their own.
use riscos64_simple_binaries.Base.{
  ℕ, zero, suc, refl, ap, inl, inr, Bool, true, false, not, Option, none, some, List, [], arith,
  Bool-cases, length, replicate, append_assoc, ℤ, pos, negsuc, ◌+◌, ◌-◌, ◌%◌, ◌^◌, ◌≤◌, ◌<◌, ◌≡◌,
  ◌⊎◌, ◌∙◌, ◌&&◌, ◌∷◌, ◌++◌, ◌==◌, if◌then◌else◌,
}
use riscos64_simple_binaries.Cvt.Decimal.Laws.{IsDecimal, cvt_uint64_decimal-IsDecimal}
use riscos64_simple_binaries.Io.Vprintf.{FormatParams, Scan, number_arg}
use riscos64_simple_binaries.Io.Vprintf.Number.{
  is_none, is_no_precision, is_zero_precision, digit_fill, default_pad, number_text, decimal_text,
  sign_prefix, signed_value, unsigned_value, signed_of,
}
use riscos64_simple_binaries.Io.Vprintf.Convert.{is_number, collector, convert}
use riscos64_simple_binaries.Io.Vprintf.Convert.Collected.{padded, front, convert-number}

-- The bits of an argument by its length modifier; without one, `%d` takes an `int` and `%u` all 64.
abbrev pub bits_of : Bool → ℕ → ℕ
bits_of signed w =
    if w == b'b'
    then 8
    else if w == b'h'
    then 16
    else if w == b'l'
    then 32
    else if (w == 0) && signed
    then 32
    else 64

-- `value` with its sign is what the low bits of `a` mean, in two's complement if `signed`.
abbrev pub IsRead : Bool → ℕ → ℕ → ℕ → Bool → Type 0
IsRead false bits a value negative = (value ≡ a % 2 ^ bits) × (negative ≡ false)
IsRead true bits a value negative =
    (negative ≡ false → (value ≡ a % 2 ^ bits) × (value + value < 2 ^ bits))
    × (negative ≡ true
        → (value + a % 2 ^ bits ≡ 2 ^ bits) × (0 < value) × (value + value ≤ 2 ^ bits))

-- The sign that is shown, for the flag '+' or ' ' in `flag`
abbrev pub sign_text : Bool → ℕ → Bool → List ℕ
sign_text signed flag negative =
    if negative then b'-' ∷ [] else if signed && not (flag == 0) then flag ∷ [] else []

-- How many zeros stand between a sign of `n` characters and `size` digits: those that the precision asks
-- for, or without one and with the flag '0', those that fill the field, if it is not aligned to the left.
abbrev pub zeros_wanted : FormatParams → ℕ → ℕ → ℕ
zeros_wanted p n size = elim p.precision [
  | pos k ↦ k - size
  | negsuc k ↦
      if (k == 0) && not (p.digit_pad == 0) && not p.align_left
      then p.field_width - (n + size)
      else 0
]

abbrev pub fill_char : FormatParams → ℕ
fill_char p = if p.digit_pad == 0 then b'0' else p.digit_pad

-- Nothing is shown of 0 with a precision of 0, unless it has a sign.
abbrev pub shows_nothing : ℤ → ℕ → List ℕ → Bool
shows_nothing (pos k) value sign = (k == 0) && (value == 0) && (length sign == 0)
shows_nothing (negsuc k) value sign = false

-- The text of a number in its field
pub record PrintsDecimal (signed : Bool) (p : FormatParams) (a : ℕ) (text : List ℕ) : Type 0 where
  pub value : ℕ
  pub negative : Bool
  pub digits : List ℕ
  pub read : IsRead signed (bits_of signed p.param_width) a value negative
  pub decimal :
      shows_nothing p.precision value (sign_text signed p.sign negative) ≡ false
      → IsDecimal value digits
  pub empty :
      shows_nothing p.precision value (sign_text signed p.sign negative) ≡ true → digits ≡ []
  pub shown :
      let sign = sign_text signed p.sign negative in
      text
      ≡ sign ++ (replicate (zeros_wanted p (length sign) (length digits)) (fill_char p) ++ digits)

-- Which letters are decimal, and whether they are signed
abbrev pub IsDecimalLetter : Bool → ℕ → Type 0
IsDecimalLetter true c = (c ≡ b'd') ⊎ (c ≡ b'i')
IsDecimalLetter false c = c ≡ b'u'

filled_at :
    (p : FormatParams) (precision : ℤ) (n size : ℕ)
    → let q = record p { precision = precision } in
      replicate (digit_fill (default_pad q) size n) (default_pad q).digit_pad
      ≡ replicate (zeros_wanted q n size) (fill_char q)
unfolding digit_fill default_pad
filled_at p (pos k) n size = elim (Bool-cases (p.digit_pad == 0)) [
  | inl e ↦ rw e refl
  | inr e ↦ rw e (rw e refl)
]
filled_at p (negsuc zero) n size = elim (Bool-cases (p.digit_pad == 0)) [
  | inl e ↦ rw e refl
  | inr e ↦ elim (Bool-cases p.align_left) [
    | inl left ↦ rw (e, left) refl
    | inr right ↦
        rw (e, right)
          (ap (λ k. replicate k p.digit_pad)
            (let same : p.field_width - n - size ≡ p.field_width - (n + size) = omega arith in
              same))
  ]
]
filled_at p (negsuc (suc k)) n size =
    let z : (suc k == 0) ≡ false = ground arith in
    elim (Bool-cases (p.digit_pad == 0)) [ inl e ↦ rw (e, z) refl | inr e ↦ rw (e, z) (rw e refl) ]

filled :
    (p : FormatParams) (n size : ℕ)
    → replicate (digit_fill (default_pad p) size n) (default_pad p).digit_pad
      ≡ replicate (zeros_wanted p n size) (fill_char p)
filled p n size = filled_at p p.precision n size

abbrev sign_of : Option (List ℕ) → List ℕ
sign_of none = []
sign_of (some t) = t

front-shown :
    (p : FormatParams) (digits : List ℕ) (prefix : Option (List ℕ))
    → front (default_pad p) digits prefix ++ digits
      ≡ sign_of prefix
        ++ (replicate (zeros_wanted p (length (sign_of prefix)) (length digits)) (fill_char p)
            ++ digits)
front-shown p digits none = ap (λ r. r ++ digits) (filled p 0 (length digits))
front-shown p digits (some t) =
    append_assoc t _ digits ∙ ap (λ r. t ++ (r ++ digits)) (filled p (length t) (length digits))

-- A sign that is there is not empty.
abbrev IsSign : Option (List ℕ) → Type 0
IsSign none = Unit {0}
IsSign (some t) = 0 < length t

nothing_shown :
    (precision : ℤ) (value : ℕ) (prefix : Option (List ℕ))
    → IsSign prefix
    → ((value == 0) && is_zero_precision precision && is_none prefix)
      ≡ shows_nothing precision value (sign_of prefix)
nothing_shown (pos k) value none h = ground arith
nothing_shown (pos k) value (some t) h = ground arith
nothing_shown (negsuc k) value none h = ground arith
nothing_shown (negsuc k) value (some t) h = ground arith

precision-default_pad : (p : FormatParams) → (default_pad p).precision ≡ p.precision
unfolding default_pad
precision-default_pad p = ground arith

decimal_text-IsDecimal :
    (p : FormatParams) (value : ℕ) (prefix : Option (List ℕ))
    → value < 2 ^ 64
    → IsSign prefix
    → let digits = decimal_text (default_pad p) value prefix in
      let e = shows_nothing p.precision value (sign_of prefix) in
      (e ≡ false → IsDecimal value digits) × (e ≡ true → digits ≡ [])
unfolding decimal_text
decimal_text-IsDecimal p value prefix l h =
    let test = nothing_shown p.precision value prefix h in
    (
      λ e. rw (precision-default_pad p, test, e) (cvt_uint64_decimal-IsDecimal value l),
      λ e. rw (precision-default_pad p, test, e) refl,
    )

decimal-PrintsDecimal :
    (signed : Bool) (p : FormatParams) (a value : ℕ) (negative : Bool) (prefix : Option (List ℕ))
    → IsRead signed (bits_of signed p.param_width) a value negative
    → value < 2 ^ 64
    → IsSign prefix
    → sign_of prefix ≡ sign_text signed p.sign negative
    → let digits = decimal_text (default_pad p) value prefix in
      PrintsDecimal signed p a (front (default_pad p) digits prefix ++ digits)
decimal-PrintsDecimal signed p a value negative prefix r l h e =
    let digits = decimal_text (default_pad p) value prefix in
    let (decimal, empty) = decimal_text-IsDecimal p value prefix l h in
    record {
      value = value;
      negative = negative;
      digits = digits;
      read = r;
      decimal = λ k. decimal (ap (shows_nothing p.precision value) e ∙ k);
      empty = λ k. empty (ap (shows_nothing p.precision value) e ∙ k);
      shown =
          front-shown p digits prefix
          ∙ ap
              (λ sign.
                sign
                ++ (replicate (zeros_wanted p (length sign) (length digits)) (fill_char p)
                    ++ digits))
              e;
    }

-- What each size of argument means
abbrev Reads : Bool → ℕ → ℕ → ℕ × Bool → Type 0
Reads signed w a x =
    let (value, negative) = x in
    IsRead signed (bits_of signed w) a value negative × (value < 2 ^ 64)

module _ (a : ℕ) where
  signed_8 : IsRead true 8 a (signed_of (2 ^ 8) a).0 (signed_of (2 ^ 8) a).1
  signed_8 = ground arith

  signed_16 : IsRead true 16 a (signed_of (2 ^ 16) a).0 (signed_of (2 ^ 16) a).1
  signed_16 = ground arith

  signed_32 : IsRead true 32 a (signed_of (2 ^ 32) a).0 (signed_of (2 ^ 32) a).1
  signed_32 = ground arith

  signed_64 : IsRead true 64 a (signed_of (2 ^ 64) a).0 (signed_of (2 ^ 64) a).1
  signed_64 = ground arith

  signed_value-Reads : (w : ℕ) → Reads true w a (signed_value w a)
  unfolding signed_value
  signed_value-Reads w = elim (Bool-cases (w == b'b')) [
    | inl e ↦ rw e (signed_8, ground arith)
    | inr b ↦ elim (Bool-cases (w == b'h')) [
      | inl e ↦ rw (b, e) (signed_16, ground arith)
      | inr h ↦ elim (Bool-cases (w == b'l')) [
        | inl e ↦ rw (b, h, e) (signed_32, ground arith)
        | inr l ↦ elim (Bool-cases (w == 0)) [
          | inl e ↦ rw (b, h, l, e) (signed_32, ground arith)
          | inr z ↦ rw (b, h, l, z) (signed_64, ground arith)
        ]
      ]
    ]
  ]

  unsigned_value-Reads : (w : ℕ) → Reads false w a (unsigned_value w a, false)
  unfolding unsigned_value
  unsigned_value-Reads w = elim (Bool-cases (w == b'b')) [
    | inl e ↦ rw e ((refl, refl), omega arith)
    | inr b ↦ elim (Bool-cases (w == b'h')) [
      | inl e ↦ rw (b, e) ((refl, refl), omega arith)
      | inr h ↦ elim (Bool-cases (w == b'l')) [
        | inl e ↦ rw (b, h, e) ((refl, refl), omega arith)
        | inr l ↦ elim (Bool-cases (w == 0)) [
          | inl e ↦ rw (b, h, l, e) ((refl, refl), omega arith)
          | inr z ↦ rw (b, h, l, z) ((refl, refl), omega arith)
        ]
      ]
    ]
  ]

sign_prefix-IsSign :
    (p : FormatParams) (negative : Bool)
    → IsSign (sign_prefix (default_pad p) negative)
      × (sign_of (sign_prefix (default_pad p) negative) ≡ sign_text true p.sign negative)
unfolding sign_prefix default_pad
sign_prefix-IsSign p true = (omega arith, refl)
sign_prefix-IsSign p false =
    elim (Bool-cases (not (is_no_precision p.precision) && (p.digit_pad == 0))) [
      | inl d ↦ elim (Bool-cases (p.sign == 0)) [
        | inl e ↦ rw (d, e) (tt, refl)
        | inr e ↦ rw (d, e) (omega arith, refl)
      ]
      | inr d ↦ elim (Bool-cases (p.sign == 0)) [
        | inl e ↦ rw (d, e) (tt, refl)
        | inr e ↦ rw (d, e) (omega arith, refl)
      ]
    ]

module _ (p : FormatParams) where
  param_width-default_pad : (default_pad p).param_width ≡ p.param_width
  unfolding default_pad
  param_width-default_pad = ground arith

  padded-default_pad :
      (s : List ℕ)
      → padded (default_pad p).align_left (default_pad p).field_width s
        ≡ padded p.align_left p.field_width s
  unfolding default_pad
  padded-default_pad s =
      elim (Bool-cases (not (is_no_precision p.precision) && (p.digit_pad == 0))) [
        | inl d ↦ rw d refl
        | inr d ↦ rw d refl
      ]

  -- The text that `number_text` leads to
  abbrev text_at : ℕ → ℕ → List ℕ
  text_at c a =
      let (digits, prefix) = number_text c (default_pad p) a in
      front (default_pad p) digits prefix ++ digits

  signed-PrintsDecimal :
      (a : ℕ)
      → PrintsDecimal true p a (
          let (value, negative) = signed_value (default_pad p).param_width a in
          let prefix = sign_prefix (default_pad p) negative in
          let digits = decimal_text (default_pad p) value prefix in
          front (default_pad p) digits prefix ++ digits)
  unfolding default_pad
  signed-PrintsDecimal a = rw param_width-default_pad (
      let (r, l) = signed_value-Reads a p.param_width in
      let (value, negative) = signed_value p.param_width a in
      let (h, e) = sign_prefix-IsSign p negative in
      decimal-PrintsDecimal true p a value negative (sign_prefix (default_pad p) negative) r l h e)

  text-PrintsDecimal :
      (signed : Bool) (c a : ℕ) → IsDecimalLetter signed c → PrintsDecimal signed p a (text_at c a)
  unfolding number_text default_pad
  text-PrintsDecimal true c a (inl e) = rw e (signed-PrintsDecimal a)
  text-PrintsDecimal true c a (inr e) = rw e (signed-PrintsDecimal a)
  text-PrintsDecimal false c a e =
      rw (e, param_width-default_pad)
        (let (r, l) = unsigned_value-Reads a p.param_width in
          decimal-PrintsDecimal false p a (unsigned_value p.param_width a) false none r l tt refl)

decimal_letter : (signed : Bool) (c : ℕ) → IsDecimalLetter signed c → is_number collector c ≡ true
decimal_letter true c (inl e) = rw e refl
decimal_letter true c (inr e) = rw e refl
decimal_letter false c e = rw e refl

-- `%d`, `%i` and `%u` print the value that the argument has in its size, signed for the first two: the
-- sign, if it is negative or a flag asks for one; zeros, by the precision or to fill the field; and
-- its decimal digits, or none for 0 with a precision of 0 and no sign. The text stands in its field,
-- filled up with spaces on the left or the right.
pub convert-decimal :
    (signed : Bool) (s : Scan) (t : List ℕ)
    → IsDecimalLetter signed s.c
    → (text : List ℕ) × PrintsDecimal signed s.params (number_arg s.args).0 text
      × (let out = padded s.params.align_left s.params.field_width text in
          (convert collector s).0 t ≡ (length out, t ++ out))
convert-decimal signed s t c =
    let a = (number_arg s.args).0 in
    (
      text_at s.params s.c a,
      text-PrintsDecimal s.params signed s.c a c,
      convert-number s t (decimal_letter signed s.c c)
          ∙ ap (λ out. (length out, t ++ out))
              (padded-default_pad s.params (text_at s.params s.c a)),
    )
