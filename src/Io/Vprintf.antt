-- ===== src/Io/Vprintf.antt =====
-- `_vprintf`, clib/io/io-vprintf.c: how a conversion is read. A format is the list of its characters
-- before the NUL; past its end a character is read as 0, and none is read behind that. The `int`s
-- of a width are taken not to overflow.
pub mod Scanned
pub mod Number
pub mod Convert
use riscos64_simple_binaries.Base.{
  ℕ, Bool, true, false, Option, none, List, [], ltb, leb, ℤ, pos, negsuc, ◌+◌, ◌-◌, ◌*◌, ◌%◌, ◌^◌,
  ◌&&◌, ◌||◌, ◌∷◌, ◌==◌, if◌then◌else◌,
}

-- An argument: what `va_arg` gives, 64 bits of a number, or a string, `none` for NULL. An argument
-- that is missing or of the other kind reads as 0 or NULL.
pub data Arg : Type 0 where
  int_arg : ℕ → Arg
  string_arg : Option (List ℕ) → Arg

abbrev pub number_arg : List Arg → ℕ × List Arg
number_arg [] = (0, [])
number_arg (int_arg n ∷ args) = (n, args)
number_arg (string_arg t ∷ args) = (0, args)

abbrev pub text_arg : List Arg → Option (List ℕ) × List Arg
text_arg [] = (none, [])
text_arg (int_arg n ∷ args) = (none, args)
text_arg (string_arg t ∷ args) = (t, args)

-- `formatparams_t`
pub record FormatParams : Type 0 where
  pub alternate : Bool
  pub sign : ℕ
  pub digit_pad : ℕ
  pub align_left : Bool
  pub field_width : ℕ
  pub precision : ℤ
  pub param_width : ℕ

abbrev pub no_params : FormatParams
no_params = record {
  alternate = false;
  sign = 0;
  digit_pad = 0;
  align_left = false;
  field_width = 0;
  precision = pos 0;
  param_width = 0;
}

-- The character in hand, the format behind it, and what has been read so far.
pub record Scan : Type 0 where
  pub c : ℕ
  pub format : List ℕ
  pub params : FormatParams
  pub args : List Arg

-- `c = *format++`
unfoldable pub advance_to : Scan → List ℕ → Scan
advance_to s [] = record s { c = 0; format = [] }
advance_to s (c ∷ cs) = record s { c = c; format = cs }

unfoldable pub advance : Scan → Scan
unfolding advance_to
advance s = advance_to s s.format

unfoldable pub is_flag : ℕ → Bool
is_flag c = (c == b'-') || (c == b'+') || (c == b' ') || (c == b'#') || (c == b'0')

-- What a flag does: '+' takes precedence over ' '.
unfoldable pub set_flag : ℕ → FormatParams → FormatParams
set_flag c p =
    if c == b'-'
    then record p { align_left = true }
    else if (c == b'+') || (c == b' ')
    then (if p.sign == b'+' then p else record p { sign = c })
    else if c == b'#'
    then record p { alternate = true }
    else record p { digit_pad = c }

-- The loop over the flags, with `c` in hand.
unfoldable pub scan_flags : ℕ → List ℕ → FormatParams → ℕ × List ℕ × FormatParams
unfolding is_flag set_flag
scan_flags c [] p = if is_flag c then (0, [], set_flag c p) else (c, [], p)
scan_flags c (d ∷ ds) p =
    let rest = scan_flags d ds (set_flag c p) in if is_flag c then rest else (c, d ∷ ds, p)

unfoldable pub is_digit : ℕ → Bool
is_digit c = leb b'0' c && leb c b'9'

-- The loop over further digits of a number, of which `n` has been read.
unfoldable pub scan_digits : ℕ → ℕ → List ℕ → ℕ × ℕ × List ℕ
unfolding is_digit
scan_digits n c [] = if is_digit c then (n * 10 + (c - b'0'), 0, []) else (n, c, [])
scan_digits n c (d ∷ ds) =
    let rest = scan_digits (n * 10 + (c - b'0')) d ds in if is_digit c then rest else (n, c, d ∷ ds)

-- A width from the arguments, as an `int`; a negative one aligns to the left.
unfoldable pub set_width : FormatParams → ℕ → FormatParams
set_width p a =
    let w = a % 2 ^ 32 in
    if ltb w (2 ^ 31)
    then record p { field_width = w }
    else record p { align_left = true; field_width = 2 ^ 32 - w }

unfoldable pub scan_width : Scan → Scan
unfolding advance scan_digits set_width
scan_width s =
    if leb b'1' s.c && leb s.c b'9'
    then (let (n, c, format) = scan_digits 0 s.c s.format in
        record s { c = c; format = format; params = record s.params { field_width = n } })
    else if s.c == b'*'
    then (let (a, args) = number_arg s.args in
        advance (record s { params = set_width s.params a; args = args }))
    else s

-- A precision from the arguments, as an `int`.
unfoldable pub as_int : ℕ → ℤ
as_int a = let w = a % 2 ^ 32 in if ltb w (2 ^ 31) then pos w else negsuc (2 ^ 32 - w - 1)

-- Behind the '.'
unfoldable pub scan_precision_value : Scan → Scan
unfolding advance scan_digits as_int
scan_precision_value s =
    if s.c == b'*'
    then (let (a, args) = number_arg s.args in
        advance (record s { params = record s.params { precision = as_int a }; args = args }))
    else (let (n, c, format) = scan_digits 0 s.c s.format in
        record s { c = c; format = format; params = record s.params { precision = pos n } })

unfoldable pub scan_precision : Scan → Scan
unfolding scan_precision_value advance
scan_precision s =
    let s' = record s { params = record s.params { precision = negsuc 0 } } in
    if s.c == b'.' then scan_precision_value (advance s') else s'

-- One or two of a letter: `one` or `two` is the width.
unfoldable pub scan_twice : ℕ → ℕ → Scan → Scan
unfolding advance
scan_twice one two s =
    let s' = advance s in
    if s'.c == one
    then advance (record s' { params = record s.params { param_width = two } })
    else record s' { params = record s.params { param_width = one } }

unfoldable pub scan_size : Scan → Scan
unfolding advance scan_twice
scan_size s =
    if s.c == b'h'
    then scan_twice b'h' b'b' s
    else if s.c == b'l'
    then scan_twice b'l' b'L' s
    else if (s.c == b'z') || (s.c == b'j') || (s.c == b't')
    then record (advance s) { params = record s.params { param_width = b'L' } }
    else s

-- From behind the '%' to the conversion's letter.
unfoldable pub scan : List ℕ → List Arg → Scan
unfolding advance scan_flags scan_width scan_precision scan_size
scan format args =
    let first = advance (record { c = 0; format = format; params = no_params; args = args }) in
    let (c, rest, p) = scan_flags first.c first.format no_params in
    scan_size
      (scan_precision (scan_width (record { c = c; format = rest; params = p; args = args })))
