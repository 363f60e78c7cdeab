-- ===== src/Cvt/Hex.antt =====
-- clib/conversion/cvt_hex.c, for a width of up to 16 digits and the three values of `spaced` that its
-- comment gives.
pub mod Laws
use riscos64_simple_binaries.Base.{
  ℕ, zero, suc, Bool, true, false, not, List, [], ltb, leb, ◌+◌, ◌-◌, ◌/◌, ◌%◌, ◌^◌, ◌&&◌, ◌||◌,
  ◌∷◌, ◌++◌, ◌==◌, if◌then◌else◌,
}

-- `spaced`: 0, 1 and -1
pub data Spaced : Type 0 where
  pad_none : Spaced
  pad_spaces : Spaced
  pad_zeros : Spaced

abbrev pub is_spaces : Spaced → Bool
is_spaces pad_none = false
is_spaces pad_spaces = true
is_spaces pad_zeros = false

abbrev pub is_zeros : Spaced → Bool
is_zeros pad_none = false
is_zeros pad_spaces = false
is_zeros pad_zeros = true

-- `shift / 4 + 1` at the start of the loop: without padding, high digits that are 0 are left out.
unfoldable pub start_digits : ℕ → ℕ → Spaced → ℕ
start_digits value width pad_none =
    if leb 8 width && (value / 2 ^ 8 == 0)
    then 2
    else if leb 16 width && (value / 2 ^ 16 == 0)
    then 4
    else if leb 32 width && (value / 2 ^ 32 == 0)
    then 8
    else width
start_digits value width pad_spaces = width
start_digits value width pad_zeros = width

-- `"0123456789ABCDEF"[v]`
abbrev pub hex_char : ℕ → ℕ
hex_char v = if ltb v 10 then b'0' + v else b'A' + (v - 10)

-- The loop from shift `4 * k - 4` down: the characters, and `started` at the end.
unfoldable pub hex_loop : ℕ → ℕ → Bool → Spaced → List ℕ × Bool
hex_loop zero value started spaced = ([], started)
hex_loop (suc k) value started spaced =
    let v = value / 16 ^ k % 16 in
    let (digits, after) = hex_loop k value true spaced in
    let (rest, after') = hex_loop k value started spaced in
    if started || ltb 0 v
    then (hex_char v ∷ digits, after)
    else if is_spaces spaced
    then (b' ' ∷ rest, after')
    else (rest, after')

-- `p[-1] = '0'`
abbrev pub set_last : List ℕ → List ℕ
set_last [] = []
set_last (c ∷ []) = b'0' ∷ []
set_last (c ∷ d ∷ cs) = c ∷ set_last (d ∷ cs)

-- `if (value == 0 && !started)`
unfoldable pub hex_zero : ℕ → Spaced → List ℕ × Bool → List ℕ
hex_zero value spaced (cs, started) =
    if (value == 0) && not started
    then (if is_spaces spaced then set_last cs else cs ++ b'0' ∷ [])
    else cs

-- The text in `buffer`; the function returns its length and one for the terminator.
unfoldable pub cvt_uint64_hex : ℕ → ℕ → Spaced → List ℕ
unfolding hex_loop hex_zero start_digits
cvt_uint64_hex value width spaced =
    hex_zero value spaced
      (hex_loop (start_digits value width spaced) value (is_zeros spaced) spaced)
