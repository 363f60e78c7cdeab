-- ===== src/Cvt/Decimal.antt =====
-- clib/conversion/cvt_decimal.c, with both of its ways to divide: the Makefile builds it with
-- ARCH_HAS_DIVISION.
pub mod Laws
use riscos64_simple_binaries.Base.{
  ℕ, zero, suc, Bool, true, false, List, [], ltb, leb, get_or, ◌+◌, ◌-◌, ◌/◌, ◌%◌, ◌∷◌,
  if◌then◌else◌,
}

-- `ints`: the powers of ten below 2^64.
abbrev pub ints : List ℕ
ints =
    1 ∷ 10 ∷ 100 ∷ 1000 ∷ 10000 ∷ 100000 ∷ 1000000 ∷ 10000000 ∷ 100000000 ∷ 1000000000 ∷ 10000000000
    ∷ 100000000000 ∷ 1000000000000 ∷ 10000000000000 ∷ 100000000000000 ∷ 1000000000000000
    ∷ 10000000000000000 ∷ 100000000000000000 ∷ 1000000000000000000 ∷ 10000000000000000000 ∷ []

-- `while (value >= m) digit += 1, value -= m;` with fuel; the pair is `digit` and `value`.
unfoldable pub subtract_loop : ℕ → ℕ → ℕ → ℕ → ℕ × ℕ
subtract_loop zero m digit value = (digit, value)
subtract_loop (suc fuel) m digit value =
    let rest = subtract_loop fuel m (digit + 1) (value - m) in
    if leb m value then rest else (digit, value)

-- One digit with ARCH_HAS_DIVISION: `digit = value / m; value = value % m`.
unfoldable pub by_division : ℕ → ℕ → ℕ × ℕ
by_division m value = (value / m, value % m)

-- One digit without it, entered with `value >= m`.
unfoldable pub by_subtraction : ℕ → ℕ → ℕ × ℕ
by_subtraction m value = subtract_loop value m 1 (value - m)

-- The main loop at `tensindex + 1`: the characters that are written from `p` on.
unfoldable pub decimal_loop : ℕ → ℕ → Bool → List ℕ
unfolding by_division
decimal_loop zero value first = []
decimal_loop (suc tensindex) value first =
    let m = get_or ints tensindex 0 in
    let hit =
      (b'0' + (by_division m value).0) ∷ decimal_loop tensindex (by_division m value).1 false in
    let miss = decimal_loop tensindex value first in
    if leb m value then hit else if first then miss else b'0' ∷ miss

-- `tensindex + 1` before the loop
unfoldable pub start_index : ℕ → ℕ
start_index value = if ltb value 100000 then 7 else if ltb value 10000000000 then 11 else 20

-- The special case 0, where nothing was written.
unfoldable pub or_zero : List ℕ → List ℕ
or_zero [] = b'0' ∷ []
or_zero (c ∷ cs) = c ∷ cs

-- The text that `buffer` holds; the function returns its length.
unfoldable pub cvt_uint64_decimal : ℕ → List ℕ
unfolding decimal_loop start_index or_zero
cvt_uint64_decimal value = or_zero (decimal_loop (start_index value) value true)
