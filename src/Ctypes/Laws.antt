-- ===== src/Ctypes/Laws.antt =====
-- The case conversions against ISO 8859-1.
use riscos64_simple_binaries.Base.{
  ℕ, refl, ap, Bool, true, false, not, Option, none, some, arith, ltb, leb, all_below,
  all_below_sound, pos, ◌+◌, ◌-◌, ◌<◌, ◌≡◌, ◌&&◌, ◌||◌, ◌==◌, if◌then◌else◌,
}
use riscos64_simple_binaries.Ctypes.{entry, converted, tolower, toupper, lower_table, upper_table}

-- A capital letter of ISO 8859-1 that has a small one
abbrev pub is_capital : ℕ → Bool
is_capital c = (leb 65 c && leb c 90) || (leb 192 c && leb c 222 && not (c == 215))

abbrev pub is_small : ℕ → Bool
is_small c = (leb 97 c && leb c 122) || (leb 224 c && leb c 254 && not (c == 247))

abbrev found : ℕ → Option ℕ → Bool
found x none = false
found x (some y) = x == y

abbrev lower_of : ℕ → ℕ
lower_of c = if is_capital c then c + 32 else c

abbrev upper_of : ℕ → ℕ
upper_of c = if is_small c then c - 32 else c

lower_checked : all_below 256 (λ c. found (lower_of c) (entry lower_table c)) ≡ true
unfolding all_below entry lower_table
lower_checked = refl

upper_checked : all_below 256 (λ c. found (upper_of c) (entry upper_table c)) ≡ true
unfolding all_below entry upper_table
upper_checked = refl

found-some : (x : ℕ) (o : Option ℕ) → found x o ≡ true → o ≡ some x
found-some x none h = cc
found-some x (some y) h = ap some (ground arith)

-- On the 256 characters `tolower` reads within its table and is the conversion of ISO 8859-1: a capital
-- letter, accented or not, gives the small letter 32 places on, and all else is returned.
tolower_lem : (c : ℕ) → c < 256 → tolower (pos c) ≡ some (pos (if is_capital c then c + 32 else c))
unfolding tolower converted
tolower_lem c l =
    let in_range : ltb 256 c ≡ false = ground arith in
    let e =
      found-some (lower_of c) (entry lower_table c) (
        all_below_sound 256 (λ c'. found (lower_of c') (entry lower_table c')) c lower_checked l) in
    rw (in_range, e) refl

-- `toupper` is the conversion back: a small letter gives the capital 32 places below, but for 'ß' and
-- 'ÿ', which have none and are returned, as all else is.
toupper_lem : (c : ℕ) → c < 256 → toupper (pos c) ≡ some (pos (if is_small c then c - 32 else c))
unfolding toupper converted
toupper_lem c l =
    let in_range : ltb 256 c ≡ false = ground arith in
    let e =
      found-some (upper_of c) (entry upper_table c) (
        all_below_sound 256 (λ c'. found (upper_of c') (entry upper_table c')) c upper_checked l) in
    rw (in_range, e) refl
