-- ===== src/Str.antt =====
-- clib/string/str*.c, the functions on strings. The loops of the source have no bound but the
-- terminator: here they run on fuel, and `none` is a loop that has not ended with it.
pub mod Copy
pub mod Compare
pub mod Span
pub mod Find
pub mod Break
pub mod Duplicate
use riscos64_simple_binaries.Base.{
  int_size, as_int, ℕ, zero, suc, Bool, true, false, not, Option, none, some, leb, ℤ, pos, negsuc,
  sub_ℕ, ◌>>=◌, ◌>>=◌, ◌+◌, ◌-◌, ◌%◌, ◌^◌, ◌&&◌, ◌||◌, ◌==◌, if◌then◌else◌,
}
use riscos64_simple_binaries.Memory.{Memory, store}

-- `while (*s++ != '\0') ;`: where `s` is afterwards, one past the terminator
unfoldable pub str_end : ℕ → Memory → ℕ → Option ℕ
str_end zero m s = none
str_end (suc fuel) m s =
    let rest = str_end fuel m (s + 1) in if m s == 0 then some (s + 1) else rest

unfoldable pub strlen : ℕ → Memory → ℕ → Option ℕ
strlen fuel m s = do e ← str_end fuel m s; some (e - s - 1)

-- The loop `while (1)` of strcpy and strcat
unfoldable pub copy_text : ℕ → Memory → ℕ → ℕ → Option Memory
copy_text zero m dst src = none
copy_text (suc fuel) m dst src =
    let m' = store m dst (m src) in
    let rest = copy_text fuel m' (dst + 1) (src + 1) in if m src == 0 then some m' else rest

unfoldable pub strcpy : ℕ → Memory → ℕ → ℕ → Option Memory
unfolding copy_text
strcpy fuel m dst src = copy_text fuel m dst src

unfoldable pub strncpy : Memory → ℕ → ℕ → ℕ → Memory
strncpy m dst src zero = m
strncpy m dst src (suc n) =
    let m' = store m dst (m src) in if m src == 0 then m' else strncpy m' (dst + 1) (src + 1) n

-- The first loop leaves `a` one past the terminator of the first string.
unfoldable pub strcat : ℕ → Memory → ℕ → ℕ → Option Memory
unfolding str_end copy_text
strcat fuel m a b = do a' ← str_end fuel m a; copy_text fuel m a' b

-- `--n` on a `size_t`
abbrev pub minus_one : ℕ → ℕ
minus_one n = (n + 2 ^ 64 - 1) % 2 ^ 64

-- `while (--n >= 0)`, the second loop of strncat
unfoldable pub copy_counted : ℕ → Memory → ℕ → ℕ → ℕ → Option Memory
copy_counted zero m dst src n = none
copy_counted (suc fuel) m dst src n =
    let n' = minus_one n in
    let m' = store m dst (m src) in
    let rest = copy_counted fuel m' (dst + 1) (src + 1) n' in
    if leb 0 n' then (if m src == 0 then some m' else rest) else some m

unfoldable pub strncat : ℕ → Memory → ℕ → ℕ → ℕ → Option Memory
unfolding str_end copy_counted
strncat fuel m a b n = do a' ← str_end fuel m a; copy_counted fuel m a' b n

unfoldable pub strcmp : ℕ → Memory → ℕ → ℕ → Option ℤ
strcmp zero m a b = none
strcmp (suc fuel) m a b =
    let rest = strcmp fuel m (a + 1) (b + 1) in
    if m a == m b then (if m a == 0 then some (pos 0) else rest) else some (sub_ℕ (m a) (m b))

unfoldable pub strncmp : Memory → ℕ → ℕ → ℕ → ℤ
strncmp m a b zero = pos 0
strncmp m a b (suc n) =
    if m a == m b
    then (if m a == 0 then pos 0 else strncmp m (a + 1) (b + 1) n)
    else sub_ℕ (m a) (m b)

-- The inner `none` is NULL.
unfoldable pub strchr_loop : ℕ → Memory → ℕ → ℕ → Option (Option ℕ)
strchr_loop zero m s want = none
strchr_loop (suc fuel) m s want =
    let rest = strchr_loop fuel m (s + 1) want in
    if not (m s == want) && not (m s == 0)
    then rest
    else if m s == want
    then some (some s)
    else if m s == 0
    then some none
    else some (some s)

unfoldable pub strchr : ℕ → Memory → ℕ → ℕ → Option (Option ℕ)
unfolding strchr_loop
strchr fuel m s want = strchr_loop fuel m s (want % 256)

-- With `lastchar`
unfoldable pub strrchr_loop : ℕ → Memory → ℕ → ℕ → Option ℕ → Option (Option ℕ)
strrchr_loop zero m s want last = none
strrchr_loop (suc fuel) m s want last =
    let last' = if m s == want then some s else last in
    let rest = strrchr_loop fuel m (s + 1) want last' in if m s == 0 then some last' else rest

unfoldable pub strrchr : ℕ → Memory → ℕ → ℕ → Option (Option ℕ)
unfolding strrchr_loop
strrchr fuel m s want = strrchr_loop fuel m s (want % 256) none

-- The loops over the string in strcspn: the characters before the first that `stops`. `sc` holds
-- none of them: the test is `c == sc`, `c == sc1 || c == sc2` or the inner loop over the set.
unfoldable pub count_until : ℕ → Memory → ℕ → (ℕ → Option Bool) → Option ℕ
count_until zero m s stops = none
count_until (suc fuel) m s stops =
    let rest = (count_until fuel m (s + 1) stops >>= λ n. some (suc n)) in
    if m s == 0 then some 0 else do stop ← stops (m s); if stop then some 0 else rest

-- The inner loop `while ((sc=*search++) != '\0') if (sc == c) return count;`
unfoldable pub in_charset : ℕ → Memory → ℕ → ℕ → Option Bool
in_charset zero m search c = none
in_charset (suc fuel) m search c =
    let rest = in_charset fuel m (search + 1) c in
    if m search == 0 then some false else if m search == c then some true else rest

unfoldable pub strcspn : ℕ → Memory → ℕ → ℕ → Option ℕ
unfolding strlen count_until in_charset
strcspn fuel m s charset =
    if m charset == 0
    then strlen fuel m s
    else if m (charset + 1) == 0
    then count_until fuel m s (λ c. some (c == m charset))
    else if m (charset + 2) == 0
    then count_until fuel m s (λ c. some ((c == m charset) || (c == m (charset + 1))))
    else count_until fuel m s (in_charset fuel m charset)

-- The inner loop of strspn and the test behind it: whether the loop came to the terminator, which
-- it does over characters that are all `c`.
unfoldable pub runs_out : ℕ → Memory → ℕ → ℕ → Option Bool
runs_out zero m search c = none
runs_out (suc fuel) m search c =
    let rest = runs_out fuel m (search + 1) c in
    if m search == 0 then some true else if m search == c then rest else some false

unfoldable pub strspn : ℕ → Memory → ℕ → ℕ → Option ℕ
unfolding count_until runs_out
strspn fuel m s charset = count_until fuel m s (runs_out fuel m charset)

-- `!diff`
abbrev pub is_zero : ℤ → Bool
is_zero (pos n) = n == 0
is_zero (negsuc n) = false

-- The loop of strstr for the offsets that are left, `a` at the offset
unfoldable pub strstr_loop : ℕ → Memory → ℕ → ℕ → ℕ → Option ℕ
unfolding strncmp
strstr_loop zero m a b blen = none
strstr_loop (suc turns) m a b blen =
    if (m a == m b) && is_zero (strncmp m a b blen)
    then some a
    else strstr_loop turns m (a + 1) b blen

-- How often `offset <= alen - blen` holds, for the lengths as `int`s
abbrev pub turns_of : ℤ → ℕ
turns_of (pos n) = n + 1
turns_of (negsuc n) = 0

abbrev pub sub_int : ℤ → ℤ → ℤ
sub_int (pos m) (pos n) = sub_ℕ m n
sub_int (pos m) (negsuc n) = pos (m + n + 1)
sub_int (negsuc m) (pos n) = negsuc (m + n)
sub_int (negsuc m) (negsuc n) = sub_ℕ n m

-- `blen` is passed on as a `size_t`.
unfoldable pub strstr : ℕ → Memory → ℕ → ℕ → Option (Option ℕ)
unfolding strlen strstr_loop
strstr fuel m a b = do
  blen ← strlen fuel m b
  alen ← strlen fuel m a
  some (strstr_loop (turns_of (sub_int (as_int alen) (as_int blen))) m a b (int_size blen))
