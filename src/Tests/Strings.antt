-- ===== src/Tests/Strings.antt =====
-- The string functions and the character tables, on concrete values.
use riscos64_simple_binaries.Base.{
  ◌+◌, ℕ, refl, Option, none, some, arith, ltb, codes, get_or, pos, ◌-◌, ◌≡◌, if◌then◌else◌,
}
use riscos64_simple_binaries.Memory.{Memory}
use riscos64_simple_binaries.Str.{strcspn, strrchr, strstr}
use riscos64_simple_binaries.Str.Span.{member, until, strcspn_lem}
use riscos64_simple_binaries.Str.Find.{IsFirstMatch, IsLast, strstr-IsFirstMatch, strrchr-IsLast}
use riscos64_simple_binaries.Ctypes.{tolower}

-- "banana" at 100, "nan" at 200
abbrev strings : Memory
strings a =
    if ltb a 200 then get_or (codes "banana") (a - 100) 0 else get_or (codes "nan") (a - 200) 0

strcspn_lem_example :
    strcspn 10 strings 100 200 ≡ some (until (λ c. member c (codes "nan")) (codes "banana"))
strcspn_lem_example =
    strcspn_lem 10 strings 100 200 (codes "banana") (codes "nan") (omega arith) (omega arith)
      (omega arith) (omega arith)

strstr-IsFirstMatch_example :
    (r : Option ℕ) × (strstr 10 strings 100 200 ≡ some r) × IsFirstMatch strings 100 200 3 4 r
strstr-IsFirstMatch_example =
    strstr-IsFirstMatch 10 strings 100 200 b'n' (codes "banana") (codes "an") (omega arith)
      (omega arith) (omega arith) (omega arith) (omega arith) (omega arith)

strrchr-IsLast_example :
    (r : Option ℕ) × (strrchr 10 strings 100 (b'a' + 256) ≡ some r)
    × IsLast strings 100 b'a' 7 none r
strrchr-IsLast_example =
    strrchr-IsLast 10 strings 100 (b'a' + 256) (codes "banana") (omega arith) (omega arith)

-- 256 is let through to the table of 256 entries.
tolower_outside : tolower (pos 256) ≡ none
unfolding tolower
tolower_outside = refl
