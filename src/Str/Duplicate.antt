-- ===== src/Str/Duplicate.antt =====
-- clib/string/strdup.c, without FORTIFY: `strdup`, `strndup`, and the 64-bit build of `stricmp`.
pub mod Laws
use riscos64_simple_binaries.Base.{
  ℕ, zero, suc, not, Option, none, some, ltb, leb, ℤ, pos, negsuc, int_size, ◌>>=◌, ◌+◌, ◌%◌, ◌^◌,
  ◌&&◌, ◌==◌, if◌then◌else◌,
}
use riscos64_simple_binaries.Memory.{Memory, store}
use riscos64_simple_binaries.Memory.Copy.{memcpy}
use riscos64_simple_binaries.Str.{strlen, strncpy}
use riscos64_simple_binaries.Heap.Impl.{Impl}
use riscos64_simple_binaries.Heap.Malloc.{State, OsModule, malloc}

-- Behind `malloc`: a block is filled by `fill`. The inner `none` is the exit through the heap.
abbrev pub filled : {H : Type 0} → (Memory → ℕ → Memory) → Option ℕ × State H → Option ℕ × State H
filled fill (none, s) = (none, s)
filled fill (some p, s) = if p == 0 then (some 0, s) else (some p, record s { mem = fill s.mem p })

module _ {H : Type 0} (impl : Impl H) (os : OsModule H) where
  unfoldable pub strdup : ℕ → State H → ℕ → Option (Option ℕ × State H)
  unfolding strlen malloc
  strdup fuel s x = do
    n ← strlen fuel s.mem x
    some (filled (λ m p. memcpy m p x (int_size (n + 1))) (malloc impl os s (int_size (n + 1))))

  unfoldable pub strndup : State H → ℕ → ℕ → Option ℕ × State H
  unfolding malloc strncpy
  strndup s str n =
      filled (λ m p. store (strncpy m p str n) (p + n) 0) (malloc impl os s ((n + 1) % 2 ^ 64))

-- A capital letter made small
abbrev pub small : ℕ → ℕ
small c = if leb b'A' c && leb c b'Z' then c + 32 else c

unfoldable pub stricmp : ℕ → Memory → ℕ → ℕ → Option ℤ
stricmp zero m a b = none
stricmp (suc fuel) m a b =
    let one = small (m a) in
    let two = small (m b) in
    let rest = stricmp fuel m (a + 1) (b + 1) in
    if not (one == two)
    then some (if ltb one two then negsuc 0 else pos 1)
    else if one == 0
    then some (pos 0)
    else rest
