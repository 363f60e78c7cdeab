-- ===== src/Memory/Blit.antt =====
-- The specification of a copy: what memory holds when `n` bytes have been moved at once.
use riscos64_simple_binaries.Base.{ℕ, Bool, ltb, leb, ◌+◌, ◌-◌, ◌≤◌, ◌⊎◌, ◌&&◌, if◌then◌else◌}
use riscos64_simple_binaries.Memory.{Memory}

-- Address `a` lies in the `n` bytes from `p`.
abbrev pub within : ℕ → ℕ → ℕ → Bool
within p n a = leb p a && ltb a (p + n)

abbrev pub blit : Memory → ℕ → ℕ → ℕ → Memory
blit m dst src n a = if within dst n a then m (src + (a - dst)) else m a

abbrev pub Disjoint : ℕ → ℕ → ℕ → Type 0
Disjoint dst src n = (dst + n ≤ src) ⊎ (src + n ≤ dst)
