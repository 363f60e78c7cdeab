-- ===== src/Memory/Search.antt =====
-- clib/string/memchr.c and memcmp.c. A `char` is unsigned on AArch64.
use riscos64_simple_binaries.Base.{
  ℕ, zero, suc, refl, inl, inr, Option, none, some, arith, Bool-cases, ℤ, pos, sub_ℕ, ◌+◌, ◌≤◌, ◌<◌,
  ◌≡◌, ◌≢◌, ◌↔◌, ◌==◌, if◌then◌else◌,
}
use native.Mathlib.Nat.{add-zero}
use riscos64_simple_binaries.Memory.{Memory}

-- The pointer returned, `none` for NULL.
unfoldable pub memchr : Memory → ℕ → ℕ → ℕ → Option ℕ
memchr m s want zero = none
memchr m s want (suc n) = if m s == want then some s else memchr m (s + 1) want n

-- `p` points at the first `want` of the `n` bytes at `s`, or there is none and `p` is NULL.
abbrev pub IsFirst : Memory → ℕ → ℕ → ℕ → Option ℕ → Type 0
IsFirst m s want n none = (q : ℕ) → s ≤ q → q < s + n → m q ≢ want
IsFirst m s want n (some p) =
    (s ≤ p) × (p < s + n) × (m p ≡ want) × ((q : ℕ) → s ≤ q → q < p → m q ≢ want)

-- `memchr` finds the first occurrence in the `n` bytes, and returns NULL only if there is none.
memchr-IsFirst : (m : Memory) (s want n : ℕ) → IsFirst m s want n (memchr m s want n)
unfolding memchr
memchr-IsFirst m s want zero = λ q h k. absurd (omega arith)
memchr-IsFirst m s want (suc n) = elim (Bool-cases (m s == want)) [
  | inl hit ↦ rw hit (omega arith, omega arith, ground arith, λ q h k. absurd (omega arith))
  | inr miss ↦
      rw miss (extend (memchr m (s + 1) want n) (memchr-IsFirst m (s + 1) want n) (ground arith))
]
  where
    later : (q : ℕ) → m s ≢ want → s ≤ q → (s + 1 ≤ q → m q ≢ want) → m q ≢ want
    later q ne h k = elim (Bool-cases (q == s)) [
      | inl e ↦ let e' : q ≡ s = ground arith in rw e' ne
      | inr e ↦ k (ground arith)
    ]

    extend : (r : Option ℕ) → IsFirst m (s + 1) want n r → m s ≢ want → IsFirst m s want (suc n) r
    extend none f ne = λ q h k. later q ne h (λ h'. f q h' (omega arith))
    extend (some p) f ne = (omega arith, omega arith, f.2, λ q h k. later q ne h (λ h'. f.3 q h' k))

-- The difference of the first bytes that differ, or 0.
unfoldable pub memcmp : Memory → ℕ → ℕ → ℕ → ℤ
memcmp m a b zero = pos 0
memcmp m a b (suc n) = if m a == m b then memcmp m (a + 1) (b + 1) n else sub_ℕ (m a) (m b)

-- The two areas of `n` bytes hold the same bytes.
abbrev pub Alike : Memory → ℕ → ℕ → ℕ → Type 0
Alike m a b n = (i : ℕ) → i < n → m (a + i) ≡ m (b + i)

Alike-suc : (m : Memory) (a b n : ℕ) → m a ≡ m b → Alike m (a + 1) (b + 1) n → Alike m a b (suc n)
Alike-suc m a b n e h zero k = ground (arith, add-zero a, add-zero b)
Alike-suc m a b n e h (suc i) k = ground (arith, h i)

Alike-tail : (m : Memory) (a b n : ℕ) → Alike m a b (suc n) → Alike m (a + 1) (b + 1) n
Alike-tail m a b n h i k = ground (arith, h (suc i))

-- `memcmp` returns 0 exactly when the `n` bytes of the two areas are the same.
pub memcmp-eq_zero_iff : (m : Memory) (a b n : ℕ) → (memcmp m a b n ≡ pos 0) ↔ Alike m a b n
unfolding memcmp
memcmp-eq_zero_iff m a b zero = (λ e i h. absurd (omega arith), λ h. refl)
memcmp-eq_zero_iff m a b (suc n) = elim (Bool-cases (m a == m b)) [
  | inl e ↦ rw e (
    λ z. Alike-suc m a b n (ground arith) ((memcmp-eq_zero_iff m (a + 1) (b + 1) n).0 z),
    λ h. (memcmp-eq_zero_iff m (a + 1) (b + 1) n).1 (Alike-tail m a b n h),
  )
  | inr ne ↦ rw ne (
    λ z. absurd (ground arith),
    λ h. absurd (ground (arith, h 0 (omega arith), add-zero a, add-zero b)),
  )
]
