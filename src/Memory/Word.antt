-- ===== src/Memory/Word.antt =====
-- A 64-bit word in memory, its lowest byte first.
use riscos64_simple_binaries.Base.{
  ℕ, refl, true, false, arith, ◌+◌, ◌-◌, ◌*◌, ◌/◌, ◌%◌, ◌^◌, ◌<◌, ◌≤◌, ◌≡◌, ◌⊎◌, if◌then◌else◌,
}
use riscos64_simple_binaries.Memory.{Memory}
use riscos64_simple_binaries.Memory.Blit.{within}

-- A `size_t` that is read from `p`
unfoldable pub word_at : Memory → ℕ → ℕ
word_at m p =
    m (p + 0)
    + 2 ^ 8 * m (p + 1)
    + 2 ^ 16 * m (p + 2)
    + 2 ^ 24 * m (p + 3)
    + 2 ^ 32 * m (p + 4)
    + 2 ^ 40 * m (p + 5)
    + 2 ^ 48 * m (p + 6)
    + 2 ^ 56 * m (p + 7)

-- A `size_t` that is stored at `p`
unfoldable pub set_word : Memory → ℕ → ℕ → Memory
set_word m p v a = if within p 8 a then v / 2 ^ (8 * (a - p)) % 256 else m a

set_word_byte : (m : Memory) (p v i : ℕ) → i < 8 → set_word m p v (p + i) ≡ v / 2 ^ (8 * i) % 256
unfolding set_word
set_word_byte m p v i h =
    let inside : within p 8 (p + i) ≡ true = ground arith in
    let back : p + i - p ≡ i = omega arith in rw (inside, back) refl

pub set_word_outside : (m : Memory) (p v a : ℕ) → (a < p) ⊎ (p + 8 ≤ a) → set_word m p v a ≡ m a
unfolding set_word
set_word_outside m p v a h = let outside : within p 8 a ≡ false = ground arith in rw outside refl

-- The bytes of a 64-bit number make it up.
bytes_lem :
    (v : ℕ)
    → v < 2 ^ 64
    → v / 2 ^ 0 % 256
        + 2 ^ 8 * (v / 2 ^ 8 % 256)
        + 2 ^ 16 * (v / 2 ^ 16 % 256)
        + 2 ^ 24 * (v / 2 ^ 24 % 256)
        + 2 ^ 32 * (v / 2 ^ 32 % 256)
        + 2 ^ 40 * (v / 2 ^ 40 % 256)
        + 2 ^ 48 * (v / 2 ^ 48 % 256)
        + 2 ^ 56 * (v / 2 ^ 56 % 256)
      ≡ v
bytes_lem v h = omega arith

pub word_at-set_word : (m : Memory) (p v : ℕ) → v < 2 ^ 64 → word_at (set_word m p v) p ≡ v
unfolding word_at
word_at-set_word m p v h = omega (
  arith,
  set_word_byte m p v 0 (omega arith),
  set_word_byte m p v 1 (omega arith),
  set_word_byte m p v 2 (omega arith),
  set_word_byte m p v 3 (omega arith),
  set_word_byte m p v 4 (omega arith),
  set_word_byte m p v 5 (omega arith),
  set_word_byte m p v 6 (omega arith),
  set_word_byte m p v 7 (omega arith),
  bytes_lem v h,
)
