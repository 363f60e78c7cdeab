-- ===== src/Memory/Fill.antt =====
-- clib/string/memset.c: a fill by bytes up to an alignment, then by 64-bit words, then by bytes.
-- `c` is a non-negative `int` below 2^23, so that `c << 8` does not overflow.
use Prim.Native.Nat.{bit_or}
use riscos64_simple_binaries.Base.{
  ℕ, zero, suc, refl, inl, inr, true, arith, ltb, leb, ==_iff, Bool-cases, all_below,
  all_below_sound, ◌+◌, ◌-◌, ◌*◌, ◌/◌, ◌%◌, ◌^◌, ◌≤◌, ◌<◌, ◌≡◌, ◌||◌, ◌==◌, if◌then◌else◌,
}
use riscos64_simple_binaries.Memory.{Memory, store}
use riscos64_simple_binaries.Memory.Blit.{within}

-- `*dst++ = c`, `n` times
fill_bytes : ℕ → Memory → ℕ → ℕ → Memory
fill_bytes zero m dst c = m
fill_bytes (suc n) m dst c = fill_bytes n (store m dst (c % 256)) (dst + 1) c

-- `c64`
splat : ℕ → ℕ
splat c =
    let c16 = bit_or c (c * 2 ^ 8) in
    let c32 = bit_or c16 (c16 * 2 ^ 16 % 2 ^ 64) in bit_or c32 (c32 * 2 ^ 32 % 2 ^ 64)

-- Byte `i` of a little-endian word.
word_byte : ℕ → ℕ → ℕ
word_byte w i = w / 2 ^ (8 * i) % 256

record Fill : Type 0 where
  mem : Memory
  dst : ℕ
  left : ℕ

-- `*dst64++ = c64; size -= 8`
fill_word : ℕ → Fill → Fill
fill_word c s = record {
  mem = λ a. if within s.dst 8 a then word_byte (splat c) (a - s.dst) else s.mem a;
  dst = s.dst + 8;
  left = s.left - 8;
}

-- `while (size >= 32)`, with fuel
fill_words32 : ℕ → ℕ → Fill → Fill
fill_words32 zero c s = s
fill_words32 (suc fuel) c s =
    let rest = fill_words32 fuel c (fill_word c (fill_word c (fill_word c (fill_word c s)))) in
    if leb 32 s.left then rest else s

-- `while (size >= 8)`
fill_words8 : ℕ → ℕ → Fill → Fill
fill_words8 zero c s = s
fill_words8 (suc fuel) c s =
    let rest = fill_words8 fuel c (fill_word c s) in if leb 8 s.left then rest else s

-- The first part: `15 - (dst & 15)` bytes one by one, if `dst` is not aligned and they fit.
fill_start : ℕ → Fill → Fill
fill_start c s =
    let k = 15 - s.dst % 16 in
    if (s.dst % 16 == 0) || ltb s.left k
    then s
    else record { mem = fill_bytes k s.mem s.dst c; dst = s.dst + k; left = s.left - k }

fill_rest : ℕ → ℕ → Fill → Fill
fill_rest fuel c s = if ltb s.left 16 then s else fill_words8 fuel c (fill_words32 fuel c s)

unfoldable pub memset : Memory → ℕ → ℕ → ℕ → Memory
unfolding fill_rest fill_start fill_words8 fill_words32 fill_word word_byte splat fill_bytes
memset m dst c size =
    let s = fill_rest size c (fill_start c (record { mem = m; dst = dst; left = size })) in
    fill_bytes s.left s.mem s.dst c

-- The `n` bytes from `dst` hold `c`.
abbrev pub filled : Memory → ℕ → ℕ → ℕ → Memory
filled m dst n c a = if within dst n a then c else m a

fill_bytes-eq-filled :
    (n : ℕ) (m : Memory) (dst c a : ℕ) → c < 256 → fill_bytes n m dst c a ≡ filled m dst n c a
unfolding fill_bytes
fill_bytes-eq-filled zero m dst c a h = ground arith
fill_bytes-eq-filled (suc n) m dst c a h =
    ground (arith, fill_bytes-eq-filled n (store m dst (c % 256)) (dst + 1) c a)

splat_table : all_below 256 (λ c. all_below 8 (λ i. word_byte (splat c) i == c)) ≡ true
unfolding all_below splat word_byte
splat_table = refl

-- Every byte of `c64` is `c`.
word_byte-splat : (c i : ℕ) → c < 256 → i < 8 → word_byte (splat c) i ≡ c
word_byte-splat c i hc hi = (==_iff _ c).0 (
    all_below_sound 8 (λ j. word_byte (splat c) j == c) i
      (all_below_sound 256 (λ d. all_below 8 (λ j. word_byte (splat d) j == d)) c splat_table hc)
      hi)

module _ (m : Memory) (d n c : ℕ) (byte : c < 256) where
  record Filling (s : Fill) : Type 0 where
    left_le : s.left ≤ n
    dst_at : s.dst ≡ d + (n - s.left)
    done : (a : ℕ) → s.mem a ≡ filled m d (n - s.left) c a

  fill_word-Filling : (s : Fill) → 8 ≤ s.left → Filling s → Filling (fill_word c s)
  unfolding fill_word
  fill_word-Filling s h p = record {
    left_le = omega arith;
    dst_at = omega arith;
    done = λ a. ground (arith, p.done a, word_byte-splat c (a - s.dst));
  }

  fill_start-Filling : (s : Fill) → Filling s → Filling (fill_start c s)
  unfolding fill_start
  fill_start-Filling s p = elim (Bool-cases ((s.dst % 16 == 0) || ltb s.left (15 - s.dst % 16))) [
    | inl skip ↦ rw skip p
    | inr go ↦ rw go (record {
      left_le = omega arith;
      dst_at = ground arith;
      done = λ a.
          ground (arith, p.done a, fill_bytes-eq-filled (15 - s.dst % 16) s.mem s.dst c a byte);
    })
  ]

  fill_words8-Filling : (fuel : ℕ) (s : Fill) → Filling s → Filling (fill_words8 fuel c s)
  unfolding fill_words8
  fill_words8-Filling zero s p = p
  fill_words8-Filling (suc fuel) s p = elim (Bool-cases (leb 8 s.left)) [
    | inl more ↦
        rw more (fill_words8-Filling fuel (fill_word c s) (fill_word-Filling s (ground arith) p))
    | inr end ↦ rw end p
  ]

  four_words :
      (s : Fill)
      → 32 ≤ s.left
      → Filling s
      → Filling (fill_word c (fill_word c (fill_word c (fill_word c s))))
  unfolding fill_word
  four_words s h p =
      let p₁ = fill_word-Filling s (omega arith) p in
      let p₂ = fill_word-Filling (fill_word c s) (omega arith) p₁ in
      let p₃ = fill_word-Filling (fill_word c (fill_word c s)) (omega arith) p₂ in
      fill_word-Filling (fill_word c (fill_word c (fill_word c s))) (omega arith) p₃

  fill_words32-Filling : (fuel : ℕ) (s : Fill) → Filling s → Filling (fill_words32 fuel c s)
  unfolding fill_words32
  fill_words32-Filling zero s p = p
  fill_words32-Filling (suc fuel) s p = elim (Bool-cases (leb 32 s.left)) [
    | inl more ↦ rw more (fill_words32-Filling fuel _ (four_words s (ground arith) p))
    | inr end ↦ rw end p
  ]

  fill_rest-Filling : (fuel : ℕ) (s : Fill) → Filling s → Filling (fill_rest fuel c s)
  unfolding fill_rest
  fill_rest-Filling fuel s p = elim (Bool-cases (ltb s.left 16)) [
    | inl short ↦ rw short p
    | inr long ↦ rw long (fill_words8-Filling fuel _ (fill_words32-Filling fuel s p))
  ]

  -- The last loop fills what is left.
  finish : (s : Fill) (a : ℕ) → Filling s → fill_bytes s.left s.mem s.dst c a ≡ filled m d n c a
  finish s a p = ground (arith, fill_bytes-eq-filled s.left s.mem s.dst c a byte, p.done a)

-- `memset` sets the `size` bytes from `dst` to `c`, for a byte value `c`, at any alignment and size,
-- and leaves all other memory alone.
pub memset-eq-filled :
    (m : Memory) (dst c size a : ℕ) → c < 256 → memset m dst c size a ≡ filled m dst size c a
unfolding memset
memset-eq-filled m dst c size a h = finish m dst size c h _ a (
    fill_rest-Filling m dst size c h size _
      (fill_start-Filling m dst size c h (record { mem = m; dst = dst; left = size }) start))
  where
    start : Filling m dst size c h (record { mem = m; dst = dst; left = size })
    start = record { left_le = omega arith; dst_at = omega arith; done = λ b. ground arith }
