-- ===== src/Memory/Copy.antt =====
-- clib/string/memcpy.c, built with OPTIMISE_ALIGNED_COPIES: a copy by words where both pointers are
-- aligned, then by four bytes, then by one.
use riscos64_simple_binaries.Base.{
  ℕ, zero, suc, ap, inl, inr, arith, ltb, leb, Bool-cases, ◌+◌, ◌-◌, ◌%◌, ◌≤◌, ◌≡◌, ◌∙◌, ◌&&◌, ◌==◌,
  if◌then◌else◌,
}
use riscos64_simple_binaries.Memory.{Memory, copy_up}
use riscos64_simple_binaries.Memory.Blit.{blit, Disjoint}
use riscos64_simple_binaries.Memory.Move.{copy_up-eq-blit}

-- The variables of the loops: memory, `dst` (or `lldst`), `src` (or `llsrc`) and `size`.
record Copy : Type 0 where
  mem : Memory
  dst : ℕ
  src : ℕ
  left : ℕ

-- `*lldst++ = *llsrc++`: the eight bytes are loaded before any is stored.
copy_word : Copy → Copy
copy_word c = record {
  mem = blit c.mem c.dst c.src 8;
  dst = c.dst + 8;
  src = c.src + 8;
  left = c.left - 8;
}

-- `while (size >= 8*4)`, with fuel
words32 : ℕ → Copy → Copy
words32 zero c = c
words32 (suc fuel) c =
    let rest = words32 fuel (copy_word (copy_word (copy_word (copy_word c)))) in
    if leb 32 c.left then rest else c

-- `while (size >= 8)`
words8 : ℕ → Copy → Copy
words8 zero c = c
words8 (suc fuel) c = let rest = words8 fuel (copy_word c) in if leb 8 c.left then rest else c

-- `dst[0] = src[0]; … dst[3] = src[3]`
copy_four : Copy → Copy
copy_four c = record {
  mem = copy_up 4 c.mem c.dst c.src;
  dst = c.dst + 4;
  src = c.src + 4;
  left = c.left - 4;
}

-- `while (size >= 4)`
fours : ℕ → Copy → Copy
fours zero c = c
fours (suc fuel) c = let rest = fours fuel (copy_four c) in if leb 4 c.left then rest else c

-- The aligned part; each round takes at least one byte off `size`, so `size` rounds are enough.
aligned_part : ℕ → Copy → Copy
aligned_part size c =
    if ltb 8 size && (c.dst % 4 == 0) && (c.src % 4 == 0) then words8 size (words32 size c) else c

unfoldable pub memcpy : Memory → ℕ → ℕ → ℕ → Memory
unfolding aligned_part words8 words32 fours copy_word copy_four copy_up
memcpy m dst src size =
    let c =
      fours size (aligned_part size (record { mem = m; dst = dst; src = src; left = size })) in
    copy_up c.left c.mem c.dst c.src

module _ (m : Memory) (d s n : ℕ) (apart : Disjoint d s n) where
  -- `size` has gone down by the bytes that are copied, and those stand in their place.
  record Progress (c : Copy) : Type 0 where
    left_le : c.left ≤ n
    dst_at : c.dst ≡ d + (n - c.left)
    src_at : c.src ≡ s + (n - c.left)
    copied : (a : ℕ) → c.mem a ≡ blit m d s (n - c.left) a

  -- Copying `k` more bytes from where the copy stands.
  advance :
      (c : Copy) (k a : ℕ)
      → k ≤ c.left
      → Progress c
      → blit c.mem c.dst c.src k a ≡ blit m d s (n - (c.left - k)) a
  advance c k a h p =
      ground (arith, p.copied a, p.copied (s + (a - d)), p.copied (c.src + (a - c.dst)))

  copy_word-Progress : (c : Copy) → 8 ≤ c.left → Progress c → Progress (copy_word c)
  unfolding copy_word
  copy_word-Progress c h p = record {
    left_le = omega arith;
    dst_at = omega arith;
    src_at = omega arith;
    copied = λ a. advance c 8 a h p;
  }

  copy_four-Progress : (c : Copy) → 4 ≤ c.left → Progress c → Progress (copy_four c)
  unfolding copy_four
  copy_four-Progress c h p = record {
    left_le = omega arith;
    dst_at = omega arith;
    src_at = omega arith;
    copied = λ a. copy_up-eq-blit 4 c.mem c.dst c.src a (omega arith) ∙ advance c 4 a h p;
  }

  words8-Progress : (fuel : ℕ) (c : Copy) → Progress c → Progress (words8 fuel c)
  unfolding words8
  words8-Progress zero c p = p
  words8-Progress (suc fuel) c p = elim (Bool-cases (leb 8 c.left)) [
    | inl more ↦
        rw more (words8-Progress fuel (copy_word c) (copy_word-Progress c (ground arith) p))
    | inr done ↦ rw done p
  ]

  four_words :
      (c : Copy)
      → 32 ≤ c.left
      → Progress c
      → Progress (copy_word (copy_word (copy_word (copy_word c))))
  unfolding copy_word
  four_words c h p =
      let p₁ = copy_word-Progress c (omega arith) p in
      let p₂ = copy_word-Progress (copy_word c) (omega arith) p₁ in
      let p₃ = copy_word-Progress (copy_word (copy_word c)) (omega arith) p₂ in
      copy_word-Progress (copy_word (copy_word (copy_word c))) (omega arith) p₃

  words32-Progress : (fuel : ℕ) (c : Copy) → Progress c → Progress (words32 fuel c)
  unfolding words32
  words32-Progress zero c p = p
  words32-Progress (suc fuel) c p = elim (Bool-cases (leb 32 c.left)) [
    | inl more ↦ rw more (words32-Progress fuel _ (four_words c (ground arith) p))
    | inr done ↦ rw done p
  ]

  fours-Progress : (fuel : ℕ) (c : Copy) → Progress c → Progress (fours fuel c)
  unfolding fours
  fours-Progress zero c p = p
  fours-Progress (suc fuel) c p = elim (Bool-cases (leb 4 c.left)) [
    | inl more ↦ rw more (fours-Progress fuel _ (copy_four-Progress c (ground arith) p))
    | inr done ↦ rw done p
  ]

  aligned_part-Progress : (size : ℕ) (c : Copy) → Progress c → Progress (aligned_part size c)
  unfolding aligned_part
  aligned_part-Progress size c p =
      elim (Bool-cases (ltb 8 size && (c.dst % 4 == 0) && (c.src % 4 == 0))) [
        | inl words ↦ rw words (words8-Progress size _ (words32-Progress size c p))
        | inr bytes ↦ rw bytes p
      ]

  -- The last loop copies what is left.
  finish : (c : Copy) (a : ℕ) → Progress c → copy_up c.left c.mem c.dst c.src a ≡ blit m d s n a
  finish c a p =
      let all : n - (c.left - c.left) ≡ n = omega arith in
      copy_up-eq-blit c.left c.mem c.dst c.src a (omega arith)
      ∙ advance c c.left a (omega arith) p
      ∙ ap (λ k. blit m d s k a) all

-- For areas that do not overlap `memcpy` copies `size` bytes and changes nothing else, at every
-- alignment of the two pointers and every size.
pub memcpy-eq-blit :
    (m : Memory) (dst src size a : ℕ)
    → Disjoint dst src size
    → memcpy m dst src size a ≡ blit m dst src size a
unfolding memcpy
memcpy-eq-blit m dst src size a h = finish m dst src size h _ a (
    fours-Progress m dst src size h size _ (
      aligned_part-Progress m dst src size h size
        (record { mem = m; dst = dst; src = src; left = size }) start))
  where
    start : Progress m dst src size h (record { mem = m; dst = dst; src = src; left = size })
    start = record {
      left_le = omega arith;
      dst_at = omega arith;
      src_at = omega arith;
      copied = λ b. ground arith;
    }
