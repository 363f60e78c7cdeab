-- ===== src/Heap/Accumulator/Laws.antt =====
-- Blocks of the accumulator heap do not overlap, and keep their bytes when they are resized.
use riscos64_simple_binaries.Base.{
  ◌%◌, ap, ◌^◌, ℕ, refl, inl, inr, false, List, [], arith, leb, ==_iff, Bool-cases, ◌+◌, ◌-◌, ◌≤◌,
  ◌<◌, ◌≡◌, ◌≢◌, ◌⊎◌, ◌||◌, ◌∷◌, ◌==◌, if◌then◌else◌,
}
use riscos64_simple_binaries.Memory.{Memory}
use riscos64_simple_binaries.Memory.Copy.{memcpy, memcpy-eq-blit}
use riscos64_simple_binaries.Heap.Accumulator.{has_left, Heap, alloc, free, realloc}

-- The blocks in use, each a start and a size: they lie between the base and the mark, in the order
-- in which they were given, the latest first, and the latest ends at the mark if it can be taken back.
abbrev pub Blocks : Type 0
Blocks = List (ℕ × ℕ)

abbrev pub Below : ℕ → ℕ → Blocks → Type 0
Below base top [] = base ≤ top
Below base top ((p, n) ∷ bs) = (p + n ≤ top) × Below base p bs

-- `last_alloc` is NULL, or the start of the first block of the list, which then ends at the mark.
abbrev pub LastIs : Heap → Blocks → Type 0
LastIs h [] = h.last_alloc ≡ 0
LastIs h ((p, n) ∷ bs) = (h.last_alloc ≡ 0) ⊎ ((h.last_alloc ≡ p) × (p + n ≡ h.hwm))

pub record IsHeap (base : ℕ) (h : Heap) (bs : Blocks) : Type 0 where
  pub base_pos : 0 < base
  pub ordered : Below base h.hwm bs
  pub last : LastIs h bs

Below-base : (base top : ℕ) (bs : Blocks) → Below base top bs → base ≤ top
Below-base base top [] h = h
Below-base base top ((p, n) ∷ bs) (l, h) = omega (arith, Below-base base p bs h)

Below-up : (base top top' : ℕ) (bs : Blocks) → top ≤ top' → Below base top bs → Below base top' bs
Below-up base top top' [] l h = omega arith
Below-up base top top' ((p, n) ∷ bs) l (k, h) = (omega arith, h)

-- An allocation below the upper half of the addresses either fits or fails.
pub alloc-cases :
    (h : Heap) (size : ℕ)
    → h.hwm + size < 2 ^ 63
    → h.heap_end < 2 ^ 63
    → ((h.hwm + size < h.heap_end)
        × (alloc h size ≡ (h.hwm, record h { hwm = h.hwm + size; last_alloc = h.hwm })))
      ⊎ ((h.heap_end ≤ h.hwm + size) × (alloc h size ≡ (0, record h { hwm = h.hwm + size })))
unfolding alloc
alloc-cases h size b e =
    let mark : (h.hwm + size) % 2 ^ 64 ≡ h.hwm + size = omega arith in
    elim (Bool-cases (has_left (record h { hwm = h.hwm + size }))) [
      | inl fits ↦ inl (ground arith, rw (mark, fits) refl)
      | inr full ↦ inr (ground arith, rw (mark, full) refl)
    ]

-- Where the addresses concerned lie below 2^63, a successful allocation gives a block above all blocks in use and below the end of the heap, and
-- the heap stays well formed with it.
pub alloc-IsHeap :
    (base size : ℕ) (h : Heap) (bs : Blocks)
    → IsHeap base h bs
    → h.hwm + size < 2 ^ 63
    → h.heap_end < 2 ^ 63
    → (alloc h size).0 ≢ 0
    → let (p, h') = alloc h size in
      IsHeap base h' ((p, size) ∷ bs) × (base ≤ p) × (p ≡ h.hwm) × (p + size < h.heap_end)
alloc-IsHeap base size h bs v b e ne = elim (alloc-cases h size b e) [
  | inl (fits, r) ↦ rw r (
    record { base_pos = v.base_pos; ordered = (omega arith, v.ordered); last = inr (refl, refl) },
    Below-base base h.hwm bs v.ordered,
    refl,
    fits,
  )
  | inr (full, r) ↦ absurd (ne (ap (λ x. x.0) r))
]

-- An allocation that fails leaves the mark past the end of the heap, and then a later allocation
-- fails too, however small, as long as the addresses lie below 2^63.
alloc_fails_on :
    (base size size' : ℕ) (h : Heap) (bs : Blocks)
    → IsHeap base h bs
    → h.hwm + size + size' < 2 ^ 63
    → h.heap_end < 2 ^ 63
    → (alloc h size).0 ≡ 0
    → (alloc (alloc h size).1 size').0 ≡ 0
alloc_fails_on base size size' h bs v b b' e =
    let low = Below-base base h.hwm bs v.ordered in
    elim (alloc-cases h size (omega arith) b') [
      | inl (fits, r) ↦ absurd (omega (arith, v.base_pos, low, ap (λ x. x.0) r))
      | inr (full, r) ↦ rw r (elim (alloc-cases (record h { hwm = h.hwm + size }) size' b b') [
        | inl (fits, r') ↦ absurd (omega arith)
        | inr (full', r') ↦ ap (λ x. x.0) r'
      ])
    ]

-- Where a block that grows comes to lie: at its old place, or behind all blocks.
abbrev place : Heap → ℕ → ℕ
place h block = if block == h.last_alloc then block else h.hwm

alloc-free :
    (h : Heap) (block new_size old_size : ℕ)
    → block + old_size ≤ h.hwm
    → h.hwm + new_size < 2 ^ 63
    → h.heap_end < 2 ^ 63
    → (block ≢ h.last_alloc) ⊎ (block + old_size ≡ h.hwm)
    → let p = (alloc (free h block old_size) new_size).0 in (p ≡ 0) ⊎ (p ≡ place h block)
unfolding free
alloc-free h block new_size old_size inside b b' latest =
    elim (Bool-cases (block == h.last_alloc)) [
      | inl last ↦
          let mark : (h.hwm + 2 ^ 64 - old_size) % 2 ^ 64 ≡ block = ground arith in
          rw (last, mark)
            (elim (alloc-cases (record h { last_alloc = 0; hwm = block }) new_size (omega arith)
              b') [ inl (fits, r) ↦ inr (ap (λ x. x.0) r) | inr (full, r) ↦ inl (ap (λ x. x.0) r) ])
      | inr other ↦ rw other (elim (alloc-cases h new_size b b') [
        | inl (fits, r) ↦ inr (ap (λ x. x.0) r)
        | inr (full, r) ↦ inl (ap (λ x. x.0) r)
      ])
    ]

copied :
    (h : Heap) (m : Memory) (block old_size p i : ℕ)
    → block + old_size ≤ h.hwm
    → (p ≡ 0) ⊎ (p ≡ place h block)
    → p ≢ 0
    → i < old_size
    → (if (p == block) || (p == 0) then m else memcpy m p block old_size) (p + i) ≡ m (block + i)
copied h m block old_size p i inside at ne l = elim (Bool-cases (p == block)) [
  | inl same ↦ rw same (rw ((==_iff p block).0 same))
  | inr moved ↦
      let not_null : (p == 0) ≡ false = ground arith in
      let behind : block + old_size ≤ p = ground arith in
      let copy = memcpy-eq-blit m p block old_size (p + i) (inr behind) in
      let offset : p + i - p ≡ i = omega arith in rw (moved, not_null) (ground (arith, copy))
]

-- Resizing a block of the heap (which ends at the mark if it can be taken back), where it does not
-- fail and its addresses lie below 2^63, keeps the bytes that both sizes have: at the new place they are what the old place held.
realloc_keeps :
    (h : Heap) (m : Memory) (block new_size old_size i : ℕ)
    → block + old_size ≤ h.hwm
    → h.hwm + new_size < 2 ^ 63
    → h.heap_end < 2 ^ 63
    → (block ≢ h.last_alloc) ⊎ (block + old_size ≡ h.hwm)
    → (realloc h m block new_size old_size).0 ≢ 0
    → i < old_size
    → i < new_size
    → let (p, h', m') = realloc h m block new_size old_size in m' (p + i) ≡ m (block + i)
unfolding realloc
realloc_keeps h m block new_size old_size i inside b b' latest ne l k =
    elim (Bool-cases (leb new_size old_size)) [
      | inl less ↦ rw less
      | inr more ↦ rw more (
          copied h m block old_size (alloc (free h block old_size) new_size).0 i inside
            (alloc-free h block new_size old_size inside b b' latest) (rw more at ne) l)
    ]
