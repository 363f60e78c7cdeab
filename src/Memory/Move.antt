-- ===== src/Memory/Move.antt =====
-- `memmove` copies the bytes that stood at the source, however the two areas overlap.
use riscos64_simple_binaries.Base.{
  ℕ, zero, suc, inl, inr, arith, ltb, Bool-cases, ◌+◌, ◌-◌, ◌≤◌, ◌≡◌, ◌⊎◌,
}
use riscos64_simple_binaries.Memory.{Memory, store, copy_up, copy_down, memmove}
use riscos64_simple_binaries.Memory.Blit.{blit}

-- An upward copy is right unless the destination starts inside the source, past its start.
pub copy_up-eq-blit :
    (n : ℕ) (m : Memory) (dst src a : ℕ)
    → (dst ≤ src) ⊎ (src + n ≤ dst)
    → copy_up n m dst src a ≡ blit m dst src n a
unfolding copy_up
copy_up-eq-blit zero m dst src a h = ground arith
copy_up-eq-blit (suc n) m dst src a h =
    ground (arith, copy_up-eq-blit n (store m dst (m src)) (dst + 1) (src + 1) a)

-- A downward copy is right unless the source starts inside the destination, past its start.
copy_down-eq-blit :
    (n : ℕ) (m : Memory) (dst src a : ℕ)
    → src ≤ dst
    → copy_down n m (dst + n) (src + n) a ≡ blit m dst src n a
unfolding copy_down
copy_down-eq-blit zero m dst src a h = ground arith
copy_down-eq-blit (suc n) m dst src a h =
    let e : dst + suc n - 1 ≡ dst + n = omega arith in
    let e' : src + suc n - 1 ≡ src + n = omega arith in
    rw (e, e') (ground (arith, copy_down-eq-blit n (store m (dst + n) (m (src + n))) dst src a))

-- `memmove` leaves at each destination byte what stood at the source byte before the call, and
-- nothing else changes, for all areas, overlapping or not.
pub memmove-eq-blit : (m : Memory) (dst src n a : ℕ) → memmove m dst src n a ≡ blit m dst src n a
unfolding memmove
memmove-eq-blit m dst src n a = elim (Bool-cases (ltb dst src)) [
  | inl up ↦ rw up (copy_up-eq-blit n m dst src a (inl (ground arith)))
  | inr down ↦ rw down (copy_down-eq-blit n m dst src a (ground arith))
]
