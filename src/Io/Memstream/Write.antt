-- ===== src/Io/Memstream/Write.antt =====
-- A write to a memory stream is a write to a file at its position.
use Prim.Native.Nat.{min, max}
use riscos64_simple_binaries.Base.{
  as_int_small, ◌^◌, ℕ, zero, suc, refl, sym, ap, subst, inl, inr, Option, none, some, List, arith,
  ltb, leb, Bool-cases, length, get_or, pos, ◌+◌, ◌-◌, ◌≤◌, ◌<◌, ◌≡◌, ◌≢◌, ◌⊎◌, ◌&&◌, if◌then◌else◌,
}
use riscos64_simple_binaries.Memory.{Memory}
use riscos64_simple_binaries.Io.Memstream.{
  Stream, mem_free, write_space, Realloc, grow, copy_in, update_pointers, moved, mem_write_multiple,
  as_size, mem_ensure,
}

-- The position is within what has been written, and there is a byte for the terminator.
pub record IsValid (s : Stream) : Type 0 where
  pub ptr_in : s.ptr ≤ s.endptr
  pub end_in : s.endptr < s.bufsize

-- `s'` is `s` after the first `n` bytes have been written at its position: the bytes up to the new
-- extent are those of `bytes` or the old ones.
pub record Wrote (s : Stream) (bytes : List ℕ) (n : ℕ) (s' : Stream) : Type 0 where
  pub ptr_at : s'.ptr ≡ s.ptr + n
  pub end_at : s'.endptr ≡ max s.endptr (s.ptr + n)
  pub content :
      (i : ℕ)
      → i < s'.endptr
      → s'.mem i
        ≡ (if leb s.ptr i && ltb i (s.ptr + n) then get_or bytes (i - s.ptr) 0 else s.mem i)

copy_in-Wrote :
    (s : Stream) (bytes : List ℕ) (n : ℕ)
    → IsValid s
    → s.ptr + n < s.bufsize
    → IsValid (copy_in s bytes n).1 × Wrote s bytes n (copy_in s bytes n).1
unfolding copy_in
copy_in-Wrote s bytes n v h = (
  record { ptr_in = ground arith; end_in = ground arith },
  record { ptr_at = refl; end_at = ground arith; content = λ i k. refl },
)

nothing-Wrote : (s : Stream) (bytes : List ℕ) → IsValid s → Wrote s bytes 0 s
nothing-Wrote s bytes v = record {
  ptr_at = omega arith;
  end_at = omega arith;
  content = λ i k. ground arith;
}

mem_free_lem : (s : Stream) → IsValid s → mem_free s ≡ pos (s.bufsize - s.ptr - 1)
mem_free_lem s v = ground arith

-- The write with the space that there is.
write_space-Wrote :
    (s : Stream) (bytes : List ℕ)
    → IsValid s
    → let (n, s') = write_space s bytes (mem_free s) in
      IsValid s' × Wrote s bytes n s' × (n ≡ min (length bytes) (s.bufsize - s.ptr - 1))
unfolding write_space
write_space-Wrote s bytes v =
    rw (mem_free_lem s v) (elim (Bool-cases (ltb 0 (s.bufsize - s.ptr - 1))) [
      | inl some_room ↦ rw some_room (
          let n : ℕ =
            (if ltb (s.bufsize - s.ptr - 1) (length bytes)
              then s.bufsize - s.ptr - 1
              else length bytes) in
          let (v', w) = copy_in-Wrote s bytes n v (ground arith) in (v', w, ground arith))
      | inr full ↦ rw full (v, nothing-Wrote s bytes v, ground arith)
    ])

-- What growing leaves: what has been written, but for a zero at the position, and room.
record Grown (s : Stream) (need : ℕ) (s' : Stream) : Type 0 where
  valid : IsValid s'
  ptr_at : s'.ptr ≡ s.ptr
  end_at : s'.endptr ≡ s.endptr
  room : s'.ptr + need < s'.bufsize
  kept : (i : ℕ) → i < s.endptr → i ≢ s.ptr → s'.mem i ≡ s.mem i

grow-Grown :
    (s : Stream) (need newbuf : ℕ) (garbage : Memory)
    → IsValid s
    → Grown s need (update_pointers (moved s (s.endptr + (need + 256)) newbuf garbage))
unfolding update_pointers moved
grow-Grown s need newbuf garbage v = record {
  valid = record { ptr_in = v.ptr_in; end_in = omega arith };
  ptr_at = refl;
  end_at = refl;
  room = omega arith;
  kept = λ i k ne. ground arith;
}

Grown-Wrote :
    {s s' s'' : Stream} {need n : ℕ} {bytes : List ℕ}
    → Grown s need s'
    → (0 < n) ⊎ (s.ptr ≡ s.endptr)
    → Wrote s' bytes n s''
    → Wrote s bytes n s''
Grown-Wrote {s} {s'} {s''} g p w = record {
  ptr_at = ground (arith, w.ptr_at, g.ptr_at);
  end_at = ground (arith, w.end_at, g.end_at, g.ptr_at);
  content = λ i k. ground (arith, w.content i k, w.end_at, w.ptr_at, g.kept i, g.end_at, g.ptr_at);
}

-- The outcome of `__mem_write_multiple` for a `realloc` that may fail.
Outcome : Realloc → Stream → List ℕ → ℕ × Stream → Type 0
Outcome realloc s bytes (n, s') =
    IsValid s'
    × Wrote s bytes n s'
    × (n ≤ length bytes)
    × (min (length bytes) (s.bufsize - s.ptr - 1) ≤ n)
    × (realloc s.base (s.endptr + (length bytes + 256)) ≢ none → n ≡ length bytes)

write_kept :
    (realloc : Realloc) (s : Stream) (bytes : List ℕ)
    → IsValid s
    → (realloc s.base (s.endptr + (length bytes + 256)) ≢ none
        → length bytes ≤ s.bufsize - s.ptr - 1)
    → Outcome realloc s bytes (write_space s bytes (mem_free s))
unfolding Outcome
write_kept realloc s bytes v k =
    let (v', w, n) = write_space-Wrote s bytes v in
    (v', w, omega arith, omega arith, λ h. let l = k h in omega arith)

write-Grown :
    (realloc : Realloc) (s s' : Stream) (bytes : List ℕ)
    → IsValid s
    → s.bufsize - s.ptr - 1 ≤ length bytes
    → Grown s (length bytes) s'
    → Outcome realloc s bytes (write_space s' bytes (mem_free s'))
unfolding Outcome
write-Grown realloc s s' bytes v l g =
    let (v', w, n) = write_space-Wrote s' bytes g.valid in
    (v', Grown-Wrote g (here _ (omega arith)) w, omega arith, omega arith, λ h. omega arith)
  where
    here : (n : ℕ) → n ≡ length bytes → (0 < n) ⊎ (s.ptr ≡ s.endptr)
    here zero e = inr (omega arith)
    here (suc n) e = inl (omega arith)

-- What `__mem_ensure` does: nothing, or it grows the buffer.
Ensured : Realloc → Stream → ℕ → Stream → Type 0
Ensured realloc s need s' =
    ((s' ≡ s) × (need ≤ s.bufsize - s.ptr - 1))
    ⊎ ((s' ≡ s) × (realloc s.base (s.endptr + (need + 256)) ≡ none))
    ⊎ ((s.bufsize - s.ptr - 1 ≤ need) × Grown s need s')

grow-Ensured :
    (realloc : Realloc) (s : Stream) (need : ℕ)
    → IsValid s
    → s.bufsize - s.ptr - 1 ≤ need
    → Ensured realloc s need (grow realloc s need).1
unfolding grow Ensured
grow-Ensured realloc s need v l = go (realloc s.base (s.endptr + (need + 256))) refl
  where
    go :
        (r : Option (ℕ × Memory))
        → realloc s.base (s.endptr + (need + 256)) ≡ r
        → Ensured realloc s need (grow realloc s need).1
    go none e = inr (inl (rw (e, grow) refl, e))
    go (some (newbuf, garbage)) e = inr (inr (l, rw (e, grow) (grow-Grown s need newbuf garbage v)))

mem_ensure-Ensured :
    (realloc : Realloc) (s : Stream) (need : ℕ)
    → IsValid s
    → Ensured realloc s need (mem_ensure realloc s need).1
unfolding mem_ensure Ensured
mem_ensure-Ensured realloc s need v = elim (Bool-cases (ltb need (as_size (mem_free s)))) [
  | inl room ↦ rw room (inl (refl, ground (arith, free)))
  | inr short ↦ rw short (grow-Ensured realloc s need v (ground (arith, free)))
]
  where
    free : as_size (mem_free s) ≡ s.bufsize - s.ptr - 1
    free = ap as_size (mem_free_lem s v)

mem_write_multiple-Outcome :
    (realloc : Realloc) (s : Stream) (bytes : List ℕ)
    → IsValid s
    → let s' = (mem_ensure realloc s (length bytes)).1 in
      Outcome realloc s bytes (write_space s' bytes (mem_free s'))
unfolding Ensured
mem_write_multiple-Outcome realloc s bytes v =
    go (mem_ensure realloc s (length bytes)).1 (mem_ensure-Ensured realloc s (length bytes) v)
  where
    go :
        (s' : Stream)
        → Ensured realloc s (length bytes) s'
        → Outcome realloc s bytes (write_space s' bytes (mem_free s'))
    go s' (inl (e, room)) =
        subst (λ t. Outcome realloc s bytes (write_space t bytes (mem_free t))) (sym e)
          (write_kept realloc s bytes v (λ h. room))
    go s' (inr (inl (e, failed))) =
        subst (λ t. Outcome realloc s bytes (write_space t bytes (mem_free t))) (sym e)
          (write_kept realloc s bytes v (λ h. absurd (h failed)))
    go s' (inr (inr (l, g))) = write-Grown realloc s s' bytes v l g

-- A write of fewer than 2^31 bytes to a valid memory stream keeps it valid. It writes the first `n`
-- bytes, and returns `n`: at the position, over the old bytes or behind them, moves the position to
-- the end of that part and changes no other byte up to the extent. At least as many bytes are written
-- as the buffer has room for in front of its last byte, and all of them if `realloc` gives the larger
-- buffer that is asked for when the room is short.
pub mem_write_multiple_lem :
    (realloc : Realloc) (s : Stream) (bytes : List ℕ)
    → IsValid s
    → length bytes < 2 ^ 31
    → (n : ℕ) × ((mem_write_multiple realloc s bytes).0 ≡ pos n)
      × IsValid (mem_write_multiple realloc s bytes).1
      × Wrote s bytes n (mem_write_multiple realloc s bytes).1
      × (n ≤ length bytes)
      × (min (length bytes) (s.bufsize - s.ptr - 1) ≤ n)
      × (realloc s.base (s.endptr + (length bytes + 256)) ≢ none → n ≡ length bytes)
unfolding Outcome mem_write_multiple
mem_write_multiple_lem realloc s bytes v b =
    let s' = (mem_ensure realloc s (length bytes)).1 in
    let (v', w, most, least, all) = mem_write_multiple-Outcome realloc s bytes v in
    let n = (write_space s' bytes (mem_free s')).0 in
    (n, as_int_small n (omega arith), v', w, most, least, all)
