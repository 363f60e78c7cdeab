-- ===== src/Heap/O1/Laws.antt =====
-- The default heap under malloc.c: where it starts, and what `realloc` keeps.
use riscos64_simple_binaries.Base.{
  inr, ℕ, refl, ap, true, false, Option, some, arith, ◌+◌, ◌-◌, ◌%◌, ◌^◌, ◌≤◌, ◌<◌, ◌≡◌, ◌∙◌, ◌≢◌,
  ◌==◌,
}
use riscos64_simple_binaries.Memory.{Memory}
use riscos64_simple_binaries.Memory.Blit.{Disjoint, within}
use riscos64_simple_binaries.Memory.Copy.{memcpy, memcpy-eq-blit}
use riscos64_simple_binaries.Memory.Word.{word_at, set_word, word_at-set_word, set_word_outside}
use riscos64_simple_binaries.Heap.Impl.{Impl}
use riscos64_simple_binaries.Heap.O1.{
  O1Calls, heap_o1, aligned, alignment, Heap, alloc, free, copy_size, moved,
}
use riscos64_simple_binaries.Heap.O1
use riscos64_simple_binaries.Heap.Malloc.{State, OsModule, realloc, realloc_heap, rounded}
use riscos64_simple_binaries.Heap.Malloc.Laws.{IsRunning}

-- The area that o1heap is given is aligned, starts at most 31 bytes behind the one that there is and ends with
-- it, if that has 31 bytes at least.
aligned_lem :
    (base size : ℕ)
    → 31 ≤ size
    → size < 2 ^ 64
    → let left = (size + 2 ^ 64 - (aligned base - base)) % 2 ^ 64 in
      (aligned base % alignment ≡ 0)
      × (base ≤ aligned base)
      × (aligned base < base + alignment)
      × (aligned base + left ≡ base + size)
aligned_lem base size l b = (ground arith, ground arith, ground arith, ground arith)

module _ {H : Type 0} (impl : Impl H) (os : OsModule H) where
  -- `realloc` in a program that has a heap.
  realloc_running :
      (s : State H) (block size : ℕ)
      → IsRunning s
      → 0 < size
      → 0 < block
      → realloc impl os s block size ≡ (
        some (realloc_heap impl os s (block - 8) (rounded size)).0,
        (realloc_heap impl os s (block - 8) (rounded size)).1,
      )
  unfolding realloc
  realloc_running s block size v n b =
      let z : (size == 0) ≡ false = ground arith in
      let z' : (block == 0) ≡ false = ground arith in
      let z'' : (s.heap_base == 0) ≡ false = ground (arith, v.has_heap) in
      rw (z, z', z'') (simp v.program refl)

  realloc_heap_none :
      (s : State H) (p size : ℕ) (h : H) (m : Memory)
      → impl.realloc s.heap s.mem p size (word_at s.mem p) ≡ (0, h, m)
      → realloc_heap impl os s p size ≡ (0, record s { heap = h; mem = m; enomem = true })
  unfolding realloc_heap
  realloc_heap_none s p size h m e = rw e refl

  realloc_heap_some :
      (s : State H) (p size q : ℕ) (h : H) (m : Memory)
      → q ≢ 0
      → impl.realloc s.heap s.mem p size (word_at s.mem p) ≡ (q, h, m)
      → realloc_heap impl os s p size ≡ (q + 8, record s { heap = h; mem = set_word m q size })
  unfolding realloc_heap
  realloc_heap_some s p size q h m ne e =
      let z : (q == 0) ≡ false = ground arith in rw e (rw z refl)

module _ {D : Type 0} (o1 : O1Calls D) (os : OsModule (O1.Heap D)) where
  -- What `memcpy` of the shorter of the two sizes brings along.
  moved_byte :
      (m : Memory) (q p new_size old_size j : ℕ)
      → new_size < 2 ^ 31
      → Disjoint q p new_size
      → j < new_size
      → j < old_size
      → memcpy m q p (O1.copy_size o1 new_size old_size) (q + j) ≡ m (p + j)
  moved_byte m q p new_size old_size j l a n o =
      let k = O1.copy_size o1 new_size old_size in
      let apart : Disjoint q p k = ground arith in
      let inside : within q k (q + j) ≡ true = ground arith in
      let back : p + (q + j - q) ≡ p + j = omega arith in
      memcpy-eq-blit m q p k (q + j) apart ∙ rw (inside, back) refl

  o1_none :
      (h : O1.Heap D) (m : Memory) (block new_size old_size : ℕ) (d : D)
      → o1.o1_allocate h.dev new_size ≡ (0, d)
      → O1.realloc o1 h m block new_size old_size ≡ (0, record h { dev = d }, m)
  unfolding O1.realloc O1.moved O1.alloc
  o1_none h m block new_size old_size d e = rw e refl

  o1_some :
      (h : O1.Heap D) (m : Memory) (block new_size old_size q : ℕ) (d : D)
      → q ≢ 0
      → o1.o1_allocate h.dev new_size ≡ (q, d)
      → O1.realloc o1 h m block new_size old_size ≡ (
        q,
        record h { dev = o1.o1_free d block },
        memcpy m q block (O1.copy_size o1 new_size old_size),
      )
  unfolding O1.realloc O1.moved O1.alloc O1.free
  o1_some h m block new_size old_size q d ne e =
      let z : (q == 0) ≡ false = ground arith in rw e (rw z refl)

  -- What `realloc` comes to when o1heap gives the block `q` and is then `d`.
  abbrev pub Reallocated : State (O1.Heap D) → ℕ → ℕ → ℕ → D → Option ℕ × State (O1.Heap D) → Type 0
  Reallocated s block size q d x =
      let (r, s') = x in
      (q ≡ 0 → (r ≡ some 0) × (s'.enomem ≡ true) × (s'.mem ≡ s.mem) × (s'.heap.dev ≡ d))
      × (q ≢ 0
          → Disjoint q (block - 8) (rounded size)
          → (r ≡ some (q + 8))
            × (s'.heap.dev ≡ o1.o1_free d (block - 8))
            × (word_at s'.mem q ≡ rounded size)
            × ((i : ℕ)
                → i + 8 < rounded size
                → i + 8 < word_at s.mem (block - 8)
                → s'.mem (q + 8 + i) ≡ s.mem (block + i)))

  -- In a program, not a module, whose heap is in use, `realloc` of a block to a size below 2^31 - 15 asks the default heap for a new block.
  -- If it gets none, it returns NULL with ENOMEM, the old block is not freed, and no byte changes. If it gets one
  -- apart from the old, it returns that, the old block is freed, the size word holds the size rounded up, and
  -- the new block starts with the bytes of the old one, as many as both have.
  pub realloc-heap_o1 :
      (s : State (O1.Heap D)) (block size q : ℕ) (d : D)
      → IsRunning s
      → 0 < size
      → size < 2 ^ 31 - 15
      → 8 < block
      → o1.o1_allocate s.heap.dev (rounded size) ≡ (q, d)
      → Reallocated s block size q d (realloc (heap_o1 o1) os s block size)
  realloc-heap_o1 s block size q d v n l b e =
      let size' = rounded size in
      let bound : size' < 2 ^ 31 = ground arith in
      let p : block - 8 + 8 ≡ block = omega arith in
      let on_heap = realloc_running (heap_o1 o1) os s block size v (omega arith) (omega arith) in
      (
        λ none_left.
            let r = realloc_heap_none (heap_o1 o1) os s (block - 8) size' _ _ (
              o1_none s.heap s.mem (block - 8) size' (word_at s.mem (block - 8)) d
                (e ∙ ap (λ t. (t, d)) none_left)) in
            rw (on_heap, r) (refl, refl, refl, refl),
        λ ne a.
            let r =
              realloc_heap_some (heap_o1 o1) os s (block - 8) size' q _ _ ne
                (o1_some s.heap s.mem (block - 8) size' (word_at s.mem (block - 8)) q d ne e) in
            rw (on_heap, r)
              (
                refl,
                refl,
                word_at-set_word
                    (memcpy s.mem q (block - 8) (O1.copy_size o1 size' (word_at s.mem (block - 8))))
                    q size' (omega arith),
                λ i n' o.
                    let to : q + 8 + i ≡ q + (i + 8) = omega arith in
                    let from : block - 8 + (i + 8) ≡ block + i = omega arith in
                    set_word_outside
                      (memcpy s.mem q (block - 8)
                        (O1.copy_size o1 size' (word_at s.mem (block - 8))))
                      q size' (q + 8 + i) (inr (omega arith))
                    ∙ ap
                        (memcpy s.mem q (block - 8)
                          (O1.copy_size o1 size' (word_at s.mem (block - 8))))
                        to
                    ∙ moved_byte s.mem q (block - 8) size' (word_at s.mem (block - 8)) (i + 8) bound
                        a n' o
                    ∙ ap s.mem from,
              ),
      )
