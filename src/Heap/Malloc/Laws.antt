-- ===== src/Heap/Malloc/Laws.antt =====
-- malloc.c over the accumulator heap, and what `calloc` clears.
use riscos64_simple_binaries.Base.{
  refl, inl, inr, Bool-cases, ==_self, ◌-◌, ◌%◌, ◌==◌, ==_self, ◌%◌, inl, inr, ◌==◌, Bool-cases, ℕ,
  ap, true, false, Option, none, some, arith, ltb, ◌+◌, ◌-◌, ◌^◌, ◌≤◌, ◌<◌, ◌≡◌, ◌∙◌, ◌≢◌, ◌⊎◌,
  if◌then◌else◌,
}
use riscos64_simple_binaries.Memory.Word.{word_at, set_word, word_at-set_word, set_word_outside}
use riscos64_simple_binaries.Memory.Fill.{memset-eq-filled}
use riscos64_simple_binaries.Heap.Impl.{Impl}
use riscos64_simple_binaries.Heap.Accumulator
use riscos64_simple_binaries.Heap.Accumulator.{Heap, accumulator}
use riscos64_simple_binaries.Heap.Accumulator.Laws.{alloc-cases}
use riscos64_simple_binaries.Heap.Malloc.{
  State, OsModule, malloc, malloc_heap, ensure_init, free, rounded, total, calloc, clear,
}

-- A program, not a module, whose heap has been used.
pub record IsRunning {H : Type 0} (s : State H) : Type 0 where
  pub program : s.inmodule ≡ false
  pub has_heap : s.heap_base ≢ 0
  pub started : s.inited ≡ true

module _ {H : Type 0} (impl : Impl H) (os : OsModule H) where
  init_done : (s : State H) → IsRunning s → ensure_init impl os s ≡ s
  unfolding ensure_init
  init_done s v =
      ap
        (λ b. if b then s else record s {
          heap = impl.init s.heap_base (s.heap_end - s.heap_base) s.heap;
          inited = true;
        })
        v.started

  -- `malloc` in a program whose heap is in use
  pub malloc_running :
      (s : State H) (size : ℕ)
      → IsRunning s
      → 0 < size
      → malloc impl os s size
        ≡ (some (malloc_heap impl os s (rounded size)).0, (malloc_heap impl os s (rounded size)).1)
  unfolding malloc
  malloc_running s size v n =
      let z : (size == 0) ≡ false = ground arith in
      let z' : (s.heap_base == 0) ≡ false = ground (arith, v.has_heap) in
      let after : State H → Option ℕ × State H = λ t.
        (some (malloc_heap impl os t (rounded size)).0, (malloc_heap impl os t (rounded size)).1) in
      let to : malloc impl os s size ≡ after (ensure_init impl os s) =
        rw (z, z') (simp v.program refl) in
      to ∙ ap after (init_done s v)

  -- What `malloc_heap` does with what the heap gives
  malloc_heap_none :
      (s : State H) (size : ℕ) (h : H)
      → impl.alloc s.heap size ≡ (0, h)
      → malloc_heap impl os s size ≡ (0, record s { heap = h; enomem = true })
  unfolding malloc_heap
  malloc_heap_none s size h e = rw e refl

  malloc_heap_some :
      (s : State H) (size p : ℕ) (h : H)
      → p ≢ 0
      → impl.alloc s.heap size ≡ (p, h)
      → malloc_heap impl os s size ≡ (p + 8, record s { heap = h; mem = set_word s.mem p size })
  unfolding malloc_heap
  malloc_heap_some s size p h ne e = let z : (p == 0) ≡ false = ground arith in rw e (rw z refl)

  free_running :
      (s : State H) (block : ℕ)
      → IsRunning s
      → 0 < block
      → free impl os s block
        ≡ (true, record s { heap = impl.free s.heap (block - 8) (word_at s.mem (block - 8)) })
  unfolding free
  free_running s block v n =
      let z : (block == 0) ≡ false = ground arith in
      let z' : (s.heap_base == 0) ≡ false = ground (arith, v.has_heap) in
      rw (z, z') (simp v.program refl)

-- What `malloc` of `size` bytes gives from the accumulator heap
abbrev pub Placed : State Heap → ℕ → Option ℕ × State Heap → Type 0
Placed s size x =
    let (r, s') = x in
    ((s.heap.heap_end ≤ s.heap.hwm + rounded size)
      × (r ≡ some 0)
      × (s'.enomem ≡ true)
      × (s'.mem ≡ s.mem))
    ⊎ ((r ≡ some (s.heap.hwm + 8))
        × (s.heap.hwm + 8 + size ≤ s'.heap.hwm)
        × (s'.heap.hwm < s.heap.heap_end)
        × (word_at s'.mem s.heap.hwm ≡ rounded size)
        × ((a : ℕ) → (a < s.heap.hwm) ⊎ (s.heap.hwm + 8 ≤ a) → s'.mem a ≡ s.mem a))

-- The heap after a request that fits, and after one that does not
abbrev taken : State Heap → ℕ → Heap
taken s size = record s.heap { hwm = s.heap.hwm + rounded size; last_alloc = s.heap.hwm }

abbrev passed : State Heap → ℕ → Heap
passed s size = record s.heap { hwm = s.heap.hwm + rounded size }

module _ (os : OsModule Heap) where
  -- In a program, not a module, whose heap is in use, with all addresses concerned below 2^63, a request gets
  -- from the accumulator heap a block behind all earlier ones with room for it before the new mark and the end of
  -- the heap; the word in front of the block holds the size rounded up, and no other byte changes. Or, if the rounded
  -- size does not fit before the end of the heap, it gets NULL and ENOMEM, and no byte changes.
  pub malloc_room :
      (s : State Heap) (size : ℕ)
      → IsRunning s
      → 0 < s.heap.hwm
      → 0 < size
      → s.heap.hwm + size + 15 < 2 ^ 63
      → s.heap.heap_end < 2 ^ 63
      → Placed s size (malloc accumulator os s size)
  malloc_room s size v h n b e =
      rw (malloc_running accumulator os s size v n)
        (elim (alloc-cases s.heap (rounded size) (omega arith) e) [
          | inl (fits, r) ↦
              let given =
                malloc_heap_some accumulator os s (rounded size) s.heap.hwm (taken s size)
                  (omega arith) r in
              rw given (
                inr (
                  refl,
                  omega arith,
                  fits,
                  word_at-set_word s.mem s.heap.hwm (rounded size) (omega arith),
                  λ a o. set_word_outside s.mem s.heap.hwm (rounded size) a o,
                ))
          | inr (full, r) ↦
              rw (malloc_heap_none accumulator os s (rounded size) (passed s size) r)
                (inl (full, refl, refl, refl))
        ])

  -- In a program, not a module, whose heap is in use, with all addresses concerned below 2^63, freeing the block that `malloc` has just given takes it back: the mark of the accumulator heap is
  -- where it was, so that the next request is served from the same place.
  pub free-malloc :
      (s : State Heap) (size p : ℕ)
      → IsRunning s
      → 0 < s.heap.hwm
      → 0 < size
      → s.heap.hwm + size + 15 < 2 ^ 63
      → s.heap.heap_end < 2 ^ 63
      → (malloc accumulator os s size).0 ≡ some p
      → p ≢ 0
      → let (go_on, s') = free accumulator os (malloc accumulator os s size).1 p in
        (go_on ≡ true) × (s'.heap.hwm ≡ s.heap.hwm)
  unfolding Accumulator.free
  free-malloc s size p v h n b e got ne = elim (alloc-cases s.heap (rounded size) (omega arith) e) [
    | inl (fits, r) ↦
        let given =
          malloc_running accumulator os s size v n
          ∙ ap (λ x. (some x.0, x.1))
              (malloc_heap_some accumulator os s (rounded size) s.heap.hwm (taken s size)
                (omega arith) r) in
        let at : p ≡ s.heap.hwm + 8 = ground (arith, got, ap (λ x. x.0) given) in
        let back : s.heap.hwm + 8 - 8 ≡ s.heap.hwm = omega arith in
        let word = word_at-set_word s.mem s.heap.hwm (rounded size) (omega arith) in
        let mark : (s.heap.hwm + rounded size + 2 ^ 64 - rounded size) % 2 ^ 64 ≡ s.heap.hwm =
          omega arith in
        rw (given, at)
          (rw
            (
              free_running accumulator os
                  (record s { heap = taken s size; mem = set_word s.mem s.heap.hwm (rounded size) })
                  (s.heap.hwm + 8)
                  (record { program = v.program; has_heap = v.has_heap; started = v.started })
                  (omega arith),
              back,
              word,
            )
            (refl, rw (==_self s.heap.hwm) mark))
    | inr (full, r) ↦
        let none_given =
          malloc_running accumulator os s size v n
          ∙ ap (λ x. (some x.0, x.1))
              (malloc_heap_none accumulator os s (rounded size) (passed s size) r) in
        absurd (ne (ground (arith, got, ap (λ x. x.0) none_given)))
  ]

module _ {H : Type 0} (impl : Impl H) (os : OsModule H) where
  mem-ensure_init : (s : State H) → (ensure_init impl os s).mem ≡ s.mem
  unfolding ensure_init
  mem-ensure_init s = elim (Bool-cases s.inited) [ inl e ↦ rw e refl | inr e ↦ rw e refl ]

  mem-malloc_heap :
      (s : State H) (size a : ℕ)
      → ((p : ℕ) → (malloc_heap impl os s size).0 ≡ p → p ≢ 0 → (a + 8 < p) ⊎ (p ≤ a))
      → (malloc_heap impl os s size).1.mem a ≡ s.mem a
  unfolding malloc_heap
  mem-malloc_heap s size a h =
      let p = (impl.alloc s.heap size).0 in
      elim (Bool-cases (p == 0)) [
        | inl e ↦ rw e refl
        | inr e ↦
            let clear = h (p + 8) (rw e refl) (omega arith) in
            rw e (set_word_outside s.mem p size a (ground arith))
      ]

  malloc-cases :
      (s : State H) (size : ℕ)
      → let x = malloc_heap impl os (ensure_init impl os s) (rounded size) in
        ((malloc impl os s size).1.mem ≡ s.mem) ⊎ (malloc impl os s size ≡ (some x.0, x.1))
  unfolding malloc
  malloc-cases s size = elim (Bool-cases (size == 0)) [
    | inl e ↦ inl (rw e refl)
    | inr n ↦ elim (Bool-cases s.inmodule) [
      | inl e ↦ inl (rw n (simp e refl))
      | inr m ↦ elim (Bool-cases (s.heap_base == 0)) [
        | inl e ↦ inl (rw n (simp m (rw e refl)))
        | inr b ↦ inr (rw (n, b) (simp m refl))
      ]
    ]
  ]

  -- `malloc` changes no byte but the size word, the eight bytes in front of the block that it gives.
  pub mem-malloc :
      (s : State H) (size a : ℕ)
      → ((p : ℕ) → (malloc impl os s size).0 ≡ some p → p ≢ 0 → (a + 8 < p) ⊎ (p ≤ a))
      → (malloc impl os s size).1.mem a ≡ s.mem a
  mem-malloc s size a h = elim (malloc-cases s size) [
    | inl e ↦ ap (λ mem. mem a) e
    | inr e ↦
        ap (λ x. x.1.mem a) e
        ∙ mem-malloc_heap (ensure_init impl os s) (rounded size) a
            (λ p e' ne. h p (ap (λ x. x.0) e ∙ ap some e') ne)
        ∙ ap (λ mem. mem a) (mem-ensure_init s)
  ]

  clear_lem :
      (size p i : ℕ) (r : Option ℕ × State H)
      → r.0 ≡ some p
      → p ≢ 0
      → (clear impl os size r).1.mem (p + i) ≡ (if ltb i size then 0 else r.1.mem (p + i))
  unfolding clear
  clear_lem size p i (none, s) e ne = cc
  clear_lem size p i (some q, s) e ne =
      let same : q ≡ p = ground arith in
      ground (arith, memset-eq-filled s.mem q 0 size (p + i) (omega arith))

  -- Of a block that it has got, `calloc` clears the first `size` bytes and no others, whatever
  -- `count` is: the bytes of the later items are as they were.
  calloc_clears :
      (s : State H) (count size p i : ℕ)
      → (malloc impl os s (total count size)).0 ≡ some p
      → p ≢ 0
      → (calloc impl os s count size).1.mem (p + i) ≡ (if ltb i size then 0 else s.mem (p + i))
  unfolding calloc
  calloc_clears s count size p i e ne =
      clear_lem size p i (malloc impl os s (total count size)) e ne
      ∙ ap (λ b. if ltb i size then 0 else b)
          (mem-malloc s (total count size) (p + i)
            (λ q e' ne'. let same : q ≡ p = ground (arith, e, e') in inr (omega arith)))
