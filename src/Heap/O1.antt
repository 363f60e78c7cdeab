-- ===== src/Heap/O1.antt =====
-- clib/heap/o1heap-shim.c: the default heap, over the calls of o1heap.
pub mod Laws
use riscos64_simple_binaries.Base.{
  ℕ, Bool, true, ltb, int_size, ◌+◌, ◌-◌, ◌%◌, ◌^◌, ◌==◌, if◌then◌else◌,
}
use riscos64_simple_binaries.Memory.{Memory}
use riscos64_simple_binaries.Memory.Copy.{memcpy}
use riscos64_simple_binaries.Heap.Impl.{Impl}

-- `o1heapInit`, which says whether it gave an instance, `o1heapAllocate` and `o1heapFree`, over the
-- heap's own state `D`.
pub record O1Calls (D : Type 0) : Type 0 where
  pub o1_init : D → ℕ → ℕ → Bool × D
  pub o1_allocate : D → ℕ → ℕ × D
  pub o1_free : D → ℕ → D

-- The heap, and whether `__heap_fatal` has been called, which ends the program.
pub record Heap (D : Type 0) : Type 0 where
  pub dev : D
  pub fatal : Bool

-- O1HEAP_ALIGNMENT
abbrev pub alignment : ℕ
alignment = 32

-- `aligned`
abbrev pub aligned : ℕ → ℕ
aligned base =
    let unalignment = base % alignment in
    base + (if unalignment == 0 then 0 else alignment - unalignment)

module _ {D : Type 0} (o1 : O1Calls D) where
  unfoldable pub init : ℕ → ℕ → Heap D → Heap D
  init base size h =
      let left = (size + 2 ^ 64 - (aligned base - base)) % 2 ^ 64 in
      let (done, d) = o1.o1_init h.dev (aligned base) left in
      record { dev = d; fatal = if done then h.fatal else true }

  unfoldable pub alloc : Heap D → ℕ → ℕ × Heap D
  alloc h size = let (p, d) = o1.o1_allocate h.dev size in (p, record h { dev = d })

  unfoldable pub free : Heap D → ℕ → ℕ → Heap D
  free h block size = record h { dev = o1.o1_free h.dev block }

  -- `copy_size`, an `int`
  abbrev pub copy_size : ℕ → ℕ → ℕ
  copy_size new_size old_size = int_size (if ltb old_size new_size then old_size else new_size)

  -- Behind the allocation
  unfoldable pub moved : Memory → ℕ → ℕ → ℕ → ℕ × Heap D → ℕ × Heap D × Memory
  unfolding free
  moved m block new_size old_size (new_block, h) = if new_block == 0 then (0, h, m) else (
    new_block,
    free h block old_size,
    memcpy m new_block block (copy_size new_size old_size),
  )

  unfoldable pub realloc : Heap D → Memory → ℕ → ℕ → ℕ → ℕ × Heap D × Memory
  unfolding alloc moved
  realloc h m block new_size old_size = moved m block new_size old_size (alloc h new_size)

  -- `__heap_o1`
  abbrev pub heap_o1 : Impl (Heap D)
  heap_o1 = record { init = init; alloc = alloc; free = free; realloc = realloc }
