-- ===== src/Heap/OsHeap.antt =====
-- clib/heap/osheap.c, built without HEAP_FAIL_IS_FATAL: a heap that OS_Heap manages.
use riscos64_simple_binaries.Base.{
  ℕ, Bool, true, Option, none, some, ◌-◌, ◌%◌, ◌^◌, ◌==◌, if◌then◌else◌,
}
use riscos64_simple_binaries.Memory.{Memory}
use riscos64_simple_binaries.Heap.Impl.{Impl}

-- OS_Heap over a state `D`: the operation, the base, a block and a size, an `int`; and OS_Heap 4,
-- which may move a block and so gets and gives memory. `none` is an error, and else there is the pointer that is
-- stored.
pub record OsHeapCalls (D : Type 0) : Type 0 where
  pub call : D → ℕ → ℕ → ℕ → ℕ → Option ℕ × D
  pub resize : D → Memory → ℕ → ℕ → ℕ → Option ℕ × D × Memory

-- The system, `__heap_base`, and whether `__heap_fatal` has been called, which ends the program.
pub record Heap (D : Type 0) : Type 0 where
  pub dev : D
  pub heap_base : ℕ
  pub fatal : Bool

-- `if (err) __heap_fatal(…)`
abbrev pub or_fatal : {D : Type 0} → Heap D → Option ℕ × D → Heap D
or_fatal h (none, d) = record h { dev = d; fatal = true }
or_fatal h (some p, d) = record h { dev = d }

-- The pointer is NULL unless the call has stored one.
abbrev pub allocated : {D : Type 0} → Heap D → Option ℕ × D → ℕ × Heap D
allocated h (none, d) = (0, record h { dev = d })
allocated h (some p, d) = (p, record h { dev = d })

-- A pointer of -1 is NULL.
abbrev pub reallocated : {D : Type 0} → Heap D → Option ℕ × D × Memory → ℕ × Heap D × Memory
reallocated h (none, d, m) = (0, record h { dev = d }, m)
reallocated h (some p, d, m) = (if p == 2 ^ 64 - 1 then 0 else p, record h { dev = d }, m)

module _ {D : Type 0} (os : OsHeapCalls D) where
  unfoldable pub init : ℕ → ℕ → Heap D → Heap D
  init base size h = or_fatal h (os.call h.dev 0 base 0 (size % 2 ^ 32))

  unfoldable pub alloc : Heap D → ℕ → ℕ × Heap D
  alloc h size = allocated h (os.call h.dev 2 h.heap_base 0 (size % 2 ^ 32))

  unfoldable pub free : Heap D → ℕ → ℕ → Heap D
  free h block size = or_fatal h (os.call h.dev 3 h.heap_base block 0)

  unfoldable pub realloc : Heap D → Memory → ℕ → ℕ → ℕ → ℕ × Heap D × Memory
  realloc h m block new_size old_size =
      reallocated h (os.resize h.dev m h.heap_base block (new_size % 2 ^ 32))

  -- `__heap_osheap`
  abbrev pub osheap : Impl (Heap D)
  osheap = record { init = init; alloc = alloc; free = free; realloc = realloc }
