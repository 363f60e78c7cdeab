-- ===== src/Heap/Accumulator.antt =====
-- The accumulator heap, clib/heap/accumulator.c, which grows from the base; it can take back only the
-- block that it gave last.
pub mod Laws
use riscos64_simple_binaries.Base.{
  ◌&&◌, Bool, ◌%◌, ◌^◌, ℕ, ltb, leb, ◌+◌, ◌-◌, ◌||◌, ◌==◌, if◌then◌else◌,
}
use riscos64_simple_binaries.Memory.{Memory}
use riscos64_simple_binaries.Memory.Copy.{memcpy}
use riscos64_simple_binaries.Heap.Impl.{Impl}

-- `__heap_hwm`, `last_alloc` and `__heap_end`.
pub record Heap : Type 0 where
  pub hwm : ℕ
  pub last_alloc : ℕ
  pub heap_end : ℕ

unfoldable pub init : ℕ → ℕ → Heap → Heap
init base size h = record h { hwm = base; last_alloc = 0 }

-- HEAP_LEFT, the difference of two pointers, which is signed: whether it is above 0
abbrev pub has_left : Heap → Bool
has_left h = let left = (h.heap_end + 2 ^ 64 - h.hwm) % 2 ^ 64 in ltb 0 left && ltb left (2 ^ 63)

-- Pointers wrap at 2^64.
unfoldable pub alloc : Heap → ℕ → ℕ × Heap
alloc h size =
    let h' = record h { hwm = (h.hwm + size) % 2 ^ 64 } in
    if has_left h' then (h.hwm, record h' { last_alloc = h.hwm }) else (0, h')

unfoldable pub free : Heap → ℕ → ℕ → Heap
free h block size =
    if block == h.last_alloc
    then record h { last_alloc = 0; hwm = (h.hwm + 2 ^ 64 - size) % 2 ^ 64 }
    else h

-- Behind the growth test: `free`, `alloc`, and a copy to a block elsewhere.
unfoldable pub grow : Heap → Memory → ℕ → ℕ → ℕ → ℕ × Heap × Memory
unfolding alloc free
grow h m block new_size old_size =
    let (new_block, h') = alloc (free h block old_size) new_size in
    let m' =
      if (new_block == block) || (new_block == 0) then m else memcpy m new_block block old_size in
    (new_block, h', m')

unfoldable pub realloc : Heap → Memory → ℕ → ℕ → ℕ → ℕ × Heap × Memory
unfolding grow
realloc h m block new_size old_size =
    if leb new_size old_size
    then (
      block,
      (if h.last_alloc == block
          then record h { hwm = (h.hwm + 2 ^ 64 - old_size + new_size) % 2 ^ 64 }
          else h),
      m,
    )
    else grow h m block new_size old_size

-- `__heap_accumulator`
abbrev pub accumulator : Impl Heap
accumulator = record { init = init; alloc = alloc; free = free; realloc = realloc }
