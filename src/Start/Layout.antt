-- ===== src/Start/Layout.antt =====
-- clib/main.c, the checks of memory in `__main`, and clib/heap/init.c: where the heap lies.
use riscos64_simple_binaries.Base.{
  ℕ, false, arith, ltb, ◌+◌, ◌-◌, ◌*◌, ◌%◌, ◌^◌, ◌≤◌, ◌<◌, ◌≡◌, ◌==◌, if◌then◌else◌,
}
use riscos64_simple_binaries.Heap.Malloc.{State}

pub data Shortage : Type 0 where
  for_application : Shortage
  for_stack : Shortage
  for_heap : Shortage

-- `__main_fail`, or the heap given to `__heap_init`
pub data Layout : Type 0 where
  too_little : Shortage → Layout
  heap_between : ℕ → ℕ → Layout

abbrev pub default_stack : ℕ
default_stack = 64 * 1024

abbrev pub minimum_heap : ℕ
minimum_heap = 4 * 1024

-- `stack_limit`, an unsigned difference
unfoldable pub stack_limit : ℕ → ℕ → ℕ
stack_limit memend aif_stacksize =
    let stack_size = if aif_stacksize == 0 then default_stack else aif_stacksize in
    (memend + 2 ^ 64 - stack_size) % 2 ^ 64

-- `aif_stacksize` and `heap_min` are the values of the two weak variables.
unfoldable pub layout : ℕ → ℕ → ℕ → ℕ → Layout
unfolding stack_limit
layout append memend aif_stacksize heap_min =
    let limit = stack_limit memend aif_stacksize in
    let least = if heap_min == 0 then minimum_heap else heap_min in
    if ltb memend append
    then too_little for_application
    else if ltb limit append
    then too_little for_stack
    else if ltb limit ((append + least) % 2 ^ 64)
    then too_little for_heap
    else heap_between append limit

-- `__heap_init`: the state that malloc.c starts from
unfoldable pub heap_init : {H : Type 0} → State H → ℕ → ℕ → State H
heap_init s append heap_limit = record s {
  heap_base = append;
  heap_end = heap_limit;
  mem = λ a. if a == append then 0 else s.mem a;
  inited = false;
}

-- A heap that is accepted lies in the application's memory, is as large as the program asks at least, and
-- leaves the stack its size above it, if the memory ends no lower than the stack is large.
pub layout_bounds :
    (append memend aif_stacksize heap_min base limit : ℕ)
    → memend < 2 ^ 48
    → heap_min < 2 ^ 32
    → (if aif_stacksize == 0 then default_stack else aif_stacksize) ≤ memend
    → layout append memend aif_stacksize heap_min ≡ heap_between base limit
    → (base ≡ append)
      × (base + (if heap_min == 0 then minimum_heap else heap_min) ≤ limit)
      × (limit + (if aif_stacksize == 0 then default_stack else aif_stacksize) ≡ memend)
unfolding layout stack_limit
layout_bounds append memend aif heap_min base limit m h s e = ground arith

-- The difference wraps if the memory ends below the size of the stack: then a heap is accepted
-- whose end lies beyond all memory.
layout_wraps :
    (append memend aif_stacksize heap_min : ℕ)
    → memend < (if aif_stacksize == 0 then default_stack else aif_stacksize)
    → aif_stacksize < 2 ^ 32
    → heap_min < 2 ^ 32
    → append ≤ memend
    → (limit : ℕ) × (layout append memend aif_stacksize heap_min ≡ heap_between append limit)
      × (2 ^ 63 < limit)
unfolding layout stack_limit
layout_wraps append memend aif heap_min l a h o =
    (stack_limit memend aif, ground arith, ground arith)
