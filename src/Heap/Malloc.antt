-- ===== src/Heap/Malloc.antt =====
-- clib/malloc.c, built without HEAP_FAIL_IS_FATAL, over any heap implementation.
pub mod Laws
use riscos64_simple_binaries.Base.{
  ℕ, Bool, true, false, not, Option, none, some, ℤ, sub_ℕ, int_size, ◌+◌, ◌-◌, ◌*◌, ◌/◌, ◌%◌, ◌^◌,
  ◌||◌, ◌==◌, if◌then◌else◌,
}
use riscos64_simple_binaries.Memory.{Memory}
use riscos64_simple_binaries.Memory.Word.{word_at, set_word}
use riscos64_simple_binaries.Memory.Fill.{memset}
use riscos64_simple_binaries.Heap.Impl.{Impl}

-- `__heap_base`, `__heap_end`, `__heap_inited` and `_kernel_inmodule`, the heap's own state, memory,
-- and whether `errno` has been set to ENOMEM.
pub record State (H : Type 0) : Type 0 where
  pub heap_base : ℕ
  pub heap_end : ℕ
  pub inited : Bool
  pub inmodule : Bool
  pub heap : H
  pub mem : Memory
  pub enomem : Bool

-- OS_Module claim, free and resize in a module; `none` and `false` for an error. The word in front of
-- a block that OS_Module has given is `claimed`.
pub record OsModule (H : Type 0) : Type 0 where
  pub claim : H → ℕ → Option ℕ × H
  pub release : H → ℕ → Bool × H
  pub resize : H → ℕ → ℤ → Option ℕ × H
  pub claimed : H → ℕ → ℕ

-- `(size + 7 + sizeof(alloc_t)) & ~7`
abbrev pub rounded : ℕ → ℕ
rounded size = (size + 15) % 2 ^ 64 / 8 * 8

-- `int total = count * size`, as the `size_t` that `malloc` gets
abbrev pub total : ℕ → ℕ → ℕ
total count size = int_size (count * size)

-- NULL for an error
abbrev pub pointer : Option ℕ → ℕ
pointer none = 0
pointer (some p) = p

module _ {H : Type 0} (impl : Impl H) (os : OsModule H) where
  -- The first use of the heap initialises it.
  unfoldable pub ensure_init : State H → State H
  ensure_init s = if s.inited then s else record s {
    heap = impl.init s.heap_base (s.heap_end - s.heap_base) s.heap;
    inited = true;
  }

  -- Behind the checks: the block, with its size in front, or NULL and ENOMEM.
  unfoldable pub malloc_heap : State H → ℕ → ℕ × State H
  malloc_heap s size =
      let (p, h) = impl.alloc s.heap size in
      if p == 0
      then (0, record s { heap = h; enomem = true })
      else (p + 8, record s { heap = h; mem = set_word s.mem p size })

  -- `none` is the exit through `__heap_fatal`.
  unfoldable pub malloc : State H → ℕ → Option ℕ × State H
  unfolding ensure_init malloc_heap
  malloc s size =
      if size == 0
      then (some 0, s)
      else if s.inmodule
      then (let (r, h) = os.claim s.heap size in (some (pointer r), record s { heap = h }))
      else if s.heap_base == 0
      then (none, s)
      else (let (p, s') = malloc_heap (ensure_init s) (rounded size) in (some p, s'))

  -- `if (mem) memset(mem, 0, size)`
  unfoldable pub clear : ℕ → Option ℕ × State H → Option ℕ × State H
  clear size (none, s) = (none, s)
  clear size (some p, s) =
      if p == 0 then (some 0, s) else (some p, record s { mem = memset s.mem p 0 size })

  unfoldable pub calloc : State H → ℕ → ℕ → Option ℕ × State H
  unfolding clear
  calloc s count size = clear size (malloc s (total count size))

  -- `true` unless the program exits.
  unfoldable pub free : State H → ℕ → Bool × State H
  free s block =
      if block == 0
      then (true, s)
      else if s.inmodule
      then (let (done, h) = os.release s.heap block in
          (true, record s { heap = h; enomem = s.enomem || not done }))
      else if s.heap_base == 0
      then (false, s)
      else (true, record s { heap = impl.free s.heap (block - 8) (word_at s.mem (block - 8)) })

  -- The part of `realloc` that asks the heap; `p` is the start of the size word.
  unfoldable pub realloc_heap : State H → ℕ → ℕ → ℕ × State H
  realloc_heap s p new_size =
      let (q, h, m) = impl.realloc s.heap s.mem p new_size (word_at s.mem p) in
      if q == 0
      then (0, record s { heap = h; mem = m; enomem = true })
      else (q + 8, record s { heap = h; mem = set_word m q new_size })

  -- A module's block: `size - old_size` in `size_t`, read as signed.
  unfoldable pub realloc_module : State H → ℕ → ℕ → ℕ × State H
  realloc_module s block size =
      let (r, h) = os.resize s.heap block (sub_ℕ (size + 4) (os.claimed s.heap block)) in
      (pointer r, record s { heap = h })

  unfoldable pub realloc : State H → ℕ → ℕ → Option ℕ × State H
  unfolding malloc free realloc_heap realloc_module
  realloc s block size =
      if size == 0
      then (let (go_on, s') = free s block in (if go_on then some 0 else none, s'))
      else if block == 0
      then malloc s size
      else if s.inmodule
      then (let (p, s') = realloc_module s block size in (some p, s'))
      else if s.heap_base == 0
      then (none, s)
      else (let (p, s') = realloc_heap s (block - 8) (rounded size) in (some p, s'))
