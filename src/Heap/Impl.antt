-- ===== src/Heap/Impl.antt =====
-- `__heap_implementation_t`: what malloc.c asks of a heap. A pointer is a number, 0 for NULL. `realloc`
-- may copy, so it gets and gives the memory too.
use riscos64_simple_binaries.Base.{ℕ}
use riscos64_simple_binaries.Memory.{Memory}

pub record Impl (H : Type 0) : Type 0 where
  pub init : ℕ → ℕ → H → H
  pub alloc : H → ℕ → ℕ × H
  pub free : H → ℕ → ℕ → H
  pub realloc : H → Memory → ℕ → ℕ → ℕ → ℕ × H × Memory
