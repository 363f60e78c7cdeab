-- ===== src/Memory.antt =====
-- The byte memory that C pointers index, and the memory functions of clib/string.
-- A pointer is a number; addresses near 2^64 are not modelled, so pointer arithmetic does not wrap.
pub mod Text
pub mod Blit
pub mod Word
pub mod Move
pub mod Copy
pub mod Fill
pub mod Search
use riscos64_simple_binaries.Base.{ℕ, zero, suc, ltb, ◌+◌, ◌-◌, ◌==◌, if◌then◌else◌}

abbrev pub Memory : Type 0
Memory = ℕ → ℕ

-- `*p = v` for a byte
abbrev pub store : Memory → ℕ → ℕ → Memory
store m p v a = if a == p then v else m a

-- `*dst++ = *src++`, `size` times
unfoldable pub copy_up : ℕ → Memory → ℕ → ℕ → Memory
copy_up zero m dst src = m
copy_up (suc size) m dst src = copy_up size (store m dst (m src)) (dst + 1) (src + 1)

-- `*--dst = *--src`, `size` times
unfoldable pub copy_down : ℕ → Memory → ℕ → ℕ → Memory
copy_down zero m dst src = m
copy_down (suc size) m dst src =
    copy_down size (store m (dst - 1) (m (src - 1))) (dst - 1) (src - 1)

unfoldable pub memmove : Memory → ℕ → ℕ → ℕ → Memory
memmove m dst src size =
    if ltb dst src then copy_up size m dst src else copy_down size m (dst + size) (src + size)
