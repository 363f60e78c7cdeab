-- ===== src/Tests/Memory.antt =====
-- The memory functions at concrete addresses.
use riscos64_simple_binaries.Base.{refl, inr, some, arith, ◌%◌, ◌≡◌}
use riscos64_simple_binaries.Memory.{Memory, memmove}
use riscos64_simple_binaries.Memory.Move.{memmove-eq-blit}
use riscos64_simple_binaries.Memory.Copy.{memcpy, memcpy-eq-blit}
use riscos64_simple_binaries.Memory.Fill.{memset, memset-eq-filled}
use riscos64_simple_binaries.Memory.Search.{memchr}

-- Each byte holds the low part of its address.
abbrev counting : Memory
counting a = a % 256

memmove-eq-blit_example : memmove counting 12 10 4 13 ≡ 11
memmove-eq-blit_example = memmove-eq-blit counting 12 10 4 13

memcpy-eq-blit_example : memcpy counting 64 8 43 100 ≡ 44
memcpy-eq-blit_example = memcpy-eq-blit counting 64 8 43 100 (inr (omega arith))

memset-eq-filled_example : memset counting 21 7 50 70 ≡ 7
memset-eq-filled_example = memset-eq-filled counting 21 7 50 70 (omega arith)

memchr_run : memchr counting 250 3 20 ≡ some 259
unfolding memchr
memchr_run = refl

memcpy_run : memcpy counting 64 8 43 107 ≡ 107
unfolding memcpy
memcpy_run = refl
