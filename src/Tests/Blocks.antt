-- ===== src/Tests/Blocks.antt =====
-- Blocks of the default heap, and copies of strings in them.
use riscos64_simple_binaries.Base.{
  ◌⊎◌, ◌<◌, ℕ, refl, inr, Bool, true, false, Option, none, some, arith, ltb, codes, get_or, ◌+◌,
  ◌-◌, ◌%◌, ◌≡◌, ◌==◌, if◌then◌else◌,
}
use riscos64_simple_binaries.Memory.{Memory}
use riscos64_simple_binaries.Heap.O1.{O1Calls, heap_o1, free, Heap}
use riscos64_simple_binaries.Heap.O1
use riscos64_simple_binaries.Heap.O1.Laws.{Reallocated, realloc-heap_o1}
use riscos64_simple_binaries.Heap.Malloc.{OsModule, realloc, malloc, State}
use riscos64_simple_binaries.Heap.Malloc
use riscos64_simple_binaries.Str.Break.{strpbrk}
use riscos64_simple_binaries.Str.Break.Laws.{strpbrk-first_at, first_at}
use riscos64_simple_binaries.Str.Span.{member}
use riscos64_simple_binaries.Str.Duplicate.{strdup}
use riscos64_simple_binaries.Str.Duplicate.Laws.{Duplicated, strdup-Duplicated}

-- An o1heap that gives block after block of 4096 bytes
abbrev blocks : O1Calls ℕ
blocks = record {
  o1_init = λ d base size. (true, base);
  o1_allocate = λ d size. (d, d + 4096);
  o1_free = λ d p. d;
}

abbrev no_module : OsModule (O1.Heap ℕ)
no_module = record {
  claim = λ h n. (none, h);
  release = λ h p. (false, h);
  resize = λ h p n. (none, h);
  claimed = λ h p. 0;
}

-- "banana" at 100, "nan" at 200, "xyan" at 300
abbrev strings : Memory
strings a =
    if ltb a 200
    then get_or (codes "banana") (a - 100) 0
    else if ltb a 300
    then get_or (codes "nan") (a - 200) 0
    else get_or (codes "XYAN") (a - 300) 0

abbrev program : Malloc.State (O1.Heap ℕ)
program = record {
  heap_base = 0x8000;
  heap_end = 0x20000;
  inited = true;
  inmodule = false;
  heap = record { dev = 0x9000; fatal = false };
  mem = strings;
  enomem = false;
}

realloc-heap_o1_example :
    Reallocated blocks no_module program 0x8008 100 0x9000 0xa000
      (realloc (heap_o1 blocks) no_module program 0x8008 100)
realloc-heap_o1_example =
    realloc-heap_o1 blocks no_module program 0x8008 100 0x9000 0xa000
      (record { program = refl; has_heap = omega arith; started = refl }) (omega arith)
      (omega arith) (omega arith) refl

strdup-Duplicated_example :
    (r : Option ℕ × Malloc.State (O1.Heap ℕ)) × (strdup (heap_o1 blocks) no_module 10 program 100
      ≡ some r)
    × Duplicated
        (λ p. (p + 6 < 100) ⊎ (106 + 8 < p))
        (codes "banana")
        6
        strings
        (malloc (heap_o1 blocks) no_module program 7).0
        r
strdup-Duplicated_example =
    strdup-Duplicated (heap_o1 blocks) no_module 10 program 100 (codes "banana") (omega arith)
      (omega arith) (omega arith)

-- The machine's `1u << n`: by `n` modulo 32
abbrev shifted : ℕ → ℕ → Bool
shifted n k = k == n % 32

strpbrk-first_at_example :
    strpbrk shifted 10 strings 100 300
    ≡ some (first_at (λ c. member c (codes "XYAN")) some 100 (codes "banana"))
strpbrk-first_at_example =
    strpbrk-first_at shifted (λ n k l. ground arith) 10 strings 100 300 (codes "banana")
      (codes "XYAN") (omega arith) (omega arith) (omega arith) (omega arith) (omega arith)
      (inr (omega arith))

-- '0' has its bit at 48, and is not found.
strpbrk_lost :
    strpbrk shifted 5
      (λ a. if ltb a 200 then get_or (codes "a0") (a - 100) 0 else get_or (codes "012") (a - 200) 0)
      100
      200
    ≡ some (some 102)
unfolding strpbrk
strpbrk_lost = refl
