-- ===== src/Tests/Heap.antt =====
-- A heap from 4096 to 8192 with one block in use.
use riscos64_simple_binaries.Base.{
  ◌-◌, ◌^◌, refl, inr, true, false, none, some, [], arith, ◌+◌, ◌%◌, ◌≤◌, ◌<◌, ◌≡◌, ◌≢◌, ◌∷◌,
}
use riscos64_simple_binaries.Memory.{Memory}
use riscos64_simple_binaries.Heap.Accumulator.{Heap, accumulator, alloc}
use riscos64_simple_binaries.Heap.Accumulator
use riscos64_simple_binaries.Heap.Accumulator.Laws.{Blocks, IsHeap, alloc-IsHeap}
use riscos64_simple_binaries.Heap.Malloc.{State, OsModule, malloc, free, total}
use riscos64_simple_binaries.Heap.Malloc.Laws.{IsRunning, Placed, malloc_room, free-malloc}

abbrev counting : Memory
counting a = a % 256

abbrev heap : Heap
heap = record { hwm = 4112; last_alloc = 4096; heap_end = 8192 }

abbrev blocks : Blocks
blocks = (4096, 16) ∷ []

heap-IsHeap : IsHeap 4096 heap blocks
heap-IsHeap = record {
  base_pos = omega arith;
  ordered = (omega arith, omega arith);
  last = inr (refl, refl);
}

got : (Accumulator.alloc heap 32).0 ≢ 0
unfolding Accumulator.alloc
got = omega arith

alloc-IsHeap_example :
    IsHeap 4096 (Accumulator.alloc heap 32).1 (((Accumulator.alloc heap 32).0, 32) ∷ blocks)
    × (4096 ≤ (Accumulator.alloc heap 32).0)
    × ((Accumulator.alloc heap 32).0 ≡ heap.hwm)
    × ((Accumulator.alloc heap 32).0 + 32 < 8192)
alloc-IsHeap_example = alloc-IsHeap 4096 32 heap blocks heap-IsHeap (omega arith) (omega arith) got

full : (Accumulator.alloc heap 5000).0 ≡ 0
unfolding Accumulator.alloc
full = refl

-- OS_Module refuses everything; the program is no module.
abbrev no_module : OsModule Heap
no_module = record {
  claim = λ h n. (none, h);
  release = λ h p. (false, h);
  resize = λ h p n. (none, h);
  claimed = λ h p. 0;
}

abbrev program : State Heap
program = record {
  heap_base = 4096;
  heap_end = 8192;
  inited = true;
  inmodule = false;
  heap = heap;
  mem = counting;
  enomem = false;
}

program-IsRunning : IsRunning program
program-IsRunning = record { program = refl; has_heap = omega arith; started = refl }

malloc_room_example : Placed program 20 (malloc accumulator no_module program 20)
malloc_room_example =
    malloc_room no_module program 20 program-IsRunning (omega arith) (omega arith) (omega arith)
      (omega arith)

given : (malloc accumulator no_module program 20).0 ≡ some 4120
unfolding malloc Accumulator.alloc
given = refl

free-malloc_example :
    let (go_on, s) = free accumulator no_module (malloc accumulator no_module program 20).1 4120 in
    (go_on ≡ true) × (s.heap.hwm ≡ 4112)
free-malloc_example =
    free-malloc no_module program 20 4120 program-IsRunning (omega arith) (omega arith)
      (omega arith) (omega arith) given (omega arith)

items : (malloc accumulator no_module program (total 3 20)).0 ≡ some 4120
unfolding malloc Accumulator.alloc
items = refl

-- A size near 2^64 wraps the mark below the end of the heap, and so the request succeeds.
huge : (Accumulator.alloc heap (2 ^ 64 - 8)).0 ≡ 4112
unfolding Accumulator.alloc
huge = refl
