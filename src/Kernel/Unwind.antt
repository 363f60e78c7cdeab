-- ===== src/Kernel/Unwind.antt =====
-- clib/kernel/kernel-unwind.c and kernel-backtrace.c: the stack frames and the report on them.
pub mod Laws
use riscos64_simple_binaries.Base.{
  ℕ, zero, suc, Bool, not, Option, none, some, List, [], ltb, leb, ℤ, pos, negsuc, ◌>>=◌, ◌+◌, ◌-◌,
  ◌%◌, ◌&&◌, ◌||◌, ◌∷◌, ◌==◌, if◌then◌else◌,
}

-- The 64-bit word at an address
abbrev pub Words : Type 0
Words = ℕ → ℕ

abbrev pub memory_limit : ℕ
memory_limit = 0xFFFFFFFF

-- STACK_INVALID
unfoldable pub stack_invalid : ℕ → Bool
stack_invalid addr = not (addr % 16 == 0) || (ltb addr 0x8000 || ltb memory_limit addr)

-- ADDRESS_INVALID
unfoldable pub address_invalid : ℕ → Bool
address_invalid addr = not (addr % 4 == 0) || (ltb addr 0x8000 || ltb memory_limit addr)

-- `_kernel_unwindblock`, the fields that are used
pub record UnwindBlock : Type 0 where
  pub pc : ℕ
  pub fp : ℕ
  pub sp : ℕ
  pub lr : ℕ

-- `return (inout->fp == 0) ? 0 : 1`
unfoldable pub unwound : Words → ℕ → ℤ × UnwindBlock
unwound m fp =
    let caller_fp = m fp in
    (
      if caller_fp == 0 then pos 0 else pos 1,
      record {
        pc = m (fp + 8);
        fp = caller_fp;
        sp = fp + 16;
        lr = if caller_fp == 0 then 0 else m (caller_fp + 8);
      },
    )

-- `current` is what `_kernel_unwind_current` stores.
unfoldable pub unwind : Words → UnwindBlock → UnwindBlock → ℤ × UnwindBlock
unfolding unwound stack_invalid address_invalid
unwind m current b =
    if b.fp == 0
    then (pos 1, current)
    else if stack_invalid b.fp
    then (negsuc 0, b)
    else if not (m b.fp == 0) && stack_invalid (m b.fp)
    then (negsuc 0, b)
    else if address_invalid (m (b.fp + 8))
    then (negsuc 0, b)
    else unwound m b.fp

-- How a report ends: with the last frame, with "Stack frames corrupt", or not within the fuel
pub data Ending : Type 0 where
  complete : Ending
  corrupt : Ending
  unfinished : Ending

abbrev pub line : ℕ → List ℕ × Ending → List ℕ × Ending
line pc (pcs, e) = (pc ∷ pcs, e)

-- The loop, with the result of `_kernel_unwind` in hand: the addresses reported
unfoldable pub backtrace_loop : ℕ → Words → UnwindBlock → ℤ × UnwindBlock → List ℕ × Ending
unfolding unwind
backtrace_loop zero m current r = ([], unfinished)
backtrace_loop (suc fuel) m current (negsuc n, b) = ([], corrupt)
backtrace_loop (suc fuel) m current (pos n, b) =
    let rest = backtrace_loop fuel m current (unwind m current b) in
    line b.pc (if n == 0 then ([], complete) else rest)

-- `_kernel_backtrace`, from a block of zeroes
unfoldable pub backtrace : ℕ → Words → UnwindBlock → List ℕ × Ending
unfolding backtrace_loop
backtrace fuel m current =
    backtrace_loop fuel m current (unwind m current (record { pc = 0; fp = 0; sp = 0; lr = 0 }))

-- The loop of `_kernel_procname`, for `i` turns left and the word behind the one to look at: where the
-- marker was found, or where the loop stopped without one, with `i == MAX_SEARCH` or not
unfoldable pub marker_search : ℕ → (ℕ → ℕ) → ℕ → Option ℕ
marker_search zero words z = none
marker_search (suc turns) words z =
    let w = words (z - 4) in
    let rest = marker_search turns words (z - 4) in
    if ltb 0x8000 z
    then (if (w - w % 65536 == 0xff000000) && (w % 4 == 0) then some (z - 4) else rest)
    else none

-- `words` are the 32-bit words; the name stands as many bytes before the marker as it says.
unfoldable pub procname : (ℕ → ℕ) → ℕ → Option ℕ
unfolding marker_search address_invalid
procname words pc = if address_invalid pc then none else do
  z ← marker_search 250 words pc
  if leb z 0x8000 then none else some (z - words z % 65536)
