-- ===== src/Sysvars.antt =====
-- clib/sysvars: `getenv` and its buffer, `_kernel_getenv` and `_kernel_setenv`.
pub mod Laws
use riscos64_simple_binaries.Base.{
  ℕ, zero, suc, Bool, true, false, Option, none, some, List, ltb, length, ℤ, pos, negsuc, ◌+◌, ◌-◌,
  ◌%◌, ◌^◌, ◌==◌, if◌then◌else◌,
}
use riscos64_simple_binaries.Memory.{Memory, store}
use riscos64_simple_binaries.Io.Sprintf.{store_all}

-- What OS_ReadVarVal returns for a buffer: the characters that it has stored, the error
-- BuffOverflow, or another error
pub data Answer : Type 0 where
  wrote : List ℕ → Answer
  overflow : Answer
  other_error : Answer

-- OS_ReadVarVal for a name and a size of the buffer
abbrev pub ReadVar : Type 0
ReadVar = List ℕ → ℕ → Answer

-- `malloc`, and `realloc`, which may move the block in memory; 0 is NULL.
pub record Allocator (H : Type 0) : Type 0 where
  pub malloc : H → ℕ → ℕ × H
  pub realloc : H → Memory → ℕ → ℕ → ℕ × H × Memory
  pub free : H → ℕ → H

pub data Errno : Type 0 where
  unchanged : Errno
  einval : Errno
  enomem : Errno
  cleared : Errno

-- `__envstring`, `__envstringlen`, memory, the heap and what has been done to `errno`
pub record State (H : Type 0) : Type 0 where
  pub envstring : ℕ
  pub envstringlen : ℕ
  pub mem : Memory
  pub heap : H
  pub errno : Errno

abbrev pub increment : ℕ
increment = 256

abbrev pub maximum_size : ℕ
maximum_size = 2048

unfoldable pub getenv_init : {H : Type 0} → State H → State H
getenv_init s = record s { envstring = 0; envstringlen = 0 }

module _ {H : Type 0} (read : ReadVar) (a : Allocator H) where
  unfoldable pub getenv_final : State H → State H
  getenv_final s =
      if s.envstring == 0 then s else record s { heap = a.free s.heap s.envstring; envstring = 0 }

  -- The value and its terminator are in the buffer.
  abbrev pub found : State H → List ℕ → ℕ × State H
  found s text = (
    s.envstring,
    record s { mem = store (store_all s.mem s.envstring text) (s.envstring + length text) 0 },
  )

  -- The end of a turn, with the result of `realloc`
  abbrev pub grown : State H → ℕ → ℕ × H × Memory → State H
  grown s newsize (newstring, h, m) = record s {
    envstring = newstring;
    envstringlen = newsize;
    heap = h;
    mem = m;
  }

  -- The loop, with fuel; each turn but the last makes the buffer larger.
  unfoldable pub getenv_loop : ℕ → List ℕ → State H → ℕ × State H
  getenv_loop zero var s = (0, s)
  getenv_loop (suc fuel) var s =
      let newsize = s.envstringlen + increment in
      let r = a.realloc s.heap s.mem s.envstring newsize in
      let rest = getenv_loop fuel var (grown s newsize r) in
      elim (read var s.envstringlen) [
        | wrote text ↦ found s text
        | other_error ↦ (0, record s { errno = cleared })
        | overflow ↦
            if ltb maximum_size newsize
            then (0, s)
            else if r.0 == 0
            then (0, record s { heap = r.1; mem = r.2 })
            else rest
      ]

  -- `none` is NULL. Ten turns are more than the sizes up to the maximum.
  unfoldable pub getenv : Option (List ℕ) → State H → ℕ × State H
  unfolding getenv_loop
  getenv none s = (0, record s { errno = einval })
  getenv (some var) s =
      let (p, h) = a.malloc s.heap 256 in
      let s' = record s { envstring = p; envstringlen = 256; heap = h } in
      let first = getenv_loop 10 var s' in
      if s.envstring == 0
      then (if p == 0 then (0, record s { heap = h; errno = enomem }) else first)
      else getenv_loop 10 var s

-- `_kernel_getenv`: the size is reduced by one for the terminator; the result is whether it succeeded.
unfoldable pub kernel_getenv : ReadVar → Memory → List ℕ → ℕ → ℕ → Bool × Memory
kernel_getenv read m var buf size = elim (read var ((size + 2 ^ 32 - 1) % 2 ^ 32)) [
  | wrote text ↦ (true, store (store_all m buf text) (buf + length text) 0)
  | overflow ↦ (false, m)
  | other_error ↦ (false, m)
]

-- The length that `_kernel_setenv` passes; `none` is a NULL value, which deletes the variable.
unfoldable pub setenv_length : Option (List ℕ) → ℤ
setenv_length none = negsuc 0
setenv_length (some val) = pos (length val)
