-- ===== src/Io/Memstream.antt =====
-- Memory streams, clib/io/io-memstream.c. Pointers into the buffer are offsets from its base, and
-- the buffer's bytes are a function of the offset. Sizes lie far below 2^64, so that sums of them do
-- not wrap; the `int` that a write returns is cut as in C.
pub mod Write
pub mod Seek
use riscos64_simple_binaries.Base.{
  as_int, ℕ, suc, Bool, true, false, Option, none, some, List, [], ltb, leb, length, get_or, ℤ, pos,
  negsuc, sub_ℕ, ◌+◌, ◌-◌, ◌%◌, ◌^◌, ◌&&◌, ◌∷◌, if◌then◌else◌,
}
use riscos64_simple_binaries.Memory.{Memory, store}

-- The fields of the FILE that the stream uses, and the two variables of the user.
pub record Stream : Type 0 where
  -- MEM_BASE; `realloc` may move it.
  pub base : ℕ
  pub mem : Memory
  -- MEM_PTR, MEM_ENDPTR and MEM_END, as offsets
  pub ptr : ℕ
  pub endptr : ℕ
  pub bufsize : ℕ
  -- `*bufp` and `*sizep`
  pub user_buf : ℕ
  pub user_size : ℕ

-- MEM_FREE, which is negative if `ptr` stands at the end or past it
abbrev pub mem_free : Stream → ℤ
mem_free s = sub_ℕ s.bufsize (s.ptr + 1)

-- the conversion to `size_t`
abbrev pub as_size : ℤ → ℕ
as_size (pos n) = n
as_size (negsuc n) = 2 ^ 64 - 1 - n

-- UPDATE_POINTERS
unfoldable pub update_pointers : Stream → Stream
update_pointers s = record s { user_buf = s.base; user_size = s.endptr; mem = store s.mem s.ptr 0 }

-- The stream when `realloc` has returned `newbuf`: the bytes of the old buffer are kept, `garbage`
-- stands behind them, and all from the extent on is cleared.
unfoldable pub moved : Stream → ℕ → ℕ → Memory → Stream
moved s new_size newbuf garbage = record s {
  base = newbuf;
  bufsize = new_size;
  mem = λ i.
      if leb s.endptr i && ltb i new_size
      then 0
      else if ltb i s.bufsize
      then s.mem i
      else garbage i;
}

-- What `realloc(base, size)` gives: the new block and its bytes where the old block had none.
abbrev pub Realloc : Type 0
Realloc = ℕ → ℕ → Option (ℕ × Memory)

module _ (realloc : Realloc) where
  -- The part of `__mem_ensure` behind the test of the free space.
  unfoldable pub grow : Stream → ℕ → Bool × Stream
  unfolding moved update_pointers
  grow s need =
      let new_size = s.endptr + (need + 256) in
      elim (realloc s.base new_size) [
        | none ↦ (false, s)
        | some (newbuf, garbage) ↦ (true, update_pointers (moved s new_size newbuf garbage))
      ]

  unfoldable pub mem_ensure : Stream → ℕ → Bool × Stream
  mem_ensure s need = if ltb need (as_size (mem_free s)) then (true, s) else grow s need

-- The copy, once `transfer` has been cut to the space.
unfoldable pub copy_in : Stream → List ℕ → ℕ → ℕ × Stream
copy_in s bytes transfer = (
  transfer,
  record s {
    mem = λ i.
        if leb s.ptr i && ltb i (s.ptr + transfer) then get_or bytes (i - s.ptr) 0 else s.mem i;
    ptr = s.ptr + transfer;
    endptr = if ltb s.endptr (s.ptr + transfer) then s.ptr + transfer else s.endptr;
  },
)

-- The part of `__mem_write_multiple` behind `__mem_ensure`. `space < transfer` compares as
-- `size_t`, `space > 0` as `long`.
unfoldable pub write_space : Stream → List ℕ → ℤ → ℕ × Stream
unfolding copy_in
write_space s bytes (negsuc n) = (0, s)
write_space s bytes (pos space) =
    if ltb 0 space
    then copy_in s bytes (if ltb space (length bytes) then space else length bytes)
    else (0, s)

-- The result is `transfer` as an `int`.
unfoldable pub mem_write_multiple : Realloc → Stream → List ℕ → ℤ × Stream
unfolding write_space mem_ensure grow
mem_write_multiple realloc s bytes =
    let s' = (mem_ensure realloc s (length bytes)).1 in
    let (transfer, s'') = write_space s' bytes (mem_free s') in (as_int transfer, s'')

-- `c` is passed by address, so its low byte is written.
unfoldable pub mem_write_byte : Realloc → Stream → ℕ → ℤ × Stream
mem_write_byte realloc s c = mem_write_multiple realloc s ((c % 256) ∷ [])

unfoldable pub mem_close : Stream → Stream
mem_close s = update_pointers s

unfoldable pub mem_flush : Stream → Stream
unfolding update_pointers
mem_flush s = update_pointers s

pub data Whence : Type 0 where
  seek_set : Whence
  seek_cur : Whence
  seek_end : Whence

-- `if (pos < 0 && MEM_POS(fh) < -pos) pos = -MEM_POS(fh); MEM_PTR(fh) = MEM_PTR(fh) + pos`
unfoldable pub seek_by : Stream → ℤ → ℕ
seek_by s (pos n) = s.ptr + n
seek_by s (negsuc n) = if ltb s.ptr (suc n) then 0 else s.ptr - suc n

-- The pair is the result, MEM_POS, and the stream.
unfoldable pub mem_write_pos : Stream → ℤ → Whence → ℕ × Stream
unfolding seek_by
mem_write_pos s (pos n) seek_set = (n, record s { ptr = n })
mem_write_pos s (negsuc n) seek_set = (0, record s { ptr = 0 })
mem_write_pos s offset seek_cur = (seek_by s offset, record s { ptr = seek_by s offset })
mem_write_pos s offset seek_end = (seek_by s offset, record s { ptr = seek_by s offset })

unfoldable pub mem_read_pos : Stream → ℕ
mem_read_pos s = s.ptr

-- The stream that `open_memstream` makes once both of its blocks are allocated; the buffer is
-- cleared, and the user's variables are not touched yet.
unfoldable pub open_memstream : ℕ → ℕ → ℕ → Stream
open_memstream buf user_buf user_size = record {
  base = buf;
  mem = λ i. 0;
  ptr = 0;
  endptr = 0;
  bufsize = 256;
  user_buf = user_buf;
  user_size = user_size;
}
