-- ===== src/Io/Memstream/Seek.antt =====
-- Positions of a memory stream, and what its user sees after a flush.
use riscos64_simple_binaries.Base.{ℕ, refl, arith, ℤ, pos, negsuc, add_ℕ, pos_part, ◌≤◌, ◌≡◌, ◌≢◌}
use riscos64_simple_binaries.Io.Memstream.{
  Stream, mem_flush, Whence, seek_by, mem_write_pos, mem_read_pos, seek_set, seek_cur, seek_end,
}
use riscos64_simple_binaries.Io.Memstream.Write.{IsValid}

-- The position that the code moves to; it reads SEEK_END like SEEK_CUR.
abbrev pub target : Stream → ℤ → Whence → ℕ
target s offset seek_set = pos_part offset
target s offset seek_cur = pos_part (add_ℕ s.ptr offset)
target s offset seek_end = pos_part (add_ℕ s.ptr offset)

seek_by-target : (s : Stream) (offset : ℤ) → seek_by s offset ≡ pos_part (add_ℕ s.ptr offset)
unfolding seek_by
seek_by-target s (pos n) = refl
seek_by-target s (negsuc n) = ground arith

write_pos-target :
    (s : Stream) (offset : ℤ) (whence : Whence)
    → mem_write_pos s offset whence
      ≡ (target s offset whence, record s { ptr = target s offset whence })
unfolding mem_write_pos
write_pos-target s (pos n) seek_set = refl
write_pos-target s (negsuc n) seek_set = refl
write_pos-target s (pos n) seek_cur = rw seek_by-target
write_pos-target s (negsuc n) seek_cur = rw seek_by-target
write_pos-target s (pos n) seek_end = rw seek_by-target
write_pos-target s (negsuc n) seek_end = rw seek_by-target

-- A seek returns the new position, at which `ftell` then finds the stream, and changes nothing else:
-- it moves to the offset for SEEK_SET, and by the offset from the position for SEEK_CUR and for
-- SEEK_END alike, in each case to no less than 0.
mem_write_pos_lem :
    (s : Stream) (offset : ℤ) (whence : Whence)
    → let (r, s') = mem_write_pos s offset whence in
      (r ≡ target s offset whence)
      × (mem_read_pos s' ≡ r)
      × (s' ≡ record s { ptr = target s offset whence })
unfolding mem_read_pos
mem_write_pos_lem s offset whence = rw write_pos-target (refl, refl, refl)

-- A seek to a position that is not past the extent keeps the stream valid, so that a write there is
-- one of those that `mem_write_multiple_lem` describes.
mem_write_pos-IsValid :
    (s : Stream) (offset : ℤ) (whence : Whence)
    → IsValid s
    → target s offset whence ≤ s.endptr
    → IsValid (mem_write_pos s offset whence).1
mem_write_pos-IsValid s offset whence v h =
    rw write_pos-target (record { ptr_in = h; end_in = v.end_in })

-- After a flush the user's variables hold the buffer and its extent. A zero is stored at the position,
-- also where that is before the end and a byte of the text stood there; no other byte changes.
mem_flush_lem :
    (s : Stream)
    → let s' = mem_flush s in
      (s'.user_buf ≡ s.base)
      × (s'.user_size ≡ s.endptr)
      × (s'.mem s.ptr ≡ 0)
      × ((i : ℕ) → i ≢ s.ptr → s'.mem i ≡ s.mem i)
unfolding mem_flush
mem_flush_lem s = (refl, refl, ground arith, λ i h. ground arith)
