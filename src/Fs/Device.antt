-- ===== src/Fs/Device.antt =====
-- clib/fs/fs-io.c: the dispatch functions of a file, over the calls of the operating system.
pub mod Laws
use riscos64_simple_binaries.Base.{
  as_int, ℕ, zero, suc, List, [], length, ℤ, pos, negsuc, neg, sub_ℕ, ◌+◌, ◌-◌, ◌%◌, ◌^◌, ◌∷◌, ◌==◌,
  if◌then◌else◌,
}
use riscos64_simple_binaries.Io.Memstream.{Whence, seek_set, seek_cur, seek_end}
use riscos64_simple_binaries.Io.Stream.{Dispatch}
use riscos64_simple_binaries.Fs.Errors.{ErrorNumbers, fs_converterr}

-- What a call returns: the number of an error, or its result
pub data Reply (R : Type 0) : Type 0 where
  failed : ℕ → Reply R
  replied : R → Reply R

-- OS_GBPB 4 and 2, OS_BGet, OS_BPut and OS_Args 5, 0, 2 and 1 on a handle, over a state `D`. The
-- block transfers return how many bytes were not transferred.
pub record FileSwitch (D : Type 0) : Type 0 where
  pub read_block : D → ℤ → ℕ → Reply ℕ × List ℕ × D
  pub write_block : D → ℤ → List ℕ → Reply ℕ × D
  pub get_byte : D → ℤ → Reply ℕ × D
  pub put_byte : D → ℤ → ℕ → Reply ℕ × D
  pub at_end : D → ℤ → Reply ℕ × D
  pub get_pointer : D → ℤ → Reply ℕ × D
  pub get_extent : D → ℤ → Reply ℕ × D
  pub set_pointer : D → ℤ → ℤ → Reply ℕ × D

-- `pos += cur` for a `long int`
abbrev pub plus : ℤ → ℕ → ℤ
plus (pos n) k = pos (n + k)
plus (negsuc n) k = sub_ℕ k (suc n)

-- The byte that `OS_BPut` takes of `c`
abbrev pub low_byte : ℤ → ℕ
low_byte (pos n) = n % 256
low_byte (negsuc n) = 255 - n % 256

module _ {D : Type 0} (sw : FileSwitch D) (e : ErrorNumbers) (handle : ℤ) where
  -- `return -__fs_converterr(err);` or the rest
  abbrev pub fail : ℕ → ℤ
  fail errnum = neg (fs_converterr e errnum)

  abbrev pub value : Reply ℕ → (ℕ → ℤ) → ℤ
  value (failed errnum) f = fail errnum
  value (replied n) f = f n

  unfoldable pub fs_check_eof : D → ℤ × D
  fs_check_eof d =
      let (r, d') = sw.at_end d handle in (value r (λ n. if n == 0 then pos 0 else pos 1), d')

  unfoldable pub fs_read_multiple : D → ℕ → ℤ × List ℕ × D
  fs_read_multiple d transfer =
      let (r, bytes, d') = sw.read_block d handle transfer in
      (value r (λ left. as_int ((transfer + 2 ^ 64 - left) % 2 ^ 64)), bytes, d')

  unfoldable pub fs_read_byte : D → ℤ × D
  fs_read_byte d = let (r, d') = sw.get_byte d handle in (value r pos, d')

  unfoldable pub fs_write_multiple : D → List ℕ → ℤ × D
  fs_write_multiple d bytes =
      let (r, d') = sw.write_block d handle bytes in
      (value r (λ left. as_int ((length bytes + 2 ^ 64 - left) % 2 ^ 64)), d')

  -- The result of success is 0, not the character.
  unfoldable pub fs_write_byte : D → ℤ → ℤ × D
  fs_write_byte d c = let (r, d') = sw.put_byte d handle (low_byte c) in (value r (λ n. pos 0), d')

  unfoldable pub fs_flush : D → ℤ × D
  fs_flush d = (pos 0, d)

  -- Behind the `switch` of `__fs_write_pos`
  unfoldable pub fs_set_pointer : D → ℤ → ℤ × D
  fs_set_pointer d p = let (r, d') = sw.set_pointer d handle p in (value r (λ n. p), d')

  -- `pos += cur` or `pos += ext`, if the call gave it
  unfoldable pub fs_from : ℤ → Reply ℕ × D → ℤ × D
  unfolding fs_set_pointer
  fs_from p (failed errnum, d) = (fail errnum, d)
  fs_from p (replied n, d) = fs_set_pointer d (plus p n)

  unfoldable pub fs_write_pos : D → ℤ → Whence → ℤ × D
  unfolding fs_from fs_set_pointer
  fs_write_pos d p seek_set = fs_set_pointer d p
  fs_write_pos d p seek_cur = fs_from p (sw.get_pointer d handle)
  fs_write_pos d p seek_end = fs_from p (sw.get_extent d handle)

  -- `cur` is an `int32_t`.
  unfoldable pub fs_read_pos : D → ℤ × D
  fs_read_pos d = let (r, d') = sw.get_pointer d handle in (value r as_int, d')

  unfoldable pub fs_stored : ℤ × D → ℤ × List ℕ × D
  fs_stored (negsuc n, d) = (negsuc n, [], d)
  fs_stored (pos c, d) = (pos 0, (c % 256) ∷ [], d)

  -- The loop, for the bytes that are left of `size - 1`: `c = '\n'` in its test assigns, and
  -- so the loop is left behind the first byte. The result and the bytes stored, without the terminator,
  -- which is stored only when no read has failed.
  unfoldable pub fs_read_line_loop : ℕ → D → ℤ × List ℕ × D
  unfolding fs_read_byte fs_stored
  fs_read_line_loop zero d = (pos 0, [], d)
  fs_read_line_loop (suc left) d = fs_stored (fs_read_byte d)

  -- `size - 1` is a `size_t`, and the difference of the pointers is compared with it.
  unfoldable pub fs_read_line : D → ℕ → ℤ × List ℕ × D
  unfolding fs_read_line_loop
  fs_read_line d size = fs_read_line_loop ((size + 2 ^ 64 - 1) % 2 ^ 64) d

  -- `__fs_setup_dispatch`, but for `close` and `read_line`, which the stream layer calls apart
  abbrev pub fs_dispatch : Dispatch D
  fs_dispatch = record {
    read_multiple = fs_read_multiple;
    read_byte = fs_read_byte;
    write_multiple = fs_write_multiple;
    write_byte = fs_write_byte;
    flush = fs_flush;
    read_pos = fs_read_pos;
    write_pos = fs_write_pos;
    check_eof = fs_check_eof;
  }
