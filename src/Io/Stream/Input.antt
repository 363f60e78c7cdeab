-- ===== src/Io/Stream/Input.antt =====
-- clib/io/io-file-read.c.
pub mod Laws
use riscos64_simple_binaries.Base.{
  ℕ, true, none, some, List, [], ℤ, pos, negsuc, neg, ◌-◌, ◌*◌, ◌/◌, ◌%◌, ◌^◌, ◌&&◌, ◌∷◌, ◌++◌,
  ◌==◌, if◌then◌else◌,
}
use riscos64_simple_binaries.Io.Memstream.{Whence, seek_cur}
use riscos64_simple_binaries.Io.Stream.{
  Errno, File, Dispatch, State, eof, set_errno, set_file, check_magic, unpush, device_error, ebadf,
  eperm,
}
use riscos64_simple_binaries.Io.Stream.Position.{fseek}

-- `fh->_shortbuf[0] = c`, an unsigned char
abbrev pub to_char : ℤ → ℕ
to_char (pos n) = n % 256
to_char (negsuc n) = 255 - n % 256

module _ {D : Type 0} where
  unfoldable pub ungetc : State D → ℤ → ℤ × State D
  ungetc s c = check_magic s eof (λ f.
      if f.readable
      then (if f.char_pushed then (eof, s) else elim c [
        | pos n ↦ (pos n, set_file s (record f { char_pushed = true; shortbuf = to_char (pos n) }))
        | negsuc n ↦ if n == 0 then (eof, s) else (
          negsuc n,
          set_file s (record f { char_pushed = true; shortbuf = to_char (negsuc n) }),
        )
      ])
      else (eof, set_errno s eperm))

module _ {D : Type 0} (ops : Dispatch D) where
  unfoldable pub fgetc_done : State D → ℤ × D → ℤ × State D
  fgetc_done s (negsuc n, d) = (eof, device_error (record s { dev = d }) n)
  fgetc_done s (pos c, d) = (pos c, record s { dev = d })

  unfoldable pub fgetc : State D → ℤ × State D
  unfolding fgetc_done
  fgetc s = check_magic s eof (λ f.
      if f.readable
      then (if f.char_pushed
          then (pos f.shortbuf, unpush s f)
          else fgetc_done s (ops.read_byte s.dev))
      else (eof, set_errno s eperm))

  -- The shortcut for a single byte: `*p = c` stores the low byte.
  unfoldable pub fread_byte : ℤ × State D → ℕ × List ℕ × State D
  fread_byte (pos c, s) = (1, (c % 256) ∷ [], s)
  fread_byte (negsuc n, s) = (0, [], s)

  -- Behind a transfer that is short. The local `nitems` is the quotient by `nitems`; on AArch64 a
  -- division by 0 gives 0, and so the remainder is the dividend.
  unfoldable pub fread_short : State D → ℕ → ℕ → ℕ → ℕ × State D
  fread_short s size nitems transferred =
      if size == 1
      then (transferred, s)
      else (let items = transferred / nitems in
          let excess = transferred % items in
          (items, if excess == 0 then s else (fseek ops s (neg excess) seek_cur).1))

  -- The transfer from the device of `totransfer` bytes, behind a pushed character if there was one.
  unfoldable pub fread_device : State D → ℕ → ℕ → ℕ → List ℕ → ℤ × List ℕ × D → ℕ × List ℕ × State D
  unfolding fread_short
  fread_device s size nitems totransfer pushed (negsuc n, bytes, d) =
      (0, pushed ++ bytes, device_error (record s { dev = d }) n)
  fread_device s size nitems totransfer pushed (pos transferred, bytes, d) =
      if transferred == totransfer
      then (nitems, pushed ++ bytes, record s { dev = d })
      else (let (items, s') = fread_short (record s { dev = d }) size nitems transferred in
          (items, pushed ++ bytes, s'))

  -- The part behind the pushed character; nothing is asked of the device for no bytes.
  unfoldable pub fread_rest : State D → ℕ → ℕ → ℕ → List ℕ → ℕ × List ℕ × State D
  unfolding fread_device
  fread_rest s size nitems totransfer pushed =
      if totransfer == 0
      then (nitems, pushed, s)
      else fread_device s size nitems totransfer pushed (ops.read_multiple s.dev totransfer)

  -- The result is the number of items, the bytes stored from `ptr` on, and the state.
  unfoldable pub fread : State D → ℕ → ℕ → ℕ × List ℕ × State D
  unfolding fread_byte fread_rest fgetc
  fread s size nitems =
      let transfer = size * nitems % 2 ^ 64 in
      elim s.fh [
        | none ↦ (0, [], set_errno s ebadf)
        | some f ↦
            if f.magic
            then (if f.readable
                then (if (size == 1) && (nitems == 1)
                    then fread_byte (fgetc s)
                    else if transfer == 0
                    then (0, [], s)
                    else if f.char_pushed
                    then fread_rest (unpush s f) size nitems (transfer - 1) (f.shortbuf ∷ [])
                    else fread_rest s size nitems transfer [])
                else (0, [], set_errno s eperm))
            else (0, [], set_errno s ebadf)
      ]
