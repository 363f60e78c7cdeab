-- ===== src/Io/Stream.antt =====
-- Streams: FILE, its dispatch table, and the operations of clib/io/io-file-read.c, io-file-write.c,
-- io-file-seek.c and io-file-misc.c over any device.
pub mod Position
pub mod Input
pub mod Output
pub mod Handle
use riscos64_simple_binaries.Base.{
  ℕ, suc, Bool, false, Option, none, some, List, ℤ, negsuc, if◌then◌else◌,
}
use riscos64_simple_binaries.Io.Memstream.{Whence}

-- The values of `errno` that the stream layer sets; `device n` is a code that a dispatch function
-- has returned, negated.
pub data Errno : Type 0 where
  no_error : Errno
  ebadf : Errno
  eperm : Errno
  einval : Errno
  device : ℕ → Errno

-- The bits of `_flags` one by one, `magic` for its upper half being _IO_MAGIC, and the other fields
-- of FILE that this layer uses.
pub record File : Type 0 where
  pub magic : Bool
  pub char_pushed : Bool
  pub delete_on_close : Bool
  pub readable : Bool
  pub writable : Bool
  pub console : Bool
  pub append : Bool
  -- `_shortbuf[0]`, an unsigned char
  pub shortbuf : ℕ
  pub fileno : ℤ

-- `_io_dispatch_t` over the state `D` of a device. A function returns its result, which is negative
-- for an error, and the device; a read also gives the bytes that it stored.
pub record Dispatch (D : Type 0) : Type 0 where
  pub read_multiple : D → ℕ → ℤ × List ℕ × D
  pub read_byte : D → ℤ × D
  pub write_multiple : D → List ℕ → ℤ × D
  pub write_byte : D → ℤ → ℤ × D
  pub flush : D → ℤ × D
  pub read_pos : D → ℤ × D
  pub write_pos : D → ℤ → Whence → ℤ × D
  pub check_eof : D → ℤ × D

-- The FILE that `fh` points to (`none` for NULL), its device, and `errno`.
pub record State (D : Type 0) : Type 0 where
  pub fh : Option File
  pub dev : D
  pub errno : Errno

abbrev pub eof : ℤ
eof = negsuc 0

module _ {D : Type 0} where
  -- `errno = e`
  abbrev pub set_errno : State D → Errno → State D
  set_errno s e = record s { errno = e }

  abbrev pub set_file : State D → File → State D
  set_file s f = record s { fh = some f }

  -- CHECK_MAGIC(fh, fail_code), and then the rest of a function, which gets the FILE.
  abbrev pub check_magic : {R : Type 0} → State D → R → (File → R × State D) → R × State D
  check_magic s fail body = elim s.fh [
    | none ↦ (fail, set_errno s ebadf)
    | some f ↦ if f.magic then body f else (fail, set_errno s ebadf)
  ]

  -- "No error, so unmark as any character pushed back"
  abbrev pub unpush : State D → File → State D
  unpush s f = set_file s (record f { char_pushed = false })

  -- `errno = -result` for a negative result
  abbrev pub device_error : State D → ℕ → State D
  device_error s n = set_errno s (device (suc n))
