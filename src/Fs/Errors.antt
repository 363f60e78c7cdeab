-- ===== src/Fs/Errors.antt =====
-- clib/fs/fs-errors.c, fs-remove.c and fs-rename.c.
pub mod Laws
use riscos64_simple_binaries.Base.{
  ℕ, Bool, Option, none, some, List, ltb, leb, ℤ, pos, negsuc, ◌-◌, ◌%◌, ◌^◌, ◌||◌, ◌==◌,
  if◌then◌else◌,
}
use riscos64_simple_binaries.Io.Stream.{Errno, device}

-- The values of <errno.h> that the file system's errors become
pub record ErrorNumbers : Type 0 where
  pub eisdir : ℕ
  pub enotempty : ℕ
  pub eacces : ℕ
  pub emfile : ℕ
  pub enoent : ℕ
  pub ebadf : ℕ
  pub eio : ℕ

-- `switch (lownum)`
unfoldable pub of_low_number : ErrorNumbers → ℕ → ℕ
of_low_number e lownum =
    if lownum == 0xA7
    then e.eisdir
    else if lownum == 0xB4
    then e.enotempty
    else if lownum == 0xBD
    then e.eacces
    else if lownum == 0xC0
    then e.emfile
    else if lownum == 0xCC
    then e.enoent
    else if lownum == 0xD6
    then e.enoent
    else if lownum == 0xDE
    then e.ebadf
    else e.eio

-- `errnum < 0x100` for the `int` of these 32 bits
abbrev pub below_100 : ℕ → Bool
below_100 errnum = ltb errnum 0x100 || leb (2 ^ 31) errnum

-- The 32 bits of `err->errnum`; `errnum & ~0xFFFF` clears the lower 16.
unfoldable pub fs_converterr : ErrorNumbers → ℕ → ℕ
unfolding of_low_number
fs_converterr e errnum =
    if (errnum - errnum % 65536 == 0x10000) || below_100 errnum
    then of_low_number e (errnum % 256)
    else e.eio

unfoldable pub fs_seterrno : ErrorNumbers → ℕ → Errno
unfolding fs_converterr
fs_seterrno e errnum = device (fs_converterr e errnum)

-- OS_File 6 (delete) and OS_FSControl 25 (rename) over a state `D`: the number of the error, or `none`
pub record FileCalls (D : Type 0) : Type 0 where
  pub delete : D → List ℕ → Option ℕ × D
  pub rename_to : D → List ℕ → List ℕ → Option ℕ × D

-- The result and `errno` behind a call
unfoldable pub reported : ErrorNumbers → Errno → Option ℕ → ℤ × Errno
unfolding fs_seterrno
reported e errno none = (pos 0, errno)
reported e errno (some errnum) = (negsuc 0, fs_seterrno e errnum)

module _ {D : Type 0} (calls : FileCalls D) (e : ErrorNumbers) where
  unfoldable pub remove : D → Errno → List ℕ → ℤ × Errno × D
  unfolding reported
  remove d errno filename =
      let (err, d') = calls.delete d filename in
      let (result, errno') = reported e errno err in (result, errno', d')

  unfoldable pub rename : D → Errno → List ℕ → List ℕ → ℤ × Errno × D
  unfolding reported
  rename d errno old new =
      let (err, d') = calls.rename_to d old new in
      let (result, errno') = reported e errno err in (result, errno', d')
