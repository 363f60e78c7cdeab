-- ===== src/Fs/Errors/Laws.antt =====
-- The error numbers that the conversion can give.
use riscos64_simple_binaries.Base.{
  ℕ, refl, inl, inr, true, arith, ltb, Bool-cases, ◌+◌, ◌-◌, ◌*◌, ◌%◌, ◌<◌, ◌≡◌, ◌==◌,
}
use riscos64_simple_binaries.Fs.Errors.{ErrorNumbers, of_low_number, fs_converterr}

-- None of the numbers is 0, as in every <errno.h>.
abbrev pub NonZero : ErrorNumbers → Type 0
NonZero e =
    (0 < e.eisdir)
    × (0 < e.enotempty)
    × (0 < e.eacces)
    × (0 < e.emfile)
    × (0 < e.enoent)
    × (0 < e.ebadf)
    × (0 < e.eio)

-- An error is never reported as 0, so that the negated number is negative: a dispatch function that
-- fails is seen to have failed.
fs_converterr-positive : (e : ErrorNumbers) (errnum : ℕ) → NonZero e → 0 < fs_converterr e errnum
unfolding fs_converterr of_low_number
fs_converterr-positive e errnum h = ground arith

-- The number of the file system stands in bits 8 to 15 of an error and does not matter: the file
-- system errors 0x10000 to 0x1FFFF are converted as the error of their low byte.
fs_converterr-low :
    (e : ErrorNumbers) (fs low : ℕ)
    → fs < 256
    → low < 256
    → fs_converterr e (0x10000 + 256 * fs + low) ≡ fs_converterr e low
unfolding fs_converterr
fs_converterr-low e fs low h l =
    let block : (0x10000 + 256 * fs + low - (0x10000 + 256 * fs + low) % 65536 == 0x10000) ≡ true =
      ground arith in
    let byte : (0x10000 + 256 * fs + low) % 256 ≡ low = omega arith in
    let byte' : low % 256 ≡ low = omega arith in
    let small : ltb low 256 ≡ true = ground arith in
    rw (block, byte, byte', small)
      (elim (Bool-cases (low - low % 65536 == 0x10000)) [ inl h ↦ rw h refl | inr h ↦ rw h refl ])
