-- ===== src/Io/Stream/Output/Laws.antt =====
-- Writing: complete transfers, and what `fputs` sends to the device.

use riscos64_simple_binaries.Base.{
  ℕ, refl, true, false, Option, some, List, [], arith, ==_self, length, take, pos, ◌+◌, ◌*◌, ◌%◌,
  ◌^◌, ◌<◌, ◌≡◌, ◌∷◌, ◌==◌,
}
use riscos64_simple_binaries.Io.Stream.{File, Dispatch, State}
use riscos64_simple_binaries.Io.Stream.Output.{fwrite, fputs_text, fputs, fputc}

-- An open stream that can be written.
pub record IsWritable {D : Type 0} (s : State D) (f : File) : Type 0 where
  pub handle : s.fh ≡ some f
  pub magic : f.magic ≡ true
  pub writable : f.writable ≡ true

take-all : (xs : List ℕ) → take (length xs) xs ≡ xs
take-all [] = refl
take-all (x ∷ xs) = rw (take-all xs)

module _ {D : Type 0} (ops : Dispatch D) where
  -- What `fwrite` of bytes does when the device takes all of them: it reports them all, and forgets
  -- a pushed character.
  pub fwrite_all :
      (s : State D) (f : File) (bytes : List ℕ) (d : D)
      → IsWritable s f
      → 0 < length bytes
      → length bytes < 2 ^ 64
      → ops.write_multiple s.dev bytes ≡ (pos (length bytes), d)
      → fwrite ops s bytes 1 (length bytes)
        ≡ (length bytes, record s { fh = some (record f { char_pushed = false }); dev = d })
  unfolding fwrite
  fwrite_all s f bytes d h n b e =
      rw (h.handle, fwrite)
        (rw (h.magic, h.writable)
          (rw some_bytes (rw (exact, take-all bytes) (rw e (rw exact (rw ==_self))))))
    where
      exact : 1 * length bytes % 2 ^ 64 ≡ length bytes
      exact = omega arith

      some_bytes : (length bytes == 0) ≡ false
      some_bytes = ground arith

  -- On a writable stream `fputs` of a text that is not empty, or of "<NULL>" for NULL, sends the text
  -- and then a newline to the device, and returns the length of the text and one more, if the device
  -- takes both.
  fputs_lem :
      (s : State D) (f : File) (str : Option (List ℕ)) (d d' : D) (c : ℕ)
      → IsWritable s f
      → 0 < length (fputs_text str)
      → length (fputs_text str) < 2 ^ 64
      → ops.write_multiple s.dev (fputs_text str) ≡ (pos (length (fputs_text str)), d)
      → ops.write_byte d (pos 10) ≡ (pos c, d')
      → fputs ops s str ≡ (
        length (fputs_text str) + 1,
        record s { fh = some (record f { char_pushed = false }); dev = d' },
      )
  unfolding fputs fputc
  fputs_lem s f str d d' c h n b e e' =
      rw (fwrite_all s f (fputs_text str) d h n b e) (rw (h.magic, h.writable) (rw e'))
