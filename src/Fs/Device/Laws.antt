-- ===== src/Fs/Device/Laws.antt =====
-- Streams on a file.
use riscos64_simple_binaries.Base.{
  as_int, as_int_small, ℕ, zero, suc, refl, ap, true, false, some, List, [], arith, ==_self, length,
  take, drop, length-append, length-take, ℤ, pos, negsuc, ◌+◌, ◌-◌, ◌*◌, ◌%◌, ◌^◌, ◌≤◌, ◌<◌, ◌≡◌,
  ◌∙◌, ◌∷◌, ◌++◌, ◌==◌,
}
use riscos64_simple_binaries.Io.Memstream.{seek_set}
use riscos64_simple_binaries.Io.Stream.{File, State}
use riscos64_simple_binaries.Io.Stream.Position.{fseek}
use riscos64_simple_binaries.Io.Stream.Input.{fread}
use riscos64_simple_binaries.Io.Stream.Output.{fwrite, fputc}
use riscos64_simple_binaries.Io.Stream.Output.Laws.{fwrite_all}
use riscos64_simple_binaries.Fs.Errors.{ErrorNumbers}
use riscos64_simple_binaries.Fs.Device.{
  replied, FileSwitch, fs_dispatch, fs_write_multiple, fs_read_multiple, fs_write_pos,
  fs_set_pointer, fs_write_byte, fs_read_line, fs_stored, fs_read_byte, fs_read_line_loop,
}

-- The contents after a write at `p`
abbrev pub overwritten : List ℕ → ℕ → List ℕ → List ℕ
overwritten c p bytes = take p c ++ (bytes ++ drop (p + length bytes) c)

-- A handle on an ordinary file, of which `view` gives the pointer and the contents: a write is
-- complete, a read stops at the end, and the pointer can be set within the file.
pub record IsFile {D : Type 0} (sw : FileSwitch D) (handle : ℤ) (view : D → ℕ × List ℕ)
    : Type 0 where
  pub writes :
      (d : D) (p : ℕ) (c bytes : List ℕ)
      → view d ≡ (p, c)
      → p ≤ length c
      → (d' : D) × (sw.write_block d handle bytes ≡ (replied 0, d'))
        × (view d' ≡ (p + length bytes, overwritten c p bytes))
  pub seeks :
      (d : D) (p : ℕ) (c : List ℕ) (n : ℕ)
      → view d ≡ (p, c)
      → n ≤ length c
      → (d' : D) × (sw.set_pointer d handle (pos n) ≡ (replied 0, d')) × (view d' ≡ (n, c))
  pub reads :
      (d : D) (p : ℕ) (c : List ℕ) (n : ℕ)
      → view d ≡ (p, c)
      → (d' : D) × (sw.read_block d handle n
          ≡ (replied (n - length (take n (drop p c))), take n (drop p c), d'))
        × (view d' ≡ (p + length (take n (drop p c)), c))

-- A file open for update
pub record IsUpdate {D : Type 0} (s : State D) (f : File) : Type 0 where
  pub handle : s.fh ≡ some f
  pub magic : f.magic ≡ true
  pub readable : f.readable ≡ true
  pub writable : f.writable ≡ true
  pub console : f.console ≡ false
  pub append : f.append ≡ false

take_behind :
    (c : List ℕ) (p : ℕ) (b r : List ℕ)
    → p ≤ length c
    → take (length b) (drop p (take p c ++ (b ++ r))) ≡ b
take_behind c zero [] r l = refl
take_behind c zero (x ∷ b) r l = ap (λ t. x ∷ t) (take_behind c zero b r l)
take_behind [] (suc p) b r l = absurd (omega arith)
take_behind (x ∷ c) (suc p) b r l = take_behind c p b r (omega arith)

length-overwritten :
    (c : List ℕ) (p : ℕ) (b : List ℕ) → p ≤ length c → p ≤ length (overwritten c p b)
length-overwritten c p b l =
    omega (arith, length-append (take p c) (b ++ drop (p + length b) c), length-take p c)

module _ {D : Type 0} (sw : FileSwitch D) (e : ErrorNumbers) (handle : ℤ) where
  pub fseek_set :
      (s : State D) (f : File) (n : ℕ) (d' : D)
      → IsUpdate s f
      → n < 2 ^ 31
      → sw.set_pointer s.dev handle (pos n) ≡ (replied 0, d')
      → fseek (fs_dispatch sw e handle) s (pos n) seek_set
        ≡ (pos 0, record s { fh = some (record f { char_pushed = false }); dev = d' })
  unfolding fseek fs_write_pos fs_set_pointer
  fseek_set s f n d' u l k =
      rw (u.handle, fseek) (rw (u.magic, u.console, u.append) (rw k (rw (as_int_small n l) refl)))

  fread_file :
      (s : State D) (f : File) (bytes : List ℕ) (d' : D)
      → IsUpdate s f
      → f.char_pushed ≡ false
      → 1 < length bytes
      → length bytes < 2 ^ 31
      → sw.read_block s.dev handle (length bytes) ≡ (replied 0, bytes, d')
      → (s' : State D) × (fread (fs_dispatch sw e handle) s 1 (length bytes)
          ≡ (length bytes, bytes, s'))
  unfolding fread fs_read_multiple
  fread_file s f bytes d' u np l b k =
      let exact : 1 * length bytes % 2 ^ 64 ≡ length bytes = omega arith in
      let several : (length bytes == 1) ≡ false = ground arith in
      let some_bytes : (length bytes == 0) ≡ false = ground arith in
      let all : as_int ((length bytes + 2 ^ 64 - 0) % 2 ^ 64) ≡ pos (length bytes) = ground arith in
      rw (u.handle, fread)
        (rw (u.magic, u.readable, several, exact, some_bytes, np)
          (rw (k, all, ==_self (length bytes)) (record s { dev = d' }, refl)))

  fwrite_file :
      (s : State D) (f : File) (bytes : List ℕ) (d' : D)
      → IsUpdate s f
      → 0 < length bytes
      → length bytes < 2 ^ 31
      → sw.write_block s.dev handle bytes ≡ (replied 0, d')
      → fwrite (fs_dispatch sw e handle) s bytes 1 (length bytes)
        ≡ (length bytes, record s { fh = some (record f { char_pushed = false }); dev = d' })
  unfolding fs_write_multiple
  fwrite_file s f bytes d' u l b k =
      fwrite_all (fs_dispatch sw e handle) s f bytes d'
        (record { handle = u.handle; magic = u.magic; writable = u.writable }) l (omega arith)
        (let all : as_int ((length bytes + 2 ^ 64 - 0) % 2 ^ 64) ≡ pos (length bytes) =
            ground arith in
          rw (k, all) refl)

  -- What is written to a file open for update, fewer than 2^31 bytes at a pointer below 2^31, is read back: after `fwrite` of more than one byte at the
  -- pointer and `fseek` back to where it was, `fread` of as many bytes gives the same bytes, and the
  -- three calls report success.
  pub fread-fwrite :
      (view : D → ℕ × List ℕ) (s : State D) (f : File) (p : ℕ) (c bytes : List ℕ)
      → IsFile sw handle view
      → IsUpdate s f
      → view s.dev ≡ (p, c)
      → p ≤ length c
      → p < 2 ^ 31
      → 1 < length bytes
      → length bytes < 2 ^ 31
      → let ops = fs_dispatch sw e handle in
        let (n, s₁) = fwrite ops s bytes 1 (length bytes) in
        let (r, s₂) = fseek ops s₁ (pos p) seek_set in
        let (k, got, s₃) = fread ops s₂ 1 (length bytes) in
        (n ≡ length bytes) × (r ≡ pos 0) × (k ≡ length bytes) × (got ≡ bytes)
  fread-fwrite view s f p c bytes file u v l pb more b =
      let (d₁, w, v₁) = file.writes s.dev p c bytes v l in
      let (d₂, k, v₂) =
        file.seeks d₁ (p + length bytes) (overwritten c p bytes) p v₁
          (length-overwritten c p bytes l) in
      let (d₃, g, v₃) = file.reads d₂ p (overwritten c p bytes) (length bytes) v₂ in
      let same = take_behind c p bytes (drop (p + length bytes) c) l in
      let none_left : length bytes - length bytes ≡ 0 = omega arith in
      let g' : sw.read_block d₂ handle (length bytes) ≡ (replied 0, bytes, d₃) =
        g ∙ rw (same, none_left) refl in
      let (s₃, got) = fread_file (opened d₂) (unpushed f) bytes d₃ (still d₂) refl more b g' in
      rw
        (
          fwrite_file s f bytes d₁ u (omega arith) b w,
          fseek_set (opened d₁) (unpushed f) p d₂ (still d₁) pb k,
          got,
        )
        (refl, refl, refl, refl)
    where
      unpushed : File → File
      unpushed f' = record f' { char_pushed = false }

      opened : D → State D
      opened d = record s { fh = some (unpushed f); dev = d }

      still : (d : D) → IsUpdate (opened d) (unpushed f)
      still d = record {
        handle = refl;
        magic = u.magic;
        readable = u.readable;
        writable = u.writable;
        console = u.console;
        append = u.append;
      }

  -- `fputc` of a character that the file has taken returns 0, not the character.
  fputc_zero :
      (s : State D) (f : File) (c : ℕ) (n : ℕ) (d' : D)
      → IsUpdate s f
      → sw.put_byte s.dev handle (c % 256) ≡ (replied n, d')
      → (fputc (fs_dispatch sw e handle) s (pos c)).0 ≡ pos 0
  unfolding fputc fs_write_byte
  fputc_zero s f c n d' u k = rw (u.handle, fputc) (rw (u.magic, u.writable) (rw k refl))

  stored_short : (x : ℤ × D) → length (fs_stored sw e handle x).1 ≤ 1
  unfolding fs_stored
  stored_short (pos c, d) = omega arith
  stored_short (negsuc n, d) = omega arith

  loop_short : (left : ℕ) (d : D) → length (fs_read_line_loop sw e handle left d).1 ≤ 1
  unfolding fs_read_line_loop
  loop_short zero d = omega arith
  loop_short (suc left) d = stored_short (fs_read_byte sw e handle d)

  -- `fs_read_line` never reads more than one byte, however long the line and the buffer are.
  fs_read_line_short : (d : D) (size : ℕ) → length (fs_read_line sw e handle d size).1 ≤ 1
  unfolding fs_read_line
  fs_read_line_short d size = loop_short ((size + 2 ^ 64 - 1) % 2 ^ 64) d
