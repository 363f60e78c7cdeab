-- ===== src/Io/Reopen/Laws.antt =====
-- Streams that are opened again, and positions that are kept.
use riscos64_simple_binaries.Base.{
  not, Bool, ◌↔◌, ◌==◌, false, as_int_small, ℕ, refl, sym, ap, subst, inl, inr, true, Option, none,
  some, List, arith, ==_self, length, ℤ, pos, ◌^◌, ◌≤◌, ◌<◌, ◌≡◌, ◌≢◌, ◌⊎◌, ◌∷◌, if◌then◌else◌,
}
use riscos64_simple_binaries.Io.Stream.{File, State}
use riscos64_simple_binaries.Io.Stream.Position.{fd_console, ftell}
use riscos64_simple_binaries.Io.Open.{
  stderr, console_stream, stdout, stdin, Files, FileSwis, fopen_file, reset_file,
}
use riscos64_simple_binaries.Io.Reopen.{
  freopen, reopen_stream, reopen_done, Errors, bad_stream, find_failed, untouched, opened_into,
  is_standard, fgetpos, fsetpos, closed_stream, told,
}
use riscos64_simple_binaries.Fs.Errors.{ErrorNumbers}
use riscos64_simple_binaries.Fs.Device.{replied, FileSwitch, fs_dispatch, fs_read_pos}
use riscos64_simple_binaries.Fs.Device.Laws.{IsFile, IsUpdate, fseek_set}

-- One of the three standard streams
abbrev pub IsStandard : ℕ → Type 0
IsStandard fh = (fh ≡ stdin) ⊎ (fh ≡ stdout) ⊎ (fh ≡ stderr)

-- An open stream on the console, for input or for output, with nothing pushed back
pub record OnConsole (input : Bool) (g : File) : Type 0 where
  pub magic : g.magic ≡ true
  pub console : g.console ≡ true
  pub readable : g.readable ≡ input
  pub writable : g.writable ≡ not input
  pub append : g.append ≡ false
  pub delete_on_close : g.delete_on_close ≡ false
  pub char_pushed : g.char_pushed ≡ false
  pub fileno : g.fileno ≡ fd_console

-- The FILE `g` at `fh` is `new`, with the pushed character of the FILE `f` before; its file handle is
-- the new one, unless `new` is the console.
pub record Filled (fh : ℕ) (f new g : File) : Type 0 where
  pub fields : g ≡ record new { shortbuf = f.shortbuf; fileno = g.fileno }
  pub of_file : new.console ≡ false → g.fileno ≡ new.fileno
  pub of_console : new.console ≡ true → IsStandard fh → g.fileno ≡ fd_console

-- How opening `fh` again comes out, by what `_fopen` gave.
abbrev pub Reopened :
    {D : Type 0} → Files → ℕ → File → (ℕ ⊎ File) × D → Option ℕ × Errors × Files × D → Type 0
Reopened s fh f x y =
    let (opened, d) = x in
    let (r, e, s', d') = y in
    (d' ≡ d)
    × (s'.chain ≡ s.chain)
    × (s'.closed ≡ fh ∷ s.closed)
    × ((n : ℕ) → n ≢ fh → s'.block n ≡ s.block n)
    × ((new : File)
        → opened ≡ inr new
        → (r ≡ some fh)
          × (e ≡ untouched)
          × ((g : File) × (s'.block fh ≡ some g) × Filled fh f new g))
    × ((err : ℕ)
        → opened ≡ inl err
        → (r ≡ none)
          × (e ≡ find_failed err)
          × (IsStandard fh → (g : File) × (s'.block fh ≡ some g) × OnConsole (fh == stdin) g)
          × (¬ IsStandard fh → s'.block fh ≡ none))

reset_file-OnConsole :
    (fh : ℕ) (f : File) → IsStandard fh → OnConsole (fh == stdin) (reset_file fh f)
unfolding reset_file
reset_file-OnConsole fh f (inl e) = rw e input
  where
    input : OnConsole true (console_stream true f)
    input = record {
      magic = refl;
      console = refl;
      readable = refl;
      writable = refl;
      append = refl;
      delete_on_close = refl;
      char_pushed = refl;
      fileno = refl;
    }
reset_file-OnConsole fh f (inr h) = elim h [ inl e ↦ rw e output | inr e ↦ rw e output ]
  where
    output : OnConsole false (console_stream false f)
    output = record {
      magic = refl;
      console = refl;
      readable = refl;
      writable = refl;
      append = refl;
      delete_on_close = refl;
      char_pushed = refl;
      fileno = refl;
    }

is_standard_iff : (fh : ℕ) → (is_standard fh ≡ true) ↔ IsStandard fh
is_standard_iff fh = ground arith

shortbuf-reset_file : (fh : ℕ) (f : File) → (reset_file fh f).shortbuf ≡ f.shortbuf
unfolding reset_file
shortbuf-reset_file fh f = ground arith

opened_into-Filled : (fh : ℕ) (f new : File) → Filled fh f new (opened_into (reset_file fh f) new)
opened_into-Filled fh f new = record {
  fields =
      ap
        (λ c. record new {
          shortbuf = c;
          fileno = if new.console then (reset_file fh f).fileno else new.fileno;
        })
        (shortbuf-reset_file fh f);
  of_file = λ e. rw e refl;
  of_console = λ e h. rw e ((reset_file-OnConsole fh f h).fileno);
}

abbrev as_opened : File → ℕ ⊎ File
as_opened f = inr f

same_file : {x y : File} → as_opened x ≡ as_opened y → x ≡ y
same_file {x} e = ap (λ o. elim o [ inl k ↦ x | inr z ↦ z ]) e

module _ {D : Type 0} (os : FileSwis D) (close : D → File → D) where
  reopen_done-Reopened :
      (s : Files) (fh : ℕ) (f : File) (x : (ℕ ⊎ File) × D)
      → Reopened s fh f x
          (reopen_done os close (closed_stream os close s fh f) fh (reset_file fh f) x)
  unfolding reopen_done closed_stream
  reopen_done-Reopened s fh f (inr new, d) = (
    refl,
    refl,
    refl,
    λ n ne. ground arith,
    λ new' e. (
      refl,
      refl,
      (
        opened_into (reset_file fh f) new,
        rw (==_self fh) refl,
        subst (λ x. Filled fh f x (opened_into (reset_file fh f) new)) (same_file e)
            (opened_into-Filled fh f new),
      ),
    ),
    λ err e. absurd (ground arith),
  )
  reopen_done-Reopened s fh f (inl err, d) = (
    refl,
    ground arith,
    ground arith,
    λ n ne. ground arith,
    λ new e. absurd (ground arith),
    λ err' e. (
      refl,
      ap (λ o. elim o [ inl k ↦ find_failed k | inr x ↦ untouched ]) e,
      λ h.
          let standard = (is_standard_iff fh).1 h in
          (reset_file fh f, rw standard (rw (==_self fh) refl), reset_file-OnConsole fh f h),
      λ h.
          let not_standard : is_standard fh ≢ true = λ e. h ((is_standard_iff fh).0 e) in
          let other : is_standard fh ≡ false = ground arith in rw other (rw (==_self fh) refl),
    ),
  )

  reopen_stream-open :
      (s : Files) (d : D) (filename mode : List ℕ) (fh : ℕ) (f : File)
      → f.magic ≡ true
      → reopen_stream os close s d filename mode fh f
        ≡ reopen_done os close
            (closed_stream os close s fh f)
            fh
            (reset_file fh f)
            (fopen_file os (close d f) filename mode)
  unfolding reopen_stream
  reopen_stream-open s d filename mode fh f m =
      ap
        (λ b.
          if b
          then reopen_done os close (closed_stream os close s fh f) fh (reset_file fh f)
              (fopen_file os (close d f) filename mode)
          else (none, bad_stream, s, d))
        m

  -- `freopen` with a name, on an open stream, closes it once. If the file then opens, it returns the
  -- same stream, which now has the new FILE. If not, it returns NULL; a standard stream is back on
  -- the console, and the block of any other is freed, although the chain still holds it. The chain
  -- and all other blocks stay as they are.
  pub freopen_lem :
      (s : Files) (d : D) (filename mode : List ℕ) (fh : ℕ) (f : File)
      → s.block fh ≡ some f
      → f.magic ≡ true
      → Reopened s fh f
          (fopen_file os (close d f) filename mode)
          (freopen os close s d (some filename) mode (some fh))
  unfolding freopen
  freopen_lem s d filename mode fh f b m =
      let x = fopen_file os (close d f) filename mode in
      rw (b, freopen)
        (subst (Reopened s fh f x) (sym (reopen_stream-open s d filename mode fh f m))
          (reopen_done-Reopened s fh f x))

module _ {D : Type 0} (sw : FileSwitch D) (e : ErrorNumbers) (handle : ℤ) where
  ftell_file :
      (s : State D) (f : File) (p : ℕ)
      → IsUpdate s f
      → p < 2 ^ 31
      → sw.get_pointer s.dev handle ≡ (replied p, s.dev)
      → ftell (fs_dispatch sw e handle) s ≡ (pos p, s)
  unfolding ftell fs_read_pos
  ftell_file s f p u l k =
      rw (u.handle, ftell) (rw (u.magic, u.console) (rw k (rw (as_int_small p l) refl)))

  -- A position below 2^31 that `fgetpos` has stored for a file that can be read and written is where `fsetpos` puts the pointer,
  -- whatever has moved it or changed the contents meanwhile, as long as the file still reaches so far; both calls return 0. A call of
  -- OS_Args 0 is taken to give the pointer and to change nothing.
  pub fsetpos-fgetpos :
      (view : D → ℕ × List ℕ) (s : State D) (f : File) (p : ℕ) (c : List ℕ)
      → IsFile sw handle view
      → IsUpdate s f
      → view s.dev ≡ (p, c)
      → p < 2 ^ 31
      → sw.get_pointer s.dev handle ≡ (replied p, s.dev)
      → (s' : State D) (f' : File) (q : ℕ) (c' : List ℕ) → IsUpdate s' f'
      → view s'.dev ≡ (q, c')
      → p ≤ length c'
      → let ops = fs_dispatch sw e handle in
        let (r, position, s₁) = fgetpos ops s in
        let (r', s₂) = fsetpos ops s' position in
        (r ≡ pos 0) × (s₁ ≡ s) × (r' ≡ pos 0) × (view s₂.dev ≡ (p, c'))
  unfolding fgetpos fsetpos
  fsetpos-fgetpos view s f p c file u v pb told s' f' q c' u' v' l =
      let (d', k, v'') = file.seeks s'.dev q c' p v' l in
      rw (ftell_file s f p u pb told, fseek_set sw e handle s' f' p d' u' pb k)
        (refl, refl, refl, v'')
