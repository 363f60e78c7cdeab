-- ===== src/Io/Stream/Input/Laws.antt =====
-- Reading: the pushed character comes back first, and what a short read reports.
use native.Mathlib.Nat.{mod-eq_of_lt}
use riscos64_simple_binaries.Base.{
  ℕ, refl, sym, subst, inl, inr, true, false, some, List, arith, ==_self, Bool-cases, pos, ◌-◌, ◌*◌,
  ◌/◌, ◌%◌, ◌^◌, ◌≤◌, ◌<◌, ◌≡◌, ◌&&◌, ◌∷◌, ◌==◌,
}
use riscos64_simple_binaries.Io.Stream.{File, Dispatch, State, set_file}
use riscos64_simple_binaries.Io.Stream.Input.{fgetc, ungetc, fread}

-- An open stream that can be read, with no character pushed back.
pub record IsReady {D : Type 0} (s : State D) (f : File) : Type 0 where
  pub handle : s.fh ≡ some f
  pub magic : f.magic ≡ true
  pub readable : f.readable ≡ true

module _ {D : Type 0} (ops : Dispatch D) where
  -- On a readable stream with nothing pushed back, a byte that is pushed back is accepted and is what
  -- `fgetc` returns next, with no call of the device; afterwards the stream is as before, but for the
  -- cell that held the byte.
  fgetc-ungetc :
      (s : State D) (f : File) (c : ℕ)
      → IsReady s f
      → f.char_pushed ≡ false
      → c < 256
      → let (r, s') = ungetc s (pos c) in
        (r ≡ pos c)
        × (fgetc ops s' ≡ (pos c, set_file s (record f { char_pushed = false; shortbuf = c })))
  unfolding fgetc ungetc
  fgetc-ungetc s f c h p l = ground arith

  -- On a readable stream `fread` of more than one byte puts a character that was pushed back first, and asks the device
  -- for the rest; if the device gives all of that, every item has been read, and nothing is pushed.
  fread_pushed :
      (s : State D) (f : File) (size nitems : ℕ) (bytes : List ℕ) (d : D)
      → IsReady s f
      → f.char_pushed ≡ true
      → 1 < size * nitems
      → size * nitems < 2 ^ 64
      → ops.read_multiple s.dev (size * nitems - 1) ≡ (pos (size * nitems - 1), bytes, d)
      → fread ops s size nitems ≡ (
        nitems,
        f.shortbuf ∷ bytes,
        record s { fh = some (record f { char_pushed = false }); dev = d },
      )
  unfolding fread
  fread_pushed s f size nitems bytes d h p l b e =
      rw (h.handle, fread)
        (rw (h.magic, h.readable, several)
          (rw exact (rw (some_bytes, p) (rw more (rw e (rw ==_self))))))
    where
      exact : size * nitems % 2 ^ 64 ≡ size * nitems
      exact = mod-eq_of_lt b

      several : ((size == 1) && (nitems == 1)) ≡ false
      several = elim (Bool-cases ((size == 1) && (nitems == 1))) [
        | inl e' ↦
            let one : (size ≡ 1) × (nitems ≡ 1) = (ground arith, ground arith) in
            let prod : size * nitems ≡ 1 = rw (one.0, one.1) refl in absurd (omega arith)
        | inr e' ↦ e'
      ]

      some_bytes : (size * nitems == 0) ≡ false
      some_bytes = ground arith

      more : (size * nitems - 1 == 0) ≡ false
      more = ground arith

  -- A short read of items of more than one byte divides by the number of items and not by their size:
  -- with fewer bytes than one item, but no fewer than the number of items asked for, it reports that
  -- items have been read.
  fread_short_overcounts :
      (s : State D) (f : File) (size nitems t : ℕ) (bytes : List ℕ) (d : D)
      → IsReady s f
      → f.char_pushed ≡ false
      → 0 < nitems
      → nitems ≤ t
      → t < size
      → size * nitems < 2 ^ 64
      → ops.read_multiple s.dev (size * nitems) ≡ (pos t, bytes, d)
      → ((fread ops s size nitems).0 ≡ t / nitems) × (0 < (fread ops s size nitems).0)
  unfolding fread
  fread_short_overcounts s f size nitems t bytes d h p n l m b e =
      (result, subst (λ k. 0 < k) (sym result) some_items)
    where
      some_items : 0 < t / nitems
      some_items = grind arith

      large : size ≤ size * nitems
      large = grind arith

      exact : size * nitems % 2 ^ 64 ≡ size * nitems
      exact = mod-eq_of_lt b

      not_byte : (size == 1) ≡ false
      not_byte = ground arith

      some_bytes : (size * nitems == 0) ≡ false
      some_bytes = ground (arith, large)

      short : (t == size * nitems) ≡ false
      short = ground (arith, large)

      result : (fread ops s size nitems).0 ≡ t / nitems
      result =
          rw (h.handle, fread)
            (rw (h.magic, h.readable, not_byte, exact)
              (rw (some_bytes, p) (rw e (rw short (rw not_byte)))))
