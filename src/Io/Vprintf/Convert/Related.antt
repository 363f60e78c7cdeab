-- ===== src/Io/Vprintf/Convert/Related.antt =====
-- Two outputters that agree step by step print alike: `_vprintf` keeps a relation of their states.
use riscos64_simple_binaries.Base.{
  ℕ, zero, suc, refl, sym, ap, subst, inl, inr, Bool, true, false, Option, none, some, List, [],
  arith, Bool-cases, Option-cases, length, ◌+◌, ◌-◌, ◌≤◌, ◌≡◌, ◌||◌, ◌∷◌, ◌==◌, if◌then◌else◌,
}
use riscos64_simple_binaries.Io.Console.{behind_newline}
use riscos64_simple_binaries.Io.Vprintf.{Arg, FormatParams, Scan, number_arg, text_arg, scan}
use riscos64_simple_binaries.Io.Vprintf.Convert.{
  OutputterOf, nothing, both, pad_loop, pad_digits, in_field, pad_output, write_with_newlines,
  write_text, fill_digits, write_number, number_field, convert, is_number, write_plain, at_break,
  vprintf_loop, plain, behind_plain, vprintf,
}
use riscos64_simple_binaries.Io.Vprintf.Number.{
  digit_fill, shown, default_pad, number_text, count_pad_digits,
}

-- A step from `w` and `v`: the second state grows by its count; and if the two were related and it
-- has not grown past the limit, the counts are the same and the states are related again.
abbrev pub Step : {W V : Type 0} → (W → V → Type 0) → (V → ℕ) → ℕ → W → V → ℕ × W → ℕ × V → Type 0
Step R size limit w v x y =
    (size y.1 ≡ size v + y.0) × (R w v → size y.1 ≤ limit → (x.0 ≡ y.0) × R x.1 y.1)

-- Each function of the two makes such a step.
pub record Agree {W V : Type 0} (R : W → V → Type 0) (size : V → ℕ) (limit : ℕ) (o : OutputterOf W)
    (o' : OutputterOf V) : Type 0 where
  pub on_write0 :
      (w : W) (v : V) (t : List ℕ) → Step R size limit w v (o.write0 w t) (o'.write0 v t)
  pub on_writec : (w : W) (v : V) (c : ℕ) → Step R size limit w v (o.writec w c) (o'.writec v c)
  pub on_writen :
      (w : W) (v : V) (t : List ℕ) → Step R size limit w v (o.writen w t) (o'.writen v t)
  pub on_newline : (w : W) (v : V) → Step R size limit w v (o.newline w) (o'.newline v)

module _ {W V : Type 0} (R : W → V → Type 0) (size : V → ℕ) (limit : ℕ) (o : OutputterOf W)
    (o' : OutputterOf V) (agree : Agree R size limit o o') where
  -- Two pieces of output that agree from any states on.
  abbrev Alike : (W → ℕ × W) → (V → ℕ × V) → Type 0
  Alike f g = (w : W) (v : V) → Step R size limit w v (f w) (g v)

  nothing-Alike : Alike (nothing o) (nothing o')
  nothing-Alike w v = (omega arith, λ r l. (refl, r))

  both-Alike :
      (f f' : W → ℕ × W) (g g' : V → ℕ × V)
      → Alike f g
      → Alike f' g'
      → Alike (both o f f') (both o' g g')
  unfolding both
  both-Alike f f' g g' a a' w v =
      let (k, q) = a w v in
      let (k', q') = a' (f w).1 (g v).1 in
      (
        omega arith,
        λ r l. let (e, r') = q r (omega arith) in let (e', r'') = q' r' l in (rw (e, e'), r''),
      )

  -- A test that both make.
  if-Alike :
      (b : Bool) (f f' : W → ℕ × W) (g g' : V → ℕ × V)
      → Alike f g
      → Alike f' g'
      → Alike (if b then f else f') (if b then g else g')
  if-Alike true f f' g g' a a' = a
  if-Alike false f f' g g' a a' = a'

  writen-Alike : (t : List ℕ) → Alike (λ w. o.writen w t) (λ v. o'.writen v t)
  writen-Alike t w v = agree.on_writen w v t

  writec-Alike : (c : ℕ) → Alike (λ w. o.writec w c) (λ v. o'.writec v c)
  writec-Alike c w v = agree.on_writec w v c

  pad_loop-Alike : (fuel c pad : ℕ) → Alike (pad_loop o fuel c pad) (pad_loop o' fuel c pad)
  unfolding pad_loop
  pad_loop-Alike zero c pad = nothing-Alike
  pad_loop-Alike (suc fuel) c pad =
      if-Alike (pad == 0) _ _ _ _ nothing-Alike
        (both-Alike _ _ _ _ (writen-Alike _) (pad_loop-Alike fuel c (pad - 8)))

  fill_digits-Alike :
      (p : FormatParams) (len : ℕ) (w : W) (v : V) (x : ℕ × W) (y : ℕ × V)
      → Step R size limit w v x y
      → Step R size limit w v (fill_digits o p len x) (fill_digits o' p len y)
  unfolding fill_digits
  fill_digits-Alike p len w v (n, w') (n', v') (k, q) =
      let fill = digit_fill p len n' in
      let (k', q') = pad_loop-Alike fill p.digit_pad fill w' v' in
      (
        omega arith,
        λ r l.
            let (e, r') = q r (omega arith) in
            let (e', r'') = q' r' l in
            subst
              (λ i.
                ((fill_digits o p len (i, w')).0 ≡ (fill_digits o' p len (n', v')).0)
                × R (fill_digits o p len (i, w')).1 (fill_digits o' p len (n', v')).1)
              (sym e) (ap (λ i. n' + i) e', r''),
      )

  pad_digits-Alike :
      (p : FormatParams) (len : ℕ) (prefix : Option (List ℕ))
      → Alike (pad_digits o p len prefix) (pad_digits o' p len prefix)
  unfolding pad_digits
  pad_digits-Alike p len none w v =
      fill_digits-Alike p len w v (0, w) (0, v) (omega arith, λ r l. (refl, r))
  pad_digits-Alike p len (some t) w v =
      fill_digits-Alike p len w v (o.write0 w t) (o'.write0 v t) (agree.on_write0 w v t)

  in_field-Alike :
      (p : FormatParams) (len : ℕ) (f : W → ℕ × W) (g : V → ℕ × V)
      → Alike f g
      → Alike (in_field o p len f) (in_field o' p len g)
  unfolding in_field pad_output
  in_field-Alike p len f g a =
      if-Alike p.align_left _ _ _ _ (both-Alike _ _ _ _ a padding) (both-Alike _ _ _ _ padding a)
    where
      padding :
          Alike
            (if p.field_width == 0 then nothing o else pad_output o p len)
            (if p.field_width == 0 then nothing o' else pad_output o' p len)
      padding =
          if-Alike (p.field_width == 0) _ _ _ _ nothing-Alike
            (pad_loop-Alike (p.field_width - len) b' ' (p.field_width - len))

  lines-Alike :
      (fuel : ℕ) (s : List ℕ) → Alike (write_with_newlines o fuel s) (write_with_newlines o' fuel s)
  unfolding write_with_newlines
  lines-Alike zero s = nothing-Alike
  lines-Alike (suc fuel) [] = nothing-Alike
  lines-Alike (suc fuel) (c ∷ cs) = elim (Option-cases (behind_newline (c ∷ cs))) [
    | inl e ↦ rw (write_with_newlines, e) (writen-Alike (c ∷ cs))
    | inr (rest, e) ↦
        rw (write_with_newlines, e)
          (both-Alike _ _ _ _ (writen-Alike _)
            (both-Alike _ _ _ _ agree.on_newline (lines-Alike fuel rest)))
  ]

  write_text-Alike : (t : List ℕ) → Alike (write_text o t) (write_text o' t)
  unfolding write_text
  write_text-Alike t = elim (Option-cases (behind_newline t)) [
    | inl e ↦ rw (write_text, e) (writen-Alike t)
    | inr (rest, e) ↦ rw (write_text, e) (lines-Alike (length t) t)
  ]

  number_field-Alike :
      (p : FormatParams) (t : List ℕ × Option (List ℕ))
      → Alike (number_field o p t) (number_field o' p t)
  unfolding number_field
  number_field-Alike p (digits, prefix) =
      in_field-Alike p (length digits + count_pad_digits p (length digits) prefix) _ _
        (both-Alike _ _ _ _ (pad_digits-Alike p (length digits) prefix) (writen-Alike digits))

  write_number-Alike :
      (c : ℕ) (p : FormatParams) (a : ℕ) → Alike (write_number o c p a) (write_number o' c p a)
  unfolding write_number
  write_number-Alike c p a = number_field-Alike (default_pad p) (number_text c (default_pad p) a)

  convert-Alike :
      (s : Scan) → Alike (convert o s).0 (convert o' s).0 × ((convert o s).1 ≡ (convert o' s).1)
  unfolding convert
  convert-Alike s = elim (Bool-cases ((s.c == b'%') || (s.c == 0))) [
    | inl e ↦ rw e (writec-Alike b'%', refl)
    | inr e ↦ rw e (elim (Bool-cases (s.c == b'c')) [
      | inl f ↦ rw f (in_field-Alike s.params 1 _ _ (writec-Alike _), refl)
      | inr f ↦ rw f (elim (Bool-cases (s.c == b's')) [
        | inl g ↦ rw g (
          in_field-Alike s.params (length (shown s.params (text_arg s.args).0)) _ _
              (write_text-Alike _),
          refl,
        )
        | inr g ↦ rw g (elim (Bool-cases (is_number o s.c)) [
          | inl h ↦ rw h (write_number-Alike s.c s.params (number_arg s.args).0, refl)
          | inr h ↦ rw h (both-Alike _ _ _ _ (writec-Alike b'%') (writec-Alike s.c), refl)
        ])
      ])
    ])
  ]

  write_plain-Alike : (t : List ℕ) → Alike (write_plain o t) (write_plain o' t)
  write_plain-Alike [] = nothing-Alike
  write_plain-Alike (c ∷ cs) = writen-Alike (c ∷ cs)

  at_break-Alike :
      (format : List ℕ) (args : List Arg)
      → Alike (at_break o format args).0 (at_break o' format args).0
        × ((at_break o format args).1 ≡ (at_break o' format args).1)
        × ((at_break o format args).2 ≡ (at_break o' format args).2)
  unfolding at_break
  at_break-Alike [] args = (nothing-Alike, refl, refl)
  at_break-Alike (c ∷ format) args = elim (Bool-cases (c == 10)) [
    | inl e ↦ rw e (agree.on_newline, refl, refl)
    | inr e ↦ let (a, f) = convert-Alike (scan format args) in rw e (a, refl, f)
  ]

  vprintf_loop-Alike :
      (fuel : ℕ) (format : List ℕ) (args : List Arg)
      → Alike (vprintf_loop o fuel format args) (vprintf_loop o' fuel format args)
  unfolding vprintf_loop
  vprintf_loop-Alike zero format args = nothing-Alike
  vprintf_loop-Alike (suc fuel) [] args = nothing-Alike
  vprintf_loop-Alike (suc fuel) (c ∷ cs) args =
      let (a, e, e') = at_break-Alike (behind_plain (c ∷ cs)) args in
      let (write, format, args') = at_break o (behind_plain (c ∷ cs)) args in
      let rest =
        subst
          (λ t.
            Alike (vprintf_loop o fuel format args')
              (vprintf_loop o' fuel t (at_break o' (behind_plain (c ∷ cs)) args).2))
          e
          (subst (λ r. Alike (vprintf_loop o fuel format args') (vprintf_loop o' fuel format r)) e'
            (vprintf_loop-Alike fuel format args')) in
      both-Alike _ _ _ _ (write_plain-Alike (plain (c ∷ cs))) (both-Alike _ _ _ _ a rest)

  -- If two outputters agree, then `_vprintf` prints with both alike: from related states it comes to
  -- related states and gives the same count, unless the second has grown past the limit.
  pub vprintf-Alike :
      (format : List ℕ) (args : List Arg) (w : W) (v : V)
      → Step R size limit w v (vprintf o format args w) (vprintf o' format args v)
  unfolding vprintf
  vprintf-Alike format args = vprintf_loop-Alike (length format) format args
