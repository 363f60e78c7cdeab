-- ===== src/Io/Vprintf/Convert.antt =====
-- `_vprintf`, clib/io/io-vprintf.c: the conversions and the loop over the format, with the outputter
-- that gets the text a parameter.
pub mod Related
pub mod Collected
pub mod Decimals
pub mod Fuel
use riscos64_simple_binaries.Base.{
  ℕ, zero, suc, Bool, Option, none, some, List, [], ltb, length, replicate, ◌+◌, ◌-◌, ◌%◌, ◌^◌,
  ◌||◌, ◌∷◌, ◌++◌, ◌==◌, if◌then◌else◌,
}
use riscos64_simple_binaries.Io.Console.{before_newline, behind_newline}
use riscos64_simple_binaries.Io.Vprintf.{Arg, FormatParams, Scan, number_arg, text_arg, scan}
use riscos64_simple_binaries.Io.Vprintf.Number.{
  digit_fill, count_pad_digits, is_hex, number_text, default_pad, shown,
}

-- `outputter_t` over the state `W` that it writes to. Each function gives a count of characters.
pub record OutputterOf (W : Type 0) : Type 0 where
  pub write0 : W → List ℕ → ℕ × W
  pub writec : W → ℕ → ℕ × W
  pub writen : W → List ℕ → ℕ × W
  pub newline : W → ℕ × W

-- An outputter that only collects the text.
abbrev pub collector : OutputterOf (List ℕ)
collector = record {
  write0 = λ t s. (length s, t ++ s);
  writec = λ t c. (1, t ++ c ∷ []);
  writen = λ t s. (length s, t ++ s);
  newline = λ t. (1, t ++ 10 ∷ []);
}

-- `strcspn(format, "\n%")`: the text before a newline or '%', and the format from there on.
unfoldable pub plain : List ℕ → List ℕ
plain [] = []
plain (c ∷ cs) = if (c == 10) || (c == b'%') then [] else c ∷ plain cs

unfoldable pub behind_plain : List ℕ → List ℕ
behind_plain [] = []
behind_plain (c ∷ cs) =
    let rest = behind_plain cs in if (c == 10) || (c == b'%') then c ∷ cs else rest

module _ {W : Type 0} (out : OutputterOf W) where
  -- A piece of the function: it writes, and adds to `n`.
  abbrev pub Output : Type 0
  Output = W → ℕ × W

  abbrev pub nothing : Output
  nothing w = (0, w)

  unfoldable pub both : Output → Output → Output
  both f g w = let (n, w') = f w in let (k, w'') = g w' in (n + k, w'')

  -- `while (pad > 0)`, with fuel, eight at a time.
  unfoldable pub pad_loop : ℕ → ℕ → ℕ → Output
  unfolding both
  pad_loop zero c pad = nothing
  pad_loop (suc fuel) c pad =
      let go =
        both (λ w. out.writen w (replicate (if ltb 8 pad then 8 else pad) c))
          (pad_loop fuel c (pad - 8)) in
      if pad == 0 then nothing else go

  unfoldable pub pad_output : FormatParams → ℕ → Output
  unfolding pad_loop
  pad_output p size = pad_loop (p.field_width - size) b' ' (p.field_width - size)

  abbrev pub write_prefix : Option (List ℕ) → Output
  write_prefix none = nothing
  write_prefix (some t) = λ w. out.write0 w t

  -- Behind the prefix, of which `write0` has counted `n` characters
  unfoldable pub fill_digits : FormatParams → ℕ → ℕ × W → ℕ × W
  unfolding pad_loop digit_fill
  fill_digits p size (n, w) =
      let fill = digit_fill p size n in
      let (k, w') = pad_loop fill p.digit_pad fill w in (n + k, w')

  unfoldable pub pad_digits : FormatParams → ℕ → Option (List ℕ) → Output
  unfolding fill_digits
  pad_digits p size prefix w = fill_digits p size (write_prefix prefix w)

  -- The field around `body`, which is `size` long.
  unfoldable pub in_field : FormatParams → ℕ → Output → Output
  unfolding pad_output both
  in_field p size body =
      let padding = if p.field_width == 0 then nothing else pad_output p size in
      if p.align_left then both body padding else both padding body

  -- `write_with_newlines`, with fuel, over the text that is to be shown.
  unfoldable pub write_with_newlines : ℕ → List ℕ → Output
  unfolding both
  write_with_newlines zero s = nothing
  write_with_newlines (suc fuel) [] = nothing
  write_with_newlines (suc fuel) (c ∷ cs) = elim (behind_newline (c ∷ cs)) [
    | none ↦ λ w. out.writen w (c ∷ cs)
    | some rest ↦
        both (λ w. out.writen w (before_newline (c ∷ cs)))
          (both out.newline (write_with_newlines fuel rest))
  ]

  unfoldable pub write_text : List ℕ → Output
  unfolding write_with_newlines
  write_text t = elim (behind_newline t) [
    | none ↦ λ w. out.writen w t
    | some rest ↦ write_with_newlines (length t) t
  ]

  -- The digits of a number with their prefix, in a field
  unfoldable pub number_field : FormatParams → List ℕ × Option (List ℕ) → Output
  unfolding in_field pad_digits count_pad_digits both
  number_field p (digits, prefix) =
      in_field p (length digits + count_pad_digits p (length digits) prefix)
        (both (pad_digits p (length digits) prefix) (λ w. out.writen w digits))

  unfoldable pub write_number : ℕ → FormatParams → ℕ → Output
  unfolding default_pad number_text number_field
  write_number c params a = number_field (default_pad params) (number_text c (default_pad params) a)

  abbrev pub is_number : ℕ → Bool
  is_number c = is_hex c || (c == b'i') || (c == b'd') || (c == b'u') || (c == b'o')

  -- The conversion that has been read: what it writes, and the arguments behind it.
  unfoldable pub convert : Scan → Output × List Arg
  unfolding in_field write_text write_number both shown
  convert s =
      if (s.c == b'%') || (s.c == 0)
      then ((λ w. out.writec w b'%'), s.args)
      else if s.c == b'c'
      then (let (a, args) = number_arg s.args in
          (in_field s.params 1 (λ w. out.writec w (a % 2 ^ 8)), args))
      else if s.c == b's'
      then (let (t, args) = text_arg s.args in
          let t' = shown s.params t in (in_field s.params (length t') (write_text t'), args))
      else if is_number s.c
      then (let (a, args) = number_arg s.args in (write_number s.c s.params a, args))
      else (both (λ w. out.writec w b'%') (λ w. out.writec w s.c), s.args)

  -- `if (next_break != 0)`
  abbrev pub write_plain : List ℕ → Output
  write_plain [] = nothing
  write_plain (c ∷ cs) = λ w. out.writen w (c ∷ cs)

  -- Behind the plain text: the rest of the format and the arguments.
  unfoldable pub at_break : List ℕ → List Arg → Output × List ℕ × List Arg
  unfolding convert
  at_break [] args = (nothing, [], args)
  at_break (c ∷ format) args =
      if c == 10
      then (out.newline, format, args)
      else (let s = scan format args in let (write, args') = convert s in (write, s.format, args'))

  -- The loop over the format, with fuel
  unfoldable pub vprintf_loop : ℕ → List ℕ → List Arg → Output
  unfolding at_break both plain behind_plain
  vprintf_loop zero format args = nothing
  vprintf_loop (suc fuel) [] args = nothing
  vprintf_loop (suc fuel) (c ∷ cs) args =
      let (write, format, args') = at_break (behind_plain (c ∷ cs)) args in
      both (write_plain (plain (c ∷ cs))) (both write (vprintf_loop fuel format args'))

  -- `_vprintf`
  unfoldable pub vprintf : List ℕ → List Arg → Output
  unfolding vprintf_loop
  vprintf format args = vprintf_loop (length format) format args
