-- ===== src/Io/Vprintf/Convert/Collected.antt =====
-- What the conversions print: strings and numbers in their fields.
use Prim.Native.Nat.{min}
use native.Mathlib.Nat.{zero-add, suc-add}
use riscos64_simple_binaries.Base.{
  negsuc, pos, codes, ℤ, ℕ, zero, suc, refl, ap, subst, inl, inr, Bool, true, false, Option, none,
  some, List, [], append-nil, append_assoc, arith, ltb, Bool-cases, length, replicate,
  length-append, length-replicate, ◌+◌, ◌-◌, ◌≤◌, ◌≡◌, ◌∙◌, ◌||◌, ◌++◌, ◌==◌, if◌then◌else◌,
}
use riscos64_simple_binaries.Io.Vprintf.{FormatParams, Scan, number_arg}
use riscos64_simple_binaries.Io.Vprintf.Number.{
  digit_fill, count_pad_digits, default_pad, number_text,
}
use riscos64_simple_binaries.Io.Vprintf.Convert.{
  collector, is_number, both, nothing, pad_loop, pad_output, in_field, pad_digits, fill_digits,
  number_field, write_number, convert,
}

-- The piece of output adds `s` to the text, and counts its characters.
abbrev Prints : (List ℕ → ℕ × List ℕ) → List ℕ → Type 0
Prints f s = (t : List ℕ) → f t ≡ (length s, t ++ s)

same_text : (f : List ℕ → ℕ × List ℕ) (s s' : List ℕ) → s ≡ s' → Prints f s → Prints f s'
same_text f s s' e h = subst (Prints f) e h

nothing-Prints : Prints (nothing collector) []
nothing-Prints t = rw append-nil

both-Prints :
    (f g : List ℕ → ℕ × List ℕ) (s s' : List ℕ)
    → Prints f s
    → Prints g s'
    → Prints (both collector f g) (s ++ s')
unfolding both
both-Prints f g s s' h h' t = rw (h t, h' (t ++ s), length-append s s', append_assoc)

replicate-add : (a b c : ℕ) → replicate a c ++ replicate b c ≡ replicate (a + b) c
replicate-add zero b c = rw zero-add
replicate-add (suc a) b c = rw (replicate-add a b c, suc-add)

-- Eight at a time, `pad` in all.
pad_loop-Prints :
    (fuel c pad : ℕ) → pad ≤ fuel → Prints (pad_loop collector fuel c pad) (replicate pad c)
unfolding pad_loop
pad_loop-Prints zero c zero l = nothing-Prints
pad_loop-Prints zero c (suc pad) l = absurd (omega arith)
pad_loop-Prints (suc fuel) c zero l = nothing-Prints
pad_loop-Prints (suc fuel) c (suc pad) l =
    let n : ℕ = if ltb 8 (suc pad) then 8 else suc pad in
    let sum : n + (suc pad - 8) ≡ suc pad = ground arith in
    let not_zero : (suc pad == 0) ≡ false = ground arith in
    same_text (pad_loop collector (suc fuel) c (suc pad)) _ _
      (replicate-add n (suc pad - 8) c ∙ ap (λ k. replicate k c) sum)
      (λ t. rw not_zero (
        both-Prints (λ u. collector.writen u (replicate n c))
          (pad_loop collector fuel c (suc pad - 8)) (replicate n c) (replicate (suc pad - 8) c)
          (λ u. refl) (pad_loop-Prints fuel c (suc pad - 8) (omega arith)) t))

-- A text in a field: filled up with spaces on one side.
abbrev pub padded : Bool → ℕ → List ℕ → List ℕ
padded left width s =
    let spaces = replicate (width - length s) b' ' in if left then s ++ spaces else spaces ++ s

in_field-Prints :
    (p : FormatParams) (body : List ℕ → ℕ × List ℕ) (s : List ℕ)
    → Prints body s
    → Prints (in_field collector p (length s) body) (padded p.align_left p.field_width s)
unfolding in_field pad_output
in_field-Prints p body s h = elim (Bool-cases p.align_left) [
  | inl e ↦ rw e (both-Prints body _ s _ h padding)
  | inr e ↦ rw e (both-Prints _ body _ s padding h)
]
  where
    padding :
        Prints
          (if p.field_width == 0 then nothing collector else pad_output collector p (length s))
          (replicate (p.field_width - length s) b' ')
    padding = elim (Bool-cases (p.field_width == 0)) [
      | inl e ↦
          let none_left : p.field_width - length s ≡ 0 = ground arith in
          rw (e, none_left) nothing-Prints
      | inr e ↦
          rw e (
            pad_loop-Prints (p.field_width - length s) b' ' (p.field_width - length s)
              (omega arith))
    ]

-- The text of an argument, with what stands for NULL
abbrev pub text_of : Option (List ℕ) → List ℕ
text_of none = codes "<NULL>"
text_of (some t) = t

-- `str`, with `rest` behind it in the text, is what a precision leaves: the given number of characters,
-- or all if there are fewer; everything if there is none (-1), and nothing below that.
abbrev pub IsCut : ℤ → List ℕ → List ℕ → Type 0
IsCut (pos k) str rest = length str ≡ min k (length str + length rest)
IsCut (negsuc zero) str rest = rest ≡ []
IsCut (negsuc (suc k)) str rest = str ≡ []

-- What stands in front of the digits of a number: its sign or base, and the digits that fill it up.
abbrev pub front : FormatParams → List ℕ → Option (List ℕ) → List ℕ
front p digits none = replicate (digit_fill p (length digits) 0) p.digit_pad
front p digits (some t) = t ++ replicate (digit_fill p (length digits) (length t)) p.digit_pad

pad_digits-Prints :
    (p : FormatParams) (digits : List ℕ) (prefix : Option (List ℕ))
    → Prints (pad_digits collector p (length digits) prefix) (front p digits prefix)
unfolding pad_digits fill_digits
pad_digits-Prints p digits none t =
    let n = digit_fill p (length digits) 0 in
    both-Prints (nothing collector) (pad_loop collector n p.digit_pad n) []
      (replicate n p.digit_pad) nothing-Prints (pad_loop-Prints n p.digit_pad n (omega arith)) t
pad_digits-Prints p digits (some s) t =
    let n = digit_fill p (length digits) (length s) in
    both-Prints (λ u. collector.write0 u s) (pad_loop collector n p.digit_pad n) s
      (replicate n p.digit_pad) (λ u. refl) (pad_loop-Prints n p.digit_pad n (omega arith)) t

length-front :
    (p : FormatParams) (digits : List ℕ) (prefix : Option (List ℕ))
    → length (front p digits prefix ++ digits)
      ≡ length digits + count_pad_digits p (length digits) prefix
unfolding count_pad_digits
length-front p digits none =
    let pad = replicate (digit_fill p (length digits) 0) p.digit_pad in
    omega (
      arith,
      length-append pad digits,
      length-replicate (digit_fill p (length digits) 0) p.digit_pad,
    )
length-front p digits (some t) =
    let n = digit_fill p (length digits) (length t) in
    let pad = replicate n p.digit_pad in
    omega
      (arith, length-append (t ++ pad) digits, length-append t pad, length-replicate n p.digit_pad)

number_field-Prints :
    (p : FormatParams) (digits : List ℕ) (prefix : Option (List ℕ))
    → Prints
        (number_field collector p (digits, prefix))
        (padded p.align_left p.field_width (front p digits prefix ++ digits))
unfolding number_field
number_field-Prints p digits prefix =
    let body =
      both collector (pad_digits collector p (length digits) prefix)
        (λ u. collector.writen u digits) in
    subst
      (λ n.
        Prints (in_field collector p n body)
          (padded p.align_left p.field_width (front p digits prefix ++ digits)))
      (length-front p digits prefix)
      (in_field-Prints p body (front p digits prefix ++ digits) (
        both-Prints (pad_digits collector p (length digits) prefix) (λ u. collector.writen u digits)
          (front p digits prefix) digits (pad_digits-Prints p digits prefix) (λ u. refl)))

is_number_other :
    (c : ℕ)
    → is_number collector c ≡ true
    → (((c == b'%') || (c == 0)) ≡ false) × ((c == b'c') ≡ false) × ((c == b's') ≡ false)
is_number_other c e = ground arith

-- A conversion of a number prints its digits, behind the sign or the base and as many zeros as the
-- precision or a '0' asks for, in its field: filled up with spaces to the field width, on the left
-- or on the right.
pub convert-number :
    (s : Scan) (t : List ℕ)
    → is_number collector s.c ≡ true
    → let p = default_pad s.params in
      let (digits, prefix) = number_text s.c p (number_arg s.args).0 in
      let out = padded p.align_left p.field_width (front p digits prefix ++ digits) in
      (convert collector s).0 t ≡ (length out, t ++ out)
unfolding convert write_number
convert-number s t e =
    let p = default_pad s.params in
    let (digits, prefix) = number_text s.c p (number_arg s.args).0 in
    let (f, g, h) = is_number_other s.c e in rw (f, g, h, e) (number_field-Prints p digits prefix t)
