-- ===== src/Cvt/Hex/Laws.antt =====
-- A hexadecimal print spells its value.
use native.Mathlib.Nat.{
  div-add-mod, div-div-eq-div-mul, pow-suc, pow-zero, div-one, zero-div, div-eq_of_lt,
}
use riscos64_simple_binaries.Base.{
  ◌≢◌, ℕ, zero, suc, refl, sym, ap, inl, inr, Bool, true, false, not, List, [], arith, ltb, leb,
  Bool-cases, length, replicate, length-replicate, ◌+◌, ◌-◌, ◌*◌, ◌/◌, ◌%◌, ◌^◌, ◌≤◌, ◌<◌, ◌≡◌, ◌∙◌,
  ◌⊎◌, ◌&&◌, ◌||◌, ◌∷◌, ◌++◌, ◌==◌, if◌then◌else◌,
}
use riscos64_simple_binaries.Cvt.Hex.{
  Spaced, pad_none, pad_spaces, pad_zeros, is_spaces, is_zeros, start_digits, hex_char, hex_loop,
  set_last, hex_zero, cvt_uint64_hex,
}

-- What a character stands for; a space is no digit, and counts as 0.
abbrev pub digit_of : ℕ → ℕ
digit_of c = if c == b' ' then 0 else if leb c b'9' then c - b'0' else c - b'A' + 10

abbrev pub spelled : ℕ → List ℕ → ℕ
spelled n [] = n
spelled n (c ∷ cs) = spelled (n * 16 + digit_of c) cs

digit_of-hex_char : (v : ℕ) → v < 16 → digit_of (hex_char v) ≡ v
digit_of-hex_char v h = ground arith

-- One more digit of the quotient.
next_digit : (value k : ℕ) → value / 16 ^ suc k * 16 + value / 16 ^ k % 16 ≡ value / 16 ^ k
next_digit value k =
    let split = div-add-mod (value / 16 ^ k) 16 in
    let high : value / 16 ^ k / 16 ≡ value / 16 ^ suc k =
      div-div-eq-div-mul value (16 ^ k) 16 ∙ rw pow-suc in
    omega arith

loop_spells :
    (k value n : ℕ) (started : Bool) (spaced : Spaced)
    → n ≡ value / 16 ^ k
    → (started ≡ true) ⊎ (n ≡ 0)
    → spelled n (hex_loop k value started spaced).0 ≡ value
unfolding hex_loop
loop_spells zero value n started spaced e s = e ∙ rw (pow-zero, div-one)
loop_spells (suc k) value n started spaced e s =
    let v = value / 16 ^ k % 16 in
    let next = next_digit value k in
    elim (Bool-cases (started || ltb 0 v)) [
      | inl hit ↦
          let digit = digit_of-hex_char v (omega arith) in
          rw hit (
            loop_spells k value (n * 16 + digit_of (hex_char v)) true spaced (omega arith)
              (inl refl))
      | inr skip ↦
          let off : started ≡ false = ground arith in
          let none_yet : n ≡ 0 = ground arith in
          let no_digit : v ≡ 0 = ground arith in
          rw skip (elim (Bool-cases (is_spaces spaced)) [
            | inl blank ↦
                rw blank (
                  loop_spells k value (n * 16 + 0) started spaced (omega arith) (inr (omega arith)))
            | inr bare ↦ rw bare (loop_spells k value n started spaced (omega arith) (inr none_yet))
          ])
    ]

loop_length :
    (k value : ℕ) (started : Bool) (spaced : Spaced)
    → length (hex_loop k value started spaced).0 ≤ k
unfolding hex_loop
loop_length zero value started spaced = omega arith
loop_length (suc k) value started spaced =
    ground (arith, loop_length k value true spaced, loop_length k value started spaced)

spelled-append : (n : ℕ) (cs : List ℕ) → spelled n (cs ++ b'0' ∷ []) ≡ spelled n cs * 16
spelled-append n [] = omega arith
spelled-append n (c ∷ cs) = spelled-append (n * 16 + digit_of c) cs

zero_digit : (k : ℕ) → ltb 0 (0 / 16 ^ k % 16) ≡ false
zero_digit k = rw zero-div

-- For 0 the loop writes spaces, or nothing.
zero_blanks : (k : ℕ) → hex_loop k 0 false pad_spaces ≡ (replicate k b' ', false)
unfolding hex_loop
zero_blanks zero = refl
zero_blanks (suc k) = rw (zero_digit k, zero_blanks k)

set_last-spelled : (k : ℕ) → spelled 0 (set_last (replicate k b' ')) ≡ 0
set_last-spelled zero = refl
set_last-spelled (suc zero) = refl
set_last-spelled (suc (suc k)) = set_last-spelled (suc k)

-- With padding every digit has its place.
loop_full :
    (k value : ℕ) (started : Bool) (spaced : Spaced)
    → (started ≡ true) ⊎ (is_spaces spaced ≡ true)
    → length (hex_loop k value started spaced).0 ≡ k
unfolding hex_loop
loop_full zero value started spaced s = refl
loop_full (suc k) value started spaced s =
    ground (arith, loop_full k value true spaced (inl refl), loop_full k value started spaced s)

length-set_last : (cs : List ℕ) → length (set_last cs) ≡ length cs
length-set_last [] = refl
length-set_last (c ∷ []) = refl
length-set_last (c ∷ d ∷ cs) = ap suc (length-set_last (d ∷ cs))

start_enough :
    (value width : ℕ) (spaced : Spaced)
    → value < 16 ^ width
    → (value < 16 ^ start_digits value width spaced) × (start_digits value width spaced ≤ width)
unfolding start_digits
start_enough value width pad_none h = elim (Bool-cases (leb 8 width && (value / 2 ^ 8 == 0))) [
  | inl two ↦ rw two (ground arith, ground arith)
  | inr more ↦ rw more (elim (Bool-cases (leb 16 width && (value / 2 ^ 16 == 0))) [
    | inl four ↦ rw four (ground arith, ground arith)
    | inr rest ↦ rw rest (elim (Bool-cases (leb 32 width && (value / 2 ^ 32 == 0))) [
      | inl eight ↦ rw eight (ground arith, ground arith)
      | inr all ↦ rw all (h, omega arith)
    ])
  ])
]
start_enough value width pad_spaces h = (h, omega arith)
start_enough value width pad_zeros h = (h, omega arith)

loop_started : (k value : ℕ) (spaced : Spaced) → (hex_loop k value true spaced).1 ≡ true
unfolding hex_loop
loop_started zero value spaced = refl
loop_started (suc k) value spaced = loop_started k value spaced

none_loop : (k : ℕ) → hex_loop k 0 false pad_none ≡ ([], false)
unfolding hex_loop
none_loop zero = refl
none_loop (suc k) = rw (zero_digit k, none_loop k)

-- A digit
abbrev pub IsHexChar : ℕ → Type 0
IsHexChar c = ((b'0' ≤ c) × (c ≤ b'9')) ⊎ ((b'A' ≤ c) × (c ≤ b'F'))

abbrev pub AllHex : List ℕ → Type 0
AllHex [] = Unit
AllHex (c ∷ cs) = IsHexChar c × AllHex cs

-- Spaces, and at least one digit behind them
abbrev pub BlankHex : List ℕ → Type 0
BlankHex [] = ⊥
BlankHex (c ∷ cs) = ((c ≡ b' ') × BlankHex cs) ⊎ (IsHexChar c × AllHex cs)

-- Only digits, with spaces in front of them where they are asked for
abbrev pub IsForm : Spaced → List ℕ → Type 0
IsForm pad_none cs = AllHex cs
IsForm pad_spaces cs = BlankHex cs
IsForm pad_zeros cs = AllHex cs

IsForm-cons :
    (spaced : Spaced) (c : ℕ) (cs : List ℕ) → IsHexChar c → AllHex cs → IsForm spaced (c ∷ cs)
IsForm-cons pad_none c cs h a = (h, a)
IsForm-cons pad_spaces c cs h a = inr (h, a)
IsForm-cons pad_zeros c cs h a = (h, a)

IsForm-blank :
    (spaced : Spaced) (cs : List ℕ)
    → is_spaces spaced ≡ true
    → IsForm spaced cs
    → IsForm spaced (b' ' ∷ cs)
IsForm-blank pad_none cs e h = absurd (ground arith)
IsForm-blank pad_spaces cs e h = inl (refl, h)
IsForm-blank pad_zeros cs e h = absurd (ground arith)

hex_char-IsHexChar : (v : ℕ) → v < 16 → IsHexChar (hex_char v)
hex_char-IsHexChar v h = ground arith

loop_digits : (k value : ℕ) (spaced : Spaced) → AllHex (hex_loop k value true spaced).0
unfolding hex_loop
loop_digits zero value spaced = tt
loop_digits (suc k) value spaced =
    (hex_char-IsHexChar (value / 16 ^ k % 16) (omega arith), loop_digits k value spaced)

-- A loop that has come to a digit
loop-IsForm :
    (k value : ℕ) (spaced : Spaced)
    → (hex_loop k value false spaced).1 ≡ true
    → (0 < length (hex_loop k value false spaced).0)
      × IsForm spaced (hex_loop k value false spaced).0
unfolding hex_loop
loop-IsForm zero value spaced e = absurd (ground arith)
loop-IsForm (suc k) value spaced e =
    let v = value / 16 ^ k % 16 in
    elim (Bool-cases (ltb 0 v)) [
      | inl hit ↦ rw hit (
        omega arith,
        IsForm-cons spaced (hex_char v) (hex_loop k value true spaced).0
            (hex_char-IsHexChar v (omega arith)) (loop_digits k value spaced),
      )
      | inr skip ↦ elim (Bool-cases (is_spaces spaced)) [
        | inl blank ↦
            let (l, h) = loop-IsForm k value spaced (rw (skip, blank) at e) in
            rw (skip, blank)
              (omega arith, IsForm-blank spaced (hex_loop k value false spaced).0 blank h)
        | inr bare ↦ rw (skip, bare) (loop-IsForm k value spaced (rw (skip, bare) at e))
      ]
    ]

-- A loop that has come to none
loop_blank :
    (k value : ℕ) (spaced : Spaced)
    → (hex_loop k value false spaced).1 ≡ false
    → spelled 0 (hex_loop k value false spaced).0 ≡ 0
unfolding hex_loop
loop_blank zero value spaced e = refl
loop_blank (suc k) value spaced e =
    let v = value / 16 ^ k % 16 in
    elim (Bool-cases (ltb 0 v)) [
      | inl hit ↦ absurd (ground (arith, loop_started k value spaced, rw hit at e))
      | inr skip ↦ elim (Bool-cases (is_spaces spaced)) [
        | inl blank ↦ rw (skip, blank) (loop_blank k value spaced (rw (skip, blank) at e))
        | inr bare ↦ rw (skip, bare) (loop_blank k value spaced (rw (skip, bare) at e))
      ]
    ]

set_last-BlankHex : (k : ℕ) → 0 < k → BlankHex (set_last (replicate k b' '))
set_last-BlankHex zero h = absurd (omega arith)
set_last-BlankHex (suc zero) h = inr (ground arith, tt)
set_last-BlankHex (suc (suc k)) h = inl (refl, set_last-BlankHex (suc k) (omega arith))

-- What is to be shown of the text.
abbrev pub Spells : ℕ → ℕ → Spaced → List ℕ → Type 0
Spells value width spaced digits =
    (spelled 0 digits ≡ value)
    × (0 < length digits)
    × (length digits ≤ width)
    × IsForm spaced digits
    × (spaced ≢ pad_none → length digits ≡ width)

all_started :
    (value width : ℕ) (spaced : Spaced)
    → 0 < value
    → value < 16 ^ width
    → (hex_loop (start_digits value width spaced) value (is_zeros spaced) spaced).1 ≡ true
all_started value width spaced p h = elim (Bool-cases (is_zeros spaced)) [
  | inl zeros ↦ rw zeros (loop_started (start_digits value width spaced) value spaced)
  | inr other ↦
      let k = start_digits value width spaced in
      let below = (start_enough value width spaced h).0 in
      let spells = loop_spells k value 0 false spaced (sym (div-eq_of_lt below)) (inr refl) in
      rw other (elim (Bool-cases (hex_loop k value false spaced).1) [
        | inl e ↦ e
        | inr e ↦ absurd (omega (arith, spells, loop_blank k value spaced e))
      ])
]

-- The loop's text, where the special case of 0 does not apply
loop_Spells :
    (value width : ℕ) (spaced : Spaced)
    → 0 < width
    → value < 16 ^ width
    → (hex_loop (start_digits value width spaced) value (is_zeros spaced) spaced).1 ≡ true
    → Spells value width spaced
        (hex_loop (start_digits value width spaced) value (is_zeros spaced) spaced).0
unfolding start_digits
loop_Spells value width pad_none w h e =
    let k = start_digits value width pad_none in
    let (below, small) = start_enough value width pad_none h in
    let (some_digit, form) = loop-IsForm k value pad_none e in
    (
      loop_spells k value 0 false pad_none (sym (div-eq_of_lt below)) (inr refl),
      some_digit,
      omega (arith, loop_length k value false pad_none),
      form,
      λ ne. absurd (ne refl),
    )
loop_Spells value width pad_spaces w h e =
    let (some_digit, form) = loop-IsForm width value pad_spaces e in
    let full = loop_full width value false pad_spaces (inr refl) in
    (
      loop_spells width value 0 false pad_spaces (sym (div-eq_of_lt h)) (inr refl),
      some_digit,
      omega (arith, full),
      form,
      λ ne. full,
    )
loop_Spells value width pad_zeros w h e =
    let full = loop_full width value true pad_zeros (inl refl) in
    (
      loop_spells width value 0 true pad_zeros (sym (div-eq_of_lt h)) (inl refl),
      omega (arith, full),
      omega (arith, full),
      loop_digits width value pad_zeros,
      λ ne. full,
    )

-- The hexadecimal print of a value that fits in a width of up to 16 digits spells the value, in at
-- least one and at most `width` characters, with padding in exactly `width`. All characters are the digits
-- 0 to 9 and A to F, but that, with padding by spaces, spaces stand in front of them.
pub cvt_uint64_hex_lem :
    (value width : ℕ) (spaced : Spaced)
    → 0 < width
    → width ≤ 16
    → value < 16 ^ width
    → Spells value width spaced (cvt_uint64_hex value width spaced)
unfolding cvt_uint64_hex hex_zero start_digits
cvt_uint64_hex_lem zero width pad_none w b h =
    rw (none_loop (start_digits 0 width pad_none))
      (refl, omega arith, omega arith, (ground arith, tt), λ ne. absurd (ne refl))
cvt_uint64_hex_lem zero width pad_spaces w b h =
    let size = length-set_last (replicate width b' ') ∙ length-replicate width b' ' in
    rw (zero_blanks width) (
      set_last-spelled width,
      omega (arith, size),
      omega (arith, size),
      set_last-BlankHex width w,
      λ ne. size,
    )
cvt_uint64_hex_lem zero width pad_zeros w b h =
    let started = loop_started width 0 pad_zeros in
    rw started (loop_Spells zero width pad_zeros w h started)
cvt_uint64_hex_lem (suc value) width spaced w b h =
    let started = all_started (suc value) width spaced (omega arith) h in
    let plain : ((suc value == 0)
          && not
              (hex_loop (start_digits (suc value) width spaced) (suc value) (is_zeros spaced)
                spaced).1)
        ≡ false =
      rw started (ground arith) in
    rw plain (loop_Spells (suc value) width spaced w h started)
