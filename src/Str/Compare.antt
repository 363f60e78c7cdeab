-- ===== src/Str/Compare.antt =====
-- strcmp and strncmp on strings that end.
use riscos64_simple_binaries.Base.{
  ℕ, zero, suc, refl, sym, inl, inr, false, some, List, [], arith, ==_self, Bool-cases, length,
  take, ℤ, pos, sub_ℕ, ◌+◌, ◌≤◌, ◌<◌, ◌≡◌, ◌∙◌, ◌↔◌, ◌∷◌, ◌==◌, if◌then◌else◌,
}
use riscos64_simple_binaries.Memory.{Memory}
use riscos64_simple_binaries.Memory.Text.{HasString, IsText, HasString-IsText}
use riscos64_simple_binaries.Memory.Search.{memcmp}
use riscos64_simple_binaries.Str.{strcmp, strncmp}

-- The difference of the first characters that differ, where the end counts as 0.
abbrev pub difference : List ℕ → List ℕ → ℤ
difference [] [] = pos 0
difference [] (y ∷ ys) = sub_ℕ 0 y
difference (x ∷ xs) [] = sub_ℕ x 0
difference (x ∷ xs) (y ∷ ys) = if x == y then difference xs ys else sub_ℕ x y

sub_ℕ-zero : (x y : ℕ) → sub_ℕ x y ≡ pos 0 → x ≡ y
sub_ℕ-zero x y h = ground arith

strcmp-difference :
    (fuel : ℕ) (m : Memory) (a b : ℕ) (xs ys : List ℕ)
    → HasString m a xs
    → HasString m b ys
    → length xs < fuel
    → strcmp fuel m a b ≡ some (difference xs ys)
unfolding strcmp
strcmp-difference zero m a b xs ys h k l = absurd (omega arith)
strcmp-difference (suc fuel) m a b [] [] h k l = rw (h, k) refl
strcmp-difference (suc fuel) m a b [] (y ∷ ys) h k l =
    let e : (0 == y) ≡ false = ground (arith, k.1) in rw (h, k.0, e) refl
strcmp-difference (suc fuel) m a b (x ∷ xs) [] h k l =
    let e : (x == 0) ≡ false = ground (arith, h.1) in rw (h.0, k, e) refl
strcmp-difference (suc fuel) m a b (x ∷ xs) (y ∷ ys) h k l =
    let e : (x == 0) ≡ false = ground (arith, h.1) in
    rw (h.0, k.0, e, strcmp-difference fuel m (a + 1) (b + 1) xs ys h.2 k.2 (omega arith))
      (elim (Bool-cases (x == y)) [ inl same ↦ rw same refl | inr other ↦ rw other refl ])

difference_self : (xs : List ℕ) → difference xs xs ≡ pos 0
difference_self [] = refl
difference_self (x ∷ xs) = rw (==_self x) (difference_self xs)

zero-difference : (xs ys : List ℕ) → IsText xs → IsText ys → difference xs ys ≡ pos 0 → xs ≡ ys
zero-difference [] [] t u h = refl
zero-difference [] (y ∷ ys) t u h = absurd (u.0 (sym (sub_ℕ-zero 0 y h)))
zero-difference (x ∷ xs) [] t u h = absurd (t.0 (sub_ℕ-zero x 0 h))
zero-difference (x ∷ xs) (y ∷ ys) t u h = elim (Bool-cases (x == y)) [
  | inl e ↦
      let same : x ≡ y = ground arith in
      let rest : difference xs ys ≡ pos 0 = sym (rw e refl) ∙ h in
      rw (same, zero-difference xs ys t.1 u.1 rest)
  | inr e ↦
      let stop : sub_ℕ x y ≡ pos 0 = sym (rw e refl) ∙ h in
      absurd (ground (arith, sub_ℕ-zero x y stop))
]

-- `strcmp` of two strings is the difference of the first characters that differ, where the end
-- counts as 0, and it is 0 exactly when the texts are the same.
strcmp_lem :
    (fuel : ℕ) (m : Memory) (a b : ℕ) (xs ys : List ℕ)
    → HasString m a xs
    → HasString m b ys
    → length xs < fuel
    → (strcmp fuel m a b ≡ some (difference xs ys)) × ((difference xs ys ≡ pos 0) ↔ (xs ≡ ys))
strcmp_lem fuel m a b xs ys h k l = (
  strcmp-difference fuel m a b xs ys h k l,
  (
    zero-difference xs ys (HasString-IsText m a xs h) (HasString-IsText m b ys k),
    λ e. rw e (difference_self ys),
  ),
)

-- `strncmp` is `strcmp` of the first `n` characters of the two texts.
strncmp_lem :
    (m : Memory) (a b n : ℕ) (xs ys : List ℕ)
    → HasString m a xs
    → HasString m b ys
    → strncmp m a b n ≡ difference (take n xs) (take n ys)
unfolding strncmp
strncmp_lem m a b zero xs ys h k = refl
strncmp_lem m a b (suc n) [] [] h k = rw (h, k) refl
strncmp_lem m a b (suc n) [] (y ∷ ys) h k =
    let e : (0 == y) ≡ false = ground (arith, k.1) in rw (h, k.0, e) refl
strncmp_lem m a b (suc n) (x ∷ xs) [] h k =
    let e : (x == 0) ≡ false = ground (arith, h.1) in rw (h.0, k, e) refl
strncmp_lem m a b (suc n) (x ∷ xs) (y ∷ ys) h k =
    let e : (x == 0) ≡ false = ground (arith, h.1) in
    rw (h.0, k.0, e, strncmp_lem m (a + 1) (b + 1) n xs ys h.2 k.2) refl

-- Against a text of `n` characters or more `strncmp` compares bytes.
pub strncmp-memcmp :
    (m : Memory) (a b n : ℕ) (ys : List ℕ)
    → HasString m b ys
    → n ≤ length ys
    → strncmp m a b n ≡ memcmp m a b n
unfolding strncmp memcmp
strncmp-memcmp m a b zero ys h l = refl
strncmp-memcmp m a b (suc n) [] h l = absurd (omega arith)
strncmp-memcmp m a b (suc n) (y ∷ ys) h l = elim (Bool-cases (m a == m b)) [
  | inl e ↦
      let z : (m a == 0) ≡ false = ground (arith, h.0, h.1) in
      rw (e, z) (strncmp-memcmp m (a + 1) (b + 1) n ys h.2 (omega arith))
  | inr e ↦ rw e refl
]
