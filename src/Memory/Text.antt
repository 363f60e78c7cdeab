-- ===== src/Memory/Text.antt =====
-- Strings in memory, as the C library has them: characters up to the first that is 0.
use riscos64_simple_binaries.Base.{
  ℕ, zero, suc, refl, subst, List, [], arith, length, get_or, ◌+◌, ◌≤◌, ◌<◌, ◌≡◌, ◌∙◌, ◌≢◌, ◌∷◌,
}
use native.Mathlib.Nat.{add-zero}
use riscos64_simple_binaries.Memory.{Memory}

-- The text `cs` with its terminator stands at `p`.
abbrev pub HasString : Memory → ℕ → List ℕ → Type 0
HasString m p [] = m p ≡ 0
HasString m p (c ∷ cs) = (m p ≡ c) × (c ≢ 0) × HasString m (p + 1) cs

-- No character of the text is 0.
abbrev pub IsText : List ℕ → Type 0
IsText [] = Unit
IsText (c ∷ cs) = (c ≢ 0) × IsText cs

pub HasString-byte :
    (m : Memory) (p : ℕ) (cs : List ℕ) (i : ℕ)
    → HasString m p cs
    → i ≤ length cs
    → m (p + i) ≡ get_or cs i 0
HasString-byte m p [] zero h l = rw (add-zero p) h
HasString-byte m p [] (suc i) h l = absurd (omega arith)
HasString-byte m p (c ∷ cs) zero h l = rw (add-zero p) h.0
HasString-byte m p (c ∷ cs) (suc i) h l =
    subst (λ a. m a ≡ get_or cs i 0) (omega arith) (HasString-byte m (p + 1) cs i h.2 (omega arith))

pub HasString-nonzero :
    (m : Memory) (p : ℕ) (cs : List ℕ) (i : ℕ) → HasString m p cs → i < length cs → m (p + i) ≢ 0
HasString-nonzero m p [] i h l = absurd (omega arith)
HasString-nonzero m p (c ∷ cs) zero h l = ground (arith, add-zero p, h.0, h.1)
HasString-nonzero m p (c ∷ cs) (suc i) h l =
    let e : p + suc i ≡ p + 1 + i = omega arith in
    rw e (HasString-nonzero m (p + 1) cs i h.2 (omega arith))

pub get_or_past : (xs : List ℕ) (i : ℕ) → length xs ≤ i → get_or xs i 0 ≡ 0
get_or_past [] i l = refl
get_or_past (x ∷ xs) zero l = absurd (omega arith)
get_or_past (x ∷ xs) (suc i) l = get_or_past xs i (omega arith)

pub HasString-IsText : (m : Memory) (p : ℕ) (cs : List ℕ) → HasString m p cs → IsText cs
HasString-IsText m p [] h = tt
HasString-IsText m p (c ∷ cs) h = (h.1, HasString-IsText m (p + 1) cs h.2)

-- The bytes of a text make a string.
pub HasString-intro :
    (m : Memory) (p : ℕ) (cs : List ℕ)
    → IsText cs
    → ((i : ℕ) → i ≤ length cs → m (p + i) ≡ get_or cs i 0)
    → HasString m p cs
HasString-intro m p [] t h = subst (λ a. m a ≡ 0) (add-zero p) (h 0 (omega arith))
HasString-intro m p (c ∷ cs) t h = (
  subst (λ a. m a ≡ c) (add-zero p) (h 0 (omega arith)),
  t.0,
  HasString-intro m (p + 1) cs t.1
      (λ i l. subst (λ a. m a ≡ get_or cs i 0) (omega arith) (h (suc i) (omega arith))),
)

-- A string stays when its bytes do.
pub HasString-kept :
    (m m' : Memory) (p : ℕ) (cs : List ℕ)
    → HasString m p cs
    → ((i : ℕ) → i ≤ length cs → m' (p + i) ≡ m (p + i))
    → HasString m' p cs
HasString-kept m m' p cs h k =
    HasString-intro m' p cs (HasString-IsText m p cs h) (λ i l. k i l ∙ HasString-byte m p cs i h l)
