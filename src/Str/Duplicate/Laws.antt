-- ===== src/Str/Duplicate/Laws.antt =====
-- Copies of strings in new blocks, and the comparison that ignores case.
use riscos64_simple_binaries.Base.{
  ◌≤◌, ◌⊎◌, ℕ, zero, suc, refl, sym, ap, subst, inl, inr, true, false, Option, none, some, List, [],
  arith, ltb, Bool-cases, length, get_or, take, length-take, ℤ, pos, negsuc, sub_ℕ, int_size, ◌+◌,
  ◌-◌, ◌%◌, ◌^◌, ◌<◌, ◌≡◌, ◌∙◌, ◌≢◌, ◌∷◌, ◌==◌, if◌then◌else◌,
}
use riscos64_simple_binaries.Memory.{Memory, store}
use riscos64_simple_binaries.Memory.Text.{
  HasString, HasString-kept, IsText, HasString-IsText, HasString-intro, HasString-byte,
}
use riscos64_simple_binaries.Memory.Blit.{Disjoint, within}
use riscos64_simple_binaries.Memory.Copy.{memcpy, memcpy-eq-blit}
use riscos64_simple_binaries.Str.{strncpy}
use riscos64_simple_binaries.Str.Copy.{strlen_lem, strncpy_lem, AgreeBut, Apart}
use riscos64_simple_binaries.Str.Compare.{difference}
use riscos64_simple_binaries.Str.Duplicate.{strdup, strndup, stricmp, small, filled}
use riscos64_simple_binaries.Heap.Impl.{Impl}
use riscos64_simple_binaries.Heap.Malloc.{State, OsModule, malloc}
use riscos64_simple_binaries.Heap.Malloc.Laws.{mem-malloc}

-- How a copy of `cs` comes out, by what `malloc` gave: a block that `apart` allows holds the copy,
-- and only the first `n + 1` bytes of it and the eight in front of it have changed.
abbrev pub Duplicated :
    {H : Type 0} → (ℕ → Type 0) → List ℕ → ℕ → Memory → Option ℕ → Option ℕ × State H → Type 0
Duplicated apart cs n m r x =
    let (r', s') = x in
    (r' ≡ r)
    × (r ≡ some 0 → (a : ℕ) → s'.mem a ≡ m a)
    × ((p : ℕ)
        → r ≡ some p
        → p ≢ 0
        → apart p
        → HasString s'.mem p cs × ((a : ℕ) → (a + 8 < p) ⊎ (p + n < a) → s'.mem a ≡ m a))

-- `y` is what `malloc` leaves of the memory `m`.
abbrev Allocated : {H : Type 0} → Memory → Option ℕ × State H → Type 0
Allocated m y = (a : ℕ) → ((p : ℕ) → y.0 ≡ some p → p ≢ 0 → (a + 8 < p) ⊎ (p ≤ a)) → y.1.mem a ≡ m a

duplicated :
    {H : Type 0} {apart : ℕ → Type 0} (fill : Memory → ℕ → Memory) (x : ℕ) (cs : List ℕ) (n : ℕ)
    (source : List ℕ) (m : Memory) (y : Option ℕ × State H)
    → HasString m x source
    → Allocated m y
    → ((p i : ℕ) → apart p → i ≤ length source → (x + i + 8 < p) ⊎ (p ≤ x + i))
    → ((m : Memory) (p : ℕ)
        → HasString m x source
        → apart p
        → HasString (fill m p) p cs × AgreeBut m (fill m p) p n)
    → Duplicated apart cs n m y.0 (filled fill y)
duplicated fill x cs n source m (none, s) h al clear k =
    (refl, λ e a. absurd (ground arith), λ p e. absurd (ground arith))
duplicated {H} {apart} fill x cs n source m (some q, s) h al clear k = elim (Bool-cases (q == 0)) [
  | inl z ↦ rw z (
    ground arith,
    λ e a. al a (λ p e' ne. absurd (ground arith)),
    λ p e ne. absurd (ground arith),
  )
  | inr z ↦ rw z (
    refl,
    λ e. absurd (ground arith),
    λ p e ne a.
        let same : p ≡ q = ground arith in
        subst (λ b. HasString (fill s.mem q) b cs × Kept b) (sym same)
          (copied (subst apart same a)),
  )
]
  where
    Kept : ℕ → Type 0
    Kept b = (a : ℕ) → (a + 8 < b) ⊎ (b + n < a) → fill s.mem q a ≡ m a

    -- `malloc` has left alone what does not lie in front of the block.
    left_alone : (a : ℕ) → (a + 8 < q) ⊎ (q ≤ a) → s.mem a ≡ m a
    left_alone a o = al a (λ p e ne. ground arith)

    copied : apart q → HasString (fill s.mem q) q cs × Kept q
    copied a =
        let source_kept =
          HasString-kept m s.mem x source h (λ i l. left_alone (x + i) (clear q i a l)) in
        let (text, others) = k s.mem q source_kept a in
        (text, λ b o. others b (ground arith) ∙ left_alone b (ground arith))

memcpy-HasString :
    (m : Memory) (p x : ℕ) (cs : List ℕ)
    → HasString m x cs
    → Disjoint p x (length cs + 1)
    → HasString (memcpy m p x (length cs + 1)) p cs
      × AgreeBut m (memcpy m p x (length cs + 1)) p (length cs)
memcpy-HasString m p x cs h a = (
  HasString-intro _ p cs (HasString-IsText m x cs h) (λ i l.
      let inside : within p (length cs + 1) (p + i) ≡ true = ground arith in
      let back : x + (p + i - p) ≡ x + i = omega arith in
      memcpy-eq-blit m p x (length cs + 1) (p + i) a
      ∙ rw (inside, back) (HasString-byte m x cs i h l)),
  λ b o.
      let outside : within p (length cs + 1) b ≡ false = ground arith in
      memcpy-eq-blit m p x (length cs + 1) b a ∙ rw outside refl,
)

get_or-take :
    (cs : List ℕ) (n i : ℕ) → get_or (take n cs) i 0 ≡ (if ltb i n then get_or cs i 0 else 0)
get_or-take [] zero i = ground arith
get_or-take [] (suc n) i = ground arith
get_or-take (c ∷ cs) zero i = ground arith
get_or-take (c ∷ cs) (suc n) zero = ground arith
get_or-take (c ∷ cs) (suc n) (suc i) = ground (arith, get_or-take cs n i)

take-IsText : (n : ℕ) (cs : List ℕ) → IsText cs → IsText (take n cs)
take-IsText zero cs t = tt
take-IsText (suc n) [] t = tt
take-IsText (suc n) (c ∷ cs) t = (t.0, take-IsText n cs t.1)

strncpy-HasString :
    (m : Memory) (p x n : ℕ) (cs : List ℕ)
    → HasString m x cs
    → Apart p x (length cs)
    → HasString (store (strncpy m p x n) (p + n) 0) p (take n cs)
      × AgreeBut m (store (strncpy m p x n) (p + n) 0) p n
strncpy-HasString m p x n cs h a = (
  HasString-intro _ p (take n cs) (take-IsText n cs (HasString-IsText m x cs h)) (λ i l.
      let k = length-take n cs in
      ground (arith, strncpy_lem m p x cs n h a (p + i), get_or-take cs n i)),
  λ b o. ground (arith, strncpy_lem m p x cs n h a b),
)

-- The order of two numbers as -1, 0 or 1
abbrev pub order : ℤ → ℤ
order (pos n) = if n == 0 then pos 0 else pos 1
order (negsuc n) = negsuc 0

abbrev pub all_small : List ℕ → List ℕ
all_small [] = []
all_small (c ∷ cs) = small c ∷ all_small cs

order-sub_ℕ :
    (a b : ℕ) → (a == b) ≡ false → order (sub_ℕ a b) ≡ (if ltb a b then negsuc 0 else pos 1)
order-sub_ℕ a b ne = ground arith

small-nonzero : (c : ℕ) → c ≢ 0 → small c ≢ 0
small-nonzero c ne = ground arith

-- `stricmp` compares the texts with their capital letters made small: it gives -1, 0 or 1 as the first
-- difference of these is negative, there is none, or it is positive.
pub stricmp-difference :
    (fuel : ℕ) (m : Memory) (a b : ℕ) (xs ys : List ℕ)
    → HasString m a xs
    → HasString m b ys
    → length xs < fuel
    → stricmp fuel m a b ≡ some (order (difference (all_small xs) (all_small ys)))
unfolding stricmp
stricmp-difference zero m a b xs ys h k l = absurd (omega arith)
stricmp-difference (suc fuel) m a b [] [] h k l = rw (h, k) refl
stricmp-difference (suc fuel) m a b [] (y ∷ ys) h k l =
    let ne : (0 == small y) ≡ false = ground (arith, small-nonzero y k.1) in
    rw (h, k.0) (rw ne (ap some (sym (order-sub_ℕ 0 (small y) ne))))
stricmp-difference (suc fuel) m a b (x ∷ xs) [] h k l =
    let ne : (small x == 0) ≡ false = ground (arith, small-nonzero x h.1) in
    rw (h.0, k) (rw ne (ap some (sym (order-sub_ℕ (small x) 0 ne))))
stricmp-difference (suc fuel) m a b (x ∷ xs) (y ∷ ys) h k l =
    let z : (small x == 0) ≡ false = ground (arith, small-nonzero x h.1) in
    rw (h.0, k.0, z)
      (elim (Bool-cases (small x == small y)) [
        | inl e ↦ rw e (stricmp-difference fuel m (a + 1) (b + 1) xs ys h.2 k.2 (omega arith))
        | inr e ↦ rw e (ap some (sym (order-sub_ℕ (small x) (small y) e)))
      ])

module _ {H : Type 0} (impl : Impl H) (os : OsModule H) where
  -- `strdup` of a string of fewer than 2^31 - 1 characters asks `malloc` for one byte more than it is long and returns what that gives, given fuel for the
  -- string: NULL, with the memory as it was, or a block, which then holds the
  -- same string, where the block and the size word in front of it lie apart from the string; no byte outside those has changed.
  pub strdup-Duplicated :
      (fuel : ℕ) (s : State H) (x : ℕ) (cs : List ℕ)
      → HasString s.mem x cs
      → length cs < fuel
      → length cs + 1 < 2 ^ 31
      → (r : Option ℕ × State H) × (strdup impl os fuel s x ≡ some r)
        × Duplicated
            (λ p. (p + length cs < x) ⊎ (x + length cs + 8 < p))
            cs
            (length cs)
            s.mem
            (malloc impl os s (length cs + 1)).0
            r
  unfolding strdup
  strdup-Duplicated fuel s x cs h l b =
      let size : int_size (length cs + 1) ≡ length cs + 1 = ground arith in
      let y = malloc impl os s (length cs + 1) in
      (
        filled (λ m p. memcpy m p x (length cs + 1)) y,
        rw (strlen_lem fuel s.mem x cs h l, size) refl,
        duplicated (λ m p. memcpy m p x (length cs + 1)) x cs (length cs) cs s.mem y h
            (mem-malloc impl os s (length cs + 1)) (λ p i a o. ground arith)
            (λ m p k a. memcpy-HasString m p x cs k (ground arith)),
      )

  -- `strndup` of a string asks `malloc` for `n + 1` bytes, a count that does not overflow, and returns what that gives: NULL,
  -- with the memory as it was, or a block, which then holds the first `n` characters of the
  -- string, or all of them if it is shorter, where the string lies behind the block or in front of its size word; at most the `n + 1` bytes of the block
  -- and its size word have changed.
  pub strndup-Duplicated :
      (s : State H) (x n : ℕ) (cs : List ℕ)
      → HasString s.mem x cs
      → n + 1 < 2 ^ 64
      → Duplicated
          (λ p. (p + length cs < x) ⊎ (x + length cs + 8 < p))
          (take n cs)
          n
          s.mem
          (malloc impl os s (n + 1)).0
          (strndup impl os s x n)
  unfolding strndup
  strndup-Duplicated s x n cs h b =
      let size : (n + 1) % 2 ^ 64 ≡ n + 1 = omega arith in
      rw size (
        duplicated (λ m p. store (strncpy m p x n) (p + n) 0) x (take n cs) n cs s.mem
          (malloc impl os s (n + 1)) h (mem-malloc impl os s (n + 1)) (λ p i a o. ground arith)
          (λ m p k a. strncpy-HasString m p x n cs k (ground arith)))
