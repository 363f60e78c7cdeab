-- ===== src/Io/Sprintf/Laws.antt =====
-- Writing strings: the buffer holds the text cut to `size` characters and terminated.
use Prim.Native.Nat.{min}
use native.Mathlib.Decide.{dec_le, dec_lt}
use riscos64_simple_binaries.Base.{
  as_int_small, as_int, lt_int, ℕ, zero, suc, refl, sym, ap, subst, true, false, List, [], arith,
  ltb, length, get_or, take, length-append, length-take, get_or-append, pos, ◌+◌, ◌-◌, ◌^◌, ◌≤◌,
  ◌<◌, ◌≡◌, ◌∙◌, ◌⊎◌, ◌∷◌, ◌++◌, ◌==◌, if◌then◌else◌,
}
use riscos64_simple_binaries.Memory.{Memory, store}
use riscos64_simple_binaries.Memory.Blit.{within}
use riscos64_simple_binaries.Io.Sprintf.{
  Outputter, store_all, writen_left, str_writen, snprintf_start, less,
}

get_or-cons :
    (c : ℕ) (bs : List ℕ) (k : ℕ)
    → get_or (c ∷ bs) k 0 ≡ (if k == 0 then c else get_or bs (k - 1) 0)
get_or-cons c bs zero = ground arith
get_or-cons c bs (suc k) = ground arith

pub store_all_lem :
    (bs : List ℕ) (m : Memory) (p a : ℕ)
    → store_all m p bs a ≡ (if within p (length bs) a then get_or bs (a - p) 0 else m a)
store_all_lem [] m p a = ground arith
store_all_lem (c ∷ bs) m p a =
    ground (arith, store_all_lem bs (store m p c) (p + 1) a, get_or-cons c bs (a - p))

get_or-take : (n : ℕ) (xs : List ℕ) (i : ℕ) → i < n → get_or (take n xs) i 0 ≡ get_or xs i 0
get_or-take zero xs i h = absurd (omega arith)
get_or-take (suc n) [] i h = refl
get_or-take (suc n) (x ∷ xs) zero h = refl
get_or-take (suc n) (x ∷ xs) (suc i) h = get_or-take n xs i (omega arith)

-- A string that fits is written whole.
pub writen_whole :
    (outs : Outputter) (str : List ℕ) (left : ℕ)
    → left < 2 ^ 31
    → length str ≤ left
    → writen_left outs str (pos left) ≡ record outs {
      mem = store (store_all outs.mem outs.p str) (outs.p + length str) 0;
      p = outs.p + length str;
      left = pos (left - length str);
    }
unfolding writen_left
writen_whole outs str left b l =
    let fits : lt_int (pos left) (as_int (length str)) ≡ false =
      rw (as_int_small (length str) (omega arith)) (ground arith) in
    let now_left : less (pos left) (length str) ≡ pos (left - length str) = ground arith in
    rw (fits, now_left) refl

-- The buffer holds `text`, as far as it fits in `size` characters: these are stored and followed by
-- a terminator, and no byte outside the `size + 1` bytes from `start` has changed since `m`.
pub record Holds (m : Memory) (size : ℕ) (text : List ℕ) (outs : Outputter) : Type 0 where
  pub p_at : outs.p ≡ outs.start + length text
  pub left_at : outs.left ≡ pos (size - length text)
  pub stored : (i : ℕ) → i < length text → i < size → outs.mem (outs.start + i) ≡ get_or text i 0
  pub terminated : 0 < length text → outs.mem (outs.start + min (length text) size) ≡ 0
  pub outside : (a : ℕ) → (a < outs.start) ⊎ (outs.start + size < a) → outs.mem a ≡ m a

module _ (m : Memory) (size : ℕ) (text : List ℕ) (outs : Outputter) (b : size < 2 ^ 31)
    (h : Holds m size text outs) where
  fits_iff :
      (str : List ℕ)
      → length str < 2 ^ 31
      → lt_int (pos (size - length text)) (as_int (length str))
        ≡ ltb (size - length text) (length str)
  fits_iff str l = rw (as_int_small (length str) l) refl

  Target : List ℕ → Type 0
  Target str = Holds m size (text ++ str) (writen_left outs str (pos (size - length text)))

  writen_fits :
      (str : List ℕ)
      → length str < 2 ^ 31
      → 0 < length str
      → length text + length str ≤ size
      → Target str
  unfolding writen_left Target
  writen_fits str sl n f =
      rw (writen_whole outs str (size - length text) (omega arith) (omega arith)) (record {
        p_at = omega (arith, length-append text str);
        left_at = ap pos (omega (arith, length-append text str));
        stored = λ i k l. ground (
          arith,
          length-append text str,
          h.stored i,
          get_or-append text str i,
          store_all_lem str outs.mem outs.p (outs.start + i),
        );
        terminated = λ k. ground (arith, length-append text str);
        outside = λ a k. ground (arith, h.outside a k, store_all_lem str outs.mem outs.p a);
      })

  writen_cut :
      (str : List ℕ)
      → length str < 2 ^ 31
      → length text < size
      → size < length text + length str
      → Target str
  unfolding writen_left Target
  writen_cut str sl n f =
      let room : ℕ = size - length text in
      let e : ltb (size - length text) (length str) ≡ true = ground arith in
      let e' : (size - length text == 0) ≡ false = ground arith in
      rw (fits_iff str sl, e, e')
        (record {
          p_at = omega (arith, length-append text str);
          left_at = ap pos (omega (arith, length-append text str));
          stored = λ i k l. ground (
            arith,
            length-append text str,
            length-take room str,
            h.stored i,
            get_or-append text str i,
            get_or-take room str (i - length text),
            store_all_lem (take room str) outs.mem outs.p (outs.start + i),
          );
          terminated = λ k. ground (arith, length-append text str);
          outside = λ a k. ground (
            arith,
            h.outside a k,
            length-take room str,
            store_all_lem (take room str) outs.mem outs.p a,
          );
        })

  writen_full :
      (str : List ℕ)
      → length str < 2 ^ 31
      → size ≤ length text
      → 0 < length text
      → 0 < length str
      → Target str
  unfolding writen_left Target
  writen_full str sl n t f =
      let e : ltb (size - length text) (length str) ≡ true = ground arith in
      let e' : (size - length text == 0) ≡ true = ground arith in
      rw (fits_iff str sl, e, e')
        (record {
          p_at = omega (arith, length-append text str);
          left_at = h.left_at ∙ ap pos (omega (arith, length-append text str));
          stored =
              λ i k l. ground (arith, length-append text str, h.stored i, get_or-append text str i);
          terminated = λ k. ground (arith, length-append text str, h.terminated t);
          outside = h.outside;
        })

-- Writing a string that is not empty keeps the buffer right, where both the string and the buffer are
-- shorter than 2^31: it holds the text so far with the
-- string behind it, cut to `size` characters and terminated; the result is the string's length, and
-- no byte outside the buffer's `size + 1` changes. The buffer must have room for a character.
pub str_writen-Holds :
    (m : Memory) (size : ℕ) (text str : List ℕ) (outs : Outputter)
    → 0 < size
    → size < 2 ^ 31
    → Holds m size text outs
    → 0 < length str
    → length str < 2 ^ 31
    → ((str_writen outs str).0 ≡ length str) × Holds m size (text ++ str) (str_writen outs str).1
unfolding str_writen Target
str_writen-Holds m size text str outs s b h n sl =
    (refl, subst (λ l. Holds m size (text ++ str) (writen_left outs str l)) (sym h.left_at) target)
  where
    target : Holds m size (text ++ str) (writen_left outs str (pos (size - length text)))
    target = elim (dec_le (length text + length str) size) [
      | yes fits ↦ writen_fits m size text outs b h str sl n fits
      | no over ↦ elim (dec_lt (length text) size) [
        | yes some_room ↦ writen_cut m size text outs b h str sl some_room (omega arith)
        | no full ↦ writen_full m size text outs b h str sl (omega arith) (omega arith) n
      ]
    ]

-- The outputter of `vsnprintf` starts with an empty text.
pub snprintf_start-Holds :
    (m : Memory) (start size : ℕ)
    → size < 2 ^ 31
    → Holds m size [] (snprintf_start m start (size + 1))
unfolding snprintf_start
snprintf_start-Holds m start size b = record {
  p_at = omega arith;
  left_at = ground arith;
  stored = λ i k l. absurd (omega arith);
  terminated = λ k. absurd (omega arith);
  outside = λ a k. refl;
}
