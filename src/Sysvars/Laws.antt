-- ===== src/Sysvars/Laws.antt =====
-- What `getenv` and `_kernel_getenv` find.
use riscos64_simple_binaries.Base.{
  ℕ, suc, refl, inl, inr, false, some, List, arith, length, ◌+◌, ◌-◌, ◌%◌, ◌^◌, ◌≤◌, ◌<◌, ◌≡◌, ◌≢◌,
  ◌⊎◌, ◌==◌,
}
use riscos64_simple_binaries.Memory.{Memory}
use riscos64_simple_binaries.Memory.Text.{HasString}
use riscos64_simple_binaries.Io.Sprintf.Laws.{store_all_lem}
use riscos64_simple_binaries.Sysvars.{
  Answer, wrote, overflow, other_error, ReadVar, Allocator, State, maximum_size, getenv_loop,
  getenv, found, kernel_getenv,
}

-- The variable has the value `val`: a buffer for all of it gets it, a smaller one is too small.
pub record IsValue (read : ReadVar) (var val : List ℕ) : Type 0 where
  pub fits : (size : ℕ) → length val ≤ size → read var size ≡ wrote val
  pub short : (size : ℕ) → size < length val → read var size ≡ overflow

-- Requests for memory succeed.
pub record Succeeds {H : Type 0} (a : Allocator H) : Type 0 where
  pub malloc_some : (h : H) (size : ℕ) → (a.malloc h size).0 ≢ 0
  pub realloc_some : (h : H) (m : Memory) (p size : ℕ) → (a.realloc h m p size).0 ≢ 0

-- The result of `getenv` for the value: the address of the buffer, which holds it as a string.
abbrev pub Found : {H : Type 0} → List ℕ → ℕ × State H → Type 0
Found val (p, s) =
    (p ≡ s.envstring)
    × HasString s.mem p val
    × (length val ≤ s.envstringlen)
    × (s.envstringlen ≤ maximum_size)

-- The buffer of `getenv`, if there is one, has a size from the row 256, 512, ... 2048.
abbrev pub IsBuffer : {H : Type 0} → State H → Type 0
IsBuffer s =
    (s.envstring ≡ 0)
    ⊎ ((s.envstring ≢ 0) × (s.envstringlen % 256 ≡ 0) × (s.envstringlen ≤ maximum_size))

module _ {H : Type 0} (read : ReadVar) (a : Allocator H) where
  getenv_loop-found :
      (fuel : ℕ) (var val : List ℕ) (s : State H)
      → read var s.envstringlen ≡ wrote val
      → getenv_loop read a (suc fuel) var s ≡ found read a s val
  unfolding getenv_loop
  getenv_loop-found fuel var val s e = rw (getenv_loop, e) refl

  -- OS_ReadVarVal is given the whole size of the buffer: of a value just as long, the terminator is stored one
  -- byte past the last byte of the buffer.
  getenv_overrun :
      (var val : List ℕ) (s : State H)
      → IsValue read var val
      → s.envstring ≢ 0
      → length val ≡ s.envstringlen
      → (getenv read a (some var) s).1.mem (s.envstring + s.envstringlen) ≡ 0
  unfolding getenv
  getenv_overrun var val s v there e =
      let start : (s.envstring == 0) ≡ false = ground arith in
      rw (start, getenv_loop-found 9 var val s (v.fits s.envstringlen (omega arith)), e)
        (ground arith)

Answer-cases :
    (r : Answer) → ((text : List ℕ) × (r ≡ wrote text)) ⊎ ((r ≡ overflow) ⊎ (r ≡ other_error))
Answer-cases (wrote text) = inl (text, refl)
Answer-cases overflow = inr (inl refl)
Answer-cases other_error = inr (inr refl)

-- `_kernel_getenv` keeps to the buffer it is given: no byte outside it changes, if OS_ReadVarVal stores no
-- more characters than it is allowed.
kernel_getenv_bounds :
    (read : ReadVar) (m : Memory) (var : List ℕ) (buf size x : ℕ)
    → ((n : ℕ) (text : List ℕ) → read var n ≡ wrote text → length text ≤ n)
    → 0 < size
    → size < 2 ^ 32
    → (x < buf) ⊎ (buf + size ≤ x)
    → (kernel_getenv read m var buf size).1 x ≡ m x
unfolding kernel_getenv
kernel_getenv_bounds read m var buf size x allowed p l o =
    let n = (size + 2 ^ 32 - 1) % 2 ^ 32 in
    elim (Answer-cases (read var n)) [
      | inl (text, e) ↦
          let fits = allowed n text e in
          rw (kernel_getenv, e) (ground (arith, store_all_lem text m buf x))
      | inr (inl e) ↦ rw (kernel_getenv, e) refl
      | inr (inr e) ↦ rw (kernel_getenv, e) refl
    ]
