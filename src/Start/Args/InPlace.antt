-- ===== src/Start/Args/InPlace.antt =====
-- The second pass, which rewrites the text in place, compared with the same steps on lists.
use riscos64_simple_binaries.Base.{
  ℕ, zero, suc, refl, ap, subst, Bool, true, false, not, List, [], arith, length, get_or,
  length-append, get_or-append, ◌+◌, ◌≤◌, ◌<◌, ◌≡◌, ◌⊎◌, ◌∷◌, ◌++◌, ◌==◌, if◌then◌else◌,
}
use riscos64_simple_binaries.Memory.{Memory}
use riscos64_simple_binaries.Start.Args.Written.{
  Written, written_start, emit, open_with, begin, write_char, write_all, addresses,
}
use riscos64_simple_binaries.Memory.Text.{HasString}
use riscos64_simple_binaries.Start.Args.{
  Build, build_char, build_open, build_loop, build_start, put,
}

-- The loop has written `t`, and the memory behind that is untouched.
pub record Same (m : Memory) (arg : ℕ) (s : Build) (t : Written) : Type 0 where
  pub out_at : s.argout ≡ arg + length t.out
  pub argv_at : s.argv ≡ addresses arg t.starts
  pub spaces_at : s.in_spaces ≡ t.in_spaces
  pub quotes_at : s.in_quotes ≡ t.in_quotes
  pub escape_at : s.escape ≡ t.escape
  pub stored : (i : ℕ) → i < length t.out → s.mem (arg + i) ≡ get_or t.out i 0
  pub kept : (a : ℕ) → (a < arg) ⊎ (arg + length t.out ≤ a) → s.mem a ≡ m a

addresses-append :
    (arg n : ℕ) (ns : List ℕ) → addresses arg (ns ++ n ∷ []) ≡ addresses arg ns ++ (arg + n) ∷ []
addresses-append arg n [] = refl
addresses-append arg n (k ∷ ks) = rw (addresses-append arg n ks)

module _ (m : Memory) (arg : ℕ) where
  if-Same :
      (b b' : Bool) (s s' : Build) (t t' : Written)
      → b ≡ b'
      → Same m arg s t
      → Same m arg s' t'
      → Same m arg (if b then s else s') (if b' then t else t')
  if-Same true true s s' t t' e h h' = h
  if-Same true false s s' t t' e h h' = cc
  if-Same false true s s' t t' e h h' = cc
  if-Same false false s s' t t' e h h' = h'

  put-Same : (c : ℕ) (s : Build) (t : Written) → Same m arg s t → Same m arg (put c s) (emit c t)
  put-Same c s t h =
      let total = length-append t.out (c ∷ []) in
      record {
        out_at = omega (arith, total, h.out_at);
        argv_at = h.argv_at;
        spaces_at = h.spaces_at;
        quotes_at = h.quotes_at;
        escape_at = h.escape_at;
        stored = λ i l. ground (arith, get_or-append t.out (c ∷ []) i, h.stored i, h.out_at, total);
        kept = λ a l. ground (arith, h.kept a, h.out_at, total);
      }

  flags-Same :
      (s : Build) (t : Written) (a a' b b' e e' : Bool)
      → Same m arg s t
      → a ≡ a'
      → b ≡ b'
      → e ≡ e'
      → Same m arg
          (record s { in_spaces = a; in_quotes = b; escape = e })
          (record t { in_spaces = a'; in_quotes = b'; escape = e' })
  flags-Same s t a a' b b' e e' h p q r = record {
    out_at = h.out_at;
    argv_at = h.argv_at;
    spaces_at = p;
    quotes_at = q;
    escape_at = r;
    stored = h.stored;
    kept = h.kept;
  }

  begin_argument : Build → Build
  begin_argument s = record s { argv = s.argv ++ s.argout ∷ []; in_spaces = false }

  begin-Same : (s : Build) (t : Written) → Same m arg s t → Same m arg (begin_argument s) (begin t)
  unfolding begin_argument
  begin-Same s t h = record {
    out_at = h.out_at;
    argv_at = rw (addresses-append arg (length t.out) t.starts, h.argv_at, h.out_at);
    spaces_at = refl;
    quotes_at = h.quotes_at;
    escape_at = h.escape_at;
    stored = h.stored;
    kept = h.kept;
  }

  open-Same :
      (c : ℕ) (s : Build) (t : Written)
      → Same m arg s t
      → Same m arg (build_open c s) (open_with c t)
  unfolding build_open
  open-Same c s t h =
      if-Same (c == b'"') (c == b'"') _ _ _ _ refl
        (flags-Same s t _ _ true true _ _ h h.spaces_at refl h.escape_at) (put-Same c s t h)

  char-Same :
      (c : ℕ) (s : Build) (t : Written)
      → Same m arg s t
      → Same m arg (build_char c s) (write_char c t)
  unfolding build_char write_char begin_argument
  char-Same c s t h =
      if-Same (c == b'\\') _ _ _ _ _ refl
        (flags-Same s t _ _ _ _ true true h h.spaces_at h.quotes_at refl)
        (if-Same s.escape t.escape _ _ _ _ h.escape_at escaped (
          if-Same (not s.in_quotes) (not t.in_quotes) _ _ _ _ (ap not h.quotes_at)
            (if-Same s.in_spaces t.in_spaces _ _ _ _ h.spaces_at
              (if-Same (c == b' ') _ _ _ _ _ refl h (open-Same c _ _ (begin-Same s t h)))
              (if-Same (c == b' ') _ _ _ _ _ refl spaced (open-Same c s t h)))
            (if-Same (c == b'"') _ _ _ _ _ refl closed (put-Same c s t h))))
    where
      off : Same m arg (record s { escape = false }) (record t { escape = false })
      off = flags-Same s t _ _ _ _ false false h h.spaces_at h.quotes_at refl

      escaped :
          Same m arg
            (put c (
              if c == b'"'
              then record s { escape = false }
              else put b'\\' (record s { escape = false })))
            (emit c (
              if c == b'"'
              then record t { escape = false }
              else emit b'\\' (record t { escape = false })))
      escaped = put-Same c _ _ (
          if-Same (c == b'"') (c == b'"') _ _ _ _ refl off
            (put-Same b'\\' (record s { escape = false }) (record t { escape = false }) off))

      spaced :
          Same m arg
            (record (put 0 s) { in_spaces = true })
            (record (emit 0 t) { in_spaces = true })
      spaced =
          let k = put-Same 0 s t h in
          flags-Same (put 0 s) (emit 0 t) true true _ _ _ _ k refl k.quotes_at k.escape_at

      closed : Same m arg (record s { in_quotes = false }) (record t { in_quotes = false })
      closed = flags-Same s t _ _ false false _ _ h h.spaces_at refl h.escape_at

-- What is written is no longer than what has been read; a backslash in hand has its place kept.
abbrev held : Bool → ℕ
held e = if e then 1 else 0

write_char_behind :
    (c : ℕ) (t : Written)
    → length (write_char c t).out + held (write_char c t).escape ≤ length t.out + held t.escape + 1
unfolding write_char
write_char_behind c t = ground (
  arith,
  length-append t.out (c ∷ []),
  length-append t.out (0 ∷ []),
  length-append t.out (b'\\' ∷ []),
  length-append (t.out ++ b'\\' ∷ []) (c ∷ []),
)

write_all_behind :
    (cs : List ℕ) (t : Written)
    → length (write_all cs t).out + held (write_all cs t).escape
      ≤ length t.out + held t.escape + length cs
unfolding write_all
write_all_behind [] t = omega arith
write_all_behind (c ∷ cs) t =
    omega (arith, write_char_behind c t, write_all_behind cs (write_char c t))

p-build_char : (c : ℕ) (s : Build) → (build_char c s).p ≡ s.p
unfolding build_char
p-build_char c s = ground arith

moved-Same :
    (m : Memory) (arg : ℕ) (s : Build) (t : Written) (q : ℕ)
    → Same m arg s t
    → Same m arg (record s { p = q }) t
moved-Same m arg s t q h = record {
  out_at = h.out_at;
  argv_at = h.argv_at;
  spaces_at = h.spaces_at;
  quotes_at = h.quotes_at;
  escape_at = h.escape_at;
  stored = h.stored;
  kept = h.kept;
}

build_loop-Same :
    (m : Memory) (arg : ℕ) (cs : List ℕ) (fuel k : ℕ) (s : Build) (t : Written)
    → HasString m (arg + k) cs
    → length cs ≤ fuel
    → s.p ≡ arg + k
    → length t.out + held t.escape ≤ k
    → Same m arg s t
    → Same m arg (build_loop fuel s) (write_all cs t)
unfolding build_loop write_all
build_loop-Same m arg [] zero k s t g l e b h = h
build_loop-Same m arg [] (suc fuel) k s t g l e b h =
    let here : s.mem s.p ≡ 0 = ground (arith, h.kept s.p) in rw (here, build_loop) h
build_loop-Same m arg (c ∷ cs) zero k s t g l e b h = absurd (omega arith)
build_loop-Same m arg (c ∷ cs) (suc fuel) k s t (at, ne, g) l e b h =
    let here : s.mem s.p ≡ c = ground (arith, h.kept s.p) in
    let more : (c == 0) ≡ false = ground arith in
    let s' = build_char c s in
    let moved : s'.p + 1 ≡ arg + suc k = omega (arith, p-build_char c s) in
    let g' : HasString m (arg + suc k) cs = subst (λ a. HasString m a cs) (omega arith) g in
    rw (here, more)
      (build_loop-Same m arg cs fuel (suc k) (record s' { p = s'.p + 1 }) (write_char c t) g'
        (omega arith) moved (omega (arith, write_char_behind c t))
        (moved-Same m arg s' (write_char c t) (s'.p + 1) (char-Same m arg c s t h)))

-- The second pass, as it is run by `__main`, writes `write_all` of the command line.
pub build_loop-written :
    (m : Memory) (arg : ℕ) (cs : List ℕ)
    → HasString m arg cs
    → Same m arg (build_loop (length cs) (build_start m arg)) (write_all cs written_start)
build_loop-written m arg cs g =
    build_loop-Same m arg cs (length cs) 0 (build_start m arg) written_start
      (subst (λ a. HasString m a cs) (omega arith) g) (omega arith) (omega arith) (omega arith)
      start
  where
    start : Same m arg (build_start m arg) written_start
    start = record {
      out_at = omega arith;
      argv_at = refl;
      spaces_at = refl;
      quotes_at = refl;
      escape_at = refl;
      stored = λ i l. absurd (omega arith);
      kept = λ a l. refl;
    }
