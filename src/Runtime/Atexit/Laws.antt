-- ===== src/Runtime/Atexit/Laws.antt =====
-- Handlers run in the reverse order of registration; one that a handler registers may be lost.
use native.Mathlib.Nat.{add-zero}
use native.Mathlib.Decide.{dec_lt}
use riscos64_simple_binaries.Base.{
  ℕ, zero, suc, refl, ap, subst, true, false, List, [], append-nil, append_assoc, arith, ltb,
  length, get_or, replicate, length-append, pos, negsuc, ◌+◌, ◌-◌, ◌≤◌, ◌<◌, ◌≡◌, ◌∙◌, ◌≢◌, ◌∷◌,
  ◌++◌, ◌==◌, if◌then◌else◌,
}
use riscos64_simple_binaries.Runtime.Atexit.{
  atexit_max, atexit, set_slot, register_all, no_handlers, trigger_loop, atexit_trigger,
}

abbrev pub NoNull : List ℕ → Type 0
NoNull [] = Unit {0}
NoNull (f ∷ fs) = (f ≢ 0) × NoNull fs

-- The empty slots behind the handlers that are registered.
abbrev pub slots : List ℕ → ℕ → List ℕ
slots [] n = replicate n 0
slots (f ∷ fs) zero = []
slots (f ∷ fs) (suc n) = f ∷ slots fs n

atexit-slots :
    (fs : List ℕ) (n f : ℕ)
    → NoNull fs
    → length fs < n
    → atexit (slots fs n) f ≡ (pos 0, slots (fs ++ f ∷ []) n)
unfolding atexit
atexit-slots [] zero f h l = absurd (omega arith)
atexit-slots [] (suc n) f h l = refl
atexit-slots (g ∷ fs) zero f h l = absurd (omega arith)
atexit-slots (g ∷ fs) (suc n) f (ne, h) l = ground (arith, atexit-slots fs n f h (omega arith))

atexit-full : (fs : List ℕ) (f : ℕ) → NoNull fs → atexit fs f ≡ (negsuc 0, fs)
unfolding atexit
atexit-full [] f h = refl
atexit-full (g ∷ fs) f (ne, h) = ground (arith, atexit-full fs f h)

slots-full : (fs : List ℕ) (n : ℕ) → length fs ≡ n → slots fs n ≡ fs
slots-full [] zero e = refl
slots-full [] (suc n) e = absurd (omega arith)
slots-full (f ∷ fs) zero e = absurd (omega arith)
slots-full (f ∷ fs) (suc n) e = rw (slots-full fs n (omega arith))

NoNull-snoc : (fs : List ℕ) (f : ℕ) → NoNull fs → f ≢ 0 → NoNull (fs ++ f ∷ [])
NoNull-snoc [] f h ne = (ne, tt)
NoNull-snoc (g ∷ fs) f (k, h) ne = (k, NoNull-snoc fs f h ne)

register_all-slots :
    (fs gs : List ℕ) (n : ℕ)
    → NoNull gs
    → NoNull fs
    → length gs + length fs ≤ n
    → register_all (slots gs n) fs ≡ slots (gs ++ fs) n
unfolding register_all
register_all-slots [] gs n h k l = rw append-nil
register_all-slots (f ∷ fs) gs n h (ne, k) l = rw (atexit-slots gs n f h (omega arith)) (
    register_all-slots fs (gs ++ f ∷ []) n (NoNull-snoc gs f h ne) k
      (omega (arith, length-append gs (f ∷ [])))
    ∙ rw append_assoc)

get_or-slots_end :
    (fs : List ℕ) (f n : ℕ) → length fs < n → get_or (slots (fs ++ f ∷ []) n) (length fs) 0 ≡ f
get_or-slots_end [] f zero l = absurd (omega arith)
get_or-slots_end [] f (suc n) l = refl
get_or-slots_end (g ∷ fs) f zero l = absurd (omega arith)
get_or-slots_end (g ∷ fs) f (suc n) l = get_or-slots_end fs f n (omega arith)

set_slot-slots_end :
    (fs : List ℕ) (f n : ℕ)
    → length fs < n
    → set_slot (slots (fs ++ f ∷ []) n) (length fs) 0 ≡ slots fs n
set_slot-slots_end [] f zero l = absurd (omega arith)
set_slot-slots_end [] f (suc n) l = refl
set_slot-slots_end (g ∷ fs) f zero l = absurd (omega arith)
set_slot-slots_end (g ∷ fs) f (suc n) l = rw (set_slot-slots_end fs f n (omega arith))

get_or-slots_empty : (fs : List ℕ) (k n : ℕ) → length fs ≤ k → k < n → get_or (slots fs n) k 0 ≡ 0
get_or-slots_empty fs k zero l m = absurd (omega arith)
get_or-slots_empty [] zero (suc n) l m = refl
get_or-slots_empty [] (suc k) (suc n) l m = get_or-slots_empty [] k n (omega arith) (omega arith)
get_or-slots_empty (f ∷ fs) zero (suc n) l m = absurd (omega arith)
get_or-slots_empty (f ∷ fs) (suc k) (suc n) l m =
    get_or-slots_empty fs k n (omega arith) (omega arith)

-- The list the other way round.
abbrev pub rev : List ℕ → List ℕ
rev [] = []
rev (f ∷ fs) = rev fs ++ f ∷ []

rev-snoc : (fs : List ℕ) (f : ℕ) → rev (fs ++ f ∷ []) ≡ f ∷ rev fs
rev-snoc [] f = refl
rev-snoc (g ∷ fs) f = rw (rev-snoc fs f)

rev-rev : (fs : List ℕ) → rev (rev fs) ≡ fs
rev-rev [] = refl
rev-rev (f ∷ fs) = rev-snoc (rev fs) f ∙ ap (λ t. f ∷ t) (rev-rev fs)

length-rev : (fs : List ℕ) → length (rev fs) ≡ length fs
length-rev [] = refl
length-rev (f ∷ fs) = omega (arith, length-append (rev fs) (f ∷ []), length-rev fs)

NoNull-rev : (fs : List ℕ) → NoNull fs → NoNull (rev fs)
NoNull-rev [] h = tt
NoNull-rev (f ∷ fs) (ne, h) = NoNull-snoc (rev fs) f (NoNull-rev fs h) ne

module _ (run : ℕ → List ℕ → List ℕ) where
  -- The slots behind the handlers are passed over.
  empties_loop :
      (fs called : List ℕ) (n j : ℕ)
      → length fs + j ≤ n
      → trigger_loop run (length fs + j) (slots fs n) called
        ≡ trigger_loop run (length fs) (slots fs n) called
  unfolding trigger_loop
  empties_loop fs called n zero l = rw add-zero
  empties_loop fs called n (suc j) l =
      let e : length fs + suc j ≡ suc (length fs + j) = omega arith in
      rw e (
        rw (get_or-slots_empty fs (length fs + j) n (omega arith) (omega arith))
          (empties_loop fs called n j (omega arith)))

  handlers_loop :
      (gs called : List ℕ) (n : ℕ)
      → ((f : ℕ) (funcs : List ℕ) → run f funcs ≡ funcs)
      → NoNull gs
      → length gs ≤ n
      → trigger_loop run (length gs) (slots (rev gs) n) called ≡ (slots [] n, rev gs ++ called)
  unfolding trigger_loop
  handlers_loop [] called n quiet h l = refl
  handlers_loop (f ∷ gs) called n quiet (ne, h) l =
      rw (here, emptied, not_null)
        (rw (quiet f (slots (rev gs) n))
          (handlers_loop gs (f ∷ called) n quiet h (omega arith) ∙ rw append_assoc))
    where
      not_null : (f == 0) ≡ false
      not_null = ground arith

      here : get_or (slots (rev gs ++ f ∷ []) n) (length gs) 0 ≡ f
      here = rw (← length-rev gs) (get_or-slots_end (rev gs) f n (omega (arith, length-rev gs)))

      emptied : set_slot (slots (rev gs ++ f ∷ []) n) (length gs) 0 ≡ slots (rev gs) n
      emptied =
          rw (← length-rev gs) (set_slot-slots_end (rev gs) f n (omega (arith, length-rev gs)))

-- Up to eight handlers can be registered, and no more: a ninth is refused. At the trigger each is
-- called once, in the reverse order of registration, and the array is empty afterwards, if no
-- handler registers another while it runs. (`called` lists the latest call first.)
pub atexit_trigger_lem :
    (run : ℕ → List ℕ → List ℕ) (fs : List ℕ) (g : ℕ)
    → ((f : ℕ) (funcs : List ℕ) → run f funcs ≡ funcs)
    → NoNull fs
    → length fs ≤ atexit_max
    → let funcs = register_all no_handlers fs in
      ((atexit funcs g).0 ≡ (if ltb (length fs) atexit_max then pos 0 else negsuc 0))
      × (atexit_trigger run funcs ≡ (no_handlers, fs))
unfolding atexit_trigger
atexit_trigger_lem run fs g quiet h l =
    rw filled (elim (dec_lt (length fs) atexit_max) [ yes k ↦ room k | no k ↦ full k ], called)
  where
    filled : register_all no_handlers fs ≡ slots fs atexit_max
    filled = register_all-slots fs [] atexit_max tt h (omega arith)

    Answer : Type 0
    Answer =
        (atexit (slots fs atexit_max) g).0
        ≡ (if ltb (length fs) atexit_max then pos 0 else negsuc 0)

    room : length fs < atexit_max → Answer
    room k =
        let e : ltb (length fs) atexit_max ≡ true = ground arith in
        rw (e, atexit-slots fs atexit_max g h k)

    full : ¬ (length fs < atexit_max) → Answer
    full k =
        let e : ltb (length fs) atexit_max ≡ false = ground arith in
        rw (e, slots-full fs atexit_max (omega arith), atexit-full fs g h)

    total : length fs + (atexit_max - length fs) ≡ atexit_max
    total = omega arith

    skipped :
        trigger_loop run atexit_max (slots fs atexit_max) []
        ≡ trigger_loop run (length fs) (slots fs atexit_max) []
    skipped =
        subst
          (λ k.
            trigger_loop run k (slots fs atexit_max) []
            ≡ trigger_loop run (length fs) (slots fs atexit_max) [])
          total (empties_loop run fs [] atexit_max (atexit_max - length fs) (omega arith))

    ran : trigger_loop run (length fs) (slots fs atexit_max) [] ≡ (no_handlers, fs)
    ran =
        subst (λ t. trigger_loop run (length fs) (slots t atexit_max) [] ≡ (no_handlers, t))
          (rev-rev fs)
          (subst
            (λ k.
              trigger_loop run k (slots (rev (rev fs)) atexit_max) [] ≡ (no_handlers, rev (rev fs)))
            (length-rev fs)
            (handlers_loop run (rev fs) [] atexit_max quiet (NoNull-rev fs h)
                (omega (arith, length-rev fs))
              ∙ rw append-nil))

    called : trigger_loop run atexit_max (slots fs atexit_max) [] ≡ (no_handlers, fs)
    called = skipped ∙ ran

-- A handler that is registered by the only handler while that runs is not called: it takes the slot
-- that has just been emptied, which the loop has passed, and is left in the array.
atexit_trigger_loses :
    (run : ℕ → List ℕ → List ℕ) (f g : ℕ)
    → f ≢ 0
    → g ≢ 0
    → run f no_handlers ≡ (atexit no_handlers g).1
    → let funcs = (atexit no_handlers f).1 in
      atexit_trigger run funcs ≡ ((atexit no_handlers g).1, f ∷ [])
unfolding atexit_trigger atexit
atexit_trigger_loses run f g nf ng e = ground arith
