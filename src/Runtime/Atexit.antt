-- ===== src/Runtime/Atexit.antt =====
-- clib/atexit.c, with the handlers in a static array of ATEXIT_MAX slots. A handler is a number, 0
-- for NULL. What a handler does to the array when it is called is a parameter.
pub mod Laws
use riscos64_simple_binaries.Base.{
  ℕ, zero, suc, List, [], get_or, replicate, ℤ, pos, negsuc, ◌∷◌, ◌==◌, if◌then◌else◌,
}

-- ATEXIT_MAX
abbrev pub atexit_max : ℕ
atexit_max = 8

-- `atexit_funcs` at the start of the program
abbrev pub no_handlers : List ℕ
no_handlers = replicate atexit_max 0

-- The loop over the slots: the first empty one takes the handler.
unfoldable pub atexit : List ℕ → ℕ → ℤ × List ℕ
atexit [] func = (negsuc 0, [])
atexit (slot ∷ slots) func =
    let (r, slots') = atexit slots func in
    if slot == 0 then (pos 0, func ∷ slots) else (r, slot ∷ slots')

-- `atexit_funcs[i] = f`
abbrev pub set_slot : List ℕ → ℕ → ℕ → List ℕ
set_slot [] i f = []
set_slot (x ∷ xs) zero f = f ∷ xs
set_slot (x ∷ xs) (suc i) f = x ∷ set_slot xs i f

module _ (run : ℕ → List ℕ → List ℕ) where
  -- The loop from slot `i - 1` down; the second component lists the handlers called, latest first.
  unfoldable pub trigger_loop : ℕ → List ℕ → List ℕ → List ℕ × List ℕ
  trigger_loop zero funcs called = (funcs, called)
  trigger_loop (suc i) funcs called =
      let func = get_or funcs i 0 in
      let skip = trigger_loop i funcs called in
      let go = trigger_loop i (run func (set_slot funcs i 0)) (func ∷ called) in
      if func == 0 then skip else go

  -- `__atexit_trigger`
  unfoldable pub atexit_trigger : List ℕ → List ℕ × List ℕ
  unfolding trigger_loop
  atexit_trigger funcs = trigger_loop atexit_max funcs []

-- Calls of `atexit`, one after another.
unfoldable pub register_all : List ℕ → List ℕ → List ℕ
register_all funcs [] = funcs
register_all funcs (f ∷ fs) = register_all (atexit funcs f).1 fs
