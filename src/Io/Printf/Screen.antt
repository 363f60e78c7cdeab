-- ===== src/Io/Printf/Screen.antt =====
-- `vprintf`, clib/io/io-printf.c: `_vprintf` with the outputter of the screen, to which `printf` passes
-- its arguments on.
use riscos64_simple_binaries.Base.{ℕ, Option, none, some, List, [], length, ◌+◌, ◌≡◌, ◌∷◌, ◌++◌}
use riscos64_simple_binaries.Io.Console.{Vdu}
use riscos64_simple_binaries.Io.Console.Laws.{Shows}
use riscos64_simple_binaries.Io.Vprintf.{Arg}
use riscos64_simple_binaries.Io.Vprintf.Convert.{OutputterOf, vprintf}

-- OS_Write0 beside the other SWIs of the screen: how far behind the start of the text the pointer stands
-- that it returns, or `none` for an error
abbrev pub Write0 : Type 0 → Type 0
Write0 D = D → List ℕ → Option ℕ × D

module _ {D : Type 0} (vdu : Vdu D) (write0end : Write0 D) where
  -- `return 0` for an error, or `end - str`
  abbrev pub distance : Option ℕ × D → ℕ × D
  distance (none, d) = (0, d)
  distance (some n, d) = (n, d)

  abbrev pub stdout_outputter : OutputterOf D
  stdout_outputter = record {
    write0 = λ d str. distance (write0end d str);
    writec = λ d c. (1, (vdu.writec d c).1);
    writen = λ d str. (length str, (vdu.writen d str).1);
    newline = λ d. (1, (vdu.newline d).1);
  }

  unfoldable pub stdout_vprintf : List ℕ → List Arg → D → ℕ × D
  stdout_vprintf format args d = vprintf stdout_outputter format args d

-- An outputter that collects the text and counts; `write0` counts the terminator too.
abbrev pub counting : OutputterOf (List ℕ × ℕ)
counting = record {
  write0 = λ v s. (length s + 1, (v.0 ++ s, v.1 + (length s + 1)));
  writec = λ v c. (1, (v.0 ++ c ∷ [], v.1 + 1));
  writen = λ v s. (length s, (v.0 ++ s, v.1 + length s));
  newline = λ v. (1, (v.0 ++ 10 ∷ [], v.1 + 1));
}

-- A screen that shows what it is sent; OS_Write0 returns a pointer to the byte behind the terminator.
pub record ShowsAll {D : Type 0} (vdu : Vdu D) (write0end : Write0 D) (view : D → List ℕ)
    : Type 0 where
  pub shows : Shows vdu view
  pub writec_shows : (d : D) (c : ℕ) → view (vdu.writec d c).1 ≡ view d ++ c ∷ []
  pub write0_shows :
      (d : D) (s : List ℕ)
      → (d' : D) × (write0end d s ≡ (some (length s + 1), d')) × (view d' ≡ view d ++ s)

module _ {D : Type 0} (vdu : Vdu D) (write0end : Write0 D) (view : D → List ℕ)
    (h : ShowsAll vdu write0end view) (before : List ℕ) where
  -- The screen shows the text behind what was there.
  abbrev Shown : D → List ℕ × ℕ → Type 0
  Shown d v = view d ≡ before ++ v.0
