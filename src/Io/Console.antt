-- ===== src/Io/Console.antt =====
-- The console's dispatch functions for output, clib/io/io-consoleio.c.
pub mod Laws
pub mod Input
use riscos64_simple_binaries.Base.{
  ℕ, zero, suc, Bool, true, Option, none, some, List, [], length, ◌+◌, ◌∷◌, ◌==◌, if◌then◌else◌,
}

-- The VDU SWIs over a state `D`: `true` for success.
pub record Vdu (D : Type 0) : Type 0 where
  pub writen : D → List ℕ → Bool × D
  pub newline : D → Bool × D
  pub writec : D → ℕ → Bool × D

-- `memchr(ptr, '\n', transfer)`: the bytes before the first newline, and those behind it.
unfoldable pub before_newline : List ℕ → List ℕ
before_newline [] = []
before_newline (c ∷ cs) = let rest = before_newline cs in if c == 10 then [] else c ∷ rest

unfoldable pub behind_newline : List ℕ → Option (List ℕ)
behind_newline [] = none
behind_newline (c ∷ cs) = let rest = behind_newline cs in if c == 10 then some cs else rest

module _ {D : Type 0} (vdu : Vdu D) where
  -- `if (to_nl) { err = os_writen(ptr, to_nl); … }`; nothing to write is no error.
  unfoldable pub write_line : D → List ℕ → Bool × D
  write_line d [] = (true, d)
  write_line d (c ∷ cs) = vdu.writen d (c ∷ cs)

  -- The loop, with fuel. The list is what `ptr` and `transfer` describe; the pair is `wrote` and the
  -- device.
  unfoldable pub con_write_loop : ℕ → D → List ℕ → ℕ → ℕ × D
  unfolding write_line
  con_write_loop zero d bytes wrote = (wrote, d)
  con_write_loop (suc fuel) d [] wrote = (wrote, d)
  con_write_loop (suc fuel) d (c ∷ cs) wrote =
      let line = before_newline (c ∷ cs) in
      elim (behind_newline (c ∷ cs)) [
        | none ↦
            let (done, d') = vdu.writen d (c ∷ cs) in
            (if done then wrote + length (c ∷ cs) else wrote, d')
        | some rest ↦
            let (line_done, d') = write_line d line in
            let (newline_done, d'') = vdu.newline d' in
            let onward = con_write_loop fuel d'' rest (wrote + length line + 1) in
            if line_done
            then (if newline_done then onward else (wrote + length line, d''))
            else (wrote, d')
      ]

  -- Each round takes a byte off, so `transfer` rounds are enough.
  unfoldable pub con_write_multiple : D → List ℕ → ℕ × D
  unfolding con_write_loop
  con_write_multiple d bytes = con_write_loop (length bytes) d bytes 0

  -- The result is `c` whatever the SWI returns.
  unfoldable pub con_write_byte : D → ℕ → ℕ × D
  con_write_byte d c = if c == 10 then (c, (vdu.newline d).1) else (c, (vdu.writec d c).1)
