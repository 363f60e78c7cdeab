-- ===== src/Fs/Tmpnam.antt =====
-- clib/fs/fs-tmpnam.c: names of temporary files.
pub mod Laws
use Prim.Native.Nat.{bit_xor}
use riscos64_simple_binaries.Base.{
  ℕ, zero, suc, Option, none, some, List, [], codes, ◌>>=◌, ◌+◌, ◌%◌, ◌^◌, ◌||◌, ◌∷◌, ◌++◌, ◌==◌,
  if◌then◌else◌,
}
use riscos64_simple_binaries.Io.Vprintf.{int_arg}
use riscos64_simple_binaries.Io.Printf.{printed}

-- The calls over a state `D`: the value of Wimp$ScrapDir, `none` for an error; the type of the object
-- of a name, 0 for none, by OS_File 5 or 17; and `clock()`
pub record Surroundings (D : Type 0) : Type 0 where
  pub scrap_dir : D → Option (List ℕ)
  pub object_type : D → List ℕ → ℕ
  pub tick : D → ℕ × D

-- A name, NULL, or none of the two within the fuel
pub data Result (D : Type 0) : Type 0 where
  no_name : D → Result D
  named : List ℕ → D → Result D
  unfinished : Result D

module _ {D : Type 0} (os : Surroundings D) where
  -- The name of the directory, with `use_dollar`
  unfoldable pub directory : D → Option (List ℕ)
  directory d =
      let is_dir = λ (t : ℕ). (t == 2) || (t == 3) in
      elim (os.scrap_dir d) [
        | none ↦
            if is_dir (os.object_type d (codes "$.tmp"))
            then some (codes "$.tmp")
            else some (codes "$")
        | some name ↦ if is_dir (os.object_type d name) then some name else none
      ]

  -- `_sys_tmpnam_`; the `int` is printed with its 32 bits.
  unfoldable pub sys_tmpnam : D → ℕ → Option (List ℕ)
  unfolding directory printed
  sys_tmpnam d sig = do
    name ← directory d
    some (name ++ printed (codes ".x%.8x") (int_arg (sig % 2 ^ 32) ∷ []))

  -- A turn of the loop, behind `clock()`, and then `more`
  unfoldable pub tmpnam_turn : D → Option (List ℕ) → Result D → Result D
  tmpnam_turn d none more = no_name d
  tmpnam_turn d (some name) more = if os.object_type d name == 0 then named name d else more

  -- The loop, with fuel and `counter`
  unfoldable pub tmpnam : ℕ → ℕ → D → Result D
  unfolding sys_tmpnam tmpnam_turn
  tmpnam zero counter d = unfinished
  tmpnam (suc fuel) counter d =
      let (time, d') = os.tick d in
      tmpnam_turn d' (sys_tmpnam d' (bit_xor time counter)) (tmpnam fuel (counter + 1) d')
