-- ===== src/Fs/Tmpnam/Laws.antt =====
-- The names that `tmpnam` returns.
use riscos64_simple_binaries.Base.{
  ℕ, zero, suc, inl, inr, Option, none, some, List, arith, Bool-cases, ◌+◌, ◌≡◌, ◌==◌,
}
use riscos64_simple_binaries.Fs.Tmpnam.{
  Surroundings, Result, named, no_name, unfinished, tmpnam_turn, tmpnam,
}

module _ {D : Type 0} (os : Surroundings D) where
  -- A name that is returned belongs to no object.
  abbrev pub IsFree : Result D → Type 0
  IsFree (no_name d) = Unit
  IsFree (named name d) = os.object_type d name ≡ 0
  IsFree unfinished = Unit

  turn-IsFree :
      (d : D) (name : Option (List ℕ)) (more : Result D)
      → IsFree more
      → IsFree (tmpnam_turn os d name more)
  unfolding tmpnam_turn
  turn-IsFree d none more h = tt
  turn-IsFree d (some name) more h = elim (Bool-cases (os.object_type d name == 0)) [
    | inl e ↦ rw e (ground arith)
    | inr e ↦ rw e h
  ]

  -- A name that `tmpnam` returns is the name of no object when it returns, however many names it has
  -- to try.
  pub tmpnam-IsFree : (fuel counter : ℕ) (d : D) → IsFree (tmpnam os fuel counter d)
  unfolding tmpnam
  tmpnam-IsFree zero counter d = tt
  tmpnam-IsFree (suc fuel) counter d =
      turn-IsFree (os.tick d).1 _ _ (tmpnam-IsFree fuel (counter + 1) (os.tick d).1)
