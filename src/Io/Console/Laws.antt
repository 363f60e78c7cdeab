-- ===== src/Io/Console/Laws.antt =====
-- The console writes the text it is given.
use riscos64_simple_binaries.Base.{
  ℕ, zero, suc, refl, sym, ap, inl, inr, Bool, true, false, some, List, [], append-nil,
  append_assoc, arith, ==_iff, Bool-cases, Option-cases, length, length-append, ◌+◌, ◌≤◌, ◌≡◌, ◌∙◌,
  ◌∷◌, ◌++◌, ◌==◌, if◌then◌else◌,
}
use riscos64_simple_binaries.Io.Console.{
  Vdu, before_newline, behind_newline, con_write_loop, write_line, con_write_multiple,
}

-- A screen on which every SWI succeeds and shows its text at the end; `OS_NewLine` shows a newline.
pub record Shows {D : Type 0} (vdu : Vdu D) (view : D → List ℕ) : Type 0 where
  pub writen_shows :
      (d : D) (bs : List ℕ)
      → ((vdu.writen d bs).0 ≡ true) × (view (vdu.writen d bs).1 ≡ view d ++ bs)
  pub newline_shows :
      (d : D) → ((vdu.newline d).0 ≡ true) × (view (vdu.newline d).1 ≡ view d ++ (10 ∷ []))

-- The text is the line, the newline and the rest.
pub split_lem :
    (bytes rest : List ℕ)
    → behind_newline bytes ≡ some rest
    → bytes ≡ before_newline bytes ++ 10 ∷ rest
unfolding behind_newline before_newline
split_lem [] rest h = cc
split_lem (c ∷ cs) rest h = elim (Bool-cases (c == 10)) [
  | inl e ↦ rw e (ground (arith, (==_iff c 10).0 e))
  | inr e ↦ rw e (ap (λ t. c ∷ t) (split_lem cs rest (rw e at h)))
]

pub split_length :
    (bytes rest : List ℕ)
    → behind_newline bytes ≡ some rest
    → length bytes ≡ length (before_newline bytes) + 1 + length rest
split_length bytes rest h =
    ap length (split_lem bytes rest h)
    ∙ length-append (before_newline bytes) (10 ∷ rest)
    ∙ omega arith

branches :
    {D : Type 0} (a b : Bool) (x y z : ℕ × D) (n : ℕ)
    → x.0 ≤ n
    → y.0 ≤ n
    → z.0 ≤ n
    → (if a then (if b then x else y) else z).0 ≤ n
branches true true x y z n h k l = h
branches true false x y z n h k l = k
branches false b x y z n h k l = l

module _ {D : Type 0} (vdu : Vdu D) where
  -- However the SWIs fail, no more is reported than was to be written.
  con_write_loop_bound :
      (fuel : ℕ) (d : D) (bytes : List ℕ) (wrote : ℕ)
      → (con_write_loop vdu fuel d bytes wrote).0 ≤ wrote + length bytes
  unfolding con_write_loop
  con_write_loop_bound zero d bytes wrote = omega arith
  con_write_loop_bound (suc fuel) d [] wrote = omega arith
  con_write_loop_bound (suc fuel) d (c ∷ cs) wrote = elim (Option-cases (behind_newline (c ∷ cs))) [
    | inl e ↦ rw (e, con_write_loop) (ground arith)
    | inr (rest, e) ↦
        let line : List ℕ = before_newline (c ∷ cs) in
        let n = split_length (c ∷ cs) rest e in
        let d' = (write_line vdu d line).1 in
        let ih = con_write_loop_bound fuel (vdu.newline d').1 rest (wrote + length line + 1) in
        rw (e, con_write_loop)
          (branches (write_line vdu d line).0 (vdu.newline d').0 _ _ _ _ (omega arith) (omega arith)
            (omega arith))
  ]

  module _ (view : D → List ℕ) (h : Shows vdu view) where
    line_shows :
        (d : D) (bs : List ℕ)
        → ((write_line vdu d bs).0 ≡ true) × (view (write_line vdu d bs).1 ≡ view d ++ bs)
    unfolding write_line
    line_shows d [] = (refl, sym (append-nil (view d)))
    line_shows d (c ∷ cs) = h.writen_shows d (c ∷ cs)

    con_write_loop_shows :
        (fuel : ℕ) (d : D) (bytes : List ℕ) (wrote : ℕ)
        → length bytes ≤ fuel
        → ((con_write_loop vdu fuel d bytes wrote).0 ≡ wrote + length bytes)
          × (view (con_write_loop vdu fuel d bytes wrote).1 ≡ view d ++ bytes)
    unfolding con_write_loop
    con_write_loop_shows zero d [] wrote l = (omega arith, sym (append-nil (view d)))
    con_write_loop_shows zero d (c ∷ cs) wrote l = absurd (omega arith)
    con_write_loop_shows (suc fuel) d [] wrote l = (omega arith, sym (append-nil (view d)))
    con_write_loop_shows (suc fuel) d (c ∷ cs) wrote l =
        elim (Option-cases (behind_newline (c ∷ cs))) [
          | inl e ↦
              let (done, shown) = h.writen_shows d (c ∷ cs) in
              rw (e, con_write_loop) (rw done (refl, shown))
          | inr (rest, e) ↦
              let line : List ℕ = before_newline (c ∷ cs) in
              let n = split_length (c ∷ cs) rest e in
              let (done, shown) = line_shows d line in
              let d' = (write_line vdu d line).1 in
              let (done', shown') = h.newline_shows d' in
              let (count, text) =
                con_write_loop_shows fuel (vdu.newline d').1 rest (wrote + length line + 1)
                  (omega arith) in
              let whole : view (vdu.newline d').1 ++ rest ≡ view d ++ c ∷ cs =
                simp (shown', shown, append_assoc)
                  (ap (λ t. view d ++ t) (sym (split_lem (c ∷ cs) rest e))) in
              rw (e, con_write_loop) (rw (done, done') (omega arith, text ∙ whole))
        ]

  -- The console reports no more bytes than it was given, however the SWIs fail.
  con_write_multiple_bound :
      (d : D) (bytes : List ℕ) → (con_write_multiple vdu d bytes).0 ≤ length bytes
  unfolding con_write_multiple
  con_write_multiple_bound d bytes = omega (arith, con_write_loop_bound (length bytes) d bytes 0)

  -- On a screen where no SWI fails the console reports all bytes written, and shows the text,
  -- newlines included, behind what was there.
  con_write_multiple-Shows :
      (view : D → List ℕ) (d : D) (bytes : List ℕ)
      → Shows vdu view
      → ((con_write_multiple vdu d bytes).0 ≡ length bytes)
        × (view (con_write_multiple vdu d bytes).1 ≡ view d ++ bytes)
  unfolding con_write_multiple
  con_write_multiple-Shows view d bytes h =
      let (n, text) = con_write_loop_shows view h (length bytes) d bytes 0 (omega arith) in
      (omega arith, text)
