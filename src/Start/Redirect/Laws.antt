-- ===== src/Start/Redirect/Laws.antt =====
-- The redirection loop and its description on the list of the arguments.
use riscos64_simple_binaries.Base.{
  ℕ, zero, suc, refl, sym, ap, subst, inl, inr, Bool, true, false, Option, none, some, List, [],
  append-nil, append_assoc, arith, ltb, ==_self, Option-cases, length, get_or, length-append, ◌+◌,
  ◌-◌, ◌≤◌, ◌≡◌, ◌∙◌, ◌⊎◌, ◌∷◌, ◌++◌, ◌==◌,
}
use riscos64_simple_binaries.Start.Redirect.{
  redirection_start, Failure, bad_redirection, other_handles, Freopen, Shape, not_redirection,
  duplicates, redirects, shape, mode, open_failure, put_at, shift, Args, Step, failed, onward,
  redirect, act, redirection, redirection_start,
}

-- What is left of the arguments, and the streams, or why it fails
pub data Outcome (W : Type 0) : Type 0 where
  refused : Failure → Outcome W
  kept : List (List ℕ) → W → Outcome W

abbrev pub keep : {W : Type 0} → List ℕ → Outcome W → Outcome W
keep a (refused f) = refused f
keep a (kept args w) = kept (a ∷ args) w

abbrev pub opened : {W : Type 0} → Option W → ℕ → (W → Outcome W) → Outcome W
opened none fd more = refused (open_failure fd)
opened (some w) fd more = more w

-- The specification: an argument that redirects, and the file name behind it if it has none of its
-- own, is carried out and dropped.
unfoldable pub redirected : {W : Type 0} → Freopen W → List (List ℕ) → W → Outcome W
redirected freopen [] w = kept [] w
redirected freopen (a ∷ []) w = elim (shape a) [
  | not_redirection ↦ kept (a ∷ []) w
  | duplicates ↦ refused other_handles
  | redirects fd append [] ↦ refused bad_redirection
  | redirects fd append (c ∷ cs) ↦
      opened (freopen w (c ∷ cs) (mode fd append) fd) fd (λ w'. kept [] w')
]
redirected freopen (a ∷ b ∷ args) w = elim (shape a) [
  | not_redirection ↦ keep a (redirected freopen (b ∷ args) w)
  | duplicates ↦ refused other_handles
  | redirects fd append [] ↦
      opened (freopen w b (mode fd append) fd) fd (λ w'. redirected freopen args w')
  | redirects fd append (c ∷ cs) ↦
      opened (freopen w (c ∷ cs) (mode fd append) fd) fd (λ w'. redirected freopen (b ∷ args) w')
]

module _ {ℓ} {A : Type ℓ} where
  get_or_middle :
      (xs : List A) (y : A) (ys : List A) (d : A) → get_or (xs ++ y ∷ ys) (length xs) d ≡ y
  get_or_middle [] y ys d = refl
  get_or_middle (x ∷ xs) y ys d = get_or_middle xs y ys d

  put_at_middle :
      (xs : List A) (y z : A) (ys : List A) → put_at (xs ++ y ∷ ys) (length xs) z ≡ xs ++ z ∷ ys
  unfolding put_at
  put_at_middle [] y z ys = refl
  put_at_middle (x ∷ xs) y z ys = ap (λ l. x ∷ l) (put_at_middle xs y z ys)

get_or_second :
    (xs : List (List ℕ)) (x y : List ℕ) (ys : List (List ℕ))
    → get_or (xs ++ (x ∷ y ∷ ys)) (length xs + 1) [] ≡ y
get_or_second [] x y ys = refl
get_or_second (w ∷ xs) x y ys =
    let e : suc (length xs) + 1 ≡ suc (length xs + 1) = omega arith in
    rw e (get_or_second xs x y ys)

-- The entries behind a gap move down over it.
shift_lem :
    (done gap args stale : List (List ℕ))
    → 1 ≤ length gap
    → (rest : List (List ℕ)) × (shift
          (length args)
          (done ++ (gap ++ (args ++ stale)))
          (length done)
          (length done + length gap)
        ≡ done ++ (args ++ rest))
unfolding shift
shift_lem done gap [] stale l = (gap ++ stale, refl)
shift_lem done [] (a ∷ args) stale l = absurd (omega arith)
shift_lem done (g ∷ gap) (a ∷ args) stale l =
    let (rest, e) =
      shift_lem (done ++ a ∷ []) (gap ++ a ∷ []) args stale
        (omega (arith, length-append gap (a ∷ []))) in
    let read : get_or (done ++ ((g ∷ gap) ++ (a ∷ (args ++ stale))))
          (length done + length (g ∷ gap)) []
        ≡ a =
      rw
        (
          sym (append_assoc done (g ∷ gap) (a ∷ (args ++ stale))),
          sym (length-append done (g ∷ gap)),
        )
        (get_or_middle (done ++ (g ∷ gap)) a (args ++ stale) []) in
    let wrote : put_at (done ++ ((g ∷ gap) ++ (a ∷ (args ++ stale)))) (length done) a
        ≡ (done ++ a ∷ []) ++ ((gap ++ a ∷ []) ++ (args ++ stale)) =
      put_at_middle done g a (gap ++ (a ∷ (args ++ stale)))
      ∙ ap (λ t. done ++ a ∷ t) (sym (append_assoc gap (a ∷ []) (args ++ stale)))
      ∙ sym (append_assoc done (a ∷ []) ((gap ++ a ∷ []) ++ (args ++ stale))) in
    let i' : length done + 1 ≡ length (done ++ a ∷ []) =
      omega (arith, length-append done (a ∷ [])) in
    let o' : length done + length (g ∷ gap) + 1 ≡ length (done ++ a ∷ []) + length (gap ++ a ∷ []) =
      omega (arith, length-append done (a ∷ []), length-append gap (a ∷ [])) in
    rw (shift, read, wrote, i', o') (rest, e ∙ append_assoc done (a ∷ []) (args ++ rest))

Shape-cases :
    (sh : Shape)
    → (sh ≡ not_redirection)
      ⊎ ((sh ≡ duplicates)
          ⊎ (((fd : ℕ) × (append : Bool) × (sh ≡ redirects fd append []))
              ⊎ ((fd : ℕ) × (append : Bool) × (c : ℕ) × (cs : List ℕ) × (sh
                    ≡ redirects fd append (c ∷ cs)))))
Shape-cases not_redirection = inl refl
Shape-cases duplicates = inr (inl refl)
Shape-cases (redirects fd append []) = inr (inr (inl (fd, append, refl)))
Shape-cases (redirects fd append (c ∷ cs)) = inr (inr (inr (fd, append, c, cs, refl)))

module _ {W : Type 0} where
  -- The loop at the first of `todo`
  abbrev at : List (List ℕ) → List (List ℕ) → List (List ℕ) → W → Args W
  at done todo stale w = record {
    i = length done;
    argc = length done + length todo;
    argv = done ++ (todo ++ stale);
    streams = w;
  }

  -- The loop has ended with what `r` says behind the arguments `done`.
  abbrev pub Ends : List (List ℕ) → Outcome W → Step W → Type 0
  Ends done (refused f) r = r ≡ failed f
  Ends done (kept args w) r = (stale : List (List ℕ)) × (r ≡ onward (at (done ++ args) [] stale w))

  keep-Ends :
      (done : List (List ℕ)) (a : List ℕ) (o : Outcome W) (r : Step W)
      → Ends (done ++ a ∷ []) o r
      → Ends done (keep a o) r
  keep-Ends done a (refused f) r h = h
  keep-Ends done a (kept args w) r (stale, e) =
      (stale, e ∙ ap (λ d. onward (at d [] stale w)) (append_assoc done (a ∷ []) args))

  at_next :
      (done : List (List ℕ)) (a : List ℕ) (args stale : List (List ℕ)) (w : W)
      → record (at done (a ∷ args) stale w) { i = length done + 1 }
        ≡ at (done ++ a ∷ []) args stale w
  at_next done a args stale w =
      let total = length-append done (a ∷ []) in
      let i : length done + 1 ≡ length (done ++ a ∷ []) = omega (arith, total) in
      let n : length done + suc (length args) ≡ length (done ++ a ∷ []) + length args =
        omega (arith, total) in
      rw (i, n, append_assoc done (a ∷ []) (args ++ stale)) refl

module _ {W : Type 0} (freopen : Freopen W) where
  redirection_failed : (fuel : ℕ) (f : Failure) → redirection fuel freopen (failed f) ≡ failed f
  unfolding redirection
  redirection_failed zero f = refl
  redirection_failed (suc fuel) f = refl

  -- The loop goes on with what is left when `gap` has been taken out.
  redirect-Ends :
      (fuel : ℕ) (done gap args stale : List (List ℕ)) (w : W) (fd : ℕ) (append : Bool)
      (name : List ℕ) (j : ℕ)
      → 1 ≤ length gap
      → j + 1 ≡ length done + length gap
      → ((stale' : List (List ℕ)) (w' : W)
          → Ends done
              (redirected freopen args w')
              (redirection fuel freopen (onward (at done args stale' w'))))
      → Ends done
          (opened (freopen w name (mode fd append) fd) fd (λ w'. redirected freopen args w'))
          (redirection fuel freopen
            (redirect freopen fd append name j (at done (gap ++ args) stale w)))
  unfolding redirect
  redirect-Ends fuel done gap args stale w fd append name j l e more =
      elim (Option-cases (freopen w name (mode fd append) fd)) [
        | inl none_e ↦ rw (redirect, none_e) (redirection_failed fuel (open_failure fd))
        | inr (w', some_e) ↦
            let (rest, shifted) = shift_lem done gap args stale l in
            let total = length-append gap args in
            let n : length done + length (gap ++ args) - (j - length done + 1)
                ≡ length done + length args =
              omega (arith, total, e, l) in
            let turns : length done + length args - length done ≡ length args = omega arith in
            rw (redirect, some_e, n, turns, e, append_assoc gap args stale, shifted) (more rest w')
      ]

  redirection-Ends :
      (fuel : ℕ) (done todo stale : List (List ℕ)) (w : W)
      → length todo ≤ fuel
      → Ends done
          (redirected freopen todo w)
          (redirection fuel freopen (onward (at done todo stale w)))
  unfolding redirection redirected act
  redirection-Ends zero done [] stale w l =
      (stale, ap (λ d. onward (at d [] stale w)) (sym (append-nil done)))
  redirection-Ends zero done (a ∷ args) stale w l = absurd (omega arith)
  redirection-Ends (suc fuel) done [] stale w l =
      let stop : ltb (length done) (length done + 0) ≡ false = ground arith in
      rw stop (stale, ap (λ d. onward (at d [] stale w)) (sym (append-nil done)))
  redirection-Ends (suc fuel) done (a ∷ []) stale w l =
      let go : ltb (length done) (length done + 1) ≡ true = ground arith in
      rw (go, get_or_middle done a stale [])
        (elim (Shape-cases (shape a)) [
          | inl e ↦
              rw (redirected, e, act, at_next done a [] stale w)
                (keep-Ends done a (kept [] w) _
                  (redirection-Ends fuel (done ++ a ∷ []) [] stale w (omega arith)))
          | inr (inl e) ↦ rw (redirected, e, act) (redirection_failed fuel other_handles)
          | inr (inr (inl (fd, append, e))) ↦
              rw (redirected, e, act, ==_self (length done + 1))
                (redirection_failed fuel bad_redirection)
          | inr (inr (inr (fd, append, c, cs, e))) ↦
              rw (redirected, e, act)
                (redirect-Ends fuel done (a ∷ []) [] stale w fd append (c ∷ cs) (length done)
                  (omega arith) refl
                  (λ stale' w'. redirection-Ends fuel done [] stale' w' (omega arith)))
        ])
  redirection-Ends (suc fuel) done (a ∷ b ∷ args) stale w l =
      let go : ltb (length done) (length done + suc (suc (length args))) ≡ true = ground arith in
      let more : (length done + 1 == length done + suc (suc (length args))) ≡ false =
        ground arith in
      let second : get_or (done ++ (a ∷ b ∷ (args ++ stale))) (length done + 1) [] ≡ b =
        get_or_second done a b (args ++ stale) in
      rw (go, get_or_middle done a (b ∷ (args ++ stale)) [])
        (elim (Shape-cases (shape a)) [
          | inl e ↦
              rw (redirected, e, act, at_next done a (b ∷ args) stale w)
                (keep-Ends done a (redirected freopen (b ∷ args) w) _
                  (redirection-Ends fuel (done ++ a ∷ []) (b ∷ args) stale w (omega arith)))
          | inr (inl e) ↦ rw (redirected, e, act) (redirection_failed fuel other_handles)
          | inr (inr (inl (fd, append, e))) ↦
              rw (redirected, e, act, more, second)
                (redirect-Ends fuel done (a ∷ b ∷ []) args stale w fd append b (length done + 1)
                  (omega arith) (omega arith)
                  (λ stale' w'. redirection-Ends fuel done args stale' w' (omega arith)))
          | inr (inr (inr (fd, append, c, cs, e))) ↦
              rw (redirected, e, act)
                (redirect-Ends fuel done (a ∷ []) (b ∷ args) stale w fd append (c ∷ cs)
                  (length done) (omega arith) refl
                  (λ stale' w'. redirection-Ends fuel done (b ∷ args) stale' w' (omega arith)))
        ])

-- The loop over the array, which moves the entries down, does what the description on the list of the
-- arguments says: it fails for the same reason, or ends with the arguments that are left at the front
-- of the array, counted by its own `argc`, and with the streams reopened in the order of the
-- arguments. A turn for each argument is enough.
pub redirection-redirected :
    {W : Type 0} (freopen : Freopen W) (args : List (List ℕ)) (w : W)
    → Ends []
        (redirected freopen args w)
        (redirection (length args) freopen (redirection_start args w))
redirection-redirected freopen args w =
    let n : length args ≡ 0 + length args = omega arith in
    subst
      (λ (s : Args _).
        Ends [] (redirected freopen args w) (redirection (length args) freopen (onward s)))
      (ap (λ k. record { i = 0; argc = k; argv = args ++ []; streams = w }) (sym n)
        ∙ ap (λ l. record { i = 0; argc = length args; argv = l; streams = w }) (append-nil args))
      (redirection-Ends freopen (length args) [] args [] w (omega arith))
