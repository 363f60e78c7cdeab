-- ===== src/Runtime/Env/Laws.antt =====
-- Restoring the environment puts back what `_env_init` found.
use riscos64_simple_binaries.Base.{
  ℕ, refl, sym, ap, subst, inl, inr, Bool, true, false, List, [], arith, ==_iff, Bool-cases, ◌≡◌,
  ◌∙◌, ◌≢◌, ◌||◌, ◌∷◌, ◌==◌,
}
use riscos64_simple_binaries.Runtime.Env.{
  env_read, Entry, Environment, Addresses, State, env_init, merged, save_entry, save_all,
  restore_all, init_calls, restore_calls, env_restore,
}

merged_same : (x : Entry) → merged x x ≡ x
merged_same x = ground arith

-- A number among those of a list of calls.
abbrev has : ℕ → List ℕ → Bool
has k [] = false
has k (n ∷ ns) = (k == n) || has k ns

abbrev numbers : List (ℕ × Entry) → List ℕ
numbers [] = []
numbers ((n, new) ∷ calls) = n ∷ numbers calls

abbrev Distinct : List ℕ → Type 0
Distinct [] = Unit {0}
Distinct (n ∷ ns) = (has n ns ≡ false) × Distinct ns

distinct : Distinct restore_calls
distinct = (
  refl,
  (refl, (refl, (refl, (refl, (refl, (refl, (refl, (refl, (refl, (refl, (refl, tt))))))))))),
)

-- The calls leave the handler as it is.
abbrev OnlyRead : ℕ → List (ℕ × Entry) → Type 0
OnlyRead k [] = Unit {0}
OnlyRead k ((n, new) ∷ calls) = ((k == n) ≡ true → new ≡ env_read) × OnlyRead k calls

merged_read : (x : Entry) → merged x env_read ≡ x
merged_read x = ground arith

init_calls_read : (a : Addresses) (k : ℕ) → k ≢ 6 → k ≢ 9 → k ≢ 11 → OnlyRead k (init_calls a)
init_calls_read a k n6 n9 n11 = (
  λ e. refl,
  (
    λ e. refl,
    (
      λ e. refl,
      (
        λ e. refl,
        (
          λ e. refl,
          (
            λ e. refl,
            (
              λ e. absurd (n6 ((==_iff k 6).0 e)),
              (
                λ e. refl,
                (
                  λ e. absurd (n9 ((==_iff k 9).0 e)),
                  (λ e. refl, (λ e. absurd (n11 ((==_iff k 11).0 e)), (λ e. refl, tt))),
                ),
              ),
            ),
          ),
        ),
      ),
    ),
  ),
)

module _ {E : Type 0} (os : Environment E) where
  -- Saving keeps the entries of other handlers, and what was saved before of them; of each handler
  -- called for, it saves the entry that stood there.
  save_all_other :
      (calls : List (ℕ × Entry)) (s : State E) (k : ℕ)
      → has k (numbers calls) ≡ false
      → (os.entry (save_all os s calls).env k ≡ os.entry s.env k)
        × ((save_all os s calls).oldhandlers k ≡ s.oldhandlers k)
  unfolding save_all save_entry
  save_all_other [] s k h = (refl, refl)
  save_all_other ((n, new) ∷ calls) s k h =
      let (e, o) = save_all_other calls (save_entry os s n new) k (ground arith) in
      let other : (k == n) ≡ false = ground arith in
      (e ∙ os.change_entry s.env n new k ∙ rw other, o ∙ rw other)

  save_all_saved :
      (calls : List (ℕ × Entry)) (s : State E) (k : ℕ)
      → Distinct (numbers calls)
      → has k (numbers calls) ≡ true
      → (save_all os s calls).oldhandlers k ≡ os.entry s.env k
  unfolding save_all save_entry
  save_all_saved [] s k d h = cc
  save_all_saved ((n, new) ∷ calls) s k (f, d) h = elim (Bool-cases (k == n)) [
    | inl here ↦
        let e = (==_iff k n).0 here in
        let absent = subst (λ j. has j (numbers calls) ≡ false) (sym e) f in
        (save_all_other calls (save_entry os s n new) k absent).1
        ∙ rw here (os.change_old s.env n new ∙ ap (os.entry s.env) (sym e))
    | inr later ↦
        save_all_saved calls (save_entry os s n new) k d (ground arith)
        ∙ os.change_entry s.env n new k
        ∙ rw later
  ]

  restore_all_other :
      (ns : List ℕ) (s : State E) (k : ℕ)
      → has k ns ≡ false
      → os.entry (restore_all os s ns).env k ≡ os.entry s.env k
  unfolding restore_all
  restore_all_other [] s k h = refl
  restore_all_other (n ∷ ns) s k h =
      let other : (k == n) ≡ false = ground arith in
      restore_all_other ns _ k (ground arith)
      ∙ os.change_entry s.env n (s.oldhandlers n) k
      ∙ rw other

  save_all_read :
      (calls : List (ℕ × Entry)) (s : State E) (k : ℕ)
      → OnlyRead k calls
      → os.entry (save_all os s calls).env k ≡ os.entry s.env k
  unfolding save_all save_entry
  save_all_read [] s k h = refl
  save_all_read ((n, new) ∷ calls) s k (r, h) =
      save_all_read calls (save_entry os s n new) k h ∙ elim (Bool-cases (k == n)) [
        | inl here ↦
            os.change_entry s.env n new k
            ∙ rw (here, r here)
                (merged_read (os.entry s.env n) ∙ ap (os.entry s.env) (sym ((==_iff k n).0 here)))
        | inr other ↦ os.change_entry s.env n new k ∙ rw other
      ]

  restore_all_set :
      (ns : List ℕ) (s : State E) (k : ℕ)
      → Distinct ns
      → has k ns ≡ true
      → os.entry (restore_all os s ns).env k ≡ merged (os.entry s.env k) (s.oldhandlers k)
  unfolding restore_all
  restore_all_set [] s k d h = cc
  restore_all_set (n ∷ ns) s k (f, d) h = elim (Bool-cases (k == n)) [
    | inl here ↦
        let e = (==_iff k n).0 here in
        let s' = record s { env = (os.change s.env n (s.oldhandlers n)).1 } in
        restore_all_other ns s' k (subst (λ j. has j ns ≡ false) (sym e) f)
        ∙ os.change_entry s.env n (s.oldhandlers n) k
        ∙ rw here (ap (λ j. merged (os.entry s.env j) (s.oldhandlers j)) (sym e))
    | inr later ↦
        restore_all_set ns (record s { env = (os.change s.env n (s.oldhandlers n)).1 }) k d
          (ground arith)
        ∙ ap (λ x. merged x (s.oldhandlers k))
            (os.change_entry s.env n (s.oldhandlers n) k ∙ rw later)
  ]

  -- What restoring gives in place of the entry `old`: the values of `old` that are not 0.
  abbrev pub PutBack : Entry → Entry → Type 0
  PutBack old now =
      (old.handler ≢ 0 → now.handler ≡ old.handler)
      × (old.workspace ≢ 0 → now.workspace ≡ old.workspace)
      × (old.buffer ≢ 0 → now.buffer ≡ old.buffer)

  merged-PutBack : (x old : Entry) → PutBack old (merged x old)
  merged-PutBack x old = (λ h. ground arith, λ h. ground arith, λ h. ground arith)

  -- After `_env_init` and `_env_restore` every handler but the error, escape and exit handlers (6, 9
  -- and 11) is as it was before. Of those three each value that was not 0 is what it was before; one
  -- that was 0 cannot be set, and nothing is said of it. A second `_env_restore` does nothing.
  pub env_restore-init :
      (a : Addresses) (s : State E)
      → let s' = env_restore os (env_init os a s) in
        ((k : ℕ) → k ≢ 6 → k ≢ 9 → k ≢ 11 → os.entry s'.env k ≡ os.entry s.env k)
        × ((k : ℕ) → PutBack (os.entry s.env k) (os.entry s'.env k))
        × (env_restore os s' ≡ s')
  unfolding env_init env_restore
  env_restore-init a s = (
    λ k n6 n9 n11. same k (save_all_read (init_calls a) begun k (init_calls_read a k n6 n9 n11)),
    put_back,
    refl,
  )
    where
      begun : State E
      begun = record s { env_initialised = true }

      saved : State E
      saved = save_all os begun (init_calls a)

      ready : State E
      ready = record saved { env_initialised = false }

      touched_entry :
          (k : ℕ)
          → has k restore_calls ≡ true
          → os.entry (restore_all os ready restore_calls).env k
            ≡ merged (os.entry saved.env k) (os.entry s.env k)
      touched_entry k touched =
          restore_all_set restore_calls ready k distinct touched
          ∙ ap (merged (os.entry saved.env k))
              (save_all_saved (init_calls a) begun k distinct touched)

      other_entry :
          (k : ℕ)
          → has k restore_calls ≡ false
          → os.entry (restore_all os ready restore_calls).env k ≡ os.entry s.env k
      other_entry k other =
          restore_all_other restore_calls ready k other
          ∙ (save_all_other (init_calls a) begun k other).0

      same :
          (k : ℕ)
          → os.entry saved.env k ≡ os.entry s.env k
          → os.entry (restore_all os ready restore_calls).env k ≡ os.entry s.env k
      same k e = elim (Bool-cases (has k restore_calls)) [
        | inl touched ↦
            touched_entry k touched
            ∙ ap (λ x. merged x (os.entry s.env k)) e
            ∙ merged_same (os.entry s.env k)
        | inr other ↦ other_entry k other
      ]

      put_back :
          (k : ℕ) → PutBack (os.entry s.env k) (os.entry (restore_all os ready restore_calls).env k)
      put_back k = elim (Bool-cases (has k restore_calls)) [
        | inl touched ↦
            subst (PutBack (os.entry s.env k)) (sym (touched_entry k touched))
              (merged-PutBack (os.entry saved.env k) (os.entry s.env k))
        | inr other ↦
            let e = other_entry k other in
            (λ h. ap (λ x. x.handler) e, λ h. ap (λ x. x.workspace) e, λ h. ap (λ x. x.buffer) e)
      ]
