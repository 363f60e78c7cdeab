-- ===== src/Runtime/Signal/Laws.antt =====
-- What `signal` and `raise` do together.
use riscos64_simple_binaries.Base.{
  ℕ, refl, ap, Bool, true, false, arith, leb, ==_self, pos, ◌<◌, ◌≡◌, ◌∙◌, ◌≢◌, ◌==◌,
}
use riscos64_simple_binaries.Runtime.Signal.{
  Values, Signals, update, sigmax, signal_ignore, default_handlers, signal_init, prior, signal,
  Program, set_blocked, raise,
}

signal_known :
    (v : Values) (s : Signals) (sig f : ℕ)
    → sig < sigmax
    → signal v s sig f
      ≡ (prior v sig (s.handlers sig), record s { handlers = update s.handlers sig f })
unfolding signal
signal_known v s sig f l = let known : leb 7 sig ≡ false = ground arith in rw known refl

-- A handler that is no default and not NULL is given back by the next call of `signal` for its signal,
-- and no other signal is changed; so the old handler can be put back.
signal-signal :
    (v : Values) (s : Signals) (sig f g : ℕ)
    → sig < sigmax
    → f ≢ default_handlers v sig
    → f ≢ signal_ignore
    → let s' = (signal v s sig f).1 in
      let (r, s'') = signal v s' sig g in
      (r ≡ f) × (s''.handlers sig ≡ g) × ((k : ℕ) → k ≢ sig → s''.handlers k ≡ s.handlers k)
unfolding prior
signal-signal v s sig f g l d i =
    let other : (f == default_handlers v sig) ≡ false = ground arith in
    let handler : (f == 0) ≡ false = ground arith in
    rw
      (
        signal_known v s sig f l,
        signal_known v (record s { handlers = update s.handlers sig f }) sig g l,
        ==_self sig,
        other,
        handler,
      )
      (refl, refl, λ k ne. ground arith)

-- After the initialisation every signal has its default action, and the first call of `signal` for it
-- says so.
signal-signal_init :
    (v : Values) (sig f : ℕ) → sig < sigmax → (signal v (signal_init v) sig f).0 ≡ v.sig_dfl
unfolding signal_init prior
signal-signal_init v sig f l =
    rw (signal_known v (signal_init v) sig f l, ==_self (default_handlers v sig)) refl

-- The program's state keeps the signals that are put into it.
pub record IsProgram {W : Type 0} (prog : Program W) : Type 0 where
  pub get_set : (w : W) (s : Signals) → prog.signals (prog.set_signals w s) ≡ s

module _ {W : Type 0} (prog : Program W) (v : Values) (h : IsProgram prog) where
  blocked-set_blocked :
      (sig : ℕ) (b : Bool) (w : W) → (prog.signals (set_blocked prog v sig b w)).blocked sig ≡ b
  blocked-set_blocked sig b w =
      ap (λ (s : Signals). s.blocked sig)
        (h.get_set w (record (prog.signals w) { blocked = update (prog.signals w).blocked sig b }))
      ∙ rw (==_self sig) refl

  raise_known :
      (w : W) (sig : ℕ)
      → sig < sigmax
      → (w' : W) × (raise prog v w sig ≡ (pos 0, set_blocked prog v sig false w'))
  unfolding raise
  raise_known w sig l = let known : leb 7 sig ≡ false = ground arith in rw known (_, refl)

  -- Whatever the handlers do, among that calls of `signal` and `raise`, a `raise` of a known signal
  -- succeeds and leaves that signal unblocked.
  pub raise_unblocks :
      (w : W) (sig : ℕ)
      → sig < sigmax
      → ((raise prog v w sig).0 ≡ pos 0)
        × ((prog.signals (raise prog v w sig).1).blocked sig ≡ false)
  raise_unblocks w sig l =
      let (w', e) = raise_known w sig l in rw e (refl, blocked-set_blocked sig false w')

  -- What a `raise` of a signal calls that `signal` has just given a function, or a number that
  -- stands for an action: the address `f` itself, with the signal blocked, unless it is NULL. Neither SIG_IGN
  -- nor SIG_DFL is looked for.
  raise-signal :
      (w : W) (sig f : ℕ)
      → sig < sigmax
      → f ≢ 0
      → (prog.signals w).blocked sig ≡ false
      → let w' = prog.set_signals w (signal v (prog.signals w) sig f).1 in
        raise prog v w' sig
        ≡ (pos 0, set_blocked prog v sig false (prog.call f sig (set_blocked prog v sig true w')))
  unfolding raise
  raise-signal w sig f l ne b =
      let known : leb 7 sig ≡ false = ground arith in
      let there : (f == 0) ≡ false = ground arith in
      let w' =
        prog.set_signals w
          (record (prog.signals w) { handlers = update (prog.signals w).handlers sig f }) in
      let s' : prog.signals w'
          ≡ record (prog.signals w) { handlers = update (prog.signals w).handlers sig f } =
        h.get_set w _ in
      let free : (prog.signals w').blocked sig ≡ false =
        ap (λ (s : Signals). s.blocked sig) s' ∙ b in
      let set : (prog.signals w').handlers sig ≡ f =
        ap (λ (s : Signals). s.handlers sig) s' ∙ rw (==_self sig) refl in
      rw (signal_known v (prog.signals w) sig f l) (rw (known, free, set, there) refl)
