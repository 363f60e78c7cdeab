-- ===== src/Runtime/Signal.antt =====
-- clib/signal.c.
pub mod Laws
use riscos64_simple_binaries.Base.{ℕ, Bool, true, false, leb, ℤ, pos, negsuc, ◌==◌, if◌then◌else◌}

-- The values of <signal.h>, and the addresses of the two functions in the table of defaults. A handler is
-- the address of a function, `signal_ignore` is NULL.
pub record Values : Type 0 where
  pub sigint : ℕ
  pub sigabrt : ℕ
  pub sig_ign : ℕ
  pub sig_dfl : ℕ
  pub sig_err : ℕ
  pub signal_escape : ℕ
  pub signal_abort : ℕ

abbrev pub sigmax : ℕ
sigmax = 7

abbrev pub signal_ignore : ℕ
signal_ignore = 0

-- `handlers` and the bits of `signals_blocked`
pub record Signals : Type 0 where
  pub handlers : ℕ → ℕ
  pub blocked : ℕ → Bool

-- `a[sig] = x`
abbrev pub update {ℓ} : {A : Type ℓ} → (ℕ → A) → ℕ → A → ℕ → A
update a sig x k = if k == sig then x else a k

-- `default_handlers`: the entries for SIGHUP and SIGILL are `signal_ignore` as all others
unfoldable pub default_handlers : Values → ℕ → ℕ
default_handlers v sig =
    if sig == v.sigint
    then v.signal_escape
    else if sig == v.sigabrt
    then v.signal_abort
    else signal_ignore

unfoldable pub signal_init : Values → Signals
unfolding default_handlers
signal_init v = record { handlers = default_handlers v; blocked = λ k. false }

-- The handler that `signal` returns for the one in the table
unfoldable pub prior : Values → ℕ → ℕ → ℕ
unfolding default_handlers
prior v sig func =
    if func == default_handlers v sig
    then v.sig_dfl
    else if func == signal_ignore
    then v.sig_ign
    else func

-- `signal`, for a signal number that is not negative
unfoldable pub signal : Values → Signals → ℕ → ℕ → ℕ × Signals
unfolding prior
signal v s sig func =
    if leb sigmax sig
    then (v.sig_err, s)
    else (prior v sig (s.handlers sig), record s { handlers = update s.handlers sig func })

-- A handler may do anything to the program's state `W`, of which `signals` is a part.
pub record Program (W : Type 0) : Type 0 where
  pub signals : W → Signals
  pub set_signals : W → Signals → W
  -- `func(sig)`
  pub call : ℕ → ℕ → W → W

module _ {W : Type 0} (prog : Program W) (v : Values) where
  -- `signals_blocked |= 1lu << sig` and `signals_blocked &= ~(1lu << sig)`
  abbrev pub set_blocked : ℕ → Bool → W → W
  set_blocked sig b w =
      let s = prog.signals w in prog.set_signals w (record s { blocked = update s.blocked sig b })

  unfoldable pub raise : W → ℕ → ℤ × W
  unfolding default_handlers
  raise w sig =
      let s = prog.signals w in
      let func = if s.blocked sig then default_handlers v sig else s.handlers sig in
      let w' = set_blocked sig true w in
      let w'' = if func == 0 then w' else prog.call func sig w' in
      if leb sigmax sig then (negsuc 0, w) else (pos 0, set_blocked sig false w'')
