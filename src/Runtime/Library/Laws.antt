-- ===== src/Runtime/Library/Laws.antt =====
-- A library that is started, also over what an earlier run has left behind.
use riscos64_simple_binaries.Base.{ℕ, refl, true, false, not, arith, ◌-◌, ◌^◌, ◌≤◌, ◌<◌, ◌≡◌, ◌==◌}
use riscos64_simple_binaries.Io.Open.{stdin, stderr}
use riscos64_simple_binaries.Kernel.Swi.{kernel_last_oserror}
use riscos64_simple_binaries.Runtime.Clock.{clock}
use riscos64_simple_binaries.Runtime.Signal.{Values, sigmax, signal}
use riscos64_simple_binaries.Runtime.Library.{Library, clib_internalinit}

module _ {D H : Type 0} (v : Values) where
  -- The library `l'` as it comes up at `now` over what was left in `l`.
  abbrev pub Initialised : Library D H → Library D H → ℕ → ℕ → ℕ → ℕ → ℕ → Type 0
  Initialised l l' now later sig func fh =
      (kernel_last_oserror l'.kernel ≡ 0)
      × (l'.inmodule ≡ l.inmodule)
      × (l'.signals.blocked sig ≡ false)
      × ((signal v l'.signals sig func).0 ≡ v.sig_dfl)
      × (clock l'.clock later ≡ later - now)
      × (l'.sysvars.envstring ≡ 0)
      × ((l'.standard fh).magic ≡ true)
      × ((l'.standard fh).console ≡ true)
      × ((l'.standard fh).readable ≡ (fh == stdin))
      × ((l'.standard fh).writable ≡ not (fh == stdin))
      × ((l'.standard fh).char_pushed ≡ false)

  -- Whatever an earlier run has left, after the initialisation at a time below 2^63 no error is
  -- recorded, no signal is blocked and each has its default handler, so that `signal` returns SIG_DFL
  -- for it, the clock counts from this time, `getenv` has no buffer, and the three standard streams
  -- are open on the console with no pushed character: stdin for reading, stdout and stderr for
  -- writing. Whether the code is a module stays as it was.
  pub clib_internalinit_lem :
      (l : Library D H) (now later sig func fh : ℕ)
      → now ≤ later
      → later < 2 ^ 63
      → sig < sigmax
      → fh ≤ stderr
      → Initialised l (clib_internalinit v now l) now later sig func fh
  unfolding clib_internalinit kernel_last_oserror signal clock
  clib_internalinit_lem l now later sig func fh h b s f = (
    refl,
    refl,
    refl,
    ground arith,
    ground arith,
    refl,
    ground arith,
    ground arith,
    ground arith,
    ground arith,
    ground arith,
  )
