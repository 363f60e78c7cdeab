-- ===== src/Io/Fprintf/Laws.antt =====
-- What formatted output to a stream puts on its device.
use riscos64_simple_binaries.Base.{ℕ, List, [], length, pos, ◌+◌, ◌-◌, ◌^◌, ◌≤◌, ◌≡◌, ◌∷◌, ◌++◌}
use riscos64_simple_binaries.Io.Stream.{File, Dispatch, State}
use riscos64_simple_binaries.Io.Stream.Output.Laws.{IsWritable}
use riscos64_simple_binaries.Io.Vprintf.{Arg}
use riscos64_simple_binaries.Memory.{Memory}
use riscos64_simple_binaries.Io.Printf.{printed}
use riscos64_simple_binaries.Io.Printf.Laws.{Written, vsnprintf_lem}
use riscos64_simple_binaries.Io.Fprintf.{snprintf_chk}

-- A device that takes all that is written to it; `view` is what it has taken.
pub record TakesAll {D : Type 0} (ops : Dispatch D) (view : D → List ℕ) : Type 0 where
  pub takes :
      (d : D) (t : List ℕ)
      → (d' : D) × (ops.write_multiple d t ≡ (pos (length t), d')) × (view d' ≡ view d ++ t)
  pub takes_byte :
      (d : D) (c : ℕ)
      → (d' : D) × (n : ℕ) × (ops.write_byte d (pos c) ≡ (pos n, d')) × (view d' ≡ view d ++ c ∷ [])

module _ {D : Type 0} (ops : Dispatch D) (view : D → List ℕ) (h : TakesAll ops view)
    (before : List ℕ) where
  -- The stream can be written, and its device has taken the text behind what it had before.
  abbrev pub Taken : State D → List ℕ → Type 0
  Taken s t = ((f : File) × IsWritable s f) × (view s.dev ≡ before ++ t)

-- `__snprintf_chk` writes the whole text, terminated if it is not empty, if the size of the object, `slen`, is at most 2^31 and has room for it and two
-- bytes more, whatever the limit `maxlen` is.
snprintf_chk_lem :
    (m : Memory) (str maxlen slen : ℕ) (format : List ℕ) (args : List Arg)
    → length (printed format args) + 2 ≤ slen
    → slen ≤ 2 ^ 31
    → let (n, outs) = snprintf_chk m str maxlen slen format args in
      (n ≡ length (printed format args)) × Written m str (slen - 1) (printed format args) outs
unfolding snprintf_chk
snprintf_chk_lem m str maxlen slen format args l b = vsnprintf_lem m str slen format args l b
