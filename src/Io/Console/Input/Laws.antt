-- ===== src/Io/Console/Input/Laws.antt =====
-- Lines and characters from the keyboard.
use riscos64_simple_binaries.Base.{
  ℕ, refl, sym, ap, true, false, some, List, [], arith, length, length-append, get_or-append, ℤ,
  pos, sub_ℕ, ◌+◌, ◌-◌, ◌^◌, ◌≤◌, ◌<◌, ◌≡◌, ◌∙◌, ◌⊎◌, ◌∷◌, ◌++◌,
}
use riscos64_simple_binaries.Memory.{Memory, store}
use riscos64_simple_binaries.Memory.Text.{HasString, IsText, HasString-intro, get_or_past}
use riscos64_simple_binaries.Io.Sprintf.{store_all}
use riscos64_simple_binaries.Io.Sprintf.Laws.{store_all_lem}
use riscos64_simple_binaries.Io.Stream.{File, State}
use riscos64_simple_binaries.Io.Stream.Input.Laws.{IsReady}
use riscos64_simple_binaries.Runtime.Clock.{clock, clock_init, clock_freeze, clock-freeze}
use riscos64_simple_binaries.Io.Console.Input.{
  typed, Keyboard, Console, con_read_byte, con_read_line, os_readline, os_readline_done, con_line,
  freeze, fgets, fgets_done,
}

IsText-append : (xs ys : List ℕ) → IsText xs → IsText ys → IsText (xs ++ ys)
IsText-append [] ys h k = k
IsText-append (x ∷ xs) ys h k = (h.0, IsText-append xs ys h.1 k)

-- Memory after the SWI, the newline and the last terminator
abbrev with_line : Memory → ℕ → List ℕ → Memory
with_line m str text =
    store (store (store (store_all m str text) (str + length text) 0) (str + length text) 10)
      (str + length text + 1) 0

line-HasString :
    (m : Memory) (str : ℕ) (text : List ℕ)
    → IsText text
    → HasString (with_line m str text) str (text ++ 10 ∷ [])
line-HasString m str text t =
    let total = length-append text (10 ∷ []) in
    HasString-intro _ str _ (IsText-append text (10 ∷ []) t (omega arith, tt)) (λ i l. ground (
      arith,
      store_all_lem text m str (str + i),
      get_or-append text (10 ∷ []) i,
      total,
      get_or_past (10 ∷ []) (i - length text),
    ))

module _ {D : Type 0} (keys : Keyboard D) where
  -- The time that a program waits for a character does not count: the process clock, which has run since
  -- `t₀`, gives at `t` what it would give if the time between the call and the character had not
  -- passed.
  con_read_byte-clock :
      (t₀ t : ℕ) (c : Console D) (b : ℤ) (d : D)
      → c.clk ≡ clock_init t₀
      → keys.readc c.kbd ≡ (b, d)
      → t₀ ≤ keys.now c.kbd
      → 0 < keys.now c.kbd
      → keys.now c.kbd ≤ keys.now d
      → keys.now d ≤ t
      → t < 2 ^ 63
      → let (r, c') = con_read_byte keys c in
        (r ≡ b) × (clock c'.clk t ≡ (keys.now c.kbd - t₀) + (t - keys.now d))
  unfolding con_read_byte
  con_read_byte-clock t₀ t c b d e k l p l' l'' m =
      let times =
        clock-freeze t₀ (keys.now c.kbd) (keys.now c.kbd) (keys.now d) t l p (omega arith) l' l'' m
          (omega arith) in
      rw (e, k)
        (refl, ap (λ z. clock (clock_freeze z false (keys.now d)) t) (sym times.1) ∙ times.2)

  con_read_line_typed :
      (eintr str size : ℕ) (m : Memory) (c : Console D) (text : List ℕ) (d : D)
      → keys.read_line c.kbd (sub_ℕ size 1) ≡ (typed text, d)
      → (c' : Console D) × (con_read_line keys eintr m c str size
          ≡ (pos 0, with_line m str text, c'))
  unfolding con_read_line os_readline con_line os_readline_done
  con_read_line_typed eintr str size m c text d k =
      rw k (freeze keys false (record (freeze keys true c) { kbd = d }), refl)

  -- `fgets` from the keyboard gives the line that is typed with a newline behind it, as a string, and
  -- writes no byte outside the `size` it is given, if OS_ReadLine32 returns fewer characters than
  -- the size that it is given.
  pub fgets-typed :
      (eintr str size : ℕ) (m : Memory) (s : State (Console D)) (f : File) (text : List ℕ) (d : D)
      → IsReady s f
      → keys.read_line s.dev.kbd (sub_ℕ size 1) ≡ (typed text, d)
      → IsText text
      → length text + 2 ≤ size
      → let ((r, m'), s') = fgets (con_read_line keys eintr) m s str size in
        (r ≡ some str)
        × HasString m' str (text ++ 10 ∷ [])
        × ((x : ℕ) → (x < str) ⊎ (str + size ≤ x) → m' x ≡ m x)
  unfolding fgets con_read_line os_readline
  fgets-typed eintr str size m s f text d h k t l =
      let (c', e) = con_read_line_typed eintr str size m s.dev text d k in
      rw (h.handle, fgets)
        (rw (h.magic, h.readable, e, fgets_done)
          (refl, line-HasString m str text t, λ x o. ground (arith, store_all_lem text m str x)))
