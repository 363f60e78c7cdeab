-- ===== src/Kernel/Unwind/Laws.antt =====
-- What a backtrace reports, and when it ends.
use riscos64_simple_binaries.Base.{
  ℕ, zero, suc, refl, ap, inl, inr, true, false, not, List, [], arith, Bool-cases, length,
  replicate, ℤ, pos, negsuc, ◌+◌, ◌^◌, ◌≤◌, ◌<◌, ◌≡◌, ◌∙◌, ◌≢◌, ◌⊎◌, ◌&&◌, ◌∷◌, ◌==◌,
}
use riscos64_simple_binaries.Kernel.Unwind.{
  Words, stack_invalid, address_invalid, UnwindBlock, unwound, unwind, Ending, complete, corrupt,
  unfinished, line, backtrace_loop, backtrace,
}

-- From the frame at `fp` on, the frames lead to one with no caller, and the calls return to `pcs`.
abbrev pub IsChain : Words → ℕ → List ℕ → Type 0
IsChain m fp [] = ⊥
IsChain m fp (pc ∷ []) =
    (fp ≢ 0)
    × (stack_invalid fp ≡ false)
    × (m fp ≡ 0)
    × (m (fp + 8) ≡ pc)
    × (address_invalid pc ≡ false)
IsChain m fp (pc ∷ pc' ∷ pcs) =
    (fp ≢ 0)
    × (stack_invalid fp ≡ false)
    × (m fp ≢ 0)
    × (m (fp + 8) ≡ pc)
    × (address_invalid pc ≡ false)
    × IsChain m (m fp) (pc' ∷ pcs)

IsChain-valid :
    (m : Words) (fp : ℕ) (pcs : List ℕ) → IsChain m fp pcs → (fp ≢ 0) × (stack_invalid fp ≡ false)
IsChain-valid m fp [] h = absurd h
IsChain-valid m fp (pc ∷ []) h = (h.0, h.1)
IsChain-valid m fp (pc ∷ pc' ∷ pcs) h = (h.0, h.1)

-- The step from a valid frame with a valid caller
unwind_frame :
    (m : Words) (current b : UnwindBlock)
    → b.fp ≢ 0
    → stack_invalid b.fp ≡ false
    → (not (m b.fp == 0) && stack_invalid (m b.fp)) ≡ false
    → address_invalid (m (b.fp + 8)) ≡ false
    → unwind m current b ≡ unwound m b.fp
unfolding unwind
unwind_frame m current b ne s c a =
    let set : (b.fp == 0) ≡ false = ground arith in rw (set, s, c, a) refl

-- A step from a frame gives up, or the frame is valid.
unwind-cases :
    (m : Words) (current b : UnwindBlock)
    → b.fp ≢ 0
    → (unwind m current b ≡ (negsuc 0, b))
      ⊎ ((stack_invalid b.fp ≡ false) × (unwind m current b ≡ unwound m b.fp))
unfolding unwind
unwind-cases m current b ne =
    let set : (b.fp == 0) ≡ false = ground arith in
    elim (Bool-cases (stack_invalid b.fp)) [
      | inl s ↦ inl (rw (set, s) refl)
      | inr s ↦ elim (Bool-cases (not (m b.fp == 0) && stack_invalid (m b.fp))) [
        | inl c ↦ inl (rw (set, s, c) refl)
        | inr c ↦ elim (Bool-cases (address_invalid (m (b.fp + 8)))) [
          | inl a ↦ inl (rw (set, s, c, a) refl)
          | inr a ↦ inr (s, rw (set, s, c, a) refl)
        ]
      ]
    ]

stack_valid_below : (a : ℕ) → stack_invalid a ≡ false → a < 2 ^ 32
unfolding stack_invalid
stack_valid_below a h = ground arith

-- `a` is the frame at `fp`, or the caller of a frame in the stack that is reached from there.
pub data IsReached (m : Words) (fp : ℕ) : ℕ → Type 0 where
  start : IsReached m fp fp
  step : {a : ℕ} → IsReached m fp a → stack_invalid a ≡ false → m a ≢ 0 → IsReached m fp (m a)

module _ (m : Words) (current : UnwindBlock) where
  loop-chain :
      (fuel : ℕ) (pcs : List ℕ) (b : UnwindBlock)
      → IsChain m b.fp pcs
      → length pcs ≤ fuel
      → backtrace_loop fuel m current (unwind m current b) ≡ (pcs, complete)
  unfolding backtrace_loop unwound
  loop-chain fuel [] b h l = absurd h
  loop-chain zero (pc ∷ pcs) b h l = absurd (omega arith)
  loop-chain (suc fuel) (pc ∷ []) b (ne, s, last, at, a) l =
      let last' : (m b.fp == 0) ≡ true = ground arith in
      rw (unwind_frame m current b ne s (rw last' refl) (rw at a), last', at) refl
  loop-chain (suc fuel) (pc ∷ pc' ∷ pcs) b (ne, s, more, at, a, h) l =
      let more' : (m b.fp == 0) ≡ false = ground arith in
      let caller = IsChain-valid m (m b.fp) (pc' ∷ pcs) h in
      rw (unwind_frame m current b ne s (rw (more', caller.1) refl) (rw at a), more', at)
        (ap (line pc) (loop-chain fuel (pc' ∷ pcs) _ h (omega arith)))

  -- With a chain of frames that leads from the current one to a frame with no caller, the backtrace
  -- reports where the program is and every address that a call returns to, in order, and ends
  -- with the last frame.
  pub backtrace-chain :
      (fuel : ℕ) (pcs : List ℕ)
      → IsChain m current.fp pcs
      → length pcs < fuel
      → backtrace fuel m current ≡ (current.pc ∷ pcs, complete)
  unfolding backtrace backtrace_loop unwind
  backtrace-chain zero pcs h l = absurd (omega arith)
  backtrace-chain (suc fuel) pcs h l =
      ap (line current.pc) (loop-chain fuel pcs current h (omega arith))

  loop_goes_on :
      (fuel : ℕ) (state : ℤ) (b : UnwindBlock)
      → state ≡ pos 1
      → backtrace_loop (suc fuel) m current (state, b)
        ≡ line b.pc (backtrace_loop fuel m current (unwind m current b))
  unfolding backtrace_loop
  loop_goes_on fuel state b e = rw e refl

  loop_caller :
      (fuel fp : ℕ)
      → m fp ≢ 0
      → backtrace_loop (suc fuel) m current (unwound m fp)
        ≡ line (m (fp + 8)) (backtrace_loop fuel m current (unwind m current (unwound m fp).1))
  unfolding unwound
  loop_caller fuel fp ne =
      loop_goes_on fuel (unwound m fp).0 (unwound m fp).1
        (let z : (m fp == 0) ≡ false = ground arith in rw z refl)

  abbrev Ends : List ℕ × Ending → Type 0
  Ends r = (r.1 ≡ complete) ⊎ (r.1 ≡ corrupt)

  line-Ends : (pc : ℕ) (r : List ℕ × Ending) → Ends r → Ends (line pc r)
  line-Ends pc (pcs, e) h = h

  -- Every frame that the chain reaches lies below its caller, if it is in the stack and has one.
  abbrev pub Upward : Type 0
  Upward = (a : ℕ) → IsReached m current.fp a → stack_invalid a ≡ false → (m a ≡ 0) ⊎ (a < m a)

  loop-Ends :
      (fuel : ℕ) (b : UnwindBlock)
      → Upward
      → IsReached m current.fp b.fp
      → b.fp ≢ 0
      → 0 < fuel
      → 2 ^ 32 < fuel + b.fp
      → Ends (backtrace_loop fuel m current (unwind m current b))
  unfolding backtrace_loop unwound
  loop-Ends zero b up at ne p l = absurd (omega arith)
  loop-Ends (suc fuel) b up at ne p l = elim (unwind-cases m current b ne) [
    | inl e ↦ rw e (inr refl)
    | inr (s, e) ↦ elim (up b.fp at s) [
      | inl last ↦
          let z : (m b.fp == 0) ≡ true = ground arith in
          rw (e, z) (line-Ends (m (b.fp + 8)) ([], complete) (inl refl))
      | inr above ↦
          let below = stack_valid_below b.fp s in
          rw (e, loop_caller fuel b.fp (omega arith))
            (line-Ends (m (b.fp + 8))
              (backtrace_loop fuel m current (unwind m current (unwound m b.fp).1))
              (loop-Ends fuel (unwound m b.fp).1 up (step at s (omega arith)) (omega arith)
                (omega arith) (omega arith)))
    ]
  ]

  -- If the current frame is not 0 and, of the frames that the chain reaches from it, each lies below
  -- its caller or has none, the backtrace ends, with the last frame or with the message that the
  -- frames are corrupt, whatever else the stack holds; 2^32 turns are enough.
  pub backtrace-Ends :
      (fuel : ℕ) → Upward → current.fp ≢ 0 → 2 ^ 32 < fuel → Ends (backtrace fuel m current)
  unfolding backtrace backtrace_loop unwind
  backtrace-Ends zero up ne l = absurd (omega arith)
  backtrace-Ends (suc fuel) up ne l =
      line-Ends current.pc (backtrace_loop fuel m current (unwind m current current))
        (loop-Ends fuel current up start ne (omega arith) (omega arith))

  loop_cycle :
      (fuel : ℕ) (b : UnwindBlock) (pc : ℕ)
      → b.fp ≢ 0
      → stack_invalid b.fp ≡ false
      → m b.fp ≡ b.fp
      → m (b.fp + 8) ≡ pc
      → address_invalid pc ≡ false
      → backtrace_loop fuel m current (unwind m current b) ≡ (replicate fuel pc, unfinished)
  unfolding backtrace_loop unwound
  loop_cycle zero b pc ne s up at a = refl
  loop_cycle (suc fuel) b pc ne s up at a =
      let z : (m b.fp == 0) ≡ false = ground arith in
      let step : unwind m current b ≡ unwound m b.fp =
        unwind_frame m current b ne s (rw (z, up, s) refl) (rw at a) in
      let fp : (unwound m b.fp).1.fp ≡ b.fp = up in
      let next =
        loop_cycle fuel (unwound m b.fp).1 pc (rw fp ne) (rw fp s) (ap m up)
          (ap (λ x. m (x + 8)) fp ∙ at) a in
      rw (step, loop_caller fuel b.fp (rw up ne))
        (ap (line (m (b.fp + 8))) next ∙ ap (λ x. (x ∷ replicate fuel pc, unfinished)) at)

  -- A frame that is its own caller is followed for ever: however long it runs, the backtrace has only
  -- written the address once more each turn.
  backtrace_cycle :
      (fuel pc : ℕ)
      → current.fp ≢ 0
      → stack_invalid current.fp ≡ false
      → m current.fp ≡ current.fp
      → m (current.fp + 8) ≡ pc
      → address_invalid pc ≡ false
      → backtrace (suc fuel) m current ≡ (current.pc ∷ replicate fuel pc, unfinished)
  unfolding backtrace backtrace_loop unwind
  backtrace_cycle fuel pc ne s up at a =
      ap (line current.pc) (loop_cycle fuel current pc ne s up at a)
