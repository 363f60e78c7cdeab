-- ===== src/Kernel/Swi/Laws.antt =====
-- What `_swix` and `_swi` pass to a SWI, store and return.
use native.Mathlib.Nat.{zero-add}
use riscos64_simple_binaries.Base.{
  ℕ, refl, sym, ap, true, some, List, [], arith, length, ◌+◌, ◌-◌, ◌*◌, ◌/◌, ◌%◌, ◌^◌, ◌<◌, ◌≡◌,
  ◌∙◌, ◌==◌, if◌then◌else◌,
}
use riscos64_simple_binaries.Kernel.Swi.{
  Regs, has_bit, in_regs, out_regs, Kernel, State, swix, swi, zero_regs, Outcome, sign_extended,
  kernel_last_oserror,
}
use riscos64_simple_binaries.Kernel.Swi.Passing.{
  count, arg, get_elem?, passed, passed_lem, out_regs-within, out_regs-length, in_regs-rest,
}

-- The stores that a call makes are of the registers 0 to 9 in `r` whose bit is set, through the
-- arguments behind the first `used` ones, in order.
abbrev pub Stored : ℕ → Regs → List ℕ → ℕ → List (ℕ × ℕ) → Type 0
Stored flags r args used stores =
    (length stores ≡ count (λ k. has_bit flags (31 - k)) 0 10)
    × ((k : ℕ)
        → k < 10
        → has_bit flags (31 - k) ≡ true
        → let i = count (λ k. has_bit flags (31 - k)) 0 k in
          get_elem? stores i ≡ some (arg args (used + i), r k))

out_regs-Stored :
    (flags : ℕ) (r : Regs) (s : Regs × List ℕ)
    → Stored flags r s.1
        (count (has_bit flags) 0 10)
        (out_regs 10 0 flags r ([], (in_regs 10 0 flags s).1)).0
out_regs-Stored flags r s =
    let rest = (in_regs 10 0 flags s).1 in
    (
      out_regs-length flags r 10 0 ([], rest) ∙ zero-add _,
      λ k l b.
          let i = count (λ k. has_bit flags (31 - k)) 0 k in
          let at =
            out_regs-within flags r 10 0 ([], rest) k l
              (ap (λ n. has_bit flags (31 - n)) (zero-add k) ∙ b) in
          ap (get_elem? _) (sym (zero-add i))
          ∙ at
          ∙ ap some (
              ap (λ a. (a, r (0 + k))) (in_regs-rest flags 10 0 s i)
              ∙ ap (λ n. (arg s.1 (count (has_bit flags) 0 10 + i), r n)) (zero-add k)),
    )

module _ {D : Type 0} (os : Kernel D) (behind : ℕ → ℕ) where
  -- What a call passes to the SWI, and what it makes of the answer.
  abbrev pub CallsOnce : State D → ℕ → ℕ → List ℕ → Outcome D → Type 0
  CallsOnce s swi_no flags args o =
      let r = passed os behind flags args in
      let (err, r', d) = os.kernel_swi s.dev swi_no r in
      ((k : ℕ)
        → k < 10
        → r k ≡ (if has_bit flags k then arg args (count (has_bit flags) 0 k) % 2 ^ 32 else 0))
      × (o.result ≡ err)
      × Stored flags r' args (count (has_bit flags) 0 10) o.stores
      × (o.state.dev ≡ d)
      × (kernel_last_oserror o.state ≡ (if err == 0 then s.last_error else err))

  -- `_swix` calls the SWI once. Each of the registers 0 to 9 whose bit is set in the flags gets the
  -- low 32 bits of the argument whose place is the number of bits set below it, and the others
  -- get 0; the result is the error pointer of the SWI. The output registers are then stored, error or not, through
  -- the arguments behind those, in the order of the registers, one for each bit and no other. `_kernel_last_oserror` gives
  -- the error of this call if there is one, and what it gave before if there is none.
  pub swix_lem :
      (s : State D) (swi_no flags : ℕ) (args : List ℕ)
      → CallsOnce s swi_no flags args (swix os behind s swi_no flags args)
  unfolding swix kernel_last_oserror
  swix_lem s swi_no flags args =
      let r = passed os behind flags args in
      let (err, r', d) = os.kernel_swi s.dev swi_no r in
      (
        passed_lem os behind flags args,
        refl,
        out_regs-Stored flags r' (zero_regs behind, args),
        ground arith,
        ground arith,
      )

  -- `_swi` with `_RETURN(i)` among its flags, `i` below 16, returns register `i / 2`, sign-extended, and not
  -- register `i`: the field starts at bit 16, and the code shifts by 17. `inputs` are the flags
  -- below that field, `outputs` those from bit 21 on.
  pub swi_returns :
      (s : State D) (swi_no inputs outputs i : ℕ) (args : List ℕ)
      → inputs < 2 ^ 16
      → i < 16
      → let flags = inputs + i * 2 ^ 16 + outputs * 2 ^ 21 in
        let (err, r', d) = os.kernel_swi s.dev (swi_no + 2 ^ 31) (passed os behind flags args) in
        (swi os behind s swi_no flags args).result ≡ sign_extended (r' (i / 2))
  unfolding swi
  swi_returns s swi_no inputs outputs i args l b =
      let flags = inputs + i * 2 ^ 16 + outputs * 2 ^ 21 in
      let (err, r', d) = os.kernel_swi s.dev (swi_no + 2 ^ 31) (passed os behind flags args) in
      let e : flags / 2 ^ 17 % 16 ≡ i / 2 = omega arith in ap (λ n. sign_extended (r' n)) e
