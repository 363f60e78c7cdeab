-- ===== src/Kernel/Swi.antt =====
-- clib/kernel/kernel-swi.c and kernel-swix.c: the variadic SWI calls. `_kernel_swi` is assembler and
-- a parameter; a register is a word of 32 bits, and an argument one of 64.
pub mod Passing
pub mod Laws
use riscos64_simple_binaries.Base.{
  ℕ, zero, suc, Bool, List, [], ltb, ◌+◌, ◌-◌, ◌/◌, ◌%◌, ◌^◌, ◌∷◌, ◌++◌, ◌==◌, if◌then◌else◌,
}

-- The block `regs.r`; past its ten words a number stands for what lies behind it on the stack.
abbrev pub Regs : Type 0
Regs = ℕ → ℕ

abbrev pub set_reg : Regs → ℕ → ℕ → Regs
set_reg r n v k = if k == n then v else r k

-- `_kernel_swi` over a state `D`: the number of the SWI and the registers; it gives the error
-- pointer, 0 for NULL, and the registers afterwards.
pub record Kernel (D : Type 0) : Type 0 where
  pub kernel_swi : D → ℕ → Regs → ℕ × Regs × D

-- The system, and `_last_error`
pub record State (D : Type 0) : Type 0 where
  pub dev : D
  pub last_error : ℕ

-- `_kernel_init`
unfoldable pub kernel_init : {D : Type 0} → State D → State D
kernel_init s = record s { last_error = 0 }

-- `_kernel_last_oserror`
unfoldable pub kernel_last_oserror : {D : Type 0} → State D → ℕ
kernel_last_oserror s = s.last_error

-- `_kernel_copyerror`
abbrev pub copyerror : {D : Type 0} → State D → ℕ → State D
copyerror s err = record s { last_error = err }

-- Bit `n` of `flags`
abbrev pub has_bit : ℕ → ℕ → Bool
has_bit flags n = flags / 2 ^ n % 2 == 1

-- `va_arg`, with 0 for an argument that is missing
abbrev pub next_arg : List ℕ → ℕ × List ℕ
next_arg [] = (0, [])
next_arg (a ∷ args) = (a, args)

-- A turn of the first loop
unfoldable pub in_reg : ℕ → ℕ → Regs × List ℕ → Regs × List ℕ
in_reg flags n (r, args) =
    let (a, rest) = next_arg args in
    if has_bit flags n then (set_reg r n (a % 2 ^ 32), rest) else (r, args)

-- The first loop, with the number of turns that are left
unfoldable pub in_regs : ℕ → ℕ → ℕ → Regs × List ℕ → Regs × List ℕ
unfolding in_reg
in_regs zero n flags s = s
in_regs (suc left) n flags s = in_regs left (n + 1) flags (in_reg flags n s)

-- A turn of the second loop. The stores `*p = regs.r[n]` are listed, the first one first.
unfoldable pub out_reg : ℕ → Regs → ℕ → List (ℕ × ℕ) × List ℕ → List (ℕ × ℕ) × List ℕ
out_reg flags r n (stores, args) =
    let (p, rest) = next_arg args in
    if has_bit flags (31 - n) then (stores ++ (p, r n) ∷ [], rest) else (stores, args)

unfoldable pub out_regs : ℕ → ℕ → ℕ → Regs → List (ℕ × ℕ) × List ℕ → List (ℕ × ℕ) × List ℕ
unfolding out_reg
out_regs zero n flags r s = s
out_regs (suc left) n flags r s = out_regs left (n + 1) flags r (out_reg flags r n s)

-- `regs = {0}`, and what lies behind
abbrev pub zero_regs : (ℕ → ℕ) → Regs
zero_regs behind n = if ltb n 10 then 0 else behind n

-- An `int32_t` as a `uint64_t`
abbrev pub sign_extended : ℕ → ℕ
sign_extended w = if ltb w (2 ^ 31) then w else w + (2 ^ 64 - 2 ^ 32)

-- What a call comes to: its result, the stores through the pointers, and the state.
pub record Outcome (D : Type 0) : Type 0 where
  pub result : ℕ
  pub stores : List (ℕ × ℕ)
  pub state : State D

module _ {D : Type 0} (os : Kernel D) (behind : ℕ → ℕ) where
  -- Behind the SWI, in `_swix`
  unfoldable pub swix_done : State D → ℕ → List ℕ → ℕ × Regs × D → Outcome D
  unfolding out_regs
  swix_done s flags args (err, r, d) =
      let s' = record s { dev = d } in
      record {
        result = err;
        stores = (out_regs 10 0 flags r ([], args)).0;
        state = if err == 0 then s' else copyerror s' err;
      }

  -- `_swix`
  unfoldable pub swix : State D → ℕ → ℕ → List ℕ → Outcome D
  unfolding in_regs swix_done
  swix s swi_no flags args =
      let (r, rest) = in_regs 10 0 flags (zero_regs behind, args) in
      swix_done s flags rest (os.kernel_swi s.dev swi_no r)

  -- Behind the SWI, in `_swi`: `retreg` is `(flags >> 17) & 15`
  unfoldable pub swi_done : State D → ℕ → List ℕ → ℕ × Regs × D → Outcome D
  unfolding out_regs
  swi_done s flags args (err, r, d) = record {
    result = sign_extended (r (flags / 2 ^ 17 % 16));
    stores = (out_regs 10 0 flags r ([], args)).0;
    state = record s { dev = d };
  }

  -- `_swi`; the bit _KERNEL_NOXBIT is not set in a number that is passed to it.
  unfoldable pub swi : State D → ℕ → ℕ → List ℕ → Outcome D
  unfolding in_regs swi_done
  swi s swi_no flags args =
      let (r, rest) = in_regs 10 0 flags (zero_regs behind, args) in
      swi_done s flags rest (os.kernel_swi s.dev (swi_no + 2 ^ 31) r)
