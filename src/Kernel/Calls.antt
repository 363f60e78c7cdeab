-- ===== src/Kernel/Calls.antt =====
-- The veneers of clib/kernel over single calls of the operating system. An `int` is its 32 bits.
use Prim.Native.Nat.{bit_or}
use riscos64_simple_binaries.Base.{ℕ, ◌-◌, ◌*◌, ◌%◌, ◌^◌, ◌&&◌, ◌==◌, if◌then◌else◌}
use riscos64_simple_binaries.Kernel.Swi.{
  Regs, Kernel, State, copyerror, set_reg, sign_extended, zero_regs,
}

-- _kernel_ERROR
abbrev pub kernel_error : ℕ
kernel_error = 2 ^ 32 - 2

-- The numbers of the SWIs
pub record Numbers : Type 0 where
  pub os_args : ℕ
  pub os_byte : ℕ
  pub os_find : ℕ
  pub os_gbpb : ℕ
  pub os_word : ℕ
  pub os_cli : ℕ

-- `_kernel_osgbpb_block`: pointers of 64 bits, words of 32
pub record GbpbBlock : Type 0 where
  pub dataptr : ℕ
  pub nbytes : ℕ
  pub fileptr : ℕ
  pub buf_len : ℕ
  pub wild_fld : ℕ

-- The console calls: the error of `os_writec`, the character of `os_readc`, an unsigned `char`, and
-- the state that `os_readescapestate` gives.
pub record Console (D : Type 0) : Type 0 where
  pub writec : D → ℕ → ℕ × D
  pub readc : D → ℕ × D
  pub readescapestate : D → ℕ × D

-- How `_kernel_system` ends: it returns, or it leaves the program.
pub data Ending : Type 0 where
  returned : ℕ → Ending
  exited : ℕ → Ending

-- `regs.r[n] = v`, on the block that a call starts with
abbrev pub with_reg : ℕ → ℕ → Regs → Regs
with_reg n v r = set_reg r n v

-- `!ok`
abbrev pub negated : ℕ → ℕ
negated ok = if ok == 0 then 1 else 0

-- The registers of OS_GBPB
unfoldable pub gbpb_regs : Regs → ℕ → ℕ → GbpbBlock → Regs
gbpb_regs regs op handle b = with_reg 6 (b.wild_fld % 2 ^ 32) (
    with_reg 5 b.buf_len (
      with_reg 4 b.fileptr (
        with_reg 3 b.nbytes
          (with_reg 2 (b.dataptr % 2 ^ 32) (with_reg 1 handle (with_reg 0 op regs))))))

module _ {D : Type 0} where
  -- The error test of the veneers: the error is kept and _kernel_ERROR is returned, or the result
  -- is taken from the registers.
  unfoldable pub veneer_done : State D → (Regs → ℕ) → ℕ × Regs × D → ℕ × State D
  veneer_done s result (err, r, d) =
      let s' = record s { dev = d } in
      if err == 0 then (result r, s') else (kernel_error, copyerror s' err)

  -- Behind the call: the block is updated whether there is an error or not.
  unfoldable pub gbpb_done : State D → ℕ × Regs × D → ℕ × GbpbBlock × State D
  gbpb_done s (err, r, d) =
      let b : GbpbBlock = record {
        dataptr = sign_extended (r 2);
        nbytes = r 3;
        fileptr = r 4;
        buf_len = r 5;
        wild_fld = sign_extended (r 6);
      } in
      let s' = record s { dev = d } in
      if err == 0 then (0, b, s') else (kernel_error, b, copyerror s' err)

  unfoldable pub oscli_done : State D → ℕ × Regs × D → ℕ × State D
  oscli_done s (err, r, d) =
      let s' = record s { dev = d } in if err == 0 then (1, s') else (0, copyerror s' err)

  unfoldable pub hostos_done : State D → ℕ × Regs × D → ℕ × State D
  hostos_done s (err, r, d) = (if err == 0 then r 0 else 2 ^ 32 - 1, record s { dev = d })

module _ {D : Type 0} (os : Kernel D) (swis : Numbers) where
  -- The block of a veneer is not initialised: `regs` is what the stack holds.
  unfoldable pub osargs : Regs → State D → ℕ → ℕ → ℕ → ℕ × State D
  unfolding veneer_done
  osargs regs s op handle arg =
      veneer_done s (λ r. if (op == 0) && (handle == 0) then r 0 else r 2)
        (os.kernel_swi s.dev swis.os_args (with_reg 2 arg (with_reg 1 handle (with_reg 0 op regs))))

  unfoldable pub osbyte : Regs → State D → ℕ → ℕ → ℕ → ℕ × State D
  unfolding veneer_done
  osbyte regs s op x y =
      veneer_done s (λ r. bit_or (r 0) (r 1 * 2 ^ 8 % 2 ^ 32))
        (os.kernel_swi s.dev swis.os_byte (with_reg 2 y (with_reg 1 x (with_reg 0 op regs))))

  unfoldable pub osfind : Regs → State D → ℕ → ℕ → ℕ × State D
  unfolding veneer_done
  osfind regs s op name =
      veneer_done s (λ r. r 0)
        (os.kernel_swi s.dev swis.os_find (with_reg 1 (name % 2 ^ 32) (with_reg 0 op regs)))

  unfoldable pub osword : Regs → State D → ℕ → ℕ → ℕ × State D
  unfolding veneer_done
  osword regs s op block =
      veneer_done s (λ r. r 1)
        (os.kernel_swi s.dev swis.os_word (with_reg 1 (block % 2 ^ 32) (with_reg 0 op regs)))

  unfoldable pub osgbpb : Regs → State D → ℕ → ℕ → GbpbBlock → ℕ × GbpbBlock × State D
  unfolding gbpb_regs gbpb_done
  osgbpb regs s op handle b =
      gbpb_done s (os.kernel_swi s.dev swis.os_gbpb (gbpb_regs regs op handle b))

  -- `_kernel_oscli`
  unfoldable pub oscli : State D → ℕ → ℕ × State D
  unfolding oscli_done
  oscli s cmd =
      oscli_done s
        (os.kernel_swi s.dev swis.os_cli (with_reg 0 (cmd % 2 ^ 32) (zero_regs (λ n. 0))))

  -- `_kernel_system`
  unfoldable pub system : State D → ℕ → ℕ → Ending × State D
  unfolding oscli
  system s cmd chain =
      let (ok, s') = oscli s cmd in
      (if chain == 0 then returned (negated ok) else exited (negated ok), s')

  -- `_kernel_hostos`: its block is the one for the result, and no block of inputs is passed, for which
  -- `_kernel_swi` takes zeroes.
  unfoldable pub hostos : State D → ℕ × State D
  unfolding hostos_done
  hostos s = hostos_done s (os.kernel_swi s.dev swis.os_byte (zero_regs (λ n. 0)))

module _ {D : Type 0} (con : Console D) where
  unfoldable pub oswrch_done : State D → ℕ × D → ℕ × State D
  oswrch_done s (err, d) =
      let s' = record s { dev = d } in
      if err == 0 then (0, s') else (kernel_error, copyerror s' err)

  -- The argument of `os_writec` is a `char`.
  unfoldable pub oswrch : State D → ℕ → ℕ × State D
  unfolding oswrch_done
  oswrch s c = oswrch_done s (con.writec s.dev (c % 2 ^ 8))

  unfoldable pub osrdch : State D → ℕ × State D
  osrdch s = let (c, d) = con.readc s.dev in (c % 2 ^ 8, record s { dev = d })

  -- `_kernel_escape_seen`
  unfoldable pub escape_seen : State D → ℕ × State D
  escape_seen s = let (state, d) = con.readescapestate s.dev in (state, record s { dev = d })

-- `_kernel_fpavailable`
unfoldable pub fpavailable : ℕ
fpavailable = 1
