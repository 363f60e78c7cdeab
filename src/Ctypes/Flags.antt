-- ===== src/Ctypes/Flags.antt =====
-- clib/ctypes/flags.c and is.c: the classes of the characters.
pub mod Laws
use Prim.Native.Nat.{bit_and}
use riscos64_simple_binaries.Base.{ℕ, Option, some, List, [], ◌>>=◌, ◌+◌, ◌%◌, ◌∷◌}
use riscos64_simple_binaries.Ctypes.{entry}

-- `__ctype_b`, of which `__ctype_b_loc` gives the part from entry 128 on
unfoldable pub flags_table : List ℕ
flags_table =
    0x0 ∷ 0x0 ∷ 0x0 ∷ 0x0 ∷ 0x0 ∷ 0x0 ∷ 0x0 ∷ 0x0 ∷ 0x0 ∷ 0x0 ∷ 0x0 ∷ 0x0 ∷ 0x0 ∷ 0x0 ∷ 0x0 ∷ 0x0
    ∷ 0x0 ∷ 0x0 ∷ 0x0 ∷ 0x0 ∷ 0x0 ∷ 0x0 ∷ 0x0 ∷ 0x0 ∷ 0x0 ∷ 0x0 ∷ 0x0 ∷ 0x0 ∷ 0x0 ∷ 0x0 ∷ 0x0 ∷ 0x0
    ∷ 0x0 ∷ 0x0 ∷ 0x0 ∷ 0x0 ∷ 0x0 ∷ 0x0 ∷ 0x0 ∷ 0x0 ∷ 0x0 ∷ 0x0 ∷ 0x0 ∷ 0x0 ∷ 0x0 ∷ 0x0 ∷ 0x0 ∷ 0x0
    ∷ 0x0 ∷ 0x0 ∷ 0x0 ∷ 0x0 ∷ 0x0 ∷ 0x0 ∷ 0x0 ∷ 0x0 ∷ 0x0 ∷ 0x0 ∷ 0x0 ∷ 0x0 ∷ 0x0 ∷ 0x0 ∷ 0x0 ∷ 0x0
    ∷ 0x0 ∷ 0x0 ∷ 0x0 ∷ 0x0 ∷ 0x0 ∷ 0x0 ∷ 0x0 ∷ 0x0 ∷ 0x0 ∷ 0x0 ∷ 0x0 ∷ 0x0 ∷ 0x0 ∷ 0x0 ∷ 0x0 ∷ 0x0
    ∷ 0x0 ∷ 0x0 ∷ 0x0 ∷ 0x0 ∷ 0x0 ∷ 0x0 ∷ 0x0 ∷ 0x0 ∷ 0x0 ∷ 0x0 ∷ 0x0 ∷ 0x0 ∷ 0x0 ∷ 0x0 ∷ 0x0 ∷ 0x0
    ∷ 0x0 ∷ 0x0 ∷ 0x0 ∷ 0x0 ∷ 0x0 ∷ 0x0 ∷ 0x0 ∷ 0x0 ∷ 0x0 ∷ 0x0 ∷ 0x0 ∷ 0x0 ∷ 0x0 ∷ 0x0 ∷ 0x0 ∷ 0x0
    ∷ 0x0 ∷ 0x0 ∷ 0x0 ∷ 0x0 ∷ 0x0 ∷ 0x0 ∷ 0x0 ∷ 0x0 ∷ 0x0 ∷ 0x0 ∷ 0x0 ∷ 0x0 ∷ 0x0 ∷ 0x0 ∷ 0x0 ∷ 0x0
    ∷ 0x2 ∷ 0x2 ∷ 0x2 ∷ 0x2 ∷ 0x2 ∷ 0x2 ∷ 0x2 ∷ 0x2 ∷ 0x2 ∷ 0x2003 ∷ 0x2002 ∷ 0x2002 ∷ 0x2002
    ∷ 0x2002 ∷ 0x2 ∷ 0x2 ∷ 0x2 ∷ 0x2 ∷ 0x2 ∷ 0x2 ∷ 0x2 ∷ 0x2 ∷ 0x2 ∷ 0x2 ∷ 0x2 ∷ 0x2 ∷ 0x2 ∷ 0x2
    ∷ 0x2 ∷ 0x2 ∷ 0x2 ∷ 0x2 ∷ 0x6001 ∷ 0xc004 ∷ 0xc004 ∷ 0xc004 ∷ 0xc004 ∷ 0xc004 ∷ 0xc004 ∷ 0xc004
    ∷ 0xc004 ∷ 0xc004 ∷ 0xc004 ∷ 0xc004 ∷ 0xc004 ∷ 0xc004 ∷ 0xc004 ∷ 0xc004 ∷ 0xd808 ∷ 0xd808
    ∷ 0xd808 ∷ 0xd808 ∷ 0xd808 ∷ 0xd808 ∷ 0xd808 ∷ 0xd808 ∷ 0xd808 ∷ 0xd808 ∷ 0xc004 ∷ 0xc004
    ∷ 0xc004 ∷ 0xc004 ∷ 0xc004 ∷ 0xc004 ∷ 0xc004 ∷ 0xd508 ∷ 0xd508 ∷ 0xd508 ∷ 0xd508 ∷ 0xd508
    ∷ 0xd508 ∷ 0xc508 ∷ 0xc508 ∷ 0xc508 ∷ 0xc508 ∷ 0xc508 ∷ 0xc508 ∷ 0xc508 ∷ 0xc508 ∷ 0xc508
    ∷ 0xc508 ∷ 0xc508 ∷ 0xc508 ∷ 0xc508 ∷ 0xc508 ∷ 0xc508 ∷ 0xc508 ∷ 0xc508 ∷ 0xc508 ∷ 0xc508
    ∷ 0xc508 ∷ 0xc004 ∷ 0xc004 ∷ 0xc004 ∷ 0xc004 ∷ 0xc004 ∷ 0xc004 ∷ 0xd608 ∷ 0xd608 ∷ 0xd608
    ∷ 0xd608 ∷ 0xd608 ∷ 0xd608 ∷ 0xc608 ∷ 0xc608 ∷ 0xc608 ∷ 0xc608 ∷ 0xc608 ∷ 0xc608 ∷ 0xc608
    ∷ 0xc608 ∷ 0xc608 ∷ 0xc608 ∷ 0xc608 ∷ 0xc608 ∷ 0xc608 ∷ 0xc608 ∷ 0xc608 ∷ 0xc608 ∷ 0xc608
    ∷ 0xc608 ∷ 0xc608 ∷ 0xc608 ∷ 0xc004 ∷ 0xc004 ∷ 0xc004 ∷ 0xc004 ∷ 0x2 ∷ 0x0 ∷ 0x0 ∷ 0x0 ∷ 0x0
    ∷ 0x0 ∷ 0x0 ∷ 0x0 ∷ 0x0 ∷ 0x0 ∷ 0x0 ∷ 0x0 ∷ 0x0 ∷ 0x0 ∷ 0x0 ∷ 0x0 ∷ 0x0 ∷ 0x0 ∷ 0x0 ∷ 0x0 ∷ 0x0
    ∷ 0x0 ∷ 0x0 ∷ 0x0 ∷ 0x0 ∷ 0x0 ∷ 0x0 ∷ 0x0 ∷ 0x0 ∷ 0x0 ∷ 0x0 ∷ 0x0 ∷ 0x0 ∷ 0x0 ∷ 0x0 ∷ 0x0 ∷ 0x0
    ∷ 0x0 ∷ 0x0 ∷ 0x0 ∷ 0x0 ∷ 0x0 ∷ 0x0 ∷ 0x0 ∷ 0x0 ∷ 0x0 ∷ 0x0 ∷ 0x0 ∷ 0x0 ∷ 0x0 ∷ 0x0 ∷ 0x0 ∷ 0x0
    ∷ 0x0 ∷ 0x0 ∷ 0x0 ∷ 0x0 ∷ 0x0 ∷ 0x0 ∷ 0x0 ∷ 0x0 ∷ 0x0 ∷ 0x0 ∷ 0x0 ∷ 0x0 ∷ 0x0 ∷ 0x0 ∷ 0x0 ∷ 0x0
    ∷ 0x0 ∷ 0x0 ∷ 0x0 ∷ 0x0 ∷ 0x0 ∷ 0x0 ∷ 0x0 ∷ 0x0 ∷ 0x0 ∷ 0x0 ∷ 0x0 ∷ 0x0 ∷ 0x0 ∷ 0x0 ∷ 0x0 ∷ 0x0
    ∷ 0x0 ∷ 0x0 ∷ 0x0 ∷ 0x0 ∷ 0x0 ∷ 0x0 ∷ 0x0 ∷ 0x0 ∷ 0x0 ∷ 0x0 ∷ 0x0 ∷ 0x0 ∷ 0x0 ∷ 0x0 ∷ 0x0 ∷ 0x0
    ∷ 0x0 ∷ 0x0 ∷ 0x0 ∷ 0x0 ∷ 0x0 ∷ 0x0 ∷ 0x0 ∷ 0x0 ∷ 0x0 ∷ 0x0 ∷ 0x0 ∷ 0x0 ∷ 0x0 ∷ 0x0 ∷ 0x0 ∷ 0x0
    ∷ 0x0 ∷ 0x0 ∷ 0x0 ∷ 0x0 ∷ 0x0 ∷ 0x0 ∷ 0x0 ∷ 0x0 ∷ 0x0 ∷ 0x0 ∷ 0x0 ∷ 0x0 ∷ []

-- `is_impl` for the bit `mask` of <ctype.h>: `flags & mask`, for the lower 8 bits of `c`
unfoldable pub is_impl : ℕ → ℕ → Option ℕ
unfolding flags_table entry
is_impl mask c = do flags ← entry flags_table (128 + c % 256); some (bit_and flags mask)
