-- ===== src/Tests/Cvt.antt =====
-- Printing numbers.
use riscos64_simple_binaries.Base.{refl, arith, codes, ◌-◌, ◌^◌, ◌≡◌}
use riscos64_simple_binaries.Cvt.Hex.{cvt_uint64_hex, pad_spaces}
use riscos64_simple_binaries.Cvt.Hex.Laws.{Spells, cvt_uint64_hex_lem}
use riscos64_simple_binaries.Cvt.Decimal.{cvt_uint64_decimal}
use riscos64_simple_binaries.Cvt.Decimal.Laws.{IsDecimal, cvt_uint64_decimal-IsDecimal}

cvt_uint64_decimal-IsDecimal_example : IsDecimal 40960 (cvt_uint64_decimal 40960)
cvt_uint64_decimal-IsDecimal_example = cvt_uint64_decimal-IsDecimal 40960 (omega arith)

decimal_run : cvt_uint64_decimal (2 ^ 64 - 1) ≡ codes "18446744073709551615"
unfolding cvt_uint64_decimal
decimal_run = refl

cvt_uint64_hex_lem_example : Spells 0x1a0f 8 pad_spaces (cvt_uint64_hex 0x1a0f 8 pad_spaces)
cvt_uint64_hex_lem_example =
    cvt_uint64_hex_lem 0x1a0f 8 pad_spaces (omega arith) (omega arith) (omega arith)

cvt_uint64_hex_run : cvt_uint64_hex 0x1a0f 8 pad_spaces ≡ codes "    1A0F"
unfolding cvt_uint64_hex
cvt_uint64_hex_run = refl
