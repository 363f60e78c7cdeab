-- ===== src/Cvt.antt =====
-- clib/conversion: the number printers that `printf` and the backtrace use.
pub mod Decimal
pub mod Hex
