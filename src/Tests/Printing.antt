-- ===== src/Tests/Printing.antt =====
-- The outputter of `snprintf` at a buffer of five bytes, the console, and memory streams.
use Prim.Native.Nat.{min}
use riscos64_simple_binaries.Base.{
  inl, ◌≢◌, ◌-◌, pos, ℕ, refl, true, none, some, List, [], arith, ltb, codes, length, ◌+◌, ◌≤◌, ◌≡◌,
  ◌∷◌, ◌++◌, if◌then◌else◌,
}
use riscos64_simple_binaries.Memory.{Memory}
use riscos64_simple_binaries.Io.Vprintf.{Arg, Scan, int_arg, string_arg, number_arg, scan}
use riscos64_simple_binaries.Io.Vprintf.Convert.Collected.{padded}
use riscos64_simple_binaries.Io.Vprintf.Convert.Decimals.{
  IsDecimalLetter, PrintsDecimal, convert-decimal,
}
use riscos64_simple_binaries.Io.Vprintf.Convert.Fuel.{vprintf-loop}
use riscos64_simple_binaries.Io.Vprintf.Convert.{vprintf, collector, convert, vprintf_loop}
use riscos64_simple_binaries.Cvt.Decimal.{cvt_uint64_decimal}
use riscos64_simple_binaries.Io.Printf.{printed, vsnprintf}
use riscos64_simple_binaries.Io.Printf.Laws.{Written, vsnprintf_lem}
use riscos64_simple_binaries.Io.Sprintf.{Outputter, str_writen, snprintf_start}
use riscos64_simple_binaries.Io.Sprintf.Laws.{Holds, str_writen-Holds, snprintf_start-Holds}
use riscos64_simple_binaries.Io.Memstream.{Stream, Realloc, mem_write_multiple}
use riscos64_simple_binaries.Io.Memstream.Write.{IsValid, Wrote, mem_write_multiple_lem}
use riscos64_simple_binaries.Io.Console.{behind_newline, Vdu}
use riscos64_simple_binaries.Io.Printf.Screen.{Write0, stdout_vprintf}

abbrev blank : Memory
blank a = 255

abbrev buffer : Outputter
buffer = snprintf_start blank 100 5

str_writen-Holds_example :
    ((str_writen buffer (codes "hello")).0 ≡ 5)
    × Holds blank 4 (codes "hello") (str_writen buffer (codes "hello")).1
str_writen-Holds_example =
    str_writen-Holds blank 4 [] (codes "hello") buffer (omega arith) (omega arith)
      (snprintf_start-Holds blank 100 4 (omega arith)) (omega arith) (omega arith)

abbrev full : Outputter
full = (str_writen buffer (codes "hello")).1

full_start : full.start ≡ 100
unfolding str_writen snprintf_start
full_start = refl

abbrev stream : Stream
stream = record {
  base = 1000;
  mem = λ i. if ltb i 5 then b'a' + i else 0;
  ptr = 3;
  endptr = 5;
  bufsize = 8;
  user_buf = 0;
  user_size = 0;
}

stream-IsValid : IsValid stream
stream-IsValid = omega arith

abbrev no_memory : Realloc
no_memory p n = none

abbrev roomy : Realloc
roomy p n = some (2000, λ i. 99)

mem_write_multiple_lem_example :
    let (r, s) = mem_write_multiple no_memory stream (codes "wxyz!") in
    (n : ℕ) × (r ≡ pos n)
    × IsValid s
    × Wrote stream (codes "wxyz!") n s
    × (n ≤ 5)
    × (min 5 (stream.bufsize - stream.ptr - 1) ≤ n)
    × (no_memory stream.base (stream.endptr + (5 + 256)) ≢ none → n ≡ 5)
mem_write_multiple_lem_example =
    mem_write_multiple_lem no_memory stream (codes "wxyz!") stream-IsValid (omega arith)

-- A screen that is the list of the characters shown.
abbrev screen : Vdu (List ℕ)
screen = record {
  writen = λ d bs. (true, d ++ bs);
  newline = λ d. (true, d ++ 10 ∷ []);
  writec = λ d c. (true, d ++ c ∷ []);
}

-- "%5d|%-4x|%s\n" with 42, 255 and "ok"
abbrev format : List ℕ
format = codes "%5d|%-4x|%s" ++ 10 ∷ []

abbrev args : List Arg
args = int_arg 42 ∷ int_arg 255 ∷ string_arg (some (codes "ok")) ∷ []

printed_run : printed format args ≡ codes "   42|ff  |ok" ++ 10 ∷ []
unfolding printed vprintf scan behind_newline cvt_uint64_decimal
printed_run = refl

vsnprintf_lem_example :
    let (n, outs) = vsnprintf blank 1000 40 format args in
    (n ≡ length (printed format args)) × Written blank 1000 39 (printed format args) outs
vsnprintf_lem_example =
    vsnprintf_lem blank 1000 40 format args (rw printed_run (omega arith)) (omega arith)

-- "%-6.2s" of "hello", and "%06d" of -42 as 32 bits.
abbrev string_conversion : Scan
string_conversion = scan (codes "-6.2s") (string_arg (some (codes "hello")) ∷ [])

abbrev number_conversion : Scan
number_conversion = scan (codes "06d") (int_arg 0xffffffd6 ∷ [])

number_letter : IsDecimalLetter true number_conversion.c
unfolding scan
number_letter = inl refl

convert-decimal_example :
    let p = number_conversion.params in
    (text : List ℕ) × PrintsDecimal true p (number_arg number_conversion.args).0 text
    × (let out = padded p.align_left p.field_width text in
        (convert collector number_conversion).0 (codes "<") ≡ (length out, codes "<" ++ out))
convert-decimal_example = convert-decimal true number_conversion (codes "<") number_letter

conversions_run :
    printed (codes "<%-6.2s|%06d") (string_arg (some (codes "hello")) ∷ int_arg 0xffffffd6 ∷ [])
    ≡ codes "<he    |-00042"
unfolding printed vprintf scan behind_newline cvt_uint64_decimal
conversions_run = refl

vprintf-loop_example : vprintf_loop collector 100 format args ≡ vprintf collector format args
vprintf-loop_example = vprintf-loop collector 100 format args (omega arith)

-- OS_Write0 on that screen, with the distance that its result has from the start of the text
abbrev write0 : Write0 (List ℕ)
write0 d s = (some (length s + 1), d ++ s)

-- The sign is counted twice, and one zero is missing.
negative_zero_fill :
    stdout_vprintf screen write0 (codes "%05d") (int_arg 0xfffffffd ∷ []) [] ≡ (5, codes "-003")
unfolding stdout_vprintf vprintf scan cvt_uint64_decimal
negative_zero_fill = refl
