-- ===== src/Io/Sprintf.antt =====
-- The outputter of `sprintf` and `snprintf`, clib/io/io-sprintf.c: characters go to a buffer at
-- `start`, of which `size` bytes may be used before the terminator. `size` and `left` are `int`s.
pub mod Laws
pub mod Overrun
use riscos64_simple_binaries.Base.{
  lt_int, as_int, ℕ, Bool, true, List, [], ltb, length, take, ℤ, pos, negsuc, ◌+◌, ◌-◌, ◌%◌, ◌^◌,
  ◌∷◌, ◌==◌, if◌then◌else◌,
}
use riscos64_simple_binaries.Memory.{Memory, store}

-- `outputterstr_t`, with the memory that the buffer lies in.
pub record Outputter : Type 0 where
  pub mem : Memory
  pub start : ℕ
  pub p : ℕ
  pub size : ℤ
  pub left : ℤ

-- `memcpy(p, str, …)` from a string that does not overlap the buffer
abbrev pub store_all : Memory → ℕ → List ℕ → Memory
store_all m p [] = m
store_all m p (c ∷ cs) = store_all (store m p c) (p + 1) cs

-- The string does not fit: what is left, if anything, is filled.
abbrev pub writen_over : Outputter → List ℕ → ℤ → Outputter
writen_over outs str (negsuc n) = record outs { p = outs.p + length str }
writen_over outs str (pos left) =
    if left == 0 then record outs { p = outs.p + length str } else record outs {
      mem = store (store_all outs.mem outs.p (take left str)) (outs.p + left) 0;
      p = outs.p + length str;
      left = pos 0;
    }

-- `left -= len`, in `size_t`, as an `int`
abbrev pub less : ℤ → ℕ → ℤ
less (pos left) len = as_int (left + 2 ^ 64 - len)
less (negsuc n) len = as_int (2 ^ 64 - 1 - n + 2 ^ 64 - len)

-- The write of `str_writen` for each value of `outs->left`, which is compared with `(int)len`.
unfoldable pub writen_left : Outputter → List ℕ → ℤ → Outputter
writen_left outs str left =
    if lt_int left (as_int (length str)) then writen_over outs str left else record outs {
      mem = store (store_all outs.mem outs.p str) (outs.p + length str) 0;
      p = outs.p + length str;
      left = less left (length str);
    }

-- The pair is the result and the outputter afterwards.
unfoldable pub str_writen : Outputter → List ℕ → ℕ × Outputter
unfolding writen_left
str_writen outs str = (length str, writen_left outs str outs.left)

unfoldable pub str_write0 : Outputter → List ℕ → ℕ × Outputter
str_write0 outs str = str_writen outs str

-- `outs->p + 1 + 1 - outs->start > outs->size`
unfoldable pub no_room : Outputter → ℤ → Bool
no_room outs (negsuc n) = true
no_room outs (pos size) = ltb (outs.start + size) (outs.p + 2)

unfoldable pub str_writec : Outputter → ℕ → ℕ × Outputter
unfolding no_room
str_writec outs c =
    if no_room outs outs.size
    then (1, record outs { p = outs.p + 1 })
    else (1, record outs { mem = store (store outs.mem outs.p c) (outs.p + 1) 0; p = outs.p + 1 })

unfoldable pub str_newline : Outputter → ℕ × Outputter
str_newline outs = str_writec outs 10

-- The outputter that `vsnprintf` sets up: `max - 1` in `size_t`, as an `int`
unfoldable pub snprintf_start : Memory → ℕ → ℕ → Outputter
snprintf_start m str max = record {
  mem = m;
  start = str;
  p = str;
  size = as_int ((max + 2 ^ 64 - 1) % 2 ^ 64);
  left = as_int ((max + 2 ^ 64 - 1) % 2 ^ 64);
}

-- The outputter that `vsprintf` sets up; `str` is 0 for NULL.
unfoldable pub sprintf_start : Memory → ℕ → Outputter
sprintf_start m str =
    let size = if str == 0 then pos 0 else pos 0x7fffffff in
    record { mem = m; start = str; p = str; size = size; left = size }
