-- ===== src/Io/Printf/Laws.antt =====
-- A buffer that is large enough gets exactly the text that the format prints.
use riscos64_simple_binaries.Base.{
  ◌∙◌, ap, sym, subst, ℕ, refl, false, List, [], arith, ltb, length, get_or, length-append,
  get_or-append, pos, ◌+◌, ◌-◌, ◌^◌, ◌≤◌, ◌<◌, ◌≡◌, ◌⊎◌, ◌∷◌, ◌++◌,
}
use riscos64_simple_binaries.Memory.{Memory}
use riscos64_simple_binaries.Io.Sprintf.{
  Outputter, writen_left, str_writen, str_write0, str_writec, str_newline, no_room, snprintf_start,
  sprintf_start,
}
use riscos64_simple_binaries.Io.Sprintf.Laws.{writen_whole, store_all_lem}
use riscos64_simple_binaries.Io.Vprintf.{Arg}
use riscos64_simple_binaries.Io.Vprintf.Convert.{vprintf, collector}
use riscos64_simple_binaries.Io.Vprintf.Convert.Related.{Agree, vprintf-Alike}
use riscos64_simple_binaries.Io.Printf.{string_outputter, vsprintf, vsnprintf, printed}

-- The buffer at `start` holds `shown` and, if that is not empty, a terminator; no other byte has changed
-- since `m`. What is left is enough for `size` characters in all.
pub record Written (m : Memory) (start size : ℕ) (shown : List ℕ) (outs : Outputter) : Type 0 where
  pub start_at : outs.start ≡ start
  pub size_at : outs.size ≡ pos size
  pub p_at : outs.p ≡ start + length shown
  pub left : ℕ
  pub left_at : outs.left ≡ pos left
  pub left_room : size ≤ length shown + left
  pub left_below : left < 2 ^ 31
  pub stored : (i : ℕ) → i < length shown → outs.mem (start + i) ≡ get_or shown i 0
  pub terminated : 0 < length shown → outs.mem (start + length shown) ≡ 0
  pub outside : (a : ℕ) → (a < start) ⊎ (start + length shown < a) → outs.mem a ≡ m a

writec_count : (outs : Outputter) (c : ℕ) → (str_writec outs c).0 ≡ 1
unfolding str_writec
writec_count outs c = ground arith

module _ (m : Memory) (start size : ℕ) (b : size < 2 ^ 31) where
  -- As long as the text has room.
  abbrev IsWritten : Outputter → List ℕ → Type 0
  IsWritten outs t = length t < size → Written m start size t outs

  writen_step :
      (outs : Outputter) (t str : List ℕ)
      → IsWritten outs t
      → IsWritten (writen_left outs str outs.left) (t ++ str)
  unfolding writen_left
  writen_step outs t str h l =
      let v = h (omega (arith, length-append t str)) in
      let total = length-append t str in
      let whole = writen_whole outs str v.left v.left_below (omega (arith, total, v.left_room)) in
      subst (Written m start size (t ++ str)) (sym (ap (writen_left outs str) v.left_at ∙ whole))
        (record {
          start_at = v.start_at;
          size_at = v.size_at;
          p_at = omega (arith, total, v.p_at);
          left = v.left - length str;
          left_at = refl;
          left_room = omega (arith, total, v.left_room);
          left_below = omega (arith, v.left_below);
          stored = λ i k. ground (
            arith,
            store_all_lem str outs.mem outs.p (start + i),
            get_or-append t str i,
            v.stored i,
            v.p_at,
            total,
          );
          terminated = λ k. ground (arith, v.p_at, total);
          outside = λ a k.
              ground (arith, store_all_lem str outs.mem outs.p a, v.outside a, v.p_at, total);
        })

  writec_step :
      (outs : Outputter) (t : List ℕ) (c : ℕ)
      → IsWritten outs t
      → IsWritten (str_writec outs c).1 (t ++ c ∷ [])
  unfolding str_writec no_room
  writec_step outs t c h l =
      let total = length-append t (c ∷ []) in
      let v = h (omega (arith, total)) in
      let room : ltb (outs.start + size) (outs.p + 2) ≡ false =
        ground (arith, v.p_at, v.start_at, total) in
      rw (v.size_at, room)
        (record {
          start_at = v.start_at;
          size_at = refl;
          p_at = omega (arith, total, v.p_at);
          left = v.left;
          left_at = v.left_at;
          left_room = omega (arith, total, v.left_room);
          left_below = v.left_below;
          stored = λ i k. ground (arith, get_or-append t (c ∷ []) i, v.stored i, v.p_at, total);
          terminated = λ k. ground (arith, v.p_at, total);
          outside = λ a k. ground (arith, v.outside a, v.p_at, total);
        })

  agree : (limit : ℕ) → Agree IsWritten length limit string_outputter collector
  unfolding str_writen str_write0 str_newline str_writec
  agree limit = record {
    on_write0 = λ o t s. (length-append t s, λ h l. (refl, writen_step o t s h));
    on_writec = λ o t c. (length-append t (c ∷ []), λ h l. (writec_count o c, writec_step o t c h));
    on_writen = λ o t s. (length-append t s, λ h l. (refl, writen_step o t s h));
    on_newline =
        λ o t. (length-append t (10 ∷ []), λ h l. (writec_count o 10, writec_step o t 10 h));
  }

  -- `_vprintf` into an outputter that is ready for `size` characters.
  vprintf-Written :
      (outs : Outputter) (format : List ℕ) (args : List Arg)
      → Written m start size [] outs
      → length (printed format args) < size
      → ((vprintf string_outputter format args outs).0 ≡ length (printed format args))
        × Written m start size (printed format args) (vprintf string_outputter format args outs).1
  unfolding printed
  vprintf-Written outs format args v l =
      let text = (vprintf collector format args []).1 in
      let (k, q) =
        vprintf-Alike IsWritten length (length text) string_outputter collector
          (agree (length text)) format args outs [] in
      let (e, r) = q (λ h. v) (omega arith) in (omega arith, r l)

-- `vsnprintf`, with a buffer of at least two bytes more than the text and at most 2^31, writes exactly
-- the text that the format prints, terminated if it is not empty, returns its length, and changes no other byte. The text is what
-- `_vprintf` gives to an outputter that only collects it.
pub vsnprintf_lem :
    (m : Memory) (str max : ℕ) (format : List ℕ) (args : List Arg)
    → length (printed format args) + 2 ≤ max
    → max ≤ 2 ^ 31
    → let (n, outs) = vsnprintf m str max format args in
      (n ≡ length (printed format args)) × Written m str (max - 1) (printed format args) outs
unfolding vsnprintf snprintf_start
vsnprintf_lem m str max format args l b =
    vprintf-Written m str (max - 1) (omega arith) (snprintf_start m str max) format args ready
      (omega arith)
  where
    ready : Written m str (max - 1) [] (snprintf_start m str max)
    ready = record {
      start_at = refl;
      size_at = ground arith;
      p_at = omega arith;
      left = max - 1;
      left_at = ground arith;
      left_room = omega arith;
      left_below = omega arith;
      stored = λ i k. absurd (omega arith);
      terminated = λ k. absurd (omega arith);
      outside = λ a k. refl;
    }

-- `vsprintf` to a buffer, not NULL, writes exactly the text that the format prints, terminated if
-- it is not empty, returns its length, and changes no other byte, if the text is shorter than 2^31 - 1.
vsprintf_lem :
    (m : Memory) (str : ℕ) (format : List ℕ) (args : List Arg)
    → 0 < str
    → length (printed format args) < 0x7fffffff
    → let (n, outs) = vsprintf m str format args in
      (n ≡ length (printed format args)) × Written m str 0x7fffffff (printed format args) outs
unfolding vsprintf sprintf_start
vsprintf_lem m str format args p l =
    vprintf-Written m str 0x7fffffff (omega arith) (sprintf_start m str) format args ready l
  where
    ready : Written m str 0x7fffffff [] (sprintf_start m str)
    ready = record {
      start_at = refl;
      size_at = ground arith;
      p_at = omega arith;
      left = 0x7fffffff;
      left_at = ground arith;
      left_room = omega arith;
      left_below = omega arith;
      stored = λ i k. absurd (omega arith);
      terminated = λ k. absurd (omega arith);
      outside = λ a k. refl;
    }
