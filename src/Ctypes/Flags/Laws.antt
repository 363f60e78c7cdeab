-- ===== src/Ctypes/Flags/Laws.antt =====
-- The classes of the ASCII characters, for the bits that <ctype.h> of the GNU C library has on a
-- little-endian machine.

use riscos64_simple_binaries.Base.{
  ℕ, refl, Bool, true, false, not, none, some, List, [], ltb, leb, all_below, all_below_sound, ◌<◌,
  ◌≡◌, ◌&&◌, ◌||◌, ◌∷◌, ◌==◌, if◌then◌else◌,
}
use riscos64_simple_binaries.Ctypes.{entry}
use riscos64_simple_binaries.Ctypes.Flags.{is_impl, flags_table}

abbrev between : ℕ → ℕ → ℕ → Bool
between lo hi c = leb lo c && leb c hi

abbrev upper : ℕ → Bool
upper c = between b'A' b'Z' c

abbrev lower : ℕ → Bool
lower c = between b'a' b'z' c

abbrev digit : ℕ → Bool
digit c = between b'0' b'9' c

-- The bit of each class, and the class
abbrev pub classes : List (ℕ × (ℕ → Bool))
classes =
    (0x100, upper)
    ∷ (0x200, lower)
    ∷ (0x400, λ c. upper c || lower c)
    ∷ (0x800, digit)
    ∷ (0x1000, λ c. digit c || (between b'A' b'F' c || between b'a' b'f' c))
    ∷ (0x2000, λ c. between 9 13 c || (c == 32))
    ∷ (0x4000, between 32 126)
    ∷ (0x8000, between 33 126)
    ∷ (0x1, λ c. (c == 9) || (c == 32))
    ∷ (0x2, λ c. ltb c 32 || (c == 127))
    ∷ (0x4, λ c. between 33 126 c && not (upper c || (lower c || digit c)))
    ∷ (0x8, λ c. upper c || (lower c || digit c))
    ∷ []

-- Whether the function for the bit `mask` says of `c` what `class` does
abbrev pub agrees : ℕ → (ℕ → Bool) → ℕ → Bool
agrees mask class c = elim (is_impl mask c) [
  | none ↦ false
  | some r ↦ if class c then not (r == 0) else r == 0
]

abbrev pub all_agree : List (ℕ × (ℕ → Bool)) → ℕ → Bool
all_agree [] c = true
all_agree ((mask, class) ∷ more) c = agrees mask class c && all_agree more c

-- Above ASCII no class has any character.
abbrev pub within_ascii : List (ℕ × (ℕ → Bool)) → ℕ → Bool
within_ascii classes' c = if ltb c 128 then all_agree classes' c else agrees 0xffff (λ c'. false) c

checked : all_below 256 (within_ascii classes) ≡ true
unfolding all_below is_impl entry flags_table
checked = refl

-- Every class function says of each ASCII character what its class in the C locale is, and above ASCII
-- no function accepts a character, since no bit of its entry is set.
is_impl-classes : (c : ℕ) → c < 256 → within_ascii classes c ≡ true
is_impl-classes c l = all_below_sound 256 (within_ascii classes) c checked l
