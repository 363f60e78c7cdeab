-- ===== src/Runtime/Clock.antt =====
-- clib/time/time-clock.c. Times are centiseconds of the system clock, which each call reads once as
-- `now`; they are below 2^63, and differences are taken modulo 2^64.
use riscos64_simple_binaries.Base.{
  ℕ, Bool, true, false, not, arith, ◌+◌, ◌-◌, ◌%◌, ◌^◌, ◌≤◌, ◌<◌, ◌≡◌, ◌&&◌, ◌==◌, if◌then◌else◌,
}

-- `base_time` and `frozen_time`, the latter 0 while the clock runs.
pub record Clock : Type 0 where
  pub base_time : ℕ
  pub frozen_time : ℕ

abbrev pub minus : ℕ → ℕ → ℕ
minus a b = (a + 2 ^ 64 - b) % 2 ^ 64

unfoldable pub clock_init : ℕ → Clock
clock_init now = record { base_time = now; frozen_time = 0 }

unfoldable pub clock_freeze : Clock → Bool → ℕ → Clock
clock_freeze c freeze now =
    if freeze && (c.frozen_time == 0)
    then record c { frozen_time = now }
    else if not freeze && not (c.frozen_time == 0)
    then record { base_time = (c.base_time + minus now c.frozen_time) % 2 ^ 64; frozen_time = 0 }
    else c

unfoldable pub clock : Clock → ℕ → ℕ
clock c now = if c.frozen_time == 0 then minus now c.base_time else minus c.frozen_time c.base_time

-- The time that the clock is frozen does not count. Frozen at a time `t₁` that is not 0, it stands still until it is
-- thawed, also if it is frozen again meanwhile; thawed at `t₂` it goes on from there.
pub clock-freeze :
    (t₀ t₁ t t₂ t₃ : ℕ)
    → t₀ ≤ t₁
    → 0 < t₁
    → t₁ ≤ t
    → t₁ ≤ t₂
    → t₂ ≤ t₃
    → t₃ < 2 ^ 63
    → t < 2 ^ 63
    → let frozen = clock_freeze (clock_init t₀) true t₁ in
      let thawed = clock_freeze (clock_freeze frozen true t) false t₂ in
      (clock frozen t ≡ t₁ - t₀)
      × (clock_freeze frozen true t ≡ frozen)
      × (clock thawed t₃ ≡ (t₁ - t₀) + (t₃ - t₂))
unfolding clock clock_freeze clock_init
clock-freeze t₀ t₁ t t₂ t₃ a b c d e f g = (ground arith, ground arith, ground arith)
