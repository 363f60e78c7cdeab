-- ===== src/Runtime/Time.antt =====
-- clib/time/time-time.c.
use riscos64_simple_binaries.Base.{
  ℕ, zero, suc, refl, Bool, not, Option, none, some, arith, ◌+◌, ◌-◌, ◌*◌, ◌/◌, ◌%◌, ◌^◌, ◌<◌, ◌≡◌,
  ◌&&◌, ◌||◌, ◌==◌, if◌then◌else◌,
}

-- TIME_BASE_1970, in seconds
abbrev pub time_base_1970 : ℕ
time_base_1970 = (70 * 365 + 70 / 4) * 24 * 60 * 60

-- `time`: what OS_Word 14,3 gives is the number of centiseconds since the start of 1900, `none` for an error. The
-- result is the time, of 64 bits, and what is stored through `tloc` unless that is NULL.
unfoldable pub time : Option ℕ → Bool → ℕ × Option ℕ
time clock_quin tloc =
    let quin : ℕ = elim clock_quin [ none ↦ 0 | some n ↦ n ] in
    let value = (quin / 100 + 2 ^ 64 - time_base_1970) % 2 ^ 64 in
    (value, if tloc then some value else none)

-- The days of a year of the Gregorian calendar
abbrev pub days_in : ℕ → ℕ
days_in year = if (year % 4 == 0) && (not (year % 100 == 0) || (year % 400 == 0)) then 366 else 365

abbrev pub days_of_years : ℕ → ℕ → ℕ
days_of_years zero year = 0
days_of_years (suc n) year = days_in year + days_of_years n (year + 1)

-- A clock that shows `t` seconds and a part of a second after the 70 years from 1900 on, as the calendar counts
-- their days, gives the time `t`, and stores the same where it is asked to. Where the clock cannot be read, the result
-- is that of a time 70 years earlier, as a negative number.
pub time-days_of_years :
    (t part : ℕ) (tloc : Bool)
    → part < 100
    → t < 2 ^ 63
    → let seconds = days_of_years 70 1900 * 86400 + t in
      (time (some (seconds * 100 + part)) tloc ≡ (t, if tloc then some t else none))
      × ((time none tloc).0 + days_of_years 70 1900 * 86400 ≡ 2 ^ 64)
unfolding time
time-days_of_years t part tloc l b =
    let base : days_of_years 70 1900 * 86400 ≡ time_base_1970 = refl in
    let value : (((time_base_1970 + t) * 100 + part) / 100 + 2 ^ 64 - time_base_1970) % 2 ^ 64 ≡ t =
      omega arith in
    (rw value refl, refl)
