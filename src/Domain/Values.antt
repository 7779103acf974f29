-- ===== src/Domain/Values.antt =====
-- Go's `time.Time`, `time.Duration` and `float64` as far as the program uses them.
use api_observability_platfo.Base.{ℕ, ◌/◌, ◌%◌, ◌^◌, ℤ, pos, ◌-ℤ◌, Bool, not, ◌&&◌, ◌||◌, ◌==◌}

pub data Zone : Type 0 where
  utc local : Zone
  fixed : ℤ → Zone

-- An instant in nanoseconds since January 1, year 1, 00:00 UTC, and the zone that it is shown in.
pub record Time : Type 0 where
  pub instant : ℤ
  pub zone : Zone

-- The zero value of the type.
abbrev pub zero_time : Time
zero_time = record { instant = pos 0; zone = utc }

abbrev pub is_zero_instant : ℤ → Bool
is_zero_instant (pos n) = n == 0
is_zero_instant _ = Bool.false

-- `Time.IsZero`, `Time.UTC` and `Time.Sub`; a duration is in nanoseconds.
abbrev pub is_zero : Time → Bool
is_zero t = is_zero_instant t.instant

abbrev pub to_utc : Time → Time
to_utc t = record t { zone = utc }

abbrev pub Duration : Type 0
Duration = ℤ

-- `now.Sub(start)`, which `time.Since(start)` is at the instant `now`. No saturation is modelled:
-- it begins at 292 years.
abbrev pub since : Time → Time → Duration
since start now = now.instant -ℤ start.instant

abbrev pub millisecond : ℕ
millisecond = 1_000_000

abbrev pub second : ℕ
second = 1_000_000_000

-- A float64 as its IEEE 754 bit pattern, a number below 2 ^ 64.
pub record Float64 : Type 0 where
  pub bits : ℕ

abbrev pub sign_bit : Float64 → ℕ
sign_bit x = x.bits / 2 ^ 63 % 2

abbrev pub is_nan : Float64 → Bool
is_nan x = x.bits / 2 ^ 52 % 2 ^ 11 == 2047 && not (x.bits % 2 ^ 52 == 0)

-- `x <= 0`: false of a NaN, true of both zeros and of what has its sign bit set.
abbrev pub float_le_zero : Float64 → Bool
float_le_zero x = not (is_nan x) && (sign_bit x == 1 || x.bits == 0)

-- The constant 0.8 rounded to a float64.
abbrev pub eight_tenths : Float64
eight_tenths = record { bits = 0x3FE999999999999A }

abbrev pub float_zero : Float64
float_zero = record { bits = 0 }
