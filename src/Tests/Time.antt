-- ===== src/Tests/Time.antt =====
-- include/gpcl/time.hpp at concrete durations.
use gpcl.Base.{
  ◌+◌, ◌-◌, ◌^◌, ◌≡◌, refl, inl, ltb, leb, ◌==◌, not, some, none, arith, if◌then◌else◌, min,
}
use gpcl.Base.Int.{pos, negsuc}
use gpcl.Base.Results.{ok, err, ◌>>=◌}
use gpcl.Time.{
  overflow_error, assertion_failure, Duration, duration, max_duration, from_secs, from_millis,
  from_micros, from_nanos, is_zero, as_secs, as_millis, as_micros, as_nanos, subsec_millis,
  subsec_micros, subsec_nanos, equal, differs, less, at_most, greater, at_least, checked_add,
  saturating_add, difference, checked_sub, saturating_sub, from_timespec, from_timespec_ptr,
  to_timespec, to_signed, to_unsigned,
}
use gpcl.Time.Clock.{last_error}
use gpcl.Time.Instant.{elapsed, now, saturating_duration_since}
use gpcl.Time.SystemTime.{SystemTime, unix_epoch, checked_sub_duration, checked_sub_time}
use gpcl.Time.SystemTime
use gpcl.Time.Order.{Valid, total, comparisons-total}
use gpcl.Time.Arithmetic.{
  FitsOrThrows, Lasts, wrapped, checked_add_lem, saturating_add_lem, checked_sub_lem,
  checked_add-wraps,
}
use gpcl.Time.Conversion.{as_micros-from_micros, from_timespec-to_timespec}
use gpcl.Time.SystemTime.Shift.{checked_sub-checked_add}

abbrev short : Duration
short = record { secs = 2; nanos = 700_000_000 }

abbrev long : Duration
long = record { secs = 10; nanos = 600_000_000 }

short-Valid : Valid short
short-Valid = record { secs_bound = omega arith; nanos_bound = omega arith }

long-Valid : Valid long
long-Valid = record { secs_bound = omega arith; nanos_bound = omega arith }

max_duration-Valid : Valid max_duration
max_duration-Valid = record { secs_bound = omega arith; nanos_bound = omega arith }

program : Unit {0}
unfolding duration from_secs from_millis from_micros from_nanos is_zero as_secs as_millis as_micros
    as_nanos subsec_millis subsec_micros subsec_nanos equal differs less at_most greater at_least
    checked_add saturating_add difference checked_sub saturating_sub from_timespec from_timespec_ptr
    to_timespec to_signed to_unsigned elapsed now saturating_duration_since
program = tt

sum_carries : checked_add short long ≡ ok (record { secs = 13; nanos = 300_000_000 })
unfolding program
sum_carries = refl

difference_borrows : checked_sub long short ≡ ok (record { secs = 7; nanos = 900_000_000 })
unfolding program
difference_borrows = refl

too_small : checked_sub short long ≡ err overflow_error
unfolding program
too_small = refl

saturates : saturating_add max_duration (record { secs = 1; nanos = 0 }) ≡ ok max_duration
unfolding program
saturates = refl

bad_nanoseconds : duration 1 1_000_000_000 ≡ err assertion_failure
unfolding program
bad_nanoseconds = refl

before_the_epoch :
    from_timespec (record { tv_sec = negsuc 0; tv_nsec = pos 5 })
    ≡ ok (record { secs = 2 ^ 64 - 1; nanos = 5 })
unfolding program
before_the_epoch = refl

clock_fails : elapsed none (record { since_startup = short }) ≡ err last_error
unfolding program
clock_fails = refl

comparisons-total_example :
    (equal short long ≡ (total short == total long))
    × (differs short long ≡ not (total short == total long))
    × (less short long ≡ ltb (total short) (total long))
    × (at_most short long ≡ leb (total short) (total long))
    × (greater short long ≡ ltb (total long) (total short))
    × (at_least short long ≡ leb (total long) (total short))
comparisons-total_example = comparisons-total short long short-Valid long-Valid

checked_add_lem_example : FitsOrThrows (total short + total long) (checked_add short long)
checked_add_lem_example = checked_add_lem short long short-Valid long-Valid (inl (omega arith))

saturating_add_lem_example :
    Lasts
      (min (total short + total max_duration) (total max_duration))
      (saturating_add short max_duration)
saturating_add_lem_example =
    saturating_add_lem short max_duration short-Valid max_duration-Valid (inl (omega arith))

checked_sub_lem_example :
    if ltb (total long) (total short)
    then checked_sub long short ≡ err overflow_error
    else Lasts (total long - total short) (checked_sub long short)
checked_sub_lem_example = checked_sub_lem long short long-Valid short-Valid

checked_add-wraps_example :
    (checked_add max_duration max_duration ≡ ok (wrapped max_duration max_duration))
    × (saturating_add max_duration max_duration ≡ ok (wrapped max_duration max_duration))
checked_add-wraps_example =
    checked_add-wraps max_duration max_duration max_duration-Valid max_duration-Valid refl refl
      (omega arith)

as_micros-from_micros_example : (from_micros 1_500_000 >>= as_micros) ≡ ok 1_050_000
as_micros-from_micros_example = as_micros-from_micros 1_500_000 (omega arith)

from_timespec-to_timespec_example :
    (from_timespec (to_timespec long) ≡ ok long)
    × (from_timespec_ptr (some (to_timespec long)) ≡ ok long)
from_timespec-to_timespec_example = from_timespec-to_timespec long long-Valid (omega arith)

abbrev start : SystemTime
start = record { since_epoch = long }

checked_sub-checked_add_example :
    (u : SystemTime) × (SystemTime.checked_add start short ≡ ok u)
    × (checked_sub_duration u short ≡ ok start)
    × (checked_sub_time u start ≡ ok short)
checked_sub-checked_add_example =
    checked_sub-checked_add start short long-Valid short-Valid (omega arith)
