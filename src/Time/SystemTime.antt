-- ===== src/Time/SystemTime.antt =====
-- include/gpcl/time.hpp: the class `system_time`, a duration since the epoch.
-- The reading of the clock is an argument of `now` and `elapsed`.
pub mod Shift
use gpcl.Base.{Bool, Option}
use gpcl.Base.Results.{Result, ok, ◌>>=◌}
use gpcl.Time.Clock.{ClockError, converted, read}
use gpcl.Time.{
  Error, Duration, Timespec, zero_duration, from_timespec, equal, differs, less, greater, at_most,
  at_least, checked_sub, saturating_sub,
}
use gpcl.Time

pub record SystemTime : Type 0 where
  pub since_epoch : Duration

abbrev pub unix_epoch : SystemTime
unix_epoch = record { since_epoch = zero_duration }

unfoldable pub now : Option Timespec → Result ClockError SystemTime
unfolding from_timespec
now clock = read clock >>= λ d. ok (record { since_epoch = d })

-- `checked_sub` of another time
unfoldable pub checked_sub_time : SystemTime → SystemTime → Result Error Duration
unfolding checked_sub
checked_sub_time t earlier = checked_sub t.since_epoch earlier.since_epoch

unfoldable pub saturating_duration_since : SystemTime → SystemTime → Result Error Duration
unfolding saturating_sub
saturating_duration_since t earlier = saturating_sub t.since_epoch earlier.since_epoch

unfoldable pub checked_add : SystemTime → Duration → Result Error SystemTime
unfolding Time.checked_add
checked_add t d = Time.checked_add t.since_epoch d >>= λ e. ok (record { since_epoch = e })

-- `checked_sub` of a duration
unfoldable pub checked_sub_duration : SystemTime → Duration → Result Error SystemTime
unfolding checked_sub
checked_sub_duration t d = checked_sub t.since_epoch d >>= λ e. ok (record { since_epoch = e })

unfoldable pub elapsed : Option Timespec → SystemTime → Result ClockError Duration
unfolding now saturating_duration_since
elapsed clock t = now clock >>= λ present. converted (saturating_duration_since present t)

abbrev pub duration_since_epoch : SystemTime → Duration
duration_since_epoch t = t.since_epoch

-- The six comparisons, `==`, `!=`, `<`, `>`, `<=` and `>=`, are those of the durations.
abbrev pub is_equal : SystemTime → SystemTime → Bool
is_equal t u = equal t.since_epoch u.since_epoch

abbrev pub is_other : SystemTime → SystemTime → Bool
is_other t u = differs t.since_epoch u.since_epoch

abbrev pub is_before : SystemTime → SystemTime → Bool
is_before t u = less t.since_epoch u.since_epoch

abbrev pub is_after : SystemTime → SystemTime → Bool
is_after t u = greater t.since_epoch u.since_epoch

abbrev pub is_before_or_equal : SystemTime → SystemTime → Bool
is_before_or_equal t u = at_most t.since_epoch u.since_epoch

abbrev pub is_after_or_equal : SystemTime → SystemTime → Bool
is_after_or_equal t u = at_least t.since_epoch u.since_epoch
